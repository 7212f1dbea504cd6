-- ===== src/Node/Auth.antt =====
-- soundgate/src/hmac.rs: the tag that the server wants of a decision, and its check in `handle` of main.rs.
-- The 32 bytes of `hmac_sha256` are the parameter `hmac` (secret, message).
use soundgate_paper.Prelude.{
  ℕ, ◌/◌, ◌%◌, String, ◌<>◌, Bool, true, false, Option, none, some, List, [], ◌∷◌, ◌==◌, ltb,
  string_eq, if◌then◌else◌, hex_digit,
}

-- The bytes of an HMAC.
abbrev pub Digest : Type 0
Digest = String → String → List ℕ

-- `format!("{:02x}", b)` for a byte: its hexadecimal digits, with a zero before a single one.
unfoldable pub format_02x : ℕ → String
format_02x b = if ltb b 16 then "0" <> hex_digit b else hex_digit (b / 16) <> hex_digit (b % 16)

unfoldable pub push_bytes : List ℕ → String
unfolding format_02x
push_bytes [] = ""
push_bytes (b ∷ bs) = format_02x b <> push_bytes bs

unfoldable pub decision_tag : Digest → String → String → String → Bool → String
decision_tag hmac secret run_id effect_key approved =
    push_bytes
      (hmac secret (run_id <> ("\n" <> (effect_key <> ("\n" <> (if approved then "1" else "0"))))))

-- Whether the two texts have the same bytes; that its time does not depend on them is left out.
unfoldable pub verify : String → String → Bool
verify expected_hex got_hex = expected_hex == got_hex

-- What the server accepts as a decision's tag.
unfoldable pub check_mac : Digest → Option String → String → String → Bool → Option String → Bool
unfolding verify
check_mac hmac none run_id effect_key approved mac = true
check_mac hmac (some secret) run_id effect_key approved none = false
check_mac hmac (some secret) run_id effect_key approved (some mac) =
    verify (decision_tag hmac secret run_id effect_key approved) mac
