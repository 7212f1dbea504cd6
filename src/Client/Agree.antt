-- ===== src/Client/Agree.antt =====
-- The tags of soundgate/python-bindings/soundgate_client.py and of soundgate/src/hmac.rs agree.
use soundgate_paper.Prelude.{
  ℕ, ◌/◌, ◌%◌, String, ◌<>◌, ◌≡◌, ◌≢◌, sym, ◌==◌, Option, none, some, refl, ap, Bool, true, false,
  List, [], ◌∷◌, ltb, arith, Bool-cases, inl, inr, hex_digit, ==_refl, ==→eq, string_eq,
}
use soundgate_paper.Node.Auth as Auth
use soundgate_paper.Node.Auth.{Digest, format_02x, push_bytes, verify, check_mac}
use soundgate_paper.Client.{decision_message, hexdigest, decision_tag}

-- A byte below 16 has the upper digit 0.
format_02x_lem : (b : ℕ) → format_02x b ≡ hex_digit (b / 16) <> hex_digit (b % 16)
unfolding format_02x hex_digit
format_02x_lem b = elim (Bool-cases (ltb b 16)) [
  | inl small ↦
      let upper : b / 16 ≡ 0 = ground (arith, small) in
      let lower : b % 16 ≡ b = ground (arith, small) in rw (small, upper, lower) refl
  | inr large ↦ rw large refl
]

push_bytes-hexdigest : (bs : List ℕ) → push_bytes bs ≡ hexdigest bs
unfolding push_bytes hexdigest
push_bytes-hexdigest [] = refl
push_bytes-hexdigest (b ∷ bs) = rw (format_02x_lem b, push_bytes-hexdigest bs) refl

-- Both sides tag a decision alike.
pub decision_tag_lem :
    (hmac : Digest) (secret run key : String) (approved : Bool)
    → Auth.decision_tag hmac secret run key approved ≡ decision_tag hmac secret run key approved
unfolding Auth.decision_tag decision_tag decision_message
decision_tag_lem hmac secret run key true = push_bytes-hexdigest _
decision_tag_lem hmac secret run key false = push_bytes-hexdigest _

-- A gate with a secret takes exactly the tag that a client with that secret gives.
pub check_mac_own :
    (hmac : Digest) (secret run key : String) (approved : Bool)
    → check_mac hmac
        (some secret)
        run
        key
        approved
        (some (decision_tag hmac secret run key approved))
      ≡ true
unfolding check_mac verify
check_mac_own hmac secret run key approved =
    rw decision_tag_lem (==_refl (decision_tag hmac secret run key approved))

pub check_mac_other :
    (hmac : Digest) (secret run key : String) (approved : Bool) (mac : Option String)
    → mac ≢ some (decision_tag hmac secret run key approved)
    → check_mac hmac (some secret) run key approved mac ≡ false
unfolding check_mac verify
check_mac_other hmac secret run key approved none other = refl
check_mac_other hmac secret run key approved (some m) other =
    elim (Bool-cases (decision_tag hmac secret run key approved == m)) [
      | inl same ↦ absurd (other (ap some (sym (==→eq _ _ same))))
      | inr not_same ↦ rw (decision_tag_lem, not_same) refl
    ]
