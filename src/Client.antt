-- ===== src/Client.antt =====
-- soundgate/python-bindings/soundgate_client.py: verdicts, decision tags and the client's calls.
-- The bytes of `hmac.new(secret, msg, sha256)` are the parameter `hmac` (secret, message). A reply is the object that the line holds.
pub mod Tag
pub mod Agree
pub mod Calls
pub mod Replies
use text.Mathlib.Text.{starts_with}
use soundgate_paper.Prelude.{
  ℕ, ◌/◌, ◌%◌, List, [], ◌∷◌, hex_digit, String, ◌<>◌, Bool, true, false, Option, none, some, ◌==◌,
  string_eq, if◌then◌else◌,
}
use soundgate_paper.Node.Auth.{Digest}
use soundgate_paper.Wire.{Request, Reply, verdict, submit, decide, cancel, close, ping, Server}

abbrev pub flag : Bool → String
flag true = "1"
flag false = "0"

-- What `decision_tag` authenticates.
unfoldable pub decision_message : String → String → Bool → String
decision_message run_id effect_key approved =
    run_id <> ("\n" <> (effect_key <> ("\n" <> flag approved)))

-- `hexdigest()`: for each byte the digits of its upper and of its lower half.
unfoldable pub hexdigest : List ℕ → String
hexdigest [] = ""
hexdigest (b ∷ bs) = (hex_digit (b / 16) <> hex_digit (b % 16)) <> hexdigest bs

unfoldable pub decision_tag : Digest → String → String → String → Bool → String
unfolding decision_message
decision_tag hmac secret run_id effect_key approved =
    hexdigest (hmac secret (decision_message run_id effect_key approved))

pub record Verdict : Type 0 where
  pub kind : String

unfoldable pub released : Verdict → Bool
released v = v.kind == "release"

unfoldable pub held : Verdict → Bool
held v = v.kind == "held_for_approval"

unfoldable pub refused : Verdict → Bool
refused v = starts_with v.kind "refused_"

pub data GateError : Type 0 where
  closed_connection missing_verdict : GateError
  gate_error : String → GateError

pub data Result : Type 0 where
  ok : Verdict → Result
  raised : GateError → Result

-- The fields of a reply that the client reads.
pub record Line : Type 0 where
  pub verdict_field : Option String
  pub message_field : Option String

abbrev message_or : Option String → String
message_or none = "?"
message_or (some m) = m

read_verdict : Line → Option String → Result
read_verdict line none = raised missing_verdict
read_verdict line (some v) =
    if v == "error"
    then raised (gate_error (message_or line.message_field))
    else ok (record { kind = v })

-- `_roundtrip`, from the line that came back; `none` is the end of the stream.
unfoldable pub roundtrip : Option Line → Result
unfolding read_verdict
roundtrip none = raised closed_connection
roundtrip (some line) = read_verdict line line.verdict_field

-- How a gate writes a reply.
unfoldable pub to_line : Reply → Line
unfolding verdict
to_line (Reply.error m) = record {
  verdict_field = some (verdict (Reply.error m));
  message_field = some m;
}
to_line r = record { verdict_field = some (verdict r); message_field = none }

-- The request of `decide`, with a tag where the client has a secret.
unfoldable pub decide_request : Digest → Option String → String → String → Bool → Request
decide_request hmac none run_id effect_key approved = decide run_id effect_key approved none
decide_request hmac (some secret) run_id effect_key approved =
    decide run_id effect_key approved (some (decision_tag hmac secret run_id effect_key approved))

-- The client's calls on a gate that stays up.
module _ (S : Server) where
  unfoldable pub send : S.State → Request → S.State × Result
  send s q = let (s', r) = S.call s q in (s', roundtrip (some (to_line r)))
