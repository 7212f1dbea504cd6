-- ===== src/Client/Calls.antt =====
-- What a client's calls return, and which decisions an authenticating gate takes.
use soundgate_paper.Node.Auth.{Digest}
use soundgate_paper.Node.Auth.{check_mac, Digest}
use soundgate_paper.Prelude.{
  ◌≢◌, Option, ℕ, String, ◌≡◌, refl, Bool, true, false, none, some, string_eq,
}
use soundgate_paper.Wire.{Reply, decide, is_release}
use soundgate_paper.Node.Defs.{Node, answer, handle, event_for}
use soundgate_paper.Client.Agree.{check_mac_own, check_mac_other}
use soundgate_paper.Client.{
  Verdict, Result, ok, raised, gate_error, released, held, refused, roundtrip, to_line,
  decision_tag, decide_request,
}

abbrev pub is_held : Reply → Bool
is_held Reply.held_for_approval = true
is_held _ = false

abbrev pub is_refused : Reply → Bool
is_refused Reply.refused_cancelled = true
is_refused Reply.refused_duplicate = true
is_refused Reply.refused_rejected = true
is_refused _ = false

-- What the client should make of a reply: its error, or a verdict in the right class.
abbrev pub ReadsAs : Reply → Result → Type 0
ReadsAs (Reply.error m) res = res ≡ raised (gate_error m)
ReadsAs r res =
    (v : Verdict) × (res ≡ ok v)
    × (released v ≡ is_release r)
    × (held v ≡ is_held r)
    × (refused v ≡ is_refused r)

-- The client raises on an error reply, with its message, and reads every other reply as a verdict
-- that is released, held or refused exactly when the gate released, held or refused.
pub roundtrip-ReadsAs : (r : Reply) → ReadsAs r (roundtrip (some (to_line r)))
unfolding roundtrip to_line released held refused
roundtrip-ReadsAs (Reply.error m) = refl
roundtrip-ReadsAs Reply.release = (record { kind = "release" }, refl, refl, refl, refl)
roundtrip-ReadsAs Reply.held_for_approval =
    (record { kind = "held_for_approval" }, refl, refl, refl, refl)
roundtrip-ReadsAs Reply.refused_cancelled =
    (record { kind = "refused_cancelled" }, refl, refl, refl, refl)
roundtrip-ReadsAs Reply.refused_duplicate =
    (record { kind = "refused_duplicate" }, refl, refl, refl, refl)
roundtrip-ReadsAs Reply.refused_rejected =
    (record { kind = "refused_rejected" }, refl, refl, refl, refl)
roundtrip-ReadsAs Reply.ack = (record { kind = "ack" }, refl, refl, refl, refl)
roundtrip-ReadsAs Reply.pong = (record { kind = "pong" }, refl, refl, refl, refl)

-- A gate with a secret decides a decision by a client with that secret just as a gate without a secret
-- decides it; for a decision with any other tag, or with none, it replies with an error, and changes neither
-- the gate nor its log.
pub decide_authentic :
    (hmac : Digest) (threshold : ℕ) (n : Node) (run key : String) (approved : Bool)
    (secret : String) (mac : Option String)
    → mac ≢ some (decision_tag hmac secret run key approved)
    → let gate = handle (check_mac hmac (some secret)) threshold n in
      (gate (decide_request hmac (some secret) run key approved)
        ≡ handle (check_mac hmac none) threshold n (decide_request hmac none run key approved))
      × (gate (decide run key approved mac)
          ≡ (n, Reply.error "unauthenticated decision: bad or missing mac"))
unfolding handle answer check_mac decide_request event_for
decide_authentic hmac threshold n run key approved secret mac other = (
  rw (check_mac_own hmac secret run key approved) refl,
  rw (check_mac_other hmac secret run key approved mac other) refl,
)
