-- ===== src/Examples/Clients.antt =====
-- The theorems on the client and on mediated tools, at small gates and with a stand-in for the hash.
use soundgate_paper.Node.Auth.{check_mac, Digest}
use Prim.Native.String.{len}
use soundgate_paper.Prelude.{
  ◌≢◌, ℕ, ◌+◌, ◌≤◌, String, ◌<>◌, ◌≡◌, refl, Bool, true, none, some, List, [], ◌∷◌, contains,
  lookup,
}
use soundgate_paper.Wire.{Reply, decide, submit, cancel}
use soundgate_paper.Gate.Phase.{phase, held, decide_next}
use soundgate_paper.Node.Defs.{Node, start, handle}
use soundgate_paper.Node.Invariant.{start-IsDurable}
use soundgate_paper.Node.Safe.{server, server-IsSafe}
use soundgate_paper.Client.{decision_message, decision_tag, decide_request, roundtrip, to_line}
use soundgate_paper.Client.Tag.{HasNoNewline, decision_message-injective, decision_tag_collision}
use soundgate_paper.Client.Calls.{ReadsAs, roundtrip-ReadsAs, decide_authentic}
use soundgate_paper.Mediation.{mediate_with_approval, performed, suspended}
use soundgate_paper.Mediation.Once.{
  Step, no_approval, with_approval, request, restart, run_steps, run_steps-le,
}
use soundgate_paper.Mediation.Resume.{after_resume, suspend_then_resume}
use soundgate_paper.Examples.Gates.{any_mac}

abbrev pub toy_hmac : Digest
toy_hmac secret message = len secret ∷ len message ∷ []

abbrev run_name : String
run_name = "run"

abbrev key_name : String
key_name = "pay"

run_name-HasNoNewline : HasNoNewline run_name
run_name-HasNoNewline = ((λ e. cc), ((λ e. cc), ((λ e. cc), tt)))

decision_message-injective_example : (run_name ≡ run_name) × (key_name ≡ key_name) × (true ≡ true)
unfolding decision_message
decision_message-injective_example =
    decision_message-injective run_name run_name key_name key_name true true run_name-HasNoNewline
      run_name-HasNoNewline refl

decision_tag_collision_example :
    decision_tag toy_hmac "s" ("a" <> ("\n" <> "b")) "c" true
    ≡ decision_tag toy_hmac "s" "a" ("b" <> ("\n" <> "c")) true
decision_tag_collision_example = decision_tag_collision toy_hmac "s" "a" "b" "c" true

roundtrip-ReadsAs_example :
    ReadsAs (Reply.error "no quorum") (roundtrip (some (to_line (Reply.error "no quorum"))))
roundtrip-ReadsAs_example = roundtrip-ReadsAs (Reply.error "no quorum")

no_tag : none ≢ some (decision_tag toy_hmac "s" "run" "pay" true)
no_tag = λ e. cc

decide_authentic_example :
    (handle
        (check_mac toy_hmac (some "s"))
        0
        start
        (decide_request toy_hmac (some "s") "run" "pay" true)
      ≡ handle (check_mac toy_hmac none) 0 start (decide_request toy_hmac none "run" "pay" true))
    × (handle (check_mac toy_hmac (some "s")) 0 start (decide "run" "pay" true none)
        ≡ (start, Reply.error "unauthenticated decision: bad or missing mac"))
decide_authentic_example = decide_authentic toy_hmac 0 start "run" "pay" true "s" none no_tag

abbrev steps : List Step
steps =
    with_approval none
    ∷ restart
    ∷ with_approval (some true)
    ∷ no_approval
    ∷ request (cancel "run")
    ∷ with_approval (some true)
    ∷ []

run_steps-le_example : run_steps (server any_mac 0) toy_hmac none "run" "pay" steps start 0 ≤ 1
run_steps-le_example =
    run_steps-le (server any_mac 0) (server-IsSafe any_mac 0) toy_hmac none "run" "pay" steps start
      start-IsDurable

abbrev count_up : ℕ → ℕ × ℕ
count_up n = (n + 1, n)

abbrev say_yes : Bool → Bool
say_yes b = b

abbrev first_gate : Node
first_gate = (handle (check_mac toy_hmac (some "s")) 0 start (submit "run" "pay" true)).0

abbrev last_gate : Node
last_gate = after_resume toy_hmac (some "s") 0 first_gate "run" "pay" true

suspend_then_resume_example :
    (mediate_with_approval
        (server (check_mac toy_hmac (some "s")) 0)
        toy_hmac
        (some "s")
        "run"
        "pay"
        count_up
        say_yes
        none
        start
        0
      ≡ (first_gate, 0, suspended))
    × (mediate_with_approval
          (server (check_mac toy_hmac (some "s")) 0)
          toy_hmac
          (some "s")
          "run"
          "pay"
          count_up
          say_yes
          (some true)
          first_gate
          0
        ≡ (last_gate, 1, performed 0))
    × (phase last_gate.gate ("run", "pay") ≡ decide_next held true)
unfolding phase contains start lookup
suspend_then_resume_example =
    suspend_then_resume toy_hmac (some "s") 0 start "run" "pay" count_up say_yes true 0
      start-IsDurable refl
