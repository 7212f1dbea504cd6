-- ===== src/Probes/LlamaIndex/Leak.antt =====
-- probes/src/agentprobe/llamaindex_probes.py, `probe_parallel_leak`: the effect and the requests for input.
use soundgate_paper.Prelude.{
  any, ◌≡◌, refl, ◌∙◌, String, Bool, true, false, ◌&&◌, ◌||◌, Option, List, [], ◌∷◌, ◌++◌, arith,
  Bool-cases, inl, inr,
}
use soundgate_paper.Probes.Harness.{EventLog, has}
use soundgate_paper.Probes.LlamaIndex.{StreamEvent, read_stream, probe_parallel_leak}

has-append : (a b : EventLog) (tag : String) → has (a ++ b) tag ≡ (has a tag || has b tag)
unfolding has any
has-append [] b tag = refl
has-append (e ∷ a) b tag = ground (arith, has-append a b tag)

-- Whether the effect was in the log at any of the requests for input.
unfoldable pub leaked : EventLog → List StreamEvent → Bool
unfolding has
leaked log [] = false
leaked log (ev ∷ evs) =
    let now = log ++ ev.logged in (ev.asks_input && has now "L_EFFECT:executed") || leaked now evs

read_stream-leaked :
    (log : EventLog) (effect : Bool) (evs : List StreamEvent)
    → (effect ≡ true → has log "L_EFFECT:executed" ≡ true)
    → (read_stream log effect evs).1 ≡ (effect || leaked log evs)
unfolding read_stream leaked
read_stream-leaked log effect [] h = ground arith
read_stream-leaked log effect (ev ∷ evs) h =
    let now : EventLog = log ++ ev.logged in
    let seen : has now "L_EFFECT:executed"
        ≡ (has log "L_EFFECT:executed" || has ev.logged "L_EFFECT:executed") =
      has-append log ev.logged "L_EFFECT:executed" in
    elim (Bool-cases ev.asks_input) [
      | inl asks ↦ rw asks (
          read_stream-leaked now (has now "L_EFFECT:executed") evs (λ y. y)
          ∙ ground (arith, h, seen))
      | inr quiet ↦ rw quiet (read_stream-leaked now effect evs (λ y. seen ∙ rw (h y) refl))
    ]

-- The probe reports a leak exactly if at one of the requests for input the effect was already logged,
-- though it keeps only what it sees at the last of them.
pub parallel_leak_lem :
    (stream : List StreamEvent) (rest : EventLog) (error : Option String)
    → (probe_parallel_leak stream rest error).violation ≡ leaked [] stream
unfolding probe_parallel_leak
parallel_leak_lem stream rest error = read_stream-leaked [] false stream (λ h. absurd (cc))
