-- ===== src/Probes/Temporal/Order.antt =====
-- probes-temporal/probe_temporal.py: what the times of first entries say of a log that is appended to.
use soundgate_paper.Prelude.{
  ℕ, ◌≤◌, ◌≡◌, refl, String, Bool, true, false, not, ◌&&◌, Option, List, [], ◌∷◌, All, any, ltb,
  leb, ◌==◌, string_eq, if◌then◌else◌, arith, Bool-cases, inl, inr, ◌<>◌,
}
use soundgate_paper.Probes.Temporal.{Entry, log_t, is_after, probe_t3_cancel, probe_t4_timeout}

-- Entries are appended in the order of their times.
abbrev pub InOrder : List Entry → Type 0
InOrder [] = Unit
InOrder (e ∷ log) = All (λ (d : Entry). e.t ≤ d.t) log × InOrder log

-- Whether the tag was appended by a time, and after it.
unfoldable by : ℕ → String → List Entry → Bool
by t tag log = any (λ (e : Entry). e.tag == tag && leb e.t t) log

unfoldable past : ℕ → String → List Entry → Bool
past t tag log = any (λ (e : Entry). e.tag == tag && ltb t e.t) log

none-by :
    (t : ℕ) (tag : String) (log : List Entry) (m : ℕ)
    → All (λ (d : Entry). m ≤ d.t) log
    → ltb t m ≡ true
    → by t tag log ≡ false
unfolding by any
none-by t tag [] m all lt = refl
none-by t tag (d ∷ log) m all lt = ground (arith, none-by t tag log m all.1 lt, all.0)

log_t-after :
    (t : ℕ) (tag : String) (log : List Entry)
    → InOrder log
    → is_after (log_t log tag) t ≡ (not (by t tag log) && past t tag log)
unfolding log_t by past any
log_t-after t tag [] o = refl
log_t-after t tag (e ∷ log) o = elim (Bool-cases (e.tag == tag)) [
  | inl same ↦ elim (Bool-cases (ltb t e.t)) [
    | inl late ↦ ground (arith, same, late, none-by t tag log e.t o.0 late)
    | inr early ↦ ground (arith, same, early)
  ]
  | inr other ↦ rw other (log_t-after t tag log o.1)
]

-- The cancellation and the timeout probe report a violation exactly if the effect was committed after the
-- caller's observation and not before, of a timeout if the caller saw it as one.
late-effects :
    (heartbeating : Bool) (observed : Option String) (res : String) (t_obs : ℕ) (log : List Entry)
    → InOrder log
    → ((probe_t3_cancel heartbeating observed t_obs log).violation ≡ (
        let tag = "t3" <> (if heartbeating then "b" else "") in
        not (by t_obs tag log) && past t_obs tag log))
      × ((probe_t4_timeout res t_obs log).violation
          ≡ (res == "timeout_observed" && (not (by t_obs "t4" log) && past t_obs "t4" log)))
unfolding probe_t3_cancel probe_t4_timeout
late-effects heartbeating observed res t_obs log o = (
  log_t-after t_obs ("t3" <> (if heartbeating then "b" else "")) log o,
  rw (log_t-after t_obs "t4" log o) refl,
)
