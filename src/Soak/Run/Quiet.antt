-- ===== src/Soak/Run/Quiet.antt =====
-- What a call of a run without faults is answered, by the phases of the run's keys.
use soundgate_paper.Node.Auth.{Digest}
use soundgate_paper.Node.Auth.{check_mac}
use soundgate_paper.Prelude.{
  ℕ, String, ◌≡◌, refl, ◌∙◌, ap, inl, inr, Bool-cases, Bool, true, ◌&&◌, not, Option, some, List,
  [], ◌∷◌, arith, ◌==◌, All, if◌then◌else◌, string_eq, option_eq, pair_eq, eq_iff,
}
use soundgate_paper.Wire.{
  Request, Reply, submit, decide, cancel, close, ping, is_release, is_rejected, is_ack, Server,
}
use soundgate_paper.Gate.Phase.{
  Phase, fenced, phase, submit_verdict, submit_next, decide_verdict, decide_next,
}
use soundgate_paper.Gate.Defs.{Admission}
use soundgate_paper.Gate.Refines.{phase-decide, phase-cancel, phase-close_run}
use soundgate_paper.Node.Defs.{Node, from_admission, answer, handle}
use soundgate_paper.Node.Rebuilds.{phase-answer}
use soundgate_paper.Node.Invariant.{IsDurable, gate-handle, handle-IsDurable}
use soundgate_paper.Node.Safe.{server}
use soundgate_paper.Client.{decide_request}
use soundgate_paper.Client.Replies.{submit-reply, decide-reply, answer-decide}
use soundgate_paper.Soak.Worker.{
  World, Fault, others, same_reply, call, expect_call, decision, retries, suffer_all, watch,
  is_run_op, keyed,
}

-- A request of another run.
abbrev pub is_foreign : String → Request → Bool
is_foreign run (submit r k needs) = not (r == run)
is_foreign run (decide r k approved mac) = not (r == run)
is_foreign run (cancel r) = not (r == run)
is_foreign run (close r) = not (r == run)
is_foreign run ping = true

abbrev pub IsForeign : String → Fault → Type 0
IsForeign run (others q) = is_foreign run q ≡ true
IsForeign run _ = ⊥

-- No fault, and only requests of other runs in between.
abbrev pub IsQuiet : String → List (List Fault) → Type 0
IsQuiet run = All (All (IsForeign run))

module _ (hmac : Digest) (secret : String) (threshold : ℕ) (randrange : ℕ → ℕ) (run : String) where
  abbrev pub gate : Server
  gate = server (check_mac hmac (some secret)) threshold

  -- The world of a run that has met no reconnect and no mismatch, with the phases of its keys.
  pub record Sim (r0 : ℕ) (φ : String → Phase) (w : World gate) : Type 0 where
    pub durable : IsDurable w.server
    pub phases : (k : String) → phase w.server.gate (run, k) ≡ φ k
    pub quiet : IsQuiet run w.schedule
    pub steady : w.reconnects ≡ r0
    pub matched : w.bad ≡ []

  foreign_phase :
      (n : Node) (q : Request) (k : String)
      → IsDurable n
      → is_foreign run q ≡ true
      → phase (handle (check_mac hmac (some secret)) threshold n q).0.gate (run, k)
        ≡ phase n.gate (run, k)
  foreign_phase n (submit r l needs) k d h = rw gate-handle (
      ground (
        arith,
        phase-answer (check_mac hmac (some secret)) n.gate (submit r l needs) (run, k) d.valid,
      ))
  foreign_phase n (decide r l approved mac) k d h = rw gate-handle (
      ground (
        arith,
        phase-answer (check_mac hmac (some secret)) n.gate (decide r l approved mac) (run, k)
            d.valid,
      ))
  foreign_phase n (cancel r) k d h = rw gate-handle (
      ground
        (arith, phase-answer (check_mac hmac (some secret)) n.gate (cancel r) (run, k) d.valid))
  foreign_phase n (close r) k d h = rw gate-handle (
      ground (arith, phase-answer (check_mac hmac (some secret)) n.gate (close r) (run, k) d.valid))
  foreign_phase n ping k d h =
      rw gate-handle
        (ground (arith, phase-answer (check_mac hmac (some secret)) n.gate ping (run, k) d.valid))

  module _ (r0 : ℕ) where
    pub others-Sim :
        (φ : String → Phase) (q : Request) (w : World gate)
        → is_foreign run q ≡ true
        → Sim r0 φ w
        → Sim r0 φ (record w { server = (gate.call w.server q).0 })
    others-Sim φ q w foreign s = record {
      durable = handle-IsDurable (check_mac hmac (some secret)) threshold w.server q s.durable;
      phases = λ k. foreign_phase w.server q k s.durable foreign ∙ s.phases k;
      quiet = s.quiet;
      steady = s.steady;
      matched = s.matched;
    }

    suffer_all-Sim :
        (φ : String → Phase) (req : Request) (fs : List Fault) (w : World gate)
        → All (IsForeign run) fs
        → Sim r0 φ w
        → Sim r0 φ (suffer_all gate hmac secret randrange run req fs w)
    unfolding suffer_all
    suffer_all-Sim φ req [] w h s = s
    suffer_all-Sim φ req (others q ∷ fs) w h s =
        suffer_all-Sim φ req fs (record w { server = (gate.call w.server q).0 }) h.1
          (others-Sim φ q w h.0 s)
    suffer_all-Sim φ req (f ∷ fs) w h s = absurd h.0

    retries-Sim :
        (φ : String → Phase) (req : Request) (sch : List (List Fault)) (w : World gate)
        → IsQuiet run sch
        → Sim r0 φ w
        → Sim r0 φ (retries gate hmac secret randrange run req sch w)
    unfolding retries
    retries-Sim φ req [] w h s = s
    retries-Sim φ req (fs ∷ rest) w h s =
        suffer_all-Sim φ req fs (record w { schedule = rest }) h.0
          (record {
            durable = s.durable;
            phases = s.phases;
            quiet = h.1;
            steady = s.steady;
            matched = s.matched;
          })

    -- A change of what the simulation does not read.
    pub same-Sim :
        {φ : String → Phase} {w : World gate} (v : World gate)
        → Sim r0 φ w
        → v.server ≡ w.server
        → v.schedule ≡ w.schedule
        → v.reconnects ≡ w.reconnects
        → v.bad ≡ w.bad
        → Sim r0 φ v
    same-Sim {φ} v s e c r b = record {
      durable = rw e s.durable;
      phases = λ k. rw e (s.phases k);
      quiet = rw c s.quiet;
      steady = r ∙ s.steady;
      matched = b ∙ s.matched;
    }

    watch-Sim :
        (φ : String → Phase) (req : Request) (key : Option String) (v : Reply) (w : World gate)
        → Sim r0 φ w
        → Sim r0 φ (watch gate hmac secret randrange run req key v w)
    unfolding watch
    watch-Sim φ req key v w s = elim (Bool-cases (is_release v)) [
      | inl rel ↦ rw rel (same-Sim _ s refl refl refl refl)
      | inr kept ↦ elim (Bool-cases (is_rejected v && keyed key)) [
        | inl rej ↦ rw (kept, rej) (same-Sim _ s refl refl refl refl)
        | inr other ↦ elim (Bool-cases (is_run_op req && is_ack v)) [
          | inl acked ↦ rw (kept, other, acked) (same-Sim _ s refl refl refl refl)
          | inr plain ↦ rw (kept, other, plain) s
        ]
      ]
    ]

    abbrev pub update : String → Phase → (String → Phase) → String → Phase
    update k p φ j = if k == j then p else φ j

    -- A call answered by `v`, after which the keys of the run are in the phases `ψ`.
    pub answered-Sim :
        (φ ψ : String → Phase) (req : Request) (key : Option String) (v : Reply) (w : World gate)
        → ((n : Node)
            → IsDurable n
            → ((k : String) → phase n.gate (run, k) ≡ φ k)
            → ((gate.call n req).1 ≡ v)
              × ((k : String) → phase (gate.call n req).0.gate (run, k) ≡ ψ k))
        → Sim r0 φ w
        → Sim r0 ψ (call gate hmac secret randrange run req key w).0
          × ((call gate hmac secret randrange run req key w).1 ≡ v)
    unfolding call
    answered-Sim φ ψ req key v w spec s =
        let w1 = retries gate hmac secret randrange run req w.schedule w in
        let s1 = retries-Sim φ req w.schedule w s.quiet s in
        let (reply, next) = spec w1.server s1.durable s1.phases in
        (
          watch-Sim ψ req key (gate.call w1.server req).1 _ (record {
            durable =
                handle-IsDurable (check_mac hmac (some secret)) threshold w1.server req s1.durable;
            phases = next;
            quiet = s1.quiet;
            steady = s1.steady;
            matched = s1.matched;
          }),
          reply,
        )

    -- An expected answer.
    pub expected-Sim :
        (φ ψ : String → Phase) (req : Request) (key : Option String) (v : Reply) (what : String)
        (w : World gate)
        → same_reply v v ≡ true
        → ((n : Node)
            → IsDurable n
            → ((k : String) → phase n.gate (run, k) ≡ φ k)
            → ((gate.call n req).1 ≡ v)
              × ((k : String) → phase (gate.call n req).0.gate (run, k) ≡ ψ k))
        → Sim r0 φ w
        → Sim r0 ψ (expect_call gate hmac secret randrange run req key v what w)
    unfolding expect_call
    expected-Sim φ ψ req key v what w self spec s =
        let (s1, reply) = answered-Sim φ ψ req key v w spec s in rw (reply, self) s1

    -- The gate's answers, key by key.
    pub submitted :
        (φ : String → Phase) (k : String) (needs : Bool) (n : Node)
        → IsDurable n
        → ((j : String) → phase n.gate (run, j) ≡ φ j)
        → ((gate.call n (submit run k needs)).1 ≡ from_admission (submit_verdict (φ k) needs))
          × ((j : String)
              → phase (gate.call n (submit run k needs)).0.gate (run, j)
                ≡ update k (submit_next (φ k) needs) φ j)
    submitted φ k needs n d p = (
      submit-reply hmac (some secret) threshold n d run k needs
          ∙ ap (λ q. from_admission (submit_verdict q needs)) (p k),
      λ j. rw gate-handle (
          ground (
            arith,
            phase-answer (check_mac hmac (some secret)) n.gate (submit run k needs) (run, j)
                d.valid,
            p k,
            p j,
            eq_iff k j,
            eq_iff run run,
          )),
    )

    pub decided :
        (φ : String → Phase) (k : String) (approved : Bool) (n : Node)
        → IsDurable n
        → ((j : String) → phase n.gate (run, j) ≡ φ j)
        → ((gate.call n (decision gate hmac secret randrange run k approved)).1
            ≡ from_admission (decide_verdict (φ k) approved))
          × ((j : String)
              → phase
                  (gate.call n (decision gate hmac secret randrange run k approved)).0.gate
                  (run, j)
                ≡ update k (decide_next (φ k) approved) φ j)
    unfolding decision decide_request
    decided φ k approved n d p = (
      decide-reply hmac (some secret) threshold n d run k approved
          ∙ ap (λ q. from_admission (decide_verdict q approved)) (p k),
      λ j.
          rw (gate-handle, answer-decide hmac run k approved n.gate (some secret))
            (ground (
              arith,
              phase-decide n.gate (run, k) approved (run, j) d.valid,
              p k,
              p j,
              eq_iff k j,
              eq_iff run run,
            )),
    )

    -- A cancelled or closed run is fenced, in every key.
    pub cancelled :
        (φ : String → Phase) (n : Node)
        → IsDurable n
        → ((j : String) → phase n.gate (run, j) ≡ φ j)
        → ((gate.call n (cancel run)).1 ≡ Reply.ack)
          × ((j : String) → phase (gate.call n (cancel run)).0.gate (run, j) ≡ fenced)
    unfolding handle answer
    cancelled φ n d p =
        (refl, λ j. ground (arith, phase-cancel n.gate run (run, j), eq_iff run run))

    pub closed :
        (φ : String → Phase) (n : Node)
        → IsDurable n
        → ((j : String) → phase n.gate (run, j) ≡ φ j)
        → ((gate.call n (close run)).1 ≡ Reply.ack)
          × ((j : String) → phase (gate.call n (close run)).0.gate (run, j) ≡ fenced)
    unfolding handle answer
    closed φ n d p = (
      refl,
      λ j. rw gate-handle (ground (arith, phase-close_run n.gate run (run, j), eq_iff run run)),
    )

    self : (a : Admission) → same_reply (from_admission a) (from_admission a) ≡ true
    self a = ground arith

    -- A submission and a decision with the verdict that the key's phase makes.
    pub submit-Sim :
        (φ : String → Phase) (p : Phase) (k : String) (needs : Bool) (what : String)
        (w : World gate)
        → φ k ≡ p
        → Sim r0 φ w
        → Sim r0 (update k (submit_next p needs) φ) (
            expect_call gate hmac secret randrange run
              (submit run k needs)
              (some k)
              (from_admission (submit_verdict p needs))
              what
              w)
    submit-Sim φ p k needs what w e s =
        expected-Sim φ (update k (submit_next p needs) φ) (submit run k needs) (some k) _ what w
          (self (submit_verdict p needs))
          (λ n d ph.
            let (reply, next) = submitted φ k needs n d ph in
            (
              reply ∙ ap (λ q. from_admission (submit_verdict q needs)) e,
              λ j. next j ∙ ap (λ q. update k (submit_next q needs) φ j) e,
            ))
          s

    pub decide-Sim :
        (φ : String → Phase) (p : Phase) (k : String) (approved : Bool) (what : String)
        (w : World gate)
        → φ k ≡ p
        → Sim r0 φ w
        → Sim r0 (update k (decide_next p approved) φ) (
            expect_call gate hmac secret randrange run
              (decision gate hmac secret randrange run k approved)
              (some k)
              (from_admission (decide_verdict p approved))
              what
              w)
    decide-Sim φ p k approved what w e s =
        expected-Sim φ (update k (decide_next p approved) φ)
          (decision gate hmac secret randrange run k approved) (some k) _ what w
          (self (decide_verdict p approved))
          (λ n d ph.
            let (reply, next) = decided φ k approved n d ph in
            (
              reply ∙ ap (λ q. from_admission (decide_verdict q approved)) e,
              λ j. next j ∙ ap (λ q. update k (decide_next q approved) φ j) e,
            ))
          s
