-- ===== src/Fuzz/Semantic.antt =====
-- The semantic oracle `run_G` on the gate server.
use soundgate_paper.Prelude.{
  ℕ, String, ◌≡◌, refl, ap, ◌∙◌, Bool, true, false, none, List, [], ◌∷◌, ◌++◌, arith, All, contains,
  ◌==◌, string_eq, pair_eq, eq_iff,
}
use soundgate_paper.Wire.{Request, verdict, submit, decide, cancel, Server}
use soundgate_paper.Gate.Phase.{
  Phase, fresh, fenced, phase, submit_verdict, submit_next, decide_verdict, decide_next,
}
use soundgate_paper.Node.Defs.{Node, from_admission, handle}
use soundgate_paper.Node.Invariant.{IsDurable, handle-IsDurable}
use soundgate_paper.Node.Rebuilds.{request_next, accepted}
use soundgate_paper.Node.Phases.{open_door, phase-handle, handle-submit, handle-decide}
use soundgate_paper.Node.Safe.{server}
use soundgate_paper.Fuzz.Campaign.{
  Failure, Kind, decide_unknown, approve_cancelled, double_decide, submit_cancelled, Case,
  is_fail_open, run_case, run_G,
}

module _ (threshold : ℕ) where
  abbrev pub gate : Server
  gate = server open_door threshold

  abbrev pub step : Request → Node → Node
  step q n = (handle open_door threshold n q).0

  -- The node after a case.
  abbrev pub after_case : Case → Node → Node
  after_case c n = (run_case gate c.kind c.rid c.key n).0

  -- What a case leaves of the identities of other runs, and of the invariant.
  abbrev pub Untouched : String → Node → Node → Type 0
  Untouched rid n n' =
      IsDurable n'
      × ((i : String × String) → (rid == i.0) ≡ false → phase n'.gate i ≡ phase n.gate i)

  one_step :
      (q : Request) (rid : String) (n n0 : Node)
      → ((i : String × String) (p : Phase)
          → (rid == i.0) ≡ false
          → request_next (accepted open_door q) q i p ≡ p)
      → Untouched rid n0 n
      → Untouched rid n0 (step q n)
  one_step q rid n n0 other (d, same) = (
    handle-IsDurable open_door threshold n q d,
    λ i h. phase-handle open_door threshold n q i d ∙ other i (phase n.gate i) h ∙ same i h,
  )

  submitted :
      (rid key : String) (needs : Bool) (n n0 : Node)
      → Untouched rid n0 n
      → Untouched rid n0 (step (submit rid key needs) n)
  submitted rid key needs n n0 u =
      one_step _ rid n n0 (λ i p h. ground (arith, h, eq_iff rid i.0)) u

  decided :
      (rid key : String) (approved : Bool) (n n0 : Node)
      → Untouched rid n0 n
      → Untouched rid n0 (step (decide rid key approved none) n)
  decided rid key approved n n0 u =
      one_step _ rid n n0 (λ i p h. ground (arith, h, eq_iff rid i.0)) u

  cancelled :
      (rid : String) (n n0 : Node) → Untouched rid n0 n → Untouched rid n0 (step (cancel rid) n)
  cancelled rid n n0 u = one_step _ rid n n0 (λ i p h. ground (arith, h, eq_iff rid i.0)) u

  pub case-Untouched : (c : Case) (n : Node) → IsDurable n → Untouched c.rid n (after_case c n)
  unfolding run_case
  case-Untouched c n d = by_kind c.kind
    where
      start : Untouched c.rid n n
      start = (d, λ i h. refl)

      by_kind : (k : Kind) → Untouched c.rid n (run_case gate k c.rid c.key n).0
      by_kind decide_unknown = decided c.rid c.key true n n start
      by_kind approve_cancelled =
          decided c.rid c.key true _ n (cancelled c.rid _ n (submitted c.rid c.key true n n start))
      by_kind double_decide =
          decided c.rid c.key true _ n
            (decided c.rid c.key true _ n (submitted c.rid c.key true n n start))
      by_kind submit_cancelled = submitted c.rid c.key false _ n (cancelled c.rid n n start)

  -- The answers and phases along one case, at the identity of the case.
  module _ (rid key : String) where
    abbrev own : Node → Phase
    own n = phase n.gate (rid, key)

    own-submit :
        (needs : Bool) (n : Node)
        → IsDurable n
        → own (step (submit rid key needs) n) ≡ submit_next (own n) needs
    own-submit needs n d =
        phase-handle open_door threshold n (submit rid key needs) (rid, key) d
        ∙ ground (arith, eq_iff rid rid, eq_iff key key)

    own-decide :
        (n : Node)
        → IsDurable n
        → own (step (decide rid key true none) n) ≡ decide_next (own n) true
    own-decide n d =
        phase-handle open_door threshold n (decide rid key true none) (rid, key) d
        ∙ ground (arith, eq_iff rid rid, eq_iff key key)

    own-cancel : (n : Node) → IsDurable n → own (step (cancel rid) n) ≡ fenced
    own-cancel n d =
        phase-handle open_door threshold n (cancel rid) (rid, key) d
        ∙ ground (arith, eq_iff rid rid)

    abbrev decide_text : Phase → String
    decide_text p = verdict (from_admission (decide_verdict p true))

    answer_decide :
        (n : Node)
        → IsDurable n
        → verdict (handle open_door threshold n (decide rid key true none)).1 ≡ decide_text (own n)
    answer_decide n d = ap verdict (handle-decide threshold n d rid key true none)

    answer_submit :
        (n : Node)
        → IsDurable n
        → verdict (handle open_door threshold n (submit rid key false)).1
          ≡ verdict (from_admission (submit_verdict (own n) false))
    answer_submit n d = ap verdict (handle-submit threshold n d rid key false)

    case_clean :
        (k : Kind) (n : Node) (fs : List Failure)
        → IsDurable n
        → own n ≡ fresh
        → (run_case gate k rid key n).2 fs ≡ fs
    unfolding run_case verdict is_fail_open contains
    case_clean decide_unknown n fs d f = rw (answer_decide n d, f) refl
    case_clean approve_cancelled n fs d f =
        let n1 = step (submit rid key true) n in
        let d1 = handle-IsDurable open_door threshold n (submit rid key true) d in
        let d2 = handle-IsDurable open_door threshold n1 (cancel rid) d1 in
        rw (answer_decide (step (cancel rid) n1) d2, own-cancel n1 d1) refl
    case_clean double_decide n fs d f =
        let n1 = step (submit rid key true) n in
        let d1 = handle-IsDurable open_door threshold n (submit rid key true) d in
        let n2 = step (decide rid key true none) n1 in
        let d2 = handle-IsDurable open_door threshold n1 (decide rid key true none) d1 in
        rw (answer_decide n2 d2, answer_decide n1 d1, own-decide n1 d1, own-submit true n d, f) refl
    case_clean submit_cancelled n fs d f =
        let n1 = step (cancel rid) n in
        let d1 = handle-IsDurable open_door threshold n (cancel rid) d in
        rw (answer_submit n1 d1, own-cancel n d) refl

  -- The runs drawn are all different, and the gate has not seen the identities of any.
  abbrev pub Unseen : Node → List Case → Type 0
  Unseen n [] = Unit
  Unseen n (c ∷ cs) =
      (phase n.gate (c.rid, c.key) ≡ fresh)
      × All (λ (e : Case). (c.rid == e.rid) ≡ false) cs
      × Unseen n cs

  still-Unseen :
      (rid : String) (n n' : Node) (cs : List Case)
      → Untouched rid n n'
      → All (λ (e : Case). (rid == e.rid) ≡ false) cs
      → Unseen n cs
      → Unseen n' cs
  still-Unseen rid n n' [] u apart h = tt
  still-Unseen rid n n' (c ∷ cs) u apart h =
      (u.1 (c.rid, c.key) apart.0 ∙ h.0, h.1, still-Unseen rid n n' cs u apart.1 h.2)

  -- On the durable gate server without a secret, whatever is drawn for the four kinds of case, as
  -- long as the runs are all different and unseen, `run_G` reports no failure.
  pub run_G-clean :
      (cs : List Case) (n : Node) (replies : ℕ) (fs : List Failure)
      → IsDurable n
      → Unseen n cs
      → (run_G gate cs n replies fs).2 ≡ fs
  unfolding run_G
  run_G-clean [] n replies fs d u = refl
  run_G-clean (c ∷ cs) n replies fs d u =
      let kept = case-Untouched c n d in
      run_G-clean cs (after_case c n) _ _ kept.0 (still-Unseen c.rid n _ cs kept u.1 u.2)
      ∙ case_clean c.rid c.key c.kind n fs d u.0

  -- A run drawn again after a case that cancelled it makes `run_G` report a double decision, although
  -- the gate fences the run as it should.
  pub run_case-false_alarm :
      (rid key : String) (n : Node) (fs : List Failure)
      → IsDurable n
      → phase n.gate (rid, key) ≡ fenced
      → (run_case gate double_decide rid key n).2 fs
        ≡ fs
          ++ record {
            oracle = "G";
            what = "double-decide anomaly";
            seen = "refused_cancelled" ∷ "refused_cancelled" ∷ [];
          }
            ∷ []
  unfolding run_case verdict
  run_case-false_alarm rid key n fs d f =
      let n1 = step (submit rid key true) n in
      let d1 = handle-IsDurable open_door threshold n (submit rid key true) d in
      let n2 = step (decide rid key true none) n1 in
      let d2 = handle-IsDurable open_door threshold n1 (decide rid key true none) d1 in
      rw
        (
          answer_decide rid key n2 d2,
          answer_decide rid key n1 d1,
          own-decide rid key n1 d1,
          own-submit rid key true n d,
          f,
        )
        refl
