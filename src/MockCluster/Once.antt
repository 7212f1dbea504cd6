-- ===== src/MockCluster/Once.antt =====
-- The mock releases an identity at most once; and where it is laxer than the gate.
use soundgate_paper.Prelude.{
  ℕ, ◌+◌, ◌≤◌, String, ◌≡◌, refl, true, false, ◌&&◌, Option, List, [], ◌∷◌, ◌++◌, arith, contains,
  count_if, count_if-append, ltb, ◌==◌, string_eq, pair_eq, eq_iff, if◌then◌else◌,
}
use soundgate_paper.Wire.{Request, Reply, submit, decide, cancel, close, ping, is_release, is_about}
use soundgate_paper.Gate.Defs.{Gate, cancel as gate_cancel}
use soundgate_paper.Gate.Phase.{held, phase, IsValid as IsGateValid}
use soundgate_paper.Gate.Refines.{submit-verdict, decide-verdict, phase-cancel}
use soundgate_paper.Gate.Valid.{cancel-IsValid}
use soundgate_paper.Node.Defs.{answer, effect}
use soundgate_paper.MockCluster.Store.{Identity, Store, apply_op}

abbrev pub times : Identity → List Identity → ℕ
times i is = count_if (λ j. j == i) is

-- An identity is released or rejected, once at most.
abbrev pub IsValid : Store → Type 0
IsValid st = (i : Identity) → times i st.released + times i st.rejected ≤ 1

contains-times : (i : Identity) (is : List Identity) → contains is i ≡ ltb 0 (times i is)
unfolding contains count_if
contains-times i [] = ground arith
contains-times i (j ∷ is) = ground (arith, contains-times i is)

times-one : (i j : Identity) → times j (i ∷ []) ≡ (if i == j then 1 else 0)
unfolding count_if
times-one i j = ground arith

times-append :
    (i j : Identity) (is : List Identity)
    → times j (is ++ i ∷ []) ≡ times j is + (if i == j then 1 else 0)
times-append i j is = omega (arith, count_if-append (λ k. k == j) is (i ∷ []), times-one i j)

apply_op-IsValid : (st : Store) (q : Request) → IsValid st → IsValid (apply_op st q).0
unfolding apply_op
apply_op-IsValid st (submit run key needs) v i = ground (
  arith,
  v i,
  v (run, key),
  times-append (run, key) i st.released,
  contains-times (run, key) st.released,
  contains-times (run, key) st.rejected,
  eq_iff run i.0,
  eq_iff key i.1,
)
apply_op-IsValid st (decide run key approved mac) v i = ground (
  arith,
  v i,
  v (run, key),
  times-append (run, key) i st.rejected,
  times-append (run, key) i st.released,
  contains-times (run, key) st.released,
  contains-times (run, key) st.rejected,
  eq_iff run i.0,
  eq_iff key i.1,
)
apply_op-IsValid st (cancel run) v i = v i
apply_op-IsValid st (close run) v i = v i
apply_op-IsValid st ping v i = v i

apply_op-released :
    (st : Store) (q : Request) (i : Identity)
    → times i (apply_op st q).0.released
      ≡ times i st.released + (if is_about q i && is_release (apply_op st q).1 then 1 else 0)
unfolding apply_op
apply_op-released st (submit run key needs) i =
    ground (arith, times-append (run, key) i st.released, eq_iff run i.0, eq_iff key i.1)
apply_op-released st (decide run key approved mac) i =
    ground (arith, times-append (run, key) i st.released, eq_iff run i.0, eq_iff key i.1)
apply_op-released st (cancel run) i = ground arith
apply_op-released st (close run) i = ground arith
apply_op-released st ping i = ground arith

-- How often a sequence of requests is answered with a release of the identity.
unfoldable pub releases : Identity → Store → List Request → ℕ
releases i st [] = 0
releases i st (q ∷ qs) =
    (if is_about q i && is_release (apply_op st q).1 then 1 else 0)
    + releases i (apply_op st q).0 qs

releases-bound :
    (i : Identity) (st : Store) (qs : List Request)
    → IsValid st
    → times i st.released + releases i st qs ≤ 1
unfolding releases
releases-bound i st [] v = omega (arith, v i)
releases-bound i st (q ∷ qs) v = omega (
  arith,
  apply_op-released st q i,
  releases-bound i (apply_op st q).0 qs (apply_op-IsValid st q v),
)

-- From a valid state the requests that the leader applies release an identity at most once.
pub releases-le :
    (i : Identity) (st : Store) (qs : List Request) → IsValid st → releases i st qs ≤ 1
releases-le i st qs v = omega (arith, releases-bound i st qs v)

-- Where the mock is laxer than the gate: an approval after the run's cancellation, and a submission
-- that asks for no approval, release what is held; the gate refuses the one and holds the other.
pub held-released :
    (st : Store) (g : Gate) (run key : String) (mac : Option String)
    → contains st.held (run, key) ≡ true
    → contains st.released (run, key) ≡ false
    → contains st.rejected (run, key) ≡ false
    → contains st.cancelled run ≡ false
    → IsGateValid g
    → phase g (run, key) ≡ held
    → ((apply_op (apply_op st (cancel run)).0 (decide run key true mac)).1 ≡ Reply.release)
      × ((answer (λ r k a m. true) (gate_cancel g run) (decide run key true mac)).1
          ≡ Reply.refused_cancelled)
      × ((apply_op st (submit run key false)).1 ≡ Reply.release)
      × ((answer (λ r k a m. true) g (submit run key false)).1 ≡ Reply.held_for_approval)
unfolding apply_op answer
held-released st g run key mac h r j c v p = (
  rw (r, j, h) refl,
  ground (
    arith,
    decide-verdict (gate_cancel g run) (run, key) true (cancel-IsValid g run v),
    phase-cancel g run (run, key),
    eq_iff run run,
  ),
  rw (r, j, c) refl,
  ground (arith, submit-verdict g (effect run key false), p),
)
