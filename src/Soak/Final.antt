-- ===== src/Soak/Final.antt =====
-- soundgate/scripts/soak_wal.py, the end of `main`: the recovery after the last crash, the census of
-- the log, and the probes. Whether the server answered its first ping in time is data.
use soundgate_paper.Prelude.{
  ℕ, ◌+◌, String, ◌≡◌, refl, sym, ap, ◌∙◌, Bool, true, false, ◌&&◌, Option, List, [], ◌∷◌, length,
  arith, All, count_if, nat_beq, Bool-cases, inl, inr, ◌↔◌, ◌==◌, string_eq, pair_eq, eq_iff,
  if◌then◌else◌,
}
use mathlib.Core.Path.{subst}
use soundgate_paper.Wire.{submit, is_release}
use soundgate_paper.Gate.Phase.{Phase, fresh, phase, submit_verdict, submit_next, durable}
use soundgate_paper.Gate.Refines.{submit-verdict}
use soundgate_paper.Node.Defs.{Node, effect, from_admission, answer, handle, recover}
use soundgate_paper.Node.Invariant.{IsDurable, handle-IsDurable, recover-IsDurable}
use soundgate_paper.Node.Phases.{phase-handle}
use soundgate_paper.Node.Safe.{is_dead, node_dead, recover-dead}
use soundgate_paper.Soak.Shared.{Stats, violation, re_released, never_answered, is_oracle}
use soundgate_paper.Soak.Census.{wal_census}
use soundgate_paper.Soak.Census.Bounded.{wal_census-recover}

-- What the last lines of the output say.
pub record Report : Type 0 where
  pub kinds : List (String × ℕ)
  pub closed_with_ident : ℕ
  pub refused : ℕ
  pub sampled : ℕ
  pub fresh_released : Bool
  pub oracle_violations : ℕ
  pub nviol : ℕ

settled : (p : Phase) → is_dead p ≡ true → submit_next p false ≡ p
settled p h = ground (arith, h)

still_dead :
    (is : List (String × String)) (n n' : Node)
    → ((j : String × String) → phase n'.gate j ≡ phase n.gate j)
    → All (λ i. node_dead n i ≡ true) is
    → All (λ i. node_dead n' i ≡ true) is
still_dead [] n n' same h = tt
still_dead (i ∷ is) n n' same h = (ap is_dead (same i) ∙ h.0, still_dead is n n' same h.1)

recovered_dead :
    (is : List (String × String)) (n : Node)
    → IsDurable n
    → All (λ i. node_dead n i ≡ true) is
    → All (λ i. node_dead (recover n) i ≡ true) is
recovered_dead [] n d h = tt
recovered_dead (i ∷ is) n d h = (recover-dead n i d ∙ h.0, recovered_dead is n d h.1)

recovered_phase :
    (n : Node) (j : String × String)
    → IsDurable n
    → phase (recover n).gate j ≡ durable (phase n.gate j)
unfolding recover
recovered_phase n j d = d.rebuilds.exact j

module _ (mac_ok : String → String → Bool → Option String → Bool) (threshold : ℕ) where
  -- The loop over the reservoir.
  unfoldable pub probe : List (String × String) → Node → Stats → ℕ → Node × Stats × ℕ
  unfolding violation
  probe [] n st refused = (n, st, refused)
  probe ((run, key) ∷ is) n st refused =
      let (n', v) = handle mac_ok threshold n (submit run key false) in
      let again = is_release v in
      probe is n' (if again then violation (re_released run key) st else st)
        (if again then refused else refused + 1)

  unfoldable pub finish_soak : Bool → Node → Stats → Report
  unfolding violation wal_census probe
  finish_soak ready n st =
      let st1 = if ready then st else violation never_answered st in
      let n1 = recover n in
      let (kinds, closed) = wal_census n1.log in
      let (n2, st2, refused) = probe st1.reservoir n1 st1 0 in
      let (n3, v) = handle mac_ok threshold n2 (submit "post-soak-fresh" "k" false) in
      record {
        kinds = kinds;
        closed_with_ident = closed;
        refused = refused;
        sampled = length st2.reservoir;
        fresh_released = is_release v;
        oracle_violations = count_if is_oracle st2.violations;
        nviol =
            st2.violation_count
            + (if nat_beq closed 0 then 0 else 1)
            + (if is_release v then 0 else 1);
      }

  -- The status that `main` returns.
  unfoldable pub exit_status : Report → ℕ
  exit_status r = if nat_beq r.nviol 0 then 0 else 1

  submitted :
      (n : Node) (run key : String)
      → (handle mac_ok threshold n (submit run key false)).1
        ≡ from_admission (submit_verdict (phase n.gate (run, key)) false)
  unfolding handle answer
  submitted n run key = ap from_admission (submit-verdict n.gate (effect run key false))

  -- A probe of a dead identity is refused and changes no phase.
  module _ (n : Node) (d : IsDurable n) (run key : String)
      (dead : node_dead n (run, key) ≡ true) where
    refuses : is_release (handle mac_ok threshold n (submit run key false)).1 ≡ false
    refuses = ap is_release (submitted n run key) ∙ by_phase (phase n.gate (run, key)) dead
      where
        by_phase :
            (p : Phase)
            → is_dead p ≡ true
            → is_release (from_admission (submit_verdict p false)) ≡ false
        by_phase p h = ground (arith, h)

    same_phase :
        (j : String × String)
        → phase (handle mac_ok threshold n (submit run key false)).0.gate j ≡ phase n.gate j
    same_phase (a, b) =
        phase-handle mac_ok threshold n (submit run key false) (a, b) d
        ∙ elim (Bool-cases (run == a && key == b)) [
          | inl here ↦
              let ea : run ≡ a = (eq_iff run a).0 (ground (arith, here)) in
              let eb : key ≡ b = (eq_iff key b).0 (ground (arith, here)) in
              rw here (settled (phase n.gate (a, b)) (rw (← ea, ← eb) dead))
          | inr other ↦ rw other refl
        ]

  record Unchanged (n n' : Node) : Type 0 where
    durable_still : IsDurable n'
    phases : (j : String × String) → phase n'.gate j ≡ phase n.gate j

  probe-Unchanged :
      (is : List (String × String)) (n : Node) (st : Stats) (refused : ℕ)
      → IsDurable n
      → All (λ i. node_dead n i ≡ true) is
      → let (n', st', refused') = probe is n st refused in
        Unchanged n n' × (st' ≡ st) × (refused' ≡ refused + length is)
  unfolding probe
  probe-Unchanged [] n st refused d h =
      (record { durable_still = d; phases = λ j. refl }, refl, omega arith)
  probe-Unchanged ((run, key) ∷ is) n st refused d h =
      let n1 = (handle mac_ok threshold n (submit run key false)).0 in
      let no = refuses n d run key h.0 in
      let same = same_phase n d run key h.0 in
      let d1 = handle-IsDurable mac_ok threshold n (submit run key false) d in
      let (u, e, count) = probe-Unchanged is n1 st (refused + 1) d1 (still_dead is n n1 same h.1) in
      let step =
        ap
          (λ (b : Bool).
            probe is n1 (if b then violation (re_released run key) st else st)
              (if b then refused else refused + 1))
          no in
      subst
        (λ (r : Node × Stats × ℕ).
          Unchanged n r.0 × (r.1 ≡ st) × (r.2 ≡ refused + length ((run, key) ∷ is)))
        (sym step)
        (
          record { durable_still = u.durable_still; phases = λ j. u.phases j ∙ same j },
          e,
          omega (arith, count),
        )

  -- After the last crash of a durable gate server that answers again, where every sampled identity is
  -- dead and the fresh one is unseen: the census finds no closed run with records, every sampled
  -- identity is refused, fresh work is released, and the status is 0 exactly if the soak before counted
  -- no violation.
  pub finish_soak-Passes :
      (n : Node) (st : Stats)
      → IsDurable n
      → All (λ i. node_dead n i ≡ true) st.reservoir
      → phase n.gate ("post-soak-fresh", "k") ≡ fresh
      → let r = finish_soak true n st in
        (r.closed_with_ident ≡ 0)
        × (r.refused ≡ length st.reservoir)
        × (r.fresh_released ≡ true)
        × (r.nviol ≡ st.violation_count)
        × ((exit_status r ≡ 0) ↔ (st.violation_count ≡ 0))
  unfolding finish_soak exit_status
  finish_soak-Passes n st d h f =
      let d1 = recover-IsDurable n d in
      let census = wal_census-recover n in
      let (u, e, count) =
        probe-Unchanged st.reservoir (recover n) st 0 d1 (recovered_dead st.reservoir n d h) in
      let n2 = (probe st.reservoir (recover n) st 0).0 in
      let unseen : phase n2.gate ("post-soak-fresh", "k") ≡ fresh =
        u.phases ("post-soak-fresh", "k")
        ∙ recovered_phase n ("post-soak-fresh", "k") d
        ∙ rw f refl in
      let ok : is_release (handle mac_ok threshold n2 (submit "post-soak-fresh" "k" false)).1
          ≡ true =
        ap is_release (submitted n2 "post-soak-fresh" "k") ∙ rw unseen refl in
      let same = ap (λ (s : Stats). s.violation_count) e in
      (
        census,
        omega (arith, count),
        ok,
        ground (arith, same, ok, census),
        (λ z. ground (arith, z, same, ok, census), λ z. ground (arith, z, same, ok, census)),
      )
