-- ===== src/Node/Safe.antt =====
-- The gate server is a safe server: what the clients' theorems assume of a gate, this one gives.
use soundgate_paper.Prelude.{
  ℕ, String, ◌≡◌, ◌∙◌, ap, Bool, true, false, Option, arith, string_eq, pair_eq, eq_iff,
}
use soundgate_paper.Wire.{
  Request, submit, decide, cancel, close, ping, is_release, is_rejected, is_about, is_fence, Server,
}
use soundgate_paper.Wire.Laws.{IsSafe}
use soundgate_paper.Gate.Defs.{EffectId, Gate}
use soundgate_paper.Gate.Phase.{Phase, fresh, held, done, denied, fenced, phase, durable, IsValid}
use soundgate_paper.Gate.Refines.{submit-verdict, decide-verdict, phase-submit, phase-decide}
use soundgate_paper.Node.Defs.{Node, effect, answer, handle, recover}
use soundgate_paper.Node.Rebuilds.{phase-answer}
use soundgate_paper.Node.Invariant.{IsDurable, gate-handle, handle-IsDurable, recover-IsDurable}

abbrev pub is_dead : Phase → Bool
is_dead fresh = false
is_dead held = false
is_dead done = true
is_dead denied = true
is_dead fenced = true

abbrev pub node_dead : Node → EffectId → Bool
node_dead n i = is_dead (phase n.gate i)

module _ (mac_ok : String → String → Bool → Option String → Bool) where
  answer-release_names :
      (g : Gate) (q : Request)
      → is_release (answer mac_ok g q).1 ≡ true
      → (i : EffectId) × (is_about q i ≡ true)
  unfolding answer
  answer-release_names g (submit run key needs) h =
      ((run, key), ground (arith, eq_iff run run, eq_iff key key))
  answer-release_names g (decide run key approved mac) h =
      ((run, key), ground (arith, eq_iff run run, eq_iff key key))
  answer-release_names g (cancel run) h = cc
  answer-release_names g (close run) h = cc
  answer-release_names g ping h = cc

  module _ (g : Gate) (v : IsValid g) (i : EffectId) where
    answer-release :
        (q : Request)
        → is_about q i ≡ true
        → is_release (answer mac_ok g q).1 ≡ true
        → (is_dead (phase g i) ≡ false) × (is_dead (phase (answer mac_ok g q).0 i) ≡ true)
    unfolding answer
    answer-release (submit run key needs) about h = ground (
      arith,
      submit-verdict g (effect run key needs),
      phase-submit g (effect run key needs) i,
      eq_iff run i.0,
      eq_iff key i.1,
    )
    answer-release (decide run key approved mac) about h = ground (
      arith,
      decide-verdict g (run, key) approved v,
      phase-decide g (run, key) approved i v,
      eq_iff run i.0,
      eq_iff key i.1,
    )
    answer-release (cancel run) about h = cc
    answer-release (close run) about h = cc
    answer-release ping about h = cc

    answer-rejected :
        (q : Request)
        → is_about q i ≡ true
        → is_rejected (answer mac_ok g q).1 ≡ true
        → is_dead (phase (answer mac_ok g q).0 i) ≡ true
    unfolding answer
    answer-rejected (submit run key needs) about h = ground (
      arith,
      submit-verdict g (effect run key needs),
      phase-submit g (effect run key needs) i,
      eq_iff run i.0,
      eq_iff key i.1,
    )
    answer-rejected (decide run key approved mac) about h = ground (
      arith,
      decide-verdict g (run, key) approved v,
      phase-decide g (run, key) approved i v,
      eq_iff run i.0,
      eq_iff key i.1,
    )
    answer-rejected (cancel run) about h = cc
    answer-rejected (close run) about h = cc
    answer-rejected ping about h = cc

    answer-fence :
        (q : Request) → is_fence q i.0 ≡ true → is_dead (phase (answer mac_ok g q).0 i) ≡ true
    answer-fence (cancel run) h = rw (phase-answer mac_ok g (cancel run) i v) (ground arith)
    answer-fence (close run) h = rw (phase-answer mac_ok g (close run) i v) (ground arith)
    answer-fence (submit run key needs) h = cc
    answer-fence (decide run key approved mac) h = cc
    answer-fence ping h = cc

    answer-dead :
        (q : Request) → is_dead (phase g i) ≡ true → is_dead (phase (answer mac_ok g q).0 i) ≡ true
    answer-dead (submit run key needs) h =
        ground (arith, phase-answer mac_ok g (submit run key needs) i v)
    answer-dead (decide run key approved mac) h =
        ground (arith, phase-answer mac_ok g (decide run key approved mac) i v)
    answer-dead (cancel run) h = ground (arith, phase-answer mac_ok g (cancel run) i v)
    answer-dead (close run) h = ground (arith, phase-answer mac_ok g (close run) i v)
    answer-dead ping h = ground (arith, phase-answer mac_ok g ping i v)

abbrev pub server : (String → String → Bool → Option String → Bool) → ℕ → Server
server mac_ok threshold = record { State = Node; call = handle mac_ok threshold; restart = recover }

durable-dead : (p : Phase) → is_dead (durable p) ≡ is_dead p
durable-dead p = ground arith

pub recover-dead : (n : Node) (i : EffectId) → IsDurable n → node_dead (recover n) i ≡ node_dead n i
unfolding recover
recover-dead n i d = ap is_dead (d.rebuilds.exact i) ∙ durable-dead (phase n.gate i)

-- Whatever the tag check and the compaction threshold, the durable gate is a safe server.
pub server-IsSafe :
    (mac_ok : String → String → Bool → Option String → Bool) (threshold : ℕ)
    → IsSafe (server mac_ok threshold) IsDurable node_dead
unfolding handle
server-IsSafe mac_ok threshold = record {
  call-Inv = handle-IsDurable mac_ok threshold;
  restart-Inv = recover-IsDurable;
  release_names = λ n q d h. answer-release_names mac_ok n.gate q h;
  release_live = λ n q i d about h. (answer-release mac_ok n.gate d.valid i q about h).0;
  release_kills = λ n q i d about h.
      rw (gate-handle mac_ok threshold n q) (answer-release mac_ok n.gate d.valid i q about h).1;
  reject_kills = λ n q i d about h.
      rw (gate-handle mac_ok threshold n q) (answer-rejected mac_ok n.gate d.valid i q about h);
  fence_kills = λ n q i d about h.
      rw (gate-handle mac_ok threshold n q) (answer-fence mac_ok n.gate d.valid i q about);
  dead_stays =
      λ n q i d h. rw (gate-handle mac_ok threshold n q) (answer-dead mac_ok n.gate d.valid i q h);
  dead_restarts = λ n i d h. recover-dead n i d ∙ h;
}
