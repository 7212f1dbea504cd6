-- ===== src/Fuzz/Noise.antt =====
-- What a class of malformed inputs leaves: the counts without a failure, and on the gate server the
-- canaries and the cases to come as they were, if it took only requests of other runs.
use soundgate_paper.Prelude.{
  ℕ, String, ◌≡◌, refl, ◌∙◌, true, none, some, List, [], ◌∷◌, arith, All, string_eq, pair_eq,
  eq_iff, count_if,
}
use soundgate_paper.Wire.{Request, submit, decide, cancel, close, ping}
use soundgate_paper.Gate.Phase.{phase}
use soundgate_paper.Node.Defs.{Node}
use soundgate_paper.Node.Invariant.{IsDurable, handle-IsDurable}
use soundgate_paper.Node.Phases.{open_door, phase-handle}
use soundgate_paper.Soak.Run.Quiet.{is_foreign}
use soundgate_paper.Fuzz.Socket.{Raw, reply, closed_raw, timeout, sent}
use soundgate_paper.Fuzz.Campaign.{Failure, Counts, count_kind, batch, judge, Case}
use soundgate_paper.Fuzz.Counting.{opened}
use soundgate_paper.Fuzz.Semantic.{gate, step, Unseen}
use soundgate_paper.Fuzz.Canaries.{Planted}
use soundgate_paper.Fuzz.Main.{absorb}

pub batch-clean :
    (cls : String) (raws : List Raw) (c : Counts) (fs : List Failure)
    → count_if opened raws ≡ 0
    → (batch cls raws (c, fs)).1 ≡ fs
unfolding batch count_kind count_if
batch-clean cls [] c fs h = refl
batch-clean cls (closed_raw ∷ raws) c fs h = batch-clean cls raws _ fs (omega (arith, h))
batch-clean cls (timeout ∷ raws) c fs h = batch-clean cls raws _ fs (omega (arith, h))
batch-clean cls (sent ∷ raws) c fs h = batch-clean cls raws _ fs (omega (arith, h))
batch-clean cls (reply none ∷ raws) c fs h = batch-clean cls raws _ fs (omega (arith, h))
batch-clean cls (reply (some v) ∷ raws) c fs h =
    let (c1, fs1) = judge cls (some v) (count_kind (reply (some v)) c, fs) in
    batch-clean cls raws c1 fs1 (ground arith) ∙ ground arith

abbrev pub Foreign : String → List Request → Type 0
Foreign run = All (λ q. is_foreign run q ≡ true)

module _ (threshold : ℕ) where
  pub foreign_step :
      (n : Node) (q : Request) (i : String × String)
      → IsDurable n
      → is_foreign i.0 q ≡ true
      → phase (step threshold q n).gate i ≡ phase n.gate i
  foreign_step n (submit r l needs) i d h =
      phase-handle open_door threshold n (submit r l needs) i d ∙ ground (arith, eq_iff r i.0)
  foreign_step n (decide r l approved mac) i d h =
      phase-handle open_door threshold n (decide r l approved mac) i d
      ∙ ground (arith, eq_iff r i.0)
  foreign_step n (cancel r) i d h =
      phase-handle open_door threshold n (cancel r) i d ∙ ground (arith, eq_iff r i.0)
  foreign_step n (close r) i d h =
      phase-handle open_door threshold n (close r) i d ∙ ground (arith, eq_iff r i.0)
  foreign_step n ping i d h = phase-handle open_door threshold n ping i d

  absorb-phase :
      (i : String × String) (qs : List Request) (n : Node)
      → IsDurable n
      → Foreign i.0 qs
      → phase (absorb (gate threshold) qs n).gate i ≡ phase n.gate i
  unfolding absorb
  absorb-phase i [] n d f = refl
  absorb-phase i (q ∷ qs) n d f =
      absorb-phase i qs (step threshold q n) (handle-IsDurable open_door threshold n q d) f.1
      ∙ foreign_step n q i d f.0

  absorb-IsDurable :
      (qs : List Request) (n : Node) → IsDurable n → IsDurable (absorb (gate threshold) qs n)
  unfolding absorb
  absorb-IsDurable [] n d = d
  absorb-IsDurable (q ∷ qs) n d =
      absorb-IsDurable qs (step threshold q n) (handle-IsDurable open_door threshold n q d)

  pub absorb-Planted :
      (qs : List Request) (n : Node)
      → Foreign "canary_run" qs
      → Foreign "fenced_run" qs
      → Planted threshold n
      → Planted threshold (absorb (gate threshold) qs n)
  absorb-Planted qs n c f p = record {
    durable = absorb-IsDurable qs n p.durable;
    held_canary = absorb-phase ("canary_run", "held_key") qs n p.durable c ∙ p.held_canary;
    released_canary =
        absorb-phase ("canary_run", "released_key") qs n p.durable c ∙ p.released_canary;
    fenced_canary = absorb-phase ("fenced_run", "any") qs n p.durable f ∙ p.fenced_canary;
  }

  pub absorb-Unseen :
      (cs : List Case) (qs : List Request) (n : Node)
      → All (λ (c : Case). Foreign c.rid qs) cs
      → IsDurable n
      → Unseen threshold n cs
      → Unseen threshold (absorb (gate threshold) qs n) cs
  absorb-Unseen [] qs n f d u = tt
  absorb-Unseen (c ∷ cs) qs n f d u =
      (absorb-phase (c.rid, c.key) qs n d f.0 ∙ u.0, u.1, absorb-Unseen cs qs n f.1 d u.2)
