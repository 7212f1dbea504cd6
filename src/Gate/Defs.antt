-- ===== src/Gate/Defs.antt =====
-- soundgate/src/lib.rs: the gate's state and its operations. A method that takes `&mut self` returns
-- the new gate, with its verdict where it has one. Hash sets and the hash map are lists read
-- through membership tests; they are never iterated in an order that matters, but for
-- `durable_events`, whose sort is left out because replay does not depend on the order.
use soundgate_paper.Prelude.{
  String, Bool, not, ◌||◌, none, some, List, [], ◌∷◌, ◌++◌, map, ◌==◌, keep, contains, insert,
  lookup, put, keep_keys, erase, is_some, if◌then◌else◌, string_eq, pair_eq,
}

abbrev pub EffectId : Type 0
EffectId = String × String

pub record Effect : Type 0 where
  pub run_id : String
  pub effect_key : String
  pub needs_approval : Bool

abbrev pub id : Effect → EffectId
id e = (e.run_id, e.effect_key)

pub data Admission : Type 0 where
  release held_for_approval refused_cancelled refused_duplicate refused_rejected : Admission

pub data Event : Type 0 where
  released : EffectId → Event
  rejected : EffectId → Event
  cancelled : String → Event
  closed : String → Event

pub record Gate : Type 0 where
  pub released : List EffectId
  pub cancelled : List String
  pub pending : List (EffectId × Effect)
  pub rejected : List EffectId
  pub closed : List String

abbrev pub empty : Gate
empty = record { released = []; cancelled = []; pending = []; rejected = []; closed = [] }

-- A run is fenced once it is cancelled or closed.
abbrev pub is_fenced : Gate → String → Bool
is_fenced g run_id = contains g.cancelled run_id || contains g.closed run_id

unfoldable pub submit : Gate → Effect → Gate × Admission
submit g e =
    if is_fenced g e.run_id
    then (g, refused_cancelled)
    else if contains g.released (id e)
    then (g, refused_duplicate)
    else if contains g.rejected (id e)
    then (g, refused_rejected)
    else if is_some (lookup g.pending (id e))
    then (g, held_for_approval)
    else if e.needs_approval
    then (record g { pending = put (id e) e g.pending }, held_for_approval)
    else (record g { released = insert (id e) g.released }, release)

-- The `None` arm of `decide`: nothing is held under this identity.
decide_unknown : Gate → EffectId → Bool → Gate × Admission
decide_unknown g i approved =
    if is_fenced g i.0
    then (g, refused_cancelled)
    else if contains g.released i
    then (g, refused_duplicate)
    else if not approved
    then (record g { rejected = insert i g.rejected }, refused_rejected)
    else (g, refused_duplicate)

-- The rest of `decide`, for the effect taken out of `pending`.
decide_held : Gate → EffectId → Effect → Bool → Gate × Admission
decide_held g i effect approved =
    if is_fenced g effect.run_id
    then (g, refused_cancelled)
    else if approved
    then (record g { released = insert i g.released }, release)
    else (record g { rejected = insert i g.rejected }, refused_rejected)

unfoldable pub decide : Gate → EffectId → Bool → Gate × Admission
unfolding decide_unknown decide_held
decide g i approved = elim (lookup g.pending i) [
  | none ↦ decide_unknown g i approved
  | some effect ↦ decide_held (record g { pending = erase i g.pending }) i effect approved
]

unfoldable pub cancel : Gate → String → Gate
cancel g run_id = record g {
  cancelled = insert run_id g.cancelled;
  pending = keep_keys (λ i. not (i.0 == run_id)) g.pending;
}

unfoldable pub close_run : Gate → String → Gate
close_run g run_id = record g {
  closed = insert run_id g.closed;
  released = keep (λ i. not (i.0 == run_id)) g.released;
  rejected = keep (λ i. not (i.0 == run_id)) g.rejected;
  pending = keep_keys (λ i. not (i.0 == run_id)) g.pending;
}

-- Replay of one record of the write-ahead log.
unfoldable pub apply : Gate → Event → Gate
unfolding cancel close_run
apply g (Event.released i) =
    if contains g.closed i.0 then g else record g { released = insert i g.released }
apply g (Event.rejected i) =
    if contains g.closed i.0 then g else record g { rejected = insert i g.rejected }
apply g (Event.cancelled run_id) = cancel g run_id
apply g (Event.closed run_id) = close_run g run_id

unfoldable pub replay : Gate → List Event → Gate
unfolding apply
replay g [] = g
replay g (ev ∷ log) = replay (apply g ev) log

unfoldable pub durable_events : Gate → List Event
durable_events g =
    map Event.closed g.closed
    ++ (map Event.cancelled g.cancelled
        ++ (map Event.released g.released ++ map Event.rejected g.rejected))
