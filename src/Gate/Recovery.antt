-- ===== src/Gate/Recovery.antt =====
-- Replaying the snapshot of `durable_events` rebuilds the gate up to its holds.
use soundgate_paper.Prelude.{
  String, ◌≡◌, refl, ◌∙◌, ◌⊎◌, not, ◌&&◌, ◌||◌, List, [], ◌∷◌, ◌++◌, map, contains, insert, lookup,
  keep, keep_keys, arith, string_eq, pair_eq, contains-insert, if◌then◌else◌, eq_iff,
}
use soundgate_paper.Gate.Defs.{EffectId, Gate, Event, empty, apply, replay, durable_events}
use soundgate_paper.Gate.Phase.{phase, durable, fresh, denied, IsValid}
use soundgate_paper.Gate.Valid.{cancel-IsValid, close_run-IsValid}

pub replay-append :
    (g : Gate) (log : List Event) (ev : Event) → replay g (log ++ ev ∷ []) ≡ apply (replay g log) ev
unfolding replay
replay-append g [] ev = refl
replay-append g (e ∷ log) ev = replay-append (apply g e) log ev

-- The set that a loop of insertions builds.
insert_all : List String → List String → List String
insert_all [] ys = ys
insert_all (x ∷ xs) ys = insert_all xs (insert x ys)

contains-insert_all :
    (xs ys : List String) (r : String)
    → contains (insert_all xs ys) r ≡ (contains xs r || contains ys r)
unfolding insert_all contains
contains-insert_all [] ys r = refl
contains-insert_all (x ∷ xs) ys r =
    ground (arith, contains-insert_all xs (insert x ys) r, contains-insert x r ys)

-- The same for identities, without those of the closed runs `c`.
insert_open : List String → List EffectId → List EffectId → List EffectId
insert_open c [] ys = ys
insert_open c (i ∷ xs) ys = insert_open c xs (if contains c i.0 then ys else insert i ys)

contains-insert_open :
    (c : List String) (xs ys : List EffectId) (j : EffectId)
    → contains (insert_open c xs ys) j ≡ ((not (contains c j.0) && contains xs j) || contains ys j)
unfolding insert_open contains
contains-insert_open c [] ys j = ground arith
contains-insert_open c (i ∷ xs) ys j = ground (
  arith,
  contains-insert_open c xs ys j,
  contains-insert_open c xs (insert i ys) j,
  contains-insert i j ys,
  eq_iff i.0 j.0,
  eq_iff i.1 j.1,
)

module _ (rest : List Event) where
  replay_closed :
      (xs c : List String)
      → replay (record empty { closed = c }) (map Event.closed xs ++ rest)
        ≡ replay (record empty { closed = insert_all xs c }) rest
  unfolding replay insert_all keep keep_keys
  replay_closed [] c = refl
  replay_closed (x ∷ xs) c = replay_closed xs (insert x c)

  replay_cancelled :
      (xs c d : List String)
      → replay (record empty { closed = c; cancelled = d }) (map Event.cancelled xs ++ rest)
        ≡ replay (record empty { closed = c; cancelled = insert_all xs d }) rest
  unfolding replay insert_all keep keep_keys
  replay_cancelled [] c d = refl
  replay_cancelled (x ∷ xs) c d = replay_cancelled xs c (insert x d)

  replay_released :
      (xs : List EffectId) (g : Gate)
      → replay g (map Event.released xs ++ rest)
        ≡ replay (record g { released = insert_open g.closed xs g.released }) rest
  unfolding replay insert_open
  replay_released [] g = refl
  replay_released (i ∷ xs) g = ground (
    arith,
    replay_released xs g,
    replay_released xs (record g { released = insert i g.released }),
  )

replay_rejected :
    (xs : List EffectId) (g : Gate)
    → replay g (map Event.rejected xs) ≡ record g { rejected = insert_open g.closed xs g.rejected }
unfolding replay insert_open
replay_rejected [] g = refl
replay_rejected (i ∷ xs) g =
    ground (
      arith,
      replay_rejected xs g,
      replay_rejected xs (record g { rejected = insert i g.rejected }),
    )

abbrev rebuilt : Gate → Gate
rebuilt g =
    let c = insert_all g.closed [] in
    record {
      released = insert_open c g.released [];
      cancelled = insert_all g.cancelled [];
      pending = [];
      rejected = insert_open c g.rejected [];
      closed = c;
    }

replay-durable_events : (g : Gate) → replay empty (durable_events g) ≡ rebuilt g
unfolding durable_events
replay-durable_events g =
    replay_closed _ g.closed []
    ∙ replay_cancelled _ g.cancelled (insert_all g.closed []) []
    ∙ replay_released _ g.released _
    ∙ replay_rejected g.rejected _

-- Replaying the snapshot puts every identity into the phase it had, its hold apart.
pub phase-durable_events :
    (g : Gate) (j : EffectId) → phase (replay empty (durable_events g)) j ≡ durable (phase g j)
unfolding phase contains lookup
phase-durable_events g j = rw replay-durable_events (
    ground (
      arith,
      contains-insert_all g.closed [] j.0,
      contains-insert_all g.cancelled [] j.0,
      contains-insert_open (insert_all g.closed []) g.released [] j,
      contains-insert_open (insert_all g.closed []) g.rejected [] j,
    ))

pub durable_events-IsValid : (g : Gate) → IsValid g → IsValid (replay empty (durable_events g))
unfolding contains lookup
durable_events-IsValid g v = rw replay-durable_events (record {
  held_open = λ i e h. cc;
  one_outcome = λ i. ground (
    arith,
    v.one_outcome i,
    contains-insert_open (insert_all g.closed []) g.released [] i,
    contains-insert_open (insert_all g.closed []) g.rejected [] i,
  );
})

-- Replaying a record keeps the invariant if it fits the phase of its identity.
abbrev pub Fits : Gate → Event → Type 0
Fits g (Event.released i) = phase g i ≡ fresh
Fits g (Event.rejected i) = (phase g i ≡ fresh) ⊎ (phase g i ≡ denied)
Fits g (Event.cancelled r) = Unit
Fits g (Event.closed r) = Unit

pub apply-IsValid : (g : Gate) (ev : Event) → Fits g ev → IsValid g → IsValid (apply g ev)
unfolding apply phase
apply-IsValid g (Event.cancelled r) fits v = cancel-IsValid g r v
apply-IsValid g (Event.closed r) fits v = close_run-IsValid g r v
apply-IsValid g (Event.released i) fits v = record {
  held_open = λ j e h.
      ground
        (arith, v.held_open j e, contains-insert i j g.released, eq_iff i.0 j.0, eq_iff i.1 j.1);
  one_outcome = λ j.
      ground
        (arith, v.one_outcome j, contains-insert i j g.released, eq_iff i.0 j.0, eq_iff i.1 j.1);
}
apply-IsValid g (Event.rejected i) fits v = record {
  held_open = λ j e h.
      ground
        (arith, v.held_open j e, contains-insert i j g.rejected, eq_iff i.0 j.0, eq_iff i.1 j.1);
  one_outcome = λ j.
      ground
        (arith, v.one_outcome j, contains-insert i j g.rejected, eq_iff i.0 j.0, eq_iff i.1 j.1);
}
