-- ===== src/Soak/Census/Bounded.antt =====
-- After a recovery no closed run keeps a record of its identities.
use soundgate_paper.Prelude.{
  String, ◌≡◌, refl, ap, Bool, true, false, not, ◌&&◌, ◌||◌, List, [], ◌∷◌, ◌++◌, length, map,
  arith, any, keep, contains, insert, contains-insert, Bool-cases, inl, inr, ◌==◌, string_eq,
  pair_eq, eq_iff,
}
use soundgate_paper.Gate.Defs.{
  EffectId, Gate, Event, released, cancelled, rejected, closed, empty, apply, replay,
  durable_events, close_run, cancel,
}
use soundgate_paper.Node.Defs.{Node, recover, saw_closed}
use soundgate_paper.Soak.Census.{
  Census, census_from, census_from-contains, closed_with_ident, wal_census, is_closed, is_ident,
}

abbrev has_run : String → EffectId → Bool
has_run r i = i.0 == r

among :
    (r : String) (i : EffectId) (ys : List EffectId)
    → contains ys i ≡ true
    → any (has_run r) ys ≡ has_run r i || any (has_run r) ys
unfolding contains any
among r i [] h = cc
among r i (y ∷ ys) h = elim (Bool-cases (contains ys i)) [
  | inl later ↦ ground (arith, among r i ys later)
  | inr not_later ↦ ground (arith, h, not_later, eq_iff y.0 i.0, eq_iff y.1 i.1)
]

any-insert :
    (r : String) (i : EffectId) (xs : List EffectId)
    → any (has_run r) (insert i xs) ≡ has_run r i || any (has_run r) xs
unfolding insert any
any-insert r i xs = elim (Bool-cases (contains xs i)) [
  | inl old ↦ rw old (among r i xs old)
  | inr new ↦ rw new refl
]

any-keep :
    (r q : String) (xs : List EffectId)
    → any (has_run r) (keep (λ i. not (i.0 == q)) xs) ≡ not (q == r) && any (has_run r) xs
unfolding keep any
any-keep r q [] = ground arith
any-keep r q (x ∷ xs) = ground (arith, any-keep r q xs, eq_iff x.0 q, eq_iff x.0 r, eq_iff q r)

-- A closed run has no identity left.
abbrev IsPurged : Gate → Type 0
IsPurged g =
    (r : String)
    → contains g.closed r ≡ true
    → (any (has_run r) g.released ≡ false) × (any (has_run r) g.rejected ≡ false)

apply-IsPurged : (g : Gate) (ev : Event) → IsPurged g → IsPurged (apply g ev)
unfolding apply close_run cancel
apply-IsPurged g (released i) p r h =
    let (no_rel, no_rej) = p r (ground (arith, h)) in
    (ground (arith, h, no_rel, any-insert r i g.released, eq_iff i.0 r), ground (arith, no_rej))
apply-IsPurged g (rejected i) p r h =
    let (no_rel, no_rej) = p r (ground (arith, h)) in
    (ground (arith, no_rel), ground (arith, h, no_rej, any-insert r i g.rejected, eq_iff i.0 r))
apply-IsPurged g (cancelled run) p r h = p r h
apply-IsPurged g (closed run) p r h = elim (Bool-cases (run == r)) [
  | inl same ↦ (
    ground (arith, same, any-keep r run g.released),
    ground (arith, same, any-keep r run g.rejected),
  )
  | inr other ↦
      let (no_rel, no_rej) = p r (ground (arith, h, other, contains-insert run r g.closed)) in
      (
        ground (arith, no_rel, any-keep r run g.released),
        ground (arith, no_rej, any-keep r run g.rejected),
      )
]

replay-IsPurged : (log : List Event) (g : Gate) → IsPurged g → IsPurged (replay g log)
unfolding replay
replay-IsPurged [] g p = p
replay-IsPurged (ev ∷ log) g p = replay-IsPurged log (apply g ev) (apply-IsPurged g ev p)

empty-IsPurged : IsPurged empty
unfolding contains
empty-IsPurged r h = cc

module _ (r : String) where
  any-append : (p : Event → Bool) (xs ys : List Event) → any p (xs ++ ys) ≡ any p xs || any p ys
  unfolding any
  any-append p [] ys = refl
  any-append p (x ∷ xs) ys = ground (arith, any-append p xs ys)

  none_of :
      {A : Type 0} (p : Event → Bool) (f : A → Event)
      → ((a : A) → p (f a) ≡ false)
      → (xs : List A) → any p (map f xs) ≡ false
  unfolding any
  none_of p f h [] = refl
  none_of p f h (x ∷ xs) = rw (h x) (none_of p f h xs)

  closed_of : (xs : List String) → any (is_closed r) (map closed xs) ≡ contains xs r
  unfolding any contains
  closed_of [] = refl
  closed_of (x ∷ xs) = ap (λ (b : Bool). (x == r) || b) (closed_of xs)

  released_of : (xs : List EffectId) → any (is_ident r) (map released xs) ≡ any (has_run r) xs
  unfolding any
  released_of [] = refl
  released_of (x ∷ xs) = ap (λ (b : Bool). has_run r x || b) (released_of xs)

  rejected_of : (xs : List EffectId) → any (is_ident r) (map rejected xs) ≡ any (has_run r) xs
  unfolding any
  rejected_of [] = refl
  rejected_of (x ∷ xs) = ap (λ (b : Bool). has_run r x || b) (rejected_of xs)

  snapshot_closed : (g : Gate) → any (is_closed r) (durable_events g) ≡ contains g.closed r
  unfolding durable_events
  snapshot_closed g = ground (
    arith,
    any-append (is_closed r) (map closed g.closed)
        (map cancelled g.cancelled ++ (map released g.released ++ map rejected g.rejected)),
    any-append (is_closed r) (map cancelled g.cancelled)
        (map released g.released ++ map rejected g.rejected),
    any-append (is_closed r) (map released g.released) (map rejected g.rejected),
    closed_of g.closed,
    none_of (is_closed r) cancelled (λ x. refl) g.cancelled,
    none_of (is_closed r) released (λ x. refl) g.released,
    none_of (is_closed r) rejected (λ x. refl) g.rejected,
  )

  snapshot_idents :
      (g : Gate)
      → any (is_ident r) (durable_events g)
        ≡ any (has_run r) g.released || any (has_run r) g.rejected
  unfolding durable_events
  snapshot_idents g = ground (
    arith,
    any-append (is_ident r) (map closed g.closed)
        (map cancelled g.cancelled ++ (map released g.released ++ map rejected g.rejected)),
    any-append (is_ident r) (map cancelled g.cancelled)
        (map released g.released ++ map rejected g.rejected),
    any-append (is_ident r) (map released g.released) (map rejected g.rejected),
    released_of g.released,
    rejected_of g.rejected,
    none_of (is_ident r) cancelled (λ x. refl) g.cancelled,
    none_of (is_ident r) closed (λ x. refl) g.closed,
  )

  none_closed : (log : List Event) → saw_closed log ≡ false → any (is_closed r) log ≡ false
  unfolding any saw_closed
  none_closed [] h = refl
  none_closed (closed run ∷ log) h = cc
  none_closed (released i ∷ log) h = none_closed log h
  none_closed (rejected i ∷ log) h = none_closed log h
  none_closed (cancelled run ∷ log) h = none_closed log h

  -- In the log of a recovered node, a run that is closed has no record of an identity.
  recovered :
      (n : Node)
      → any (is_closed r) (recover n).log ≡ true
      → any (is_ident r) (recover n).log ≡ false
  unfolding recover
  recovered n h = elim (Bool-cases (saw_closed n.log)) [
    | inl compacted ↦
        let g = replay empty n.log in
        let shut : contains g.closed r ≡ true = ground (arith, h, compacted, snapshot_closed g) in
        let (no_rel, no_rej) = replay-IsPurged n.log empty empty-IsPurged r shut in
        rw compacted (ground (arith, snapshot_idents g, no_rel, no_rej))
    | inr kept ↦ ground (arith, h, kept, none_closed n.log kept)
  ]

keep_none :
    (p : String → Bool) (xs : List String)
    → ((x : String) → contains xs x ≡ true → p x ≡ false)
    → keep p xs ≡ []
unfolding keep contains
keep_none p [] h = refl
keep_none p (x ∷ xs) h =
    rw (h x (ground (arith, eq_iff x x))) (keep_none p xs (λ y k. h y (ground (arith, k))))

-- Whatever the node and its log, after a recovery the census finds no closed run that keeps a record
-- of an identity.
pub wal_census-recover : (n : Node) → (wal_census (recover n).log).1 ≡ 0
unfolding wal_census closed_with_ident contains
wal_census-recover n =
    let none : Census = record { kinds = []; closed_runs = []; ident_runs = [] } in
    let c = census_from none (recover n).log in
    ap length (
      keep_none (contains c.ident_runs) c.closed_runs (λ x h.
        let (cl, id) = census_from-contains x (recover n).log none in
        ground (arith, h, cl, id, recovered x n (ground (arith, h, cl)))))
