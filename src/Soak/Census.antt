-- ===== src/Soak/Census.antt =====
-- soundgate/scripts/soak_wal.py, `wal_census`: the records of the log by kind, and how many closed runs
-- still have records of their identities.
pub mod Bounded
use soundgate_paper.Prelude.{
  ℕ, ◌+◌, String, ◌≡◌, refl, sym, ap, ◌∙◌, Bool, true, false, not, ◌&&◌, ◌||◌, Option, none, some,
  List, [], ◌∷◌, ◌++◌, length, map, arith, any, keep, contains, insert, contains-insert, Bool-cases,
  inl, inr, ◌==◌, string_eq, pair_eq, eq_iff, lookup, put, if◌then◌else◌,
}
use soundgate_paper.Gate.Defs.{
  EffectId, Gate, Event, released, cancelled, rejected, closed, empty, apply, replay,
  durable_events, close_run, cancel,
}
use soundgate_paper.Node.Defs.{Node, recover, saw_closed}

pub record Census : Type 0 where
  pub kinds : List (String × ℕ)
  pub closed_runs : List String
  pub ident_runs : List String

unfoldable pub kind_name : Event → String
kind_name (released i) = "released"
kind_name (cancelled run) = "cancelled"
kind_name (rejected i) = "rejected"
kind_name (closed run) = "closed"

-- `kinds[ev["ev"]] += 1`
unfoldable pub count_kind : Event → List (String × ℕ) → List (String × ℕ)
unfolding kind_name
count_kind ev kinds =
    put (kind_name ev) (elim (lookup kinds (kind_name ev)) [ none ↦ 1 | some n ↦ n + 1 ]) kinds

unfoldable pub add_runs : Event → Census → Census
add_runs (closed run) c = record c { closed_runs = insert run c.closed_runs }
add_runs (released i) c = record c { ident_runs = insert i.0 c.ident_runs }
add_runs (rejected i) c = record c { ident_runs = insert i.0 c.ident_runs }
add_runs (cancelled run) c = c

unfoldable pub census_from : Census → List Event → Census
unfolding count_kind add_runs
census_from c [] = c
census_from c (ev ∷ log) =
    census_from (add_runs ev (record c { kinds = count_kind ev c.kinds })) log

unfoldable pub closed_with_ident : Census → ℕ
closed_with_ident c = length (keep (contains c.ident_runs) c.closed_runs)

-- The two results of `wal_census`.
unfoldable pub wal_census : List Event → List (String × ℕ) × ℕ
unfolding census_from closed_with_ident
wal_census log =
    let c = census_from (record { kinds = []; closed_runs = []; ident_runs = [] }) log in
    (c.kinds, closed_with_ident c)

abbrev pub is_closed : String → Event → Bool
is_closed r (closed run) = run == r
is_closed r (released i) = false
is_closed r (rejected i) = false
is_closed r (cancelled run) = false

abbrev pub is_ident : String → Event → Bool
is_ident r (closed run) = false
is_ident r (released i) = i.0 == r
is_ident r (rejected i) = i.0 == r
is_ident r (cancelled run) = false

pub census_from-contains :
    (r : String) (log : List Event) (c : Census)
    → (contains (census_from c log).closed_runs r
        ≡ contains c.closed_runs r || any (is_closed r) log)
      × (contains (census_from c log).ident_runs r
          ≡ contains c.ident_runs r || any (is_ident r) log)
unfolding census_from add_runs any
census_from-contains r [] c = (ground arith, ground arith)
census_from-contains r (ev ∷ log) c =
    let c1 = add_runs ev (record c { kinds = count_kind ev c.kinds }) in
    let (h, k) = census_from-contains r log c1 in by_kind ev h k
  where
    by_kind :
        (e : Event)
        → let c1 = add_runs e (record c { kinds = count_kind e c.kinds }) in
          contains (census_from c1 log).closed_runs r
            ≡ contains c1.closed_runs r || any (is_closed r) log
          → contains (census_from c1 log).ident_runs r
            ≡ contains c1.ident_runs r || any (is_ident r) log
          → (contains (census_from c1 log).closed_runs r
              ≡ contains c.closed_runs r || (is_closed r e || any (is_closed r) log))
            × (contains (census_from c1 log).ident_runs r
                ≡ contains c.ident_runs r || (is_ident r e || any (is_ident r) log))
    by_kind (closed run) h k =
        (ground (arith, h, contains-insert run r c.closed_runs), ground (arith, k))
    by_kind (released i) h k =
        (ground (arith, h), ground (arith, k, contains-insert i.0 r c.ident_runs))
    by_kind (rejected i) h k =
        (ground (arith, h), ground (arith, k, contains-insert i.0 r c.ident_runs))
    by_kind (cancelled run) h k = (ground (arith, h), ground (arith, k))
