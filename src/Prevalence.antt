-- ===== src/Prevalence.antt =====
-- prevalence/tau_extract.py: how many of tau-bench's tasks have several consequential writes. A task
-- is the names of its actions; the tasks themselves are tau-bench's.
pub mod Counts
use soundgate_paper.Prelude.{
  ℕ, ◌+◌, String, Bool, true, false, ◌&&◌, ◌||◌, Option, none, some, List, [], ◌∷◌, ◌++◌, length,
  keep, contains, lookup, put, leb, nat_eq, string_eq, if◌then◌else◌,
}

abbrev pub retail_writes : List String
retail_writes =
    "cancel_pending_order" ∷ "exchange_delivered_order_items" ∷ "modify_pending_order_address"
    ∷ "modify_pending_order_items" ∷ "modify_pending_order_payment" ∷ "modify_user_address"
    ∷ "return_delivered_order_items" ∷ []

abbrev pub airline_writes : List String
airline_writes =
    "book_reservation" ∷ "cancel_reservation" ∷ "send_certificate" ∷ "update_reservation_baggages"
    ∷ "update_reservation_flights" ∷ "update_reservation_passengers" ∷ []

pub record Row : Type 0 where
  pub index : ℕ
  pub n_gold_actions : ℕ
  pub write_actions : List String
  pub n_writes : ℕ
  pub ge2_writes : Bool
  pub adjacent_write_pair : Bool

-- The rows of the tasks read so far, and `ge2`, `adj` and `dist`.
pub record Extract : Type 0 where
  pub rows : List Row
  pub ge2 : ℕ
  pub adj : ℕ
  pub dist : List (ℕ × ℕ)

abbrev pub as_number : Bool → ℕ
as_number b = if b then 1 else 0

abbrev pub or_zero : Option ℕ → ℕ
or_zero none = 0
or_zero (some n) = n

module _ (W : List String) where
  unfoldable pub has_adjacent : List String → Bool
  has_adjacent [] = false
  has_adjacent (n ∷ []) = false
  has_adjacent (n ∷ m ∷ names) = (contains W n && contains W m) || has_adjacent (m ∷ names)

  -- A turn of the loop over the tasks.
  unfoldable pub take_task : ℕ → List String → Extract → Extract
  unfolding has_adjacent
  take_task i names x =
      let writes = keep (contains W) names in
      let many = leb 2 (length writes) in
      record {
        rows =
            x.rows
            ++ record {
              index = i;
              n_gold_actions = length names;
              write_actions = writes;
              n_writes = length writes;
              ge2_writes = many;
              adjacent_write_pair = has_adjacent names;
            }
              ∷ [];
        ge2 = x.ge2 + as_number many;
        adj = x.adj + as_number (has_adjacent names);
        dist = put (length writes) (or_zero (lookup x.dist (length writes)) + 1) x.dist;
      }

  unfoldable pub extract_from : ℕ → List (List String) → Extract → Extract
  unfolding take_task
  extract_from i [] x = x
  extract_from i (names ∷ tasks) x = extract_from (i + 1) tasks (take_task i names x)

  unfoldable pub extract : List (List String) → Extract
  unfolding extract_from
  extract tasks = extract_from 0 tasks (record { rows = []; ge2 = 0; adj = 0; dist = [] })
