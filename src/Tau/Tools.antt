-- ===== src/Tau/Tools.antt =====
-- soundgate/e2e/taubench_exposure.py, `CONSEQUENTIAL`, `BENIGN` and `classify`.
use soundgate_paper.Prelude.{
  String, ◌≡◌, refl, Bool, true, false, ◌&&◌, List, [], ◌∷◌, arith, contains, keep, string_eq,
  eq_iff, not,
}

pub data Domain : Type 0 where
  retail airline : Domain

unfoldable pub consequential : Domain → List String
consequential retail =
    "cancel_pending_order" ∷ "exchange_delivered_order_items" ∷ "modify_pending_order_address"
    ∷ "modify_pending_order_items" ∷ "modify_pending_order_payment" ∷ "modify_user_address"
    ∷ "return_delivered_order_items" ∷ []
consequential airline =
    "book_reservation" ∷ "cancel_reservation" ∷ "send_certificate" ∷ "update_reservation_baggages"
    ∷ "update_reservation_flights" ∷ "update_reservation_passengers" ∷ []

unfoldable pub benign : Domain → List String
benign retail =
    "find_user_id_by_email" ∷ "find_user_id_by_name_zip" ∷ "get_order_details"
    ∷ "get_product_details" ∷ "get_user_details" ∷ "list_all_product_types" ∷ []
benign airline =
    "get_reservation_details" ∷ "get_user_details" ∷ "list_all_airports" ∷ "search_direct_flight"
    ∷ "search_onestop_flight" ∷ []

unfoldable pub classify : List String → Domain → List String × List String
classify names env =
    (keep (λ n. contains (consequential env) n) names, keep (λ n. contains (benign env) n) names)

-- Lists without a common name.
abbrev disjoint : List String → List String → Bool
disjoint xs [] = true
disjoint xs (y ∷ ys) = not (contains xs y) && disjoint xs ys

disjoint_lem :
    (xs ys : List String) (n : String)
    → disjoint xs ys ≡ true
    → (contains xs n && contains ys n) ≡ false
unfolding contains
disjoint_lem xs [] n h = ground arith
disjoint_lem xs (y ∷ ys) n h = ground (arith, h, eq_iff y n, disjoint_lem xs ys n)

-- No tool is both consequential and benign.
pub consequential-benign :
    (env : Domain) (n : String)
    → (contains (consequential env) n && contains (benign env) n) ≡ false
unfolding consequential benign contains
consequential-benign retail n = disjoint_lem (consequential retail) (benign retail) n refl
consequential-benign airline n = disjoint_lem (consequential airline) (benign airline) n refl
