-- ===== src/Mem/BoundedVec.antt =====
-- `heapless::Vec<A, cap>`, which the kernel uses and does not implement: the operations that it calls,
-- with what their documentation says of them.
use jotunheim.Prelude.{
  ℕ, ◌≤◌, ◌<◌, ◌≡◌, refl, ◌⊎◌, inl, inr, Option, none, some, List, [], ◌∷◌, arith, ltb,
  if◌then◌else◌,
}
use jotunheim.Prelude.Lists.{length}

-- `to_list` has the newest entry first.
pub record BoundedVec (A : Type 0) (cap : ℕ) : Type 1 where
  pub Carrier : Type 0
  pub empty : Carrier
  pub to_list : Carrier → List A
  pub push : Carrier → A → Option Carrier
  pub pop : Carrier → Option (A × Carrier)
  pub to_list-empty : to_list empty ≡ []
  pub push_room :
      (v : Carrier) (a : A)
      → length (to_list v) < cap
      → (v' : Carrier) × (push v a ≡ some v') × (to_list v' ≡ a ∷ to_list v)
  pub push_full : (v : Carrier) (a : A) → cap ≤ length (to_list v) → push v a ≡ none
  pub pop_items :
      (v : Carrier)
      → ((to_list v ≡ []) × (pop v ≡ none))
        ⊎ ((a : A) × (v' : Carrier) × (to_list v ≡ a ∷ to_list v') × (pop v ≡ some (a, v')))

module _ {A : Type 0} (cap : ℕ) where
  abbrev pub list_push : List A → A → Option (List A)
  list_push v a = if ltb (length v) cap then some (a ∷ v) else none

  abbrev pub list_pop : List A → Option (A × List A)
  list_pop [] = none
  list_pop (a ∷ v) = some (a, v)

  pub list_push_room :
      (v : List A) (a : A)
      → length v < cap
      → (v' : List A) × (list_push v a ≡ some v') × (v' ≡ a ∷ v)
  list_push_room v a h = (a ∷ v, ground arith, refl)

  pub list_push_full : (v : List A) (a : A) → cap ≤ length v → list_push v a ≡ none
  list_push_full v a h = ground arith

  pub list_pop_items :
      (v : List A)
      → ((v ≡ []) × (list_pop v ≡ none))
        ⊎ ((a : A) × (v' : List A) × (v ≡ a ∷ v') × (list_pop v ≡ some (a, v')))
  list_pop_items [] = inl (refl, refl)
  list_pop_items (a ∷ v) = inr (a, v, refl, refl)

-- A list with a bound is such a vector.
abbrev pub list_vec : (A : Type 0) (cap : ℕ) → BoundedVec A cap
list_vec A cap = record {
  Carrier = List A;
  empty = [];
  to_list = λ v. v;
  push = list_push cap;
  pop = list_pop cap;
  to_list-empty = refl;
  push_room = list_push_room cap;
  push_full = list_push_full cap;
  pop_items = list_pop_items cap;
}
