-- ===== src/Ovn/Sets.antt =====
-- Sets as lists, and their sorted lists.
use snap_openstack.Prelude.{
  String, ◌≡◌, refl, subst, true, ◌||◌, List, [], ◌∷◌, elem, elem-append, ◌==◌, string_eq,
  Bool-cases, inl, inr, arith, eq_iff,
}
use snap_openstack.Ovn.{add_to_set, sorted, insert_sorted}

pub elem-add_to_set :
    (x y : String) (xs : List String) → elem y (add_to_set x xs) ≡ (x == y || elem y xs)
unfolding add_to_set
elem-add_to_set x y xs = elim (Bool-cases (elem x xs)) [
  | inl there ↦ elim (Bool-cases (x == y)) [
    | inl same ↦
        let t : elem y xs ≡ true = subst (λ z. elem z xs ≡ true) ((eq_iff x y).0 same) there in
        rw there (ground arith)
    | inr other ↦ rw there (ground arith)
  ]
  | inr fresh ↦ rw fresh (ground (arith, elem-append y xs (x ∷ [])))
]

elem-insert_sorted :
    (x y : String) (xs : List String) → elem y (insert_sorted x xs) ≡ (x == y || elem y xs)
unfolding insert_sorted
elem-insert_sorted x y [] = refl
elem-insert_sorted x y (z ∷ zs) = ground (arith, elem-insert_sorted x y zs)

pub elem-sorted : (y : String) (xs : List String) → elem y (sorted xs) ≡ elem y xs
unfolding sorted
elem-sorted y [] = refl
elem-sorted y (x ∷ xs) = ground (arith, elem-insert_sorted x y (sorted xs), elem-sorted y xs)
