-- ===== src/Pci/Excluded.antt =====
-- The devices that are excluded on a node, and those that are taken back.
use snap_openstack.Prelude.{
  String, ◌≡◌, refl, subst, true, false, not, ◌&&◌, ◌||◌, List, [], ◌∷◌, ◌++◌, elem, elem-append,
  NoRepeat, arith, ◌==◌, string_eq, Bool-cases, inl, inr, eq_iff, if◌then◌else◌,
}
use snap_openstack.Dict.{Dict, set, get-set}
use snap_openstack.Pci.Nics.{node_excluded, or_none, remove_first, add_once}

pub node_excluded-set :
    (node other : String) (xs : List String) (d : Dict (List String))
    → node_excluded other (set node xs d) ≡ (if node == other then xs else node_excluded other d)
unfolding node_excluded or_none
node_excluded-set node other xs d = ground (arith, get-set node other xs d)

pub elem-remove_first :
    (x y : String) (xs : List String)
    → NoRepeat xs
    → elem y (remove_first x xs) ≡ (not (x == y) && elem y xs)
unfolding remove_first
elem-remove_first x y [] h = ground arith
elem-remove_first x y (z ∷ zs) h =
    ground (arith, elem-remove_first x y zs h.1, h.0, eq_iff z x, eq_iff x y, eq_iff z y)

-- A removal adds nothing.
pub elem-remove_first-false :
    (x y : String) (xs : List String) → elem y xs ≡ false → elem y (remove_first x xs) ≡ false
unfolding remove_first
elem-remove_first-false x y [] h = refl
elem-remove_first-false x y (z ∷ zs) h = ground (arith, elem-remove_first-false x y zs)

pub remove_first-NoRepeat :
    (x : String) (xs : List String) → NoRepeat xs → NoRepeat (remove_first x xs)
unfolding remove_first
remove_first-NoRepeat x [] h = tt
remove_first-NoRepeat x (z ∷ zs) h = elim (Bool-cases (z == x)) [
  | inl same ↦ rw same h.1
  | inr other ↦
      rw other (ground (arith, elem-remove_first x z zs h.1, h.0), remove_first-NoRepeat x zs h.1)
]

pub add_once-NoRepeat : (x : String) (xs : List String) → NoRepeat xs → NoRepeat (add_once x xs)
unfolding add_once
add_once-NoRepeat x xs h = elim (Bool-cases (elem x xs)) [
  | inl there ↦ rw there h
  | inr fresh ↦ rw fresh (append_fresh x xs h fresh)
]
  where
    append_fresh :
        (x : String) (xs : List String)
        → NoRepeat xs
        → elem x xs ≡ false
        → NoRepeat (xs ++ (x ∷ []))
    append_fresh x [] h fresh = (refl, tt)
    append_fresh x (z ∷ zs) h fresh = (
      ground (arith, elem-append z zs (x ∷ []), h.0, fresh, eq_iff z x, eq_iff x z),
      append_fresh x zs h.1 (ground (arith, fresh)),
    )

pub elem-add_once :
    (x y : String) (xs : List String) → elem y (add_once x xs) ≡ (x == y || elem y xs)
unfolding add_once
elem-add_once x y xs = elim (Bool-cases (elem x xs)) [
  | inl there ↦ elim (Bool-cases (x == y)) [
    | inl same ↦
        let e = (eq_iff x y).0 same in
        let t : elem y xs ≡ true = subst (λ z. elem z xs ≡ true) e there in rw there (ground arith)
    | inr other ↦ rw there (ground arith)
  ]
  | inr fresh ↦ rw fresh (ground (arith, elem-append y xs (x ∷ [])))
]
