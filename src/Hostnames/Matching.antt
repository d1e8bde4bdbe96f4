-- ===== src/Hostnames/Matching.antt =====
-- Which candidate is found, and that their order does not matter.
use mathlib.Core.Bool.{◌||◌}
use snap_openstack.Prelude.{
  NoRepeat, String, ◌≡◌, refl, sym, ◌∙◌, ◌↔◌, ap, ◌||◌, ◌⊎◌, Bool, true, false, ◌&&◌, some, List,
  [], ◌∷◌, keep, elem, arith, eq_iff, ◌==◌, string_eq, Bool-cases, Option-cases, inl, inr, subst,
}
use snap_openstack.Hostnames.{hostnames_match, to_set, only, match_hostname}

elem-keep :
    (p : String → Bool) (x : String) (xs : List String) → elem x (keep p xs) ≡ (elem x xs && p x)
elem-keep p x [] = refl
elem-keep p x (y ∷ ys) = elim (Bool-cases (y == x)) [
  | inl same ↦
      subst (λ z. elem x (keep p (z ∷ ys)) ≡ (elem x (z ∷ ys) && p x)) (sym ((eq_iff y x).0 same))
        (ground (arith, elem-keep p x ys, eq_iff x x))
  | inr other ↦ ground (arith, elem-keep p x ys)
]

pub elem-to_set : (x : String) (xs : List String) → elem x (to_set xs) ≡ elem x xs
unfolding to_set
elem-to_set x [] = refl
elem-to_set x (y ∷ ys) = elim (Bool-cases (y == x)) [
  | inl same ↦ elim (Bool-cases (elem y (to_set ys))) [
    | inl again ↦
        rw (same, again) (subst (λ z. elem z (to_set ys) ≡ true) ((eq_iff y x).0 same) again)
    | inr first ↦ rw first (ground arith)
  ]
  | inr other ↦ ground (arith, elem-to_set x ys)
]

-- A text is the only one of a set if it is there and no other is.
abbrev pub IsOnly : String → List String → Type 0
IsOnly x xs = (elem x xs ≡ true) × ((y : String) → elem y xs ≡ true → y ≡ x)

to_set-NoRepeat : (xs : List String) → NoRepeat (to_set xs)
unfolding to_set
to_set-NoRepeat [] = tt
to_set-NoRepeat (x ∷ xs) = elim (Bool-cases (elem x (to_set xs))) [
  | inl there ↦ rw there (to_set-NoRepeat xs)
  | inr fresh ↦ rw fresh (fresh, to_set-NoRepeat xs)
]

pub only-IsOnly : (x : String) (xs : List String) → only xs ≡ some x → IsOnly x xs
unfolding only
only-IsOnly x [] h = cc
only-IsOnly x (y ∷ []) h =
    let p : y ≡ x = cc in
    (ground (arith, eq_iff y x, p), λ z e. sym ((eq_iff y z).0 (ground arith)) ∙ p)
only-IsOnly x (y ∷ z ∷ xs) h = cc

IsOnly-only : (x : String) (xs : List String) → NoRepeat xs → IsOnly x xs → only xs ≡ some x
unfolding only
IsOnly-only x [] fresh h = cc (h.0)
IsOnly-only x (y ∷ []) fresh h = ap some (h.1 y (ground (arith, eq_iff y y)))
IsOnly-only x (y ∷ z ∷ xs) fresh h =
    let p : y ≡ x = h.1 y (ground (arith, eq_iff y y)) in
    let q : z ≡ x = h.1 z (ground (arith, eq_iff z z)) in
    let same : z == y ≡ true = (eq_iff z y).1 (q ∙ sym p) in
    let other : z == y || elem y xs ≡ false = fresh.0 in ground arith

only-to_set : (x : String) (xs : List String) → (only (to_set xs) ≡ some x) ↔ IsOnly x xs
only-to_set x xs = (
  λ h.
      let (there, unique) = only-IsOnly x (to_set xs) h in
      (sym (elem-to_set x xs) ∙ there, λ y e. unique y (elem-to_set y xs ∙ e)),
  λ h.
      IsOnly-only x (to_set xs) (to_set-NoRepeat xs)
        (elem-to_set x xs ∙ h.0, λ y e. h.1 y (sym (elem-to_set y xs) ∙ e)),
)

only-elements :
    (xs ys : List String)
    → ((x : String) → elem x xs ≡ elem x ys)
    → only (to_set xs) ≡ only (to_set ys)
only-elements xs ys same =
    let forth : (x : String) → only (to_set xs) ≡ some x → only (to_set ys) ≡ some x = λ x h.
      let (there, unique) = (only-to_set x xs).0 h in
      (only-to_set x ys).1 (sym (same x) ∙ there, λ y e. unique y (same y ∙ e)) in
    let back : (x : String) → only (to_set ys) ≡ some x → only (to_set xs) ≡ some x = λ x h.
      let (there, unique) = (only-to_set x ys).0 h in
      (only-to_set x xs).1 (same x ∙ there, λ y e. unique y (sym (same y) ∙ e)) in
    elim (Option-cases (only (to_set xs))) [
      | inr (x, h) ↦ h ∙ sym (forth x h)
      | inl none_left ↦ elim (Option-cases (only (to_set ys))) [
        | inl none_right ↦ none_left ∙ sym none_right
        | inr (y, h) ↦ cc (back y h)
      ]
    ]

-- The host that a name is matched with depends only on which candidates there are, not on their order or
-- on repetitions.
match_hostname-elements :
    (name : String) (cs ds : List String)
    → ((x : String) → elem x cs ≡ elem x ds)
    → match_hostname name cs ≡ match_hostname name ds
unfolding match_hostname
match_hostname-elements name cs ds same =
    rw
      (
        match_hostname,
        same name,
        only-elements (keep (hostnames_match name) cs) (keep (hostnames_match name) ds) (λ x.
            elem-keep (hostnames_match name) x cs
            ∙ rw (same x) (sym (elem-keep (hostnames_match name) x ds))),
      )
      refl

-- What is found: the name itself, or the only candidate that is a short or full form of it.
abbrev pub Found : String → List String → String → Type 0
Found name cs c =
    ((elem name cs ≡ true) × (c ≡ name))
    ⊎ ((elem name cs ≡ false)
        × (elem c cs ≡ true)
        × (hostnames_match name c ≡ true)
        × ((d : String) → elem d cs ≡ true → hostnames_match name d ≡ true → d ≡ c))

-- A candidate is found for a name just where it is the name itself, or the name is no candidate and it is
-- the only candidate that matches the name as a short or full form.
pub match_hostname-some :
    (name c : String) (cs : List String) → (match_hostname name cs ≡ some c) ↔ Found name cs c
unfolding match_hostname
match_hostname-some name c cs = (
  λ h. elim (Bool-cases (elem name cs)) [
    | inl exact ↦ let h' : some name ≡ some c = rw exact at h in inl (exact, cc)
    | inr inexact ↦
        let h' : only (to_set (keep (hostnames_match name) cs)) ≡ some c = rw inexact at h in
        let (there, unique) = (only-to_set c _).0 h' in
        let both : (elem c cs && hostnames_match name c) ≡ true =
          sym (elem-keep (hostnames_match name) c cs) ∙ there in
        inr (
          inexact,
          ground arith,
          ground arith,
          λ d e m. unique d (elem-keep (hostnames_match name) d cs ∙ ground arith),
        )
  ],
  λ h. elim h [
    | inl (exact, p) ↦ rw exact (ap some (sym p))
    | inr (inexact, there, matches, unique) ↦ rw inexact (
        (only-to_set c _).1 (
          elem-keep (hostnames_match name) c cs ∙ ground arith,
          λ d e.
              let both : (elem d cs && hostnames_match name d) ≡ true =
                sym (elem-keep (hostnames_match name) d cs) ∙ e in
              unique d (ground arith) (ground arith),
        ))
  ],
)
