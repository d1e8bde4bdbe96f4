-- ===== src/Dict.antt =====
-- Python dictionaries as association lists, in the order of insertion.
use snap_openstack.Prelude.{
  String, ◌≡◌, refl, Bool, ◌||◌, Option, none, some, List, [], ◌∷◌, arith, eq_iff, ◌==◌, string_eq,
  if◌then◌else◌, elem, false,
}

abbrev pub Dict {ℓ} : Type ℓ → Type ℓ
Dict V = List (String × V)

module _ {ℓ} {V : Type ℓ} where
  -- `d.get(k)`
  unfoldable pub get : String → Dict V → Option V
  get k [] = none
  get k ((j, v) ∷ d) = if j == k then some v else get k d

  -- `d[k] = v`: a key that is there keeps its place.
  unfoldable pub set : String → V → Dict V → Dict V
  set k v [] = (k, v) ∷ []
  set k v ((j, w) ∷ d) = if j == k then (j, v) ∷ d else (j, w) ∷ set k v d

  -- `d.pop(k, None)`
  unfoldable pub pop : String → Dict V → Dict V
  pop k [] = []
  pop k ((j, v) ∷ d) = let rest = pop k d in if j == k then rest else (j, v) ∷ rest

  unfoldable pub keys : Dict V → List String
  keys [] = []
  keys ((j, v) ∷ d) = j ∷ keys d

  -- `k in d`
  abbrev pub has : String → Dict V → Bool
  has k d = elem k (keys d)

  pub get-set :
      (k j : String) (v : V) (d : Dict V) → get j (set k v d) ≡ (if k == j then some v else get j d)
  unfolding get set
  get-set k j v [] = refl
  get-set k j v ((i, w) ∷ d) = ground (arith, eq_iff k j, eq_iff i k, eq_iff i j, get-set k j v d)

  pub get-pop : (k j : String) (d : Dict V) → get j (pop k d) ≡ (if k == j then none else get j d)
  unfolding get pop
  get-pop k j [] = ground arith
  get-pop k j ((i, w) ∷ d) = ground (arith, eq_iff k j, eq_iff i k, eq_iff i j, get-pop k j d)

  pub has-set : (k j : String) (v : V) (d : Dict V) → has j (set k v d) ≡ (k == j || has j d)
  unfolding keys set
  has-set k j v [] = refl
  has-set k j v ((i, w) ∷ d) = ground (arith, eq_iff k j, eq_iff i k, eq_iff i j, has-set k j v d)

  -- `d.update(u)`
  unfoldable pub update : Dict V → Dict V → Dict V
  update d [] = d
  update d ((k, v) ∷ u) = update (set k v d) u

  -- The keys of a dictionary that Python built are distinct.
  abbrev pub Distinct : Dict V → Type 0
  Distinct [] = Unit
  Distinct ((k, v) ∷ d) = (has k d ≡ false) × Distinct d

  pub get-none : (k : String) (d : Dict V) → has k d ≡ false → get k d ≡ none
  unfolding get keys
  get-none k [] h = refl
  get-none k ((j, v) ∷ d) h = ground (arith, get-none k d)

  pub get-update :
      (j : String) (d u : Dict V)
      → Distinct u
      → get j (update d u) ≡ (if has j u then get j u else get j d)
  unfolding get update keys
  get-update j d [] h = refl
  get-update j d ((k, v) ∷ u) h =
      ground (arith, get-update j (set k v d) u h.1, get-set k j v d, eq_iff k j, get-none j u)

  pub has-update : (j : String) (d u : Dict V) → has j (update d u) ≡ (has j d || has j u)
  unfolding update keys
  has-update j d [] = ground arith
  has-update j d ((k, v) ∷ u) = ground (arith, has-update j (set k v d) u, has-set k j v d)
