-- ===== src/Ovn/Entries.antt =====
-- What is read of the mapping is what was assigned: sorting the entries changes nothing.
use Prim.Native.Nat.{Ordering}
use Prim.Native.String.{compare}
use text.Mathlib.Text.{is_eq}
use snap_openstack.Prelude.{
  String, ◌≡◌, refl, ap, ◌∙◌, true, false, Option, some, List, [], ◌∷◌, ◌==◌, string_eq,
  if◌then◌else◌, Bool-cases, inl, inr, arith, eq_iff,
}
use snap_openstack.Dict.{Dict, get}
use snap_openstack.Ovn.{or_empty, before}
use snap_openstack.Ovn.Mapping.{
  RoleMapping, Assignments, build_mapping, insert_item, sort_items, role_entries,
  application_entries,
}

-- The roles that an assignment has for a machine of an application.
abbrev pub assigned : String → String → Assignments → Option (List String)
assigned application machine d = get machine (or_empty (get application d))

-- The roles that the mapping has for a machine of an application.
unfoldable pub roles_in : String → String → String → RoleMapping → Option (List String)
roles_in model application machine mapping =
    let applications = or_empty (get model mapping) in
    let machines = or_empty (get "machines" (or_empty (get application applications))) in
    get "roles" (or_empty (get machine machines))

before-ne : (s t : String) → before s t ≡ true → s == t ≡ false
unfolding before
before-ne s t h = lt-ne (compare s t) h
  where
    lt-ne : (o : Ordering) → (elim o [ Ordering.lt ↦ true | _ ↦ false ]) ≡ true → is_eq o ≡ false
    lt-ne Ordering.lt h = refl
    lt-ne Ordering.eq h = cc
    lt-ne Ordering.gt h = refl

module _ {ℓ} {V : Type ℓ} where
  get-insert_item :
      (k j : String) (v : V) (d : Dict V)
      → get j (insert_item k v d) ≡ (if k == j then some v else get j d)
  unfolding insert_item get
  get-insert_item k j v [] = refl
  get-insert_item k j v ((i, w) ∷ d) = elim (Bool-cases (before i k)) [
    | inl smaller ↦
        let apart = before-ne i k smaller in
        rw (smaller, get-insert_item k j v d)
          (ground (arith, apart, eq_iff i j, eq_iff k j, eq_iff i k))
    | inr greater ↦ rw greater refl
  ]

  get-sort_items : (j : String) (d : Dict V) → get j (sort_items d) ≡ get j d
  unfolding sort_items get
  get-sort_items j [] = refl
  get-sort_items j ((k, v) ∷ d) =
      get-insert_item k j v (sort_items d)
      ∙ ap (λ r. if k == j then some v else r) (get-sort_items j d)

get-role_entries :
    (machine : String) (d : Dict (List String))
    → get "roles" (or_empty (get machine (role_entries d))) ≡ get machine d
unfolding role_entries get or_empty
get-role_entries machine [] = refl
get-role_entries machine ((k, roles) ∷ d) = elim (Bool-cases (k == machine)) [
  | inl same ↦ rw same refl
  | inr other ↦ rw other (get-role_entries machine d)
]

get-application_entries :
    (application machine : String) (d : Assignments)
    → get "roles" (
        or_empty (
          get machine
            (or_empty (get "machines" (or_empty (get application (application_entries d)))))))
      ≡ assigned application machine d
unfolding application_entries get or_empty
get-application_entries application machine [] = refl
get-application_entries application machine ((k, machines) ∷ d) =
    elim (Bool-cases (k == application)) [
      | inl same ↦
          rw same (get-role_entries machine (sort_items machines) ∙ get-sort_items machine machines)
      | inr other ↦ rw other (get-application_entries application machine d)
    ]

pub roles_in-build_mapping :
    (model application machine : String) (d : Assignments)
    → roles_in model application machine (build_mapping model d) ≡ assigned application machine d
unfolding roles_in build_mapping get or_empty
roles_in-build_mapping model application machine d = rw ((eq_iff model model).1 refl) (
    get-application_entries application machine (sort_items d)
    ∙ ap (λ o. get machine (or_empty o)) (get-sort_items application d))
