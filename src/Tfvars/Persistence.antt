-- ===== src/Tfvars/Persistence.antt =====
-- What one run of `update_tfvars` leaves for the next run.
use snap_openstack.Prelude.{
  String, ◌≡◌, refl, ◌∙◌, ap, Bool, true, false, not, ◌&&◌, ◌||◌, none, some, List, [], ◌∷◌, ◌++◌,
  elem, elem-append, or_else, arith, eq_iff, ◌==◌, string_eq, if◌then◌else◌, Option,
}
use snap_openstack.Dict.{get-set}
use snap_openstack.Value.{list, Fields, end, field, get_field, has_field, IsDict}
use snap_openstack.Value.Laws.{get_field-set_field, get_field-none}
use snap_openstack.Manifest.{Manifest}
use snap_openstack.Config.{Store, read_config, update_config}
use snap_openstack.Tfvars.{
  VarMap, charm_config_keys, get_tfvar_names, get_tfvars, filter_tfvars, strings, stored_keys,
  computed_keys, Value,
}
use snap_openstack.Tfvars.Steps.{
  load_tfvars, filter_stored, field_names, add_names, text_items, saved_item, save_tfvars,
  combine_tfvars, update_tfvars,
}
use snap_openstack.Tfvars.Precedence.{combine_tfvars-plain}

-- Which stored variables a run starts from.
abbrev pub is_kept : (j : String) → (computed derivable : List String) → Bool
is_kept j computed derivable =
    not (j == "_computed_keys") && (elem j computed || not (elem j derivable))

get_field-filter_tfvars :
    (j : String) (computed derivable : List String) (d : Fields)
    → get_field j (filter_tfvars computed derivable d)
      ≡ (if is_kept j computed derivable then get_field j d else none)
unfolding get_field filter_tfvars
get_field-filter_tfvars j computed derivable end = ground arith
get_field-filter_tfvars j computed derivable (field k v d) =
    ground (arith, eq_iff k j, get_field-filter_tfvars j computed derivable d)

strings-text_items : (ks : List String) → strings (text_items ks) ≡ ks
unfolding strings text_items
strings-text_items [] = refl
strings-text_items (k ∷ ks) = ap (λ l. k ∷ l) (strings-text_items ks)

computed_keys-saved_item :
    (vars : VarMap) (computed : List String) (d : Fields)
    → computed_keys vars (saved_item computed d) ≡ computed
unfolding computed_keys stored_keys saved_item
computed_keys-saved_item vars computed d =
    ap (λ o. elim (keys_of o) [ none ↦ vars.preserve | some ks ↦ ks ])
      (get_field-set_field "_computed_keys" "_computed_keys" (list (text_items computed)) d)
    ∙ strings-text_items computed
  where
    keys_of : Option Value → Option (List String)
    keys_of o = elim o [ none ↦ none | some (list vs) ↦ some (strings vs) | some _ ↦ some [] ]

elem-add_names :
    (j : String) (computed names : List String)
    → elem j (add_names computed names) ≡ (elem j computed || elem j names)
unfolding add_names
elem-add_names j computed [] = ground arith
elem-add_names j computed (k ∷ ks) = ground (
  arith,
  eq_iff k j,
  elem-append j computed (k ∷ []),
  elem-add_names j computed ks,
  elem-add_names j (computed ++ k ∷ []) ks,
)

elem-field_names : (j : String) (d : Fields) → elem j (field_names d) ≡ has_field j d
unfolding field_names
elem-field_names j end = refl
elem-field_names j (field k v d) = ground (arith, elem-field_names j d)

module _ (vars : VarMap) (name : String) (named : name == "" ≡ false) where
  load_tfvars-save_tfvars :
      (computed : List String) (d : Fields) (store : Store)
      → load_tfvars vars (some name) [] (save_tfvars (some name) computed d store)
        ≡ filter_stored vars (get_tfvar_names vars.charms []) (saved_item computed d)
  unfolding load_tfvars save_tfvars read_config update_config
  load_tfvars-save_tfvars computed d store =
      rw (named, get-set name name (saved_item computed d) store, (eq_iff name name).1 refl) refl

  load_tfvars-saved :
      (j : String) (computed : List String) (d : Fields) (store : Store)
      → get_field j
          (load_tfvars vars (some name) [] (save_tfvars (some name) computed d store)).tfvars
        ≡ (if is_kept j computed (get_tfvar_names vars.charms []) then get_field j d else none)
  unfolding filter_stored saved_item
  load_tfvars-saved j computed d store =
      rw (load_tfvars-save_tfvars computed d store, computed_keys-saved_item vars computed d)
        (get_field-filter_tfvars j computed (get_tfvar_names vars.charms []) (saved_item computed d)
          ∙ ground (
            arith,
            eq_iff "_computed_keys" j,
            eq_iff j "_computed_keys",
            get_field-set_field "_computed_keys" j (list (text_items computed)) d,
          ))

-- After a run of `update_tfvars` that saves, the next run gives a variable that is not the configuration
-- of a charm the new value from the caller, else the new one from the manifest, else the value of the
-- first run, and that one only if a caller gave it in the first run or before (the variable is computed)
-- or no charm has a variable of that name.
pub update_tfvars-again :
    (vars : VarMap) (m₁ m₂ : Manifest) (name : String) (o₁ o₂ : Fields) (store : Store)
    (persist : Bool) (j : String)
    → name == "" ≡ false
    → IsDict o₂
    → elem j (charm_config_keys vars.charms) ≡ false
    → let first = update_tfvars vars m₁ (some name) o₁ true store in
      let computed = elem j (load_tfvars vars (some name) [] store).computed || has_field j o₁ in
      get_field j (update_tfvars vars m₂ (some name) o₂ persist first.1).0.tfvars
      ≡ or_else (get_field j o₂) (
          or_else (get_field j (get_tfvars vars m₂ [])) (
            if not (j == "_computed_keys")
              && (computed || not (elem j (get_tfvar_names vars.charms [])))
            then get_field j first.0.tfvars
            else none))
unfolding update_tfvars combine_tfvars
update_tfvars-again vars m₁ m₂ name o₁ o₂ store persist j named distinct plain =
    let before = load_tfvars vars (some name) [] store in
    let first = combine_tfvars vars m₁ before o₁ in
    combine_tfvars-plain vars m₂
      (load_tfvars vars (some name) [] (save_tfvars (some name) first.computed first.tfvars store))
      o₂ j distinct plain
    ∙ rw
        (
          load_tfvars-saved vars name named j first.computed first.tfvars store,
          elem-add_names j before.computed (field_names o₁),
          elem-field_names j o₁,
        )
        refl

-- A value that the caller gives to `update_tfvars` once, in a run that saves, is what a later run has for
-- that variable, if neither its caller nor its manifest gives one; unless the variable is the
-- configuration of a charm or has the name that the code keeps for the list of computed variables.
pub update_tfvars-persists :
    (vars : VarMap) (m₁ m₂ : Manifest) (name : String) (o₁ o₂ : Fields) (store : Store)
    (persist : Bool) (j : String) (v : Value)
    → name == "" ≡ false
    → IsDict o₁
    → IsDict o₂
    → elem j (charm_config_keys vars.charms) ≡ false
    → j == "_computed_keys" ≡ false
    → get_field j o₁ ≡ some v
    → get_field j o₂ ≡ none
    → get_field j (get_tfvars vars m₂ []) ≡ none
    → get_field j
        (update_tfvars vars m₂
          (some name)
          o₂
          persist
          (update_tfvars vars m₁ (some name) o₁ true store).1).0.tfvars
      ≡ some v
unfolding update_tfvars
update_tfvars-persists vars m₁ m₂ name o₁ o₂ store persist j v named d₁ d₂ plain other given
      no_override no_manifest =
    let before = load_tfvars vars (some name) [] store in
    let first : get_field j (combine_tfvars vars m₁ before o₁).tfvars ≡ some v =
      combine_tfvars-plain vars m₁ before o₁ j d₁ plain ∙ rw given refl in
    let there : has_field j o₁ ≡ true = ground (arith, get_field-none j o₁) in
    update_tfvars-again vars m₁ m₂ name o₁ o₂ store persist j named d₂ plain
    ∙ rw (no_override, no_manifest, other, there, first) (ground arith)
