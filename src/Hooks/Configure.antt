-- ===== src/Hooks/Configure.antt =====
-- What the configure hook leaves.
use snap_openstack.Prelude.{
  feature_gate_error, String, ◌≡◌, refl, ◌∙◌, Bool, true, false, Option, none, some, List, [], ◌∷◌,
  Outcome, return, raise, or_else, arith, eq_iff, ◌==◌, string_eq, if◌then◌else◌, elem, Bool-cases,
  inl, inr,
}
use snap_openstack.Dict
use snap_openstack.Dict.{Dict, has, keys, get-set, Distinct, get-none}
use snap_openstack.Value.{Value, Fields}
use snap_openstack.Gates.{GateConfig, gate_states, is_on}
use snap_openstack.Gates.Requires.{validate-refuses}
use snap_openstack.Gates.Sync.{GateClient}
use snap_openstack.Hooks.{
  default_config, add_defaults, update_default_config, snap_reader, Host, configure,
}

-- A key that is looked up is there.
has-none : (k : String) (d : Dict Value) → has k d ≡ true → (v : Value) × (Dict.get k d ≡ some v)
unfolding Dict.get keys
has-none k [] h = cc
has-none k ((j, v) ∷ d) h = elim (Bool-cases (j == k)) [
  | inl same ↦ rw same (v, refl)
  | inr other ↦ rw other (has-none k d (rw other at h))
]

default_config-Distinct : Distinct default_config
unfolding keys
default_config-Distinct = (refl, (refl, (refl, (refl, (refl, tt)))))

-- The option that was there, else the default, else what stands there.
add_defaults-get :
    (key : String) (current defaults options : Dict Value)
    → Distinct defaults
    → Dict.get key (add_defaults current defaults options) ≡ (
        if has key current
        then Dict.get key options
        else or_else (Dict.get key defaults) (Dict.get key options))
unfolding add_defaults Dict.get keys
add_defaults-get key current [] options distinct = ground arith
add_defaults-get key current ((k, v) ∷ defaults) options distinct = ground (
  arith,
  eq_iff k key,
  get-none key defaults,
  get-set k key v options,
  add_defaults-get key current defaults options distinct.1,
  add_defaults-get key current defaults (Dict.set k v options) distinct.1,
)

-- After the defaults are added each option has the value that it had, or its default if it had none.
update_default_config-get :
    (key : String) (options : Dict Value)
    → Dict.get key (update_default_config options)
      ≡ or_else (Dict.get key options) (Dict.get key default_config)
unfolding update_default_config
update_default_config-get key options =
    add_defaults-get key options default_config options default_config-Distinct
    ∙ elim (Bool-cases (has key options)) [
      | inl there ↦ let (v, e) = has-none key options there in rw (there, e) refl
      | inr absent ↦
          rw (absent, get-none key options absent) (or_else-none (Dict.get key default_config))
    ]
  where
    or_else-none : (o : Option Value) → or_else o none ≡ o
    or_else-none none = refl
    or_else-none (some v) = refl

-- If a gate is enabled in the snap's configuration and one that it requires is not, then the configure
-- hook fails and changes nothing but the missing options: it saves no configuration, writes no gate to
-- the cluster and restarts nothing.
configure-refused {ℓ} :
    {W : Type ℓ} (client : GateClient W) (gates : Dict GateConfig)
    (as_dict : List String → Dict Value → Outcome Fields)
    (compare : Option Value → Option Value → Bool) (connected : Bool) (host : Host W)
    (states : Dict Bool) (a b : String) (gate : GateConfig)
    → gate_states gates (snap_reader (update_default_config host.options)) ≡ return states
    → Dict.get a gates ≡ some gate
    → elem b gate.requires ≡ true
    → is_on a states ≡ true
    → is_on b states ≡ false
    → configure client gates as_dict compare connected host
      ≡ (raise feature_gate_error, record host { options = update_default_config host.options })
unfolding configure
configure-refused client gates as_dict compare connected host states a b gate known there needed on
      off =
    rw
      (
        configure,
        validate-refuses gates (snap_reader (update_default_config host.options)) states a b gate
            known there needed on off,
      )
      refl
