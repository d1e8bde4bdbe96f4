-- ===== src/Deployments/Switching.antt =====
-- What holds of the deployments that a client knows, after any operations on them.
use snap_openstack.Prelude.{
  String, ◌≡◌, refl, sym, ◌∙◌, ap, true, false, some, List, [], ◌∷◌, ◌++◌, elem, elem-append,
  NoRepeat, Outcome, return, arith, eq_iff, ◌==◌, string_eq, Bool-cases, inl, inr, subst,
}
use snap_openstack.Deployments.{
  Deployment, DeploymentsConfig, find_deployment, get_deployment, get_active, is_there, replace,
  add_deployment, update_deployment, switch, is_active,
}

abbrev pub names : List Deployment → List String
names [] = []
names (d ∷ ds) = d.name ∷ names ds

-- The names of the deployments differ, and the active one is there.
pub record IsWellFormed (config : DeploymentsConfig) : Type 0 where
  pub distinct : NoRepeat (names config.deployments)
  pub active_there :
      (name : String) → config.active ≡ some name → elem name (names config.deployments) ≡ true

is_there-elem :
    (name : String) (ds : List Deployment)
    → is_there (find_deployment name ds) ≡ elem name (names ds)
unfolding is_there find_deployment
is_there-elem name [] = refl
is_there-elem name (d ∷ ds) = ground (arith, is_there-elem name ds)

names-replace : (d : Deployment) (ds : List Deployment) → names (replace d ds) ≡ names ds
unfolding replace
names-replace d [] = refl
names-replace d (e ∷ ds) = elim (Bool-cases (e.name == d.name)) [
  | inl same ↦ rw same (ap (λ n. n ∷ names ds) (sym ((eq_iff e.name d.name).0 same)))
  | inr other ↦ rw other (ap (λ ns. e.name ∷ ns) (names-replace d ds))
]

names-append :
    (ds : List Deployment) (d : Deployment) → names (ds ++ d ∷ []) ≡ names ds ++ d.name ∷ []
names-append [] d = refl
names-append (e ∷ ds) d = ap (λ ns. e.name ∷ ns) (names-append ds d)

NoRepeat-append :
    (x : String) (xs : List String) → NoRepeat xs → elem x xs ≡ false → NoRepeat (xs ++ x ∷ [])
NoRepeat-append x [] h fresh = (refl, tt)
NoRepeat-append x (y ∷ ys) h fresh = (
  ground (arith, elem-append y ys (x ∷ []), h.0, eq_iff x y, eq_iff y x),
  NoRepeat-append x ys h.1 (ground arith),
)

module _ (write : DeploymentsConfig → Outcome (Unit {0})) where
  add_deployment-IsWellFormed :
      (d : Deployment) (config : DeploymentsConfig)
      → IsWellFormed config
      → IsWellFormed (add_deployment write d config).1
  unfolding add_deployment get_deployment
  add_deployment-IsWellFormed d config h =
      elim (Bool-cases (elem d.name (names config.deployments))) [
        | inl there ↦
            rw (add_deployment, get_deployment, is_there-elem d.name config.deployments, there) h
        | inr fresh ↦
            rw (add_deployment, get_deployment, is_there-elem d.name config.deployments, fresh)
              (record {
                distinct =
                    rw (names-append config.deployments d)
                      (NoRepeat-append d.name (names config.deployments) h.distinct fresh);
                active_there = λ name e.
                    let same : d.name ≡ name = cc in
                    rw (names-append config.deployments d) (
                      ground (
                        arith,
                        elem-append name (names config.deployments) (d.name ∷ []),
                        eq_iff d.name name,
                        same,
                      ));
              })
      ]

  update_deployment-IsWellFormed :
      (d : Deployment) (config : DeploymentsConfig)
      → IsWellFormed config
      → IsWellFormed (update_deployment write d config).1
  unfolding update_deployment
  update_deployment-IsWellFormed d config h =
      elim (Bool-cases (is_there (get_deployment d.name config))) [
        | inl there ↦
            rw (update_deployment, there)
              (record {
                distinct = rw (names-replace d config.deployments) h.distinct;
                active_there =
                    λ name e. rw (names-replace d config.deployments) (h.active_there name e);
              })
        | inr missing ↦ rw (update_deployment, missing) h
      ]

  switch-IsWellFormed :
      (name : String) (config : DeploymentsConfig)
      → IsWellFormed config
      → IsWellFormed (switch write name config).1
  unfolding switch get_deployment
  switch-IsWellFormed name config h = elim (Bool-cases (is_active name config.active)) [
    | inl already ↦ rw (switch, already) h
    | inr other ↦ elim (Bool-cases (elem name (names config.deployments))) [
      | inl there ↦
          rw (switch, other, get_deployment, is_there-elem name config.deployments, there)
            (record {
              distinct = h.distinct;
              active_there = λ n e.
                  let same : name ≡ n = cc in
                  subst (λ x. elem x (names config.deployments) ≡ true) same there;
            })
      | inr missing ↦
          rw (switch, other, get_deployment, is_there-elem name config.deployments, missing) h
    ]
  ]

  -- The operations of the client's commands.
  pub data Operation : Type 0 where
    add : Deployment → Operation
    update : Deployment → Operation
    switch_to : String → Operation

  unfoldable pub run_operation : Operation → DeploymentsConfig → DeploymentsConfig
  run_operation (add d) config = (add_deployment write d config).1
  run_operation (update d) config = (update_deployment write d config).1
  run_operation (switch_to name) config = (switch write name config).1

  unfoldable pub run_operations : List Operation → DeploymentsConfig → DeploymentsConfig
  unfolding run_operation
  run_operations [] config = config
  run_operations (o ∷ os) config = run_operations os (run_operation o config)

  -- After any sequence of additions, updates and switches, failed ones included, the deployments have
  -- different names and the active one is among them, if this was so before.
  pub run_operations-IsWellFormed :
      (os : List Operation) (config : DeploymentsConfig)
      → IsWellFormed config
      → IsWellFormed (run_operations os config)
  unfolding run_operations
  run_operations-IsWellFormed [] config h = h
  run_operations-IsWellFormed (add d ∷ os) config h =
      run_operations-IsWellFormed os _ (add_deployment-IsWellFormed d config h)
  run_operations-IsWellFormed (update d ∷ os) config h =
      run_operations-IsWellFormed os _ (update_deployment-IsWellFormed d config h)
  run_operations-IsWellFormed (switch_to name ∷ os) config h =
      run_operations-IsWellFormed os _ (switch-IsWellFormed name config h)

find_deployment-name :
    (name : String) (ds : List Deployment)
    → elem name (names ds) ≡ true
    → (d : Deployment) × (find_deployment name ds ≡ return d) × (d.name ≡ name)
unfolding find_deployment
find_deployment-name name [] h = cc
find_deployment-name name (d ∷ ds) h = elim (Bool-cases (d.name == name)) [
  | inl here ↦ rw here (d, refl, (eq_iff d.name name).0 here)
  | inr there ↦ rw there (find_deployment-name name ds (rw there at h))
]

-- Where the deployments are well formed, the lookup of the active one finds a deployment of that name,
-- unless none is active or its name is empty.
get_active-return :
    (config : DeploymentsConfig) (name : String)
    → IsWellFormed config
    → config.active ≡ some name
    → name == "" ≡ false
    → (d : Deployment) × (get_active config ≡ return d) × (d.name ≡ name)
unfolding get_active get_deployment
get_active-return config name h active named =
    let (d, found, same) =
      find_deployment-name name config.deployments (h.active_there name active) in
    (d, rw (get_active, active, named, get_deployment) found, same)

find_deployment-append :
    (d : Deployment) (ds : List Deployment)
    → elem d.name (names ds) ≡ false
    → find_deployment d.name (ds ++ d ∷ []) ≡ return d
unfolding find_deployment
find_deployment-append d [] h = ground (arith, eq_iff d.name d.name)
find_deployment-append d (e ∷ ds) h = ground (arith, find_deployment-append d ds)

add_deployment-new :
    (write : DeploymentsConfig → Outcome (Unit {0})) (d : Deployment) (config : DeploymentsConfig)
    → elem d.name (names config.deployments) ≡ false
    → (add_deployment write d config).1
      ≡ record { active = some d.name; deployments = config.deployments ++ d ∷ [] }
unfolding add_deployment get_deployment
add_deployment-new write d config fresh =
    rw (add_deployment, get_deployment, is_there-elem d.name config.deployments, fresh) refl

-- A deployment with a new name that is not empty is the active one after it is added.
pub get_active-add_deployment :
    (write : DeploymentsConfig → Outcome (Unit {0})) (d : Deployment) (config : DeploymentsConfig)
    → elem d.name (names config.deployments) ≡ false
    → d.name == "" ≡ false
    → get_active (add_deployment write d config).1 ≡ return d
unfolding add_deployment get_active get_deployment
get_active-add_deployment write d config fresh named =
    ap get_active (add_deployment-new write d config fresh)
    ∙ rw (get_active, named, get_deployment) (find_deployment-append d config.deployments fresh)
