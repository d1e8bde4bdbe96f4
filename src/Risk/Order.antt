-- ===== src/Risk/Order.antt =====
-- The order of the risk levels, and the roles that a command accepts.
use snap_openstack.Prelude.{
  subst, ap, ◌∙◌, ℕ, String, ◌≡◌, refl, true, Option, none, some, List, [], ◌∷◌, All, Outcome,
  return, bad_parameter, guard, >>=-eq-return, arith, ltb, leb, subst, ◌∙◌, ap,
}
use snap_openstack.Dict.{Dict}
use snap_openstack.Gates.{GateConfig, Snap}
use snap_openstack.Risk.{
  validate_names, role_names, RiskLevel, stable, candidate, beta, edge, risk_name, risk_eq, risk_lt,
  risk_le, risk_gt, risk_ge, comes_first, Role, all_roles, accept_role, find_role, is_role_enabled,
  validate_roles, enabled_values,
}

abbrev pub rank : RiskLevel → ℕ
rank stable = 0
rank candidate = 1
rank beta = 2
rank edge = 3

-- The four comparisons of a risk level with another are those of a total order in which stable comes
-- first, then candidate, beta and edge.
RiskLevel-rank :
    (a b : RiskLevel)
    → (risk_lt a (risk_name b) ≡ ltb (rank a) (rank b))
      × (risk_le a (risk_name b) ≡ leb (rank a) (rank b))
      × (risk_gt a (risk_name b) ≡ ltb (rank b) (rank a))
      × (risk_ge a (risk_name b) ≡ leb (rank b) (rank a))
unfolding risk_lt risk_le risk_gt risk_ge risk_eq risk_name comes_first
RiskLevel-rank stable stable = (refl, refl, refl, refl)
RiskLevel-rank stable candidate = (refl, refl, refl, refl)
RiskLevel-rank stable beta = (refl, refl, refl, refl)
RiskLevel-rank stable edge = (refl, refl, refl, refl)
RiskLevel-rank candidate stable = (refl, refl, refl, refl)
RiskLevel-rank candidate candidate = (refl, refl, refl, refl)
RiskLevel-rank candidate beta = (refl, refl, refl, refl)
RiskLevel-rank candidate edge = (refl, refl, refl, refl)
RiskLevel-rank beta stable = (refl, refl, refl, refl)
RiskLevel-rank beta candidate = (refl, refl, refl, refl)
RiskLevel-rank beta beta = (refl, refl, refl, refl)
RiskLevel-rank beta edge = (refl, refl, refl, refl)
RiskLevel-rank edge stable = (refl, refl, refl, refl)
RiskLevel-rank edge candidate = (refl, refl, refl, refl)
RiskLevel-rank edge beta = (refl, refl, refl, refl)
RiskLevel-rank edge edge = (refl, refl, refl, refl)

module _ (gates : Dict GateConfig) (open_snap : Outcome Snap) where
  AllEnabled : List Role → Type 0
  AllEnabled roles = All (λ r. is_role_enabled gates open_snap r ≡ return true) roles

  accept_role-AllEnabled :
      (o : Option Role) (rest : Outcome (List Role)) (roles : List Role)
      → ((rs : List Role) → rest ≡ return rs → AllEnabled rs)
      → accept_role gates open_snap o rest ≡ return roles
      → AllEnabled roles
  unfolding accept_role AllEnabled
  accept_role-AllEnabled none rest roles law h =
      let (valid, e, bad) = >>=-eq-return (enabled_values gates open_snap) _ h in cc
  accept_role-AllEnabled (some role) rest roles law h =
      let (enabled, e, h₁) = >>=-eq-return (is_role_enabled gates open_snap role) _ h in
      let (u, ok, h₂) = >>=-eq-return (guard enabled bad_parameter) _ h₁ in
      let (rs, others, h₃) = >>=-eq-return rest _ h₂ in
      let on : enabled ≡ true = ground (arith, ok) in
      let q : role ∷ rs ≡ roles = cc in rw (← q) (e ∙ ap return on, law rs others)

  validate_names-AllEnabled :
      (upper : String → String) (names : List String) (roles : List Role)
      → validate_names gates open_snap upper names ≡ return roles
      → AllEnabled roles
  unfolding validate_names AllEnabled
  validate_names-AllEnabled upper [] roles h = let p : [] ≡ roles = cc in subst AllEnabled p tt
  validate_names-AllEnabled upper (name ∷ names) roles h =
      accept_role-AllEnabled (find_role upper name all_roles)
        (validate_names gates open_snap upper names) roles (validate_names-AllEnabled upper names) h

  -- Whatever values a command gets, each of the roles that the validation accepts is enabled: it has no
  -- gate, or its gate is enabled.
  pub validate_roles-enabled :
      (upper : String → String) (elements : List String → List String) (values : List String)
      (roles : List Role)
      → validate_roles gates open_snap upper elements values ≡ return roles
      → All (λ r. is_role_enabled gates open_snap r ≡ return true) roles
  unfolding validate_roles AllEnabled
  validate_roles-enabled upper elements values roles h =
      validate_names-AllEnabled upper (elements (role_names values)) roles h
