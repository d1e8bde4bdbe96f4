-- ===== src/Question/Bank.antt =====
-- The questions of a bank, after the preseed and the previous answers are put in.
use snap_openstack.Prelude.{
  ℕ, suc, String, ◌≡◌, refl, ◌∙◌, Bool, true, false, Option, none, some, List, [], ◌∷◌, Outcome,
  return, arith, eq_iff, ◌==◌, string_eq, if◌then◌else◌, Bool-cases, inl, inr, subst, ap, ap,
}
use snap_openstack.Dict
use snap_openstack.Dict.{has, Dict, Distinct, keys}
use snap_openstack.Question.{
  Question, validate, judge, check_answer, one_answer, ask, change_at, set_defaults, set_preseeds,
  set_previous, question_bank,
}

-- What a preseed puts in.
abbrev seeded {ℓ} : {T : Type ℓ} → Option (Option T) → Option T → Option T
seeded none p = p
seeded (some a) p = a

module _ {ℓ} {T W : Type ℓ} where
  -- A question of the bank, with its preseed and its validation.
  abbrev Shows : Option (Question T W) → Option T → Option (T → Outcome (Unit {0})) → Type ℓ
  Shows o preseed validation =
      (q : Question T W) × (o ≡ some q)
      × (q.preseed ≡ preseed)
      × (q.validation_function ≡ validation)

  change_at-Shows :
      (key k : String) (f : Question T W → Question T W) (qs : Dict (Question T W))
      (p p' : Option T) (v : Option (T → Outcome (Unit {0})))
      → ((q : Question T W)
          → q.preseed ≡ p
          → q.validation_function ≡ v
          → ((f q).preseed ≡ p') × ((f q).validation_function ≡ v))
      → Shows (Dict.get key qs) p v
      → Shows (Dict.get key (change_at k f qs)) (if k == key then p' else p) v
  unfolding change_at Dict.get
  change_at-Shows key k f [] p p' v law (q, e, seed, valid) = cc
  change_at-Shows key k f ((j, r) ∷ qs) p p' v law (q, e, seed, valid) =
      elim (Bool-cases (j == key)) [
        | inl here ↦
            let e' : some r ≡ some q = rw here at e in
            let r_q : r ≡ q = cc in
            elim (Bool-cases (j == k)) [
              | inl changed ↦
                  let same : k == key ≡ true =
                    ground (arith, eq_iff j key, eq_iff k key, eq_iff j k) in
                  let h =
                    law r (ap (λ x. x.preseed) r_q ∙ seed)
                      (ap (λ x. x.validation_function) r_q ∙ valid) in
                  rw (changed, here, same) (f r, refl, h.0, h.1)
              | inr other ↦
                  let differs : k == key ≡ false =
                    ground (arith, eq_iff j key, eq_iff k key, eq_iff j k) in
                  rw (other, here, differs) (q, e', seed, valid)
            ]
        | inr there ↦
            let e' : Dict.get key qs ≡ some q = rw there at e in
            elim (Bool-cases (j == k)) [
              | inl changed ↦
                  let differs : k == key ≡ false =
                    ground (arith, eq_iff j key, eq_iff k key, eq_iff j k) in
                  rw (changed, there, differs) (q, e', seed, valid)
              | inr other ↦
                  rw (other, there) (change_at-Shows key k f qs p p' v law (q, e', seed, valid))
            ]
      ]

  set_preseeds-Shows :
      (key : String) (preseed : Dict (Option T)) (qs : Dict (Question T W)) (p : Option T)
      (v : Option (T → Outcome (Unit {0})))
      → Distinct preseed
      → Shows (Dict.get key qs) p v
      → Shows (Dict.get key (set_preseeds preseed qs)) (seeded (Dict.get key preseed) p) v
  unfolding set_preseeds Dict.get
  set_preseeds-Shows key [] qs p v distinct h = h
  set_preseeds-Shows key ((k, a) ∷ preseed) qs p v distinct h =
      let changed =
        change_at-Shows key k (λ q. record q { preseed = a }) qs p a v (λ q e f. (refl, f)) h in
      elim (Bool-cases (k == key)) [
        | inl same ↦
            let fresh : has key preseed ≡ false =
              subst (λ x. has x preseed ≡ false) ((eq_iff k key).0 same) distinct.0 in
            let changed' : Shows (Dict.get key (change_at k (λ q. record q { preseed = a }) qs)) a
                v =
              rw same at changed in
            rw same (
              subst
                (λ o.
                  Shows
                    (Dict.get key
                      (set_preseeds preseed (change_at k (λ q. record q { preseed = a }) qs)))
                    (seeded o a) v)
                (Dict.get-none key preseed fresh)
                (set_preseeds-Shows key preseed _ a v distinct.1 changed'))
        | inr other ↦
            let changed' : Shows (Dict.get key (change_at k (λ q. record q { preseed = a }) qs)) p
                v =
              rw other at changed in
            rw other (set_preseeds-Shows key preseed _ p v distinct.1 changed')
      ]

  set_previous-Shows :
      (key : String) (answers : Dict (Option T)) (qs : Dict (Question T W)) (p : Option T)
      (v : Option (T → Outcome (Unit {0})))
      → Shows (Dict.get key qs) p v
      → Shows (Dict.get key (set_previous answers qs)) p v
  unfolding set_previous
  set_previous-Shows key [] qs p v h = h
  set_previous-Shows key ((k, none) ∷ answers) qs p v h = set_previous-Shows key answers qs p v h
  set_previous-Shows key ((k, some a) ∷ answers) qs p v h = set_previous-Shows key answers _ p v (
      subst
        (λ x.
          Shows (Dict.get key (change_at k (λ q. record q { previous_answer = some a }) qs)) x v)
        (if-same (k == key) p)
        (change_at-Shows key k (λ q. record q { previous_answer = some a }) qs p p v
          (λ q e f. (e, f)) h))
    where
      if-same : (b : Bool) (x : Option T) → (if b then x else x) ≡ x
      if-same b x = ground arith

  set_defaults-Shows :
      (key : String) (accept hint : Bool) (qs : Dict (Question T W)) (p : Option T)
      (v : Option (T → Outcome (Unit {0})))
      → Shows (Dict.get key qs) p v
      → Shows (Dict.get key (set_defaults accept hint qs)) p v
  unfolding set_defaults Dict.get
  set_defaults-Shows key accept hint [] p v (q, e, seed, valid) = cc
  set_defaults-Shows key accept hint ((j, r) ∷ qs) p v (q, e, seed, valid) =
      elim (Bool-cases (j == key)) [
        | inl here ↦
            let e' : some r ≡ some q = rw here at e in
            let r_q : r ≡ q = cc in
            rw here (
              record r { accept_defaults = accept; show_hint = hint },
              refl,
              ap (λ x. x.preseed) r_q ∙ seed,
              ap (λ x. x.validation_function) r_q ∙ valid,
            )
        | inr there ↦
            rw there (set_defaults-Shows key accept hint qs p v (q, rw there at e, seed, valid))
      ]

  validate-eq :
      (r q : Question T W) (a : T)
      → r.validation_function ≡ q.validation_function
      → validate r a ≡ validate q a
  unfolding validate
  validate-eq r q a same = rw (validate, same) refl

-- A question of a bank that the preseed answers with a valid value returns that value, without a question
-- to the user, whatever defaults, choices and previous answers there are.
pub question_bank-preseeded {ℓ} :
    {T W : Type ℓ} (prompt : Option T → Option (List T) → W → Outcome (Option T) × W)
    (questions : Dict (Question T W)) (preseed answers : Dict (Option T)) (accept hint : Bool)
    (key : String) (q : Question T W) (a : T) (fuel : ℕ)
    → Dict.get key questions ≡ some q
    → Distinct preseed
    → Dict.get key preseed ≡ some (some a)
    → validate q a ≡ return tt
    → (r : Question T W) × (Dict.get key (question_bank questions preseed answers accept hint)
        ≡ some r)
      × ((new_default : Option T) (new_choices : Option (List T)) (w : W)
          → ask prompt (suc fuel) r new_default new_choices w ≡ (return (some a), w))
unfolding question_bank ask one_answer judge validate check_answer
question_bank-preseeded prompt questions preseed answers accept hint key q a fuel there distinct
      seed valid =
    let (r, e, seeds, same) = set_previous-Shows key answers _ _ q.validation_function (
      set_preseeds-Shows key preseed _ q.preseed q.validation_function distinct (
        set_defaults-Shows key accept hint questions q.preseed q.validation_function
          (q, there, refl, refl))) in
    let seeds' : r.preseed ≡ some a = seeds ∙ ap (λ o. seeded o q.preseed) seed in
    let valid' : validate r a ≡ return tt = validate-eq r q a same ∙ valid in
    (
      r,
      e,
      λ new_default new_choices w. rw (ask, one_answer, seeds', judge, valid', check_answer) refl,
    )
