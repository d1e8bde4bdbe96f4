-- ===== src/Question/Asking.antt =====
-- The answers of a question, and when asking ends.
use snap_openstack.Prelude.{
  zero, ◌<◌, ◌≡◌, refl, Option, none, some, Outcome, return, raise, value_error, Bool-cases, inl,
  inr, subst, List, ℕ, false, suc, true, recursion_error, arith,
}
use snap_openstack.Question.{
  Question, validate, is_preseeded, check_answer, judge, ask, one_answer, answer_with,
  calculate_default,
}

module _ {ℓ} {T W : Type ℓ} (q : Question T W) where
  -- The answers of an asking are valid.
  abbrev IsValidAt : (W → Outcome (Option T) × W) → Type ℓ
  IsValidAt again = (w w' : W) (a : T) → again w ≡ (return (some a), w') → validate q a ≡ return tt

  check_answer-valid :
      (again : W → Outcome (Option T) × W) (a b : T) (w w' : W) (o : Outcome (Unit {0}))
      → IsValidAt again
      → validate q b ≡ o
      → check_answer q again b w o ≡ (return (some a), w')
      → validate q a ≡ return tt
  unfolding check_answer
  check_answer-valid again a b w w' (return _) valid e h =
      let p : b ≡ a = cc in subst (λ x. validate q x ≡ return tt) p e
  check_answer-valid again a b w w' (raise value_error) valid e h =
      elim (Bool-cases (is_preseeded q)) [
        | inl preseeded ↦
            let h' : (raise value_error, w) ≡ (return (some a), w') =
              rw (check_answer, preseeded) at h in
            cc
        | inr asked ↦ valid w w' a (rw (check_answer, asked) at h)
      ]
  check_answer-valid again a b w w' (raise _) valid e h = cc

  judge-valid :
      (again : W → Outcome (Option T) × W) (r : Outcome (Option T) × W) (a : T) (w' : W)
      → IsValidAt again
      → judge q again r ≡ (return (some a), w')
      → validate q a ≡ return tt
  unfolding judge
  judge-valid again (raise e, w) a w' valid h = cc
  judge-valid again (return none, w) a w' valid h = cc
  judge-valid again (return (some b), w) a w' valid h =
      check_answer-valid again a b w w' (validate q b) valid refl h

module _ {ℓ} {T W : Type ℓ} (prompt : Option T → Option (List T) → W → Outcome (Option T) × W)
    (q : Question T W) where
  -- Whatever asking a question answers has passed the question's validation.
  pub ask-valid :
      (fuel : ℕ) (new_default : Option T) (new_choices : Option (List T)) (w w' : W) (a : T)
      → ask prompt fuel q new_default new_choices w ≡ (return (some a), w')
      → validate q a ≡ return tt
  unfolding ask
  ask-valid zero new_default new_choices w w' a h = cc
  ask-valid (suc fuel) new_default new_choices w w' a h =
      judge-valid q (ask prompt fuel q new_default none)
        (one_answer prompt q new_default new_choices w) a w'
        (λ w₁ w₂ b e. ask-valid fuel new_default none w₁ w₂ b e) h

  -- `Asks new_default n new_choices w a w'`: the user, asked from `w` on with these choices, enters `n`
  -- invalid answers and then the valid answer `a`; only the first time the new choices are offered.
  pub data Asks (new_default : Option T) : ℕ → Option (List T) → W → T → W → Type ℓ where
    accepted :
        (new_choices : Option (List T)) (w w' : W) (a : T)
        → one_answer prompt q new_default new_choices w ≡ (return (some a), w')
        → validate q a ≡ return tt
        → Asks new_default 0 new_choices w a w'
    refused :
        (n : ℕ) (new_choices : Option (List T)) (w w₁ w' : W) (b a : T)
        → one_answer prompt q new_default new_choices w ≡ (return (some b), w₁)
        → validate q b ≡ raise value_error
        → Asks new_default n none w₁ a w'
        → Asks new_default (suc n) new_choices w a w'

  -- A question without a preseed returns the first valid answer that the user enters after `n` invalid
  -- ones, if Python's bound on nested calls is more than `n`.
  pub ask-Asks :
      (fuel : ℕ) {new_default : Option T} {new_choices : Option (List T)} {n : ℕ} {w w' : W} {a : T}
      → is_preseeded q ≡ false
      → n < fuel
      → Asks new_default n new_choices w a w'
      → ask prompt fuel q new_default new_choices w ≡ (return (some a), w')
  unfolding ask judge check_answer
  ask-Asks zero asked enough path = ground (arith, enough)
  ask-Asks (suc fuel) asked enough (accepted new_choices w w' a answer valid) =
      rw (ask, answer, judge, valid, check_answer) refl
  ask-Asks (suc fuel) asked enough (refused n new_choices w w₁ w' b a answer invalid later) =
      rw (ask, answer, judge, invalid, check_answer, asked)
        (ask-Asks fuel asked (omega (arith, enough)) later)

  -- Where the defaults are accepted and the default is not valid, a question is asked until Python's bound
  -- on nested calls is reached, whatever that bound is.
  pub ask-accept_defaults :
      (fuel : ℕ) (new_default : Option T) (new_choices : Option (List T)) (w : W) (d : T)
      → q.preseed ≡ none
      → q.accept_defaults ≡ true
      → calculate_default q new_default w ≡ (return (some d), w)
      → validate q d ≡ raise value_error
      → ask prompt fuel q new_default new_choices w ≡ (raise recursion_error, w)
  unfolding ask judge check_answer one_answer answer_with is_preseeded
  ask-accept_defaults zero new_default new_choices w d unseeded accepts default invalid = refl
  ask-accept_defaults (suc fuel) new_default new_choices w d unseeded accepts default invalid =
      rw
        (
          ask, one_answer, unseeded, default, answer_with, accepts, judge, invalid, check_answer,
          is_preseeded, unseeded,
        )
        (ask-accept_defaults fuel new_default none w d unseeded accepts default invalid)
