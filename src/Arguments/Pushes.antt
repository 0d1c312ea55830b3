-- ===== src/Arguments/Pushes.antt =====
-- The checks of a selection's arguments one by one, and how their errors are pushed:
-- crates/isograph_schema/src/validate_use_of_arguments.rs.
use isograph.Prelude.{
  ℕ, Bool, true, false, ◌||◌, ◌==◌, if◌then◌else◌, if_true, if_false, Option, none, some, List, [],
  ◌∷◌, ◌++◌, All, ◌≡◌, ◌≢◌, ◌⊎◌, ◌↔◌, refl, sym, ap, ◌∙◌, inl, inr, arith, Bool-cases,
}
use isograph.Lang.Outcome.{ok, err, panic}
use isograph.Lang.GraphqlType.{is_nullable}
use isograph.Lang.Location.{Location, WithLocation}
use isograph.Lang.Selections.{SelectionFieldArgument}
use isograph.Arguments.Use.{
  missing, provided, has_default, find_argument, argument_type, get_missing_and_provided_arguments,
  Definition, Arguments, Errors, Checked, is_argument_defined, maybe_push_errors, extra_arguments,
  validate_no_extraneous_arguments, assert_no_missing_arguments,
}

pub append-nonempty : {A : Type 0} (xs : List A) (x : A) → xs ++ x ∷ [] ≢ []
append-nonempty [] x h = cc
append-nonempty (y ∷ xs) x h = cc

pub cons-nonempty : {A : Type 0} (x : A) (xs : List A) → x ∷ xs ≢ []
cons-nonempty x xs h = cc

pub List-cases : {A : Type 0} (l : List A) → (l ≡ []) ⊎ ((x : A) × ((xs : List A) × (l ≡ x ∷ xs)))
List-cases [] = inl refl
List-cases (x ∷ xs) = inr (x, (xs, refl))

pub bind-some :
    {A B : Type 0} (o : Option A) (f : A → Option B) (b : B)
    → elim o [ none ↦ none | some a ↦ f a ] ≡ some b
    → (a : A) × ((o ≡ some a) × (f a ≡ some b))
bind-some none f b h = absurd (ground (arith, h))
bind-some (some a) f b h = (a, (refl, h))

pub bind-return :
    {A B : Type 0} (o : Option A) (f : A → Option B) (a : A)
    → o ≡ some a
    → (b : B) × (f a ≡ some b)
    → (b : B) × (elim o [ none ↦ none | some a ↦ f a ] ≡ some b)
bind-return none f a e (b, h) = absurd (ground (arith, e))
bind-return (some c) f a e (b, h) = (b, ap f (ap (λ o. elim o [ none ↦ a | some x ↦ x ]) e) ∙ h)

pub bind-ok :
    {A B : Type 0} (o : Option A) (f : A → Option B) (a : A)
    → o ≡ some a
    → elim o [ none ↦ none | some a ↦ f a ] ≡ f a
bind-ok o f a e = ap (λ o. elim o [ none ↦ none | some a ↦ f a ]) e

pub push-ok : (errors : Errors) → maybe_push_errors errors (ok tt) ≡ some errors
unfolding maybe_push_errors
push-ok errors = refl

pub push-return :
    (errors : Errors) (c : Checked)
    → c ≢ panic
    → (errors' : Errors) × (maybe_push_errors errors c ≡ some errors')
unfolding maybe_push_errors
push-return errors (ok t) no_panic = (errors, refl)
push-return errors (err e) no_panic = (errors ++ e ∷ [], refl)
push-return errors panic no_panic = absurd (no_panic refl)

pub push_iff :
    (errors errors' : Errors) (c : Checked)
    → maybe_push_errors errors c ≡ some errors'
    → (errors' ≡ []) ↔ ((errors ≡ []) × (c ≡ ok tt))
unfolding maybe_push_errors
push_iff errors errors' (ok t) h = ((λ e. (cc, refl)), (λ p. ground (arith, h, p.0)))
push_iff errors errors' (err x) h = (
  (λ e. absurd (append-nonempty errors x (ground (arith, h, e)))),
  (λ p. absurd (ground (arith, p.1))),
)
push_iff errors errors' panic h = absurd (ground (arith, h))

pub extra_iff :
    (id : ℕ) (definitions : List Definition) (arguments : Arguments)
    → (extra_arguments id definitions arguments ≡ [])
      ↔ All
          (λ a.
            ((a.item.name.item == id) || is_argument_defined definitions a.item.name.item) ≡ true)
          arguments
unfolding extra_arguments
extra_iff id definitions [] = ((λ e. tt), (λ h. refl))
extra_iff id definitions (a ∷ arguments) =
    elim (Bool-cases
      ((a.item.name.item == id) || is_argument_defined definitions a.item.name.item)) [
        | inl known ↦ (
          (λ e. (known, (extra_iff id definitions arguments).0 (sym (if_true _ _ known) ∙ e))),
          (λ h. if_true _ _ known ∙ (extra_iff id definitions arguments).1 h.1),
        )
        | inr extra ↦ (
          (λ e. absurd (cons-nonempty _ _ (sym (if_false _ _ extra) ∙ e))),
          (λ h. absurd (ground (arith, h.0, extra))),
        )
      ]

pub extraneous_iff :
    (id : ℕ) (definitions : List Definition) (arguments : Arguments) (location : Location)
    → (validate_no_extraneous_arguments id definitions arguments location ≡ ok tt)
      ↔ (extra_arguments id definitions arguments ≡ [])
unfolding validate_no_extraneous_arguments
extraneous_iff id definitions arguments location =
    elim (List-cases (extra_arguments id definitions arguments)) [
      | inl e ↦ ((λ h. e), (λ h. rw (e, validate_no_extraneous_arguments) refl))
      | inr (a, (rest, e)) ↦
          ((λ h. absurd (ground (arith, h, e))), (λ h. absurd (cons-nonempty a rest (sym e ∙ h))))
    ]

pub extraneous-no-panic :
    (id : ℕ) (definitions : List Definition) (arguments : Arguments) (location : Location)
    → validate_no_extraneous_arguments id definitions arguments location ≢ panic
unfolding validate_no_extraneous_arguments
extraneous-no-panic id definitions arguments location h =
    elim (List-cases (extra_arguments id definitions arguments)) [
      | inl e ↦ absurd (ground (arith, h, e))
      | inr (a, (rest, e)) ↦ absurd (ground (arith, h, e))
    ]

pub missing-no-panic :
    (can : Bool) (missing_args : List Definition) (location : Location)
    → (if can then ok tt else assert_no_missing_arguments missing_args location) ≢ panic
unfolding assert_no_missing_arguments
missing-no-panic true missing_args location h = absurd (ground (arith, h))
missing-no-panic false [] location h = absurd (ground (arith, h))
missing-no-panic false (d ∷ ds) location h = absurd (ground (arith, h))

pub missing_iff :
    (can : Bool) (missing_args : List Definition) (location : Location)
    → ((if can then ok tt else assert_no_missing_arguments missing_args location) ≡ ok tt)
      ↔ ((can ≡ true) ⊎ (missing_args ≡ []))
unfolding assert_no_missing_arguments
missing_iff true missing_args location = ((λ h. inl refl), (λ h. refl))
missing_iff false [] location = ((λ h. inr refl), (λ h. refl))
missing_iff false (d ∷ ds) location = (
  (λ h. absurd (ground (arith, h))),
  (λ h. elim h [ inl e ↦ absurd (ground (arith, e)) | inr e ↦ absurd (cons-nonempty d ds e) ]),
)

pub get-without :
    (arguments : Arguments) (d : Definition) (ds : List Definition)
    (e : find_argument d.name.item arguments ≡ none)
    (can : (has_default d || is_nullable d.type_) ≡ true)
    → get_missing_and_provided_arguments (d ∷ ds) arguments
      ≡ get_missing_and_provided_arguments ds arguments
unfolding get_missing_and_provided_arguments argument_type
get-without arguments d ds e can =
    rw (e, can, get_missing_and_provided_arguments, argument_type) refl

pub get-missing :
    (arguments : Arguments) (d : Definition) (ds : List Definition)
    (e : find_argument d.name.item arguments ≡ none)
    (cannot : (has_default d || is_nullable d.type_) ≡ false)
    → get_missing_and_provided_arguments (d ∷ ds) arguments
      ≡ missing d ∷ get_missing_and_provided_arguments ds arguments
unfolding get_missing_and_provided_arguments argument_type
get-missing arguments d ds e cannot =
    rw (e, cannot, get_missing_and_provided_arguments, argument_type) refl

pub get-provided :
    (arguments : Arguments) (d : Definition) (ds : List Definition)
    (a : WithLocation SelectionFieldArgument) (e : find_argument d.name.item arguments ≡ some a)
    → get_missing_and_provided_arguments (d ∷ ds) arguments
      ≡ provided d a ∷ get_missing_and_provided_arguments ds arguments
unfolding get_missing_and_provided_arguments argument_type
get-provided arguments d ds a e = rw (e, get_missing_and_provided_arguments, argument_type) refl
