-- ===== src/Arguments/Unused.antt =====
-- The check that each variable is used: crates/isograph_schema/src/validate_use_of_arguments.rs.
use isograph.Prelude.{
  ℕ, Bool, true, false, ◌||◌, ◌==◌, if_true, if_false, List, [], ◌∷◌, ◌++◌, All, ◌≡◌, ◌↔◌, refl,
  sym, ap, ◌∙◌, inl, inr, arith, Bool-cases, contains,
}
use isograph.Lang.Outcome.{ok}
use isograph.Lang.Location.{Location}
use isograph.Lang.Span.{WithSpan}
use isograph.Lang.Values.{
  NonConstantValue, NonConstantValues, NonConstantFields, variable, integer, boolean, string, float,
  null, enum, list, object, nil, values, end, field, variables, list_variables, object_variables,
}
use isograph.Arguments.Use.{
  Definition, Arguments, UsedVariables, extend_reachable_variables_with_arg, extend_with_values,
  extend_with_fields, extend_reachable_variables_with_args, unused, validate_all_variables_are_used,
}
use isograph.Arguments.Pushes.{List-cases, cons-nonempty}

||-assoc : (a b c : Bool) → a || (b || c) ≡ (a || b) || c
||-assoc true b c = refl
||-assoc false b c = refl

||-drop : (a c : Bool) → a || c ≡ (a || false) || c
||-drop true c = refl
||-drop false c = refl

contains-append : (xs ys : List ℕ) (x : ℕ) → contains (xs ++ ys) x ≡ contains xs x || contains ys x
contains-append [] ys x = refl
contains-append (y ∷ xs) ys x =
    ap (λ b. (y == x) || b) (contains-append xs ys x)
    ∙ ||-assoc (y == x) (contains xs x) (contains ys x)

||-swap : (a b c : Bool) → b || (a || c) ≡ (a || b) || c
||-swap true true c = refl
||-swap true false c = refl
||-swap false true c = refl
||-swap false false c = refl

mutual
  unfolding extend_reachable_variables_with_arg extend_with_values extend_with_fields variables
      list_variables object_variables

  extend_with_arg_lem :
      (v : NonConstantValue) (used : UsedVariables) (x : ℕ)
      → extend_reachable_variables_with_arg v used x ≡ contains (variables v) x || used x
  extend_with_arg_lem (variable name) used x = ||-drop (name == x) (used x)
  extend_with_arg_lem (integer n) used x = refl
  extend_with_arg_lem (boolean b) used x = refl
  extend_with_arg_lem (string s) used x = refl
  extend_with_arg_lem (float f) used x = refl
  extend_with_arg_lem null used x = refl
  extend_with_arg_lem (enum e) used x = refl
  extend_with_arg_lem (list items) used x = extend_with_values_lem items used x
  extend_with_arg_lem (object fields) used x = extend_with_fields_lem fields used x

  extend_with_values_lem :
      (items : NonConstantValues) (used : UsedVariables) (x : ℕ)
      → extend_with_values items used x ≡ contains (list_variables items) x || used x
  extend_with_values_lem nil used x = refl
  extend_with_values_lem (values v l rest) used x =
      extend_with_values_lem rest (extend_reachable_variables_with_arg v used) x
      ∙ (ap (λ b. contains (list_variables rest) x || b) (extend_with_arg_lem v used x)
          ∙ (||-swap (contains (variables v) x) (contains (list_variables rest) x) (used x)
              ∙ ap (λ b. b || used x)
                  (sym (contains-append (variables v) (list_variables rest) x))))

  extend_with_fields_lem :
      (fields : NonConstantFields) (used : UsedVariables) (x : ℕ)
      → extend_with_fields fields used x ≡ contains (object_variables fields) x || used x
  extend_with_fields_lem end used x = refl
  extend_with_fields_lem (field name v l rest) used x =
      extend_with_fields_lem rest (extend_reachable_variables_with_arg v used) x
      ∙ (ap (λ b. contains (object_variables rest) x || b) (extend_with_arg_lem v used x)
          ∙ (||-swap (contains (variables v) x) (contains (object_variables rest) x) (used x)
              ∙ ap (λ b. b || used x)
                  (sym (contains-append (variables v) (object_variables rest) x))))

abbrev pub argument_variables : Arguments → List ℕ
argument_variables [] = []
argument_variables (a ∷ arguments) = variables a.item.value.item ++ argument_variables arguments

extend_reachable_variables_with_args_lem :
    (used : UsedVariables) (arguments : Arguments) (x : ℕ)
    → extend_reachable_variables_with_args used arguments x
      ≡ contains (argument_variables arguments) x || used x
unfolding extend_reachable_variables_with_args
extend_reachable_variables_with_args_lem used [] x = refl
extend_reachable_variables_with_args_lem used (a ∷ arguments) x =
    let v : NonConstantValue = a.item.value.item in
    extend_reachable_variables_with_args_lem (extend_reachable_variables_with_arg v used) arguments
      x
    ∙ (ap (λ b. contains (argument_variables arguments) x || b) (extend_with_arg_lem v used x)
        ∙ (||-swap (contains (variables v) x) (contains (argument_variables arguments) x) (used x)
            ∙ ap (λ b. b || used x)
                (sym (contains-append (variables v) (argument_variables arguments) x))))

unused_iff :
    (definitions : List (WithSpan Definition)) (used : UsedVariables)
    → (unused definitions used ≡ []) ↔ All (λ d. used d.item.name.item ≡ true) definitions
unfolding unused
unused_iff [] used = ((λ e. tt), (λ h. refl))
unused_iff (d ∷ definitions) used = elim (Bool-cases (used d.item.name.item)) [
  | inl known ↦ (
    (λ e. (known, (unused_iff definitions used).0 (sym (if_true _ _ known) ∙ e))),
    (λ h. if_true _ _ known ∙ (unused_iff definitions used).1 h.1),
  )
  | inr extra ↦ (
    (λ e. absurd (cons-nonempty _ _ (sym (if_false _ _ extra) ∙ e))),
    (λ h. absurd (ground (arith, h.0, extra))),
  )
]

All-same :
    {A : Type 0} (f g : A → Bool) (same : (a : A) → f a ≡ g a) (l : List A)
    → All (λ a. f a ≡ true) l
    → All (λ a. g a ≡ true) l
All-same f g same [] h = tt
All-same f g same (a ∷ l) h = (sym (same a) ∙ h.0, All-same f g same l h.1)

validate_iff :
    (definitions : List (WithSpan Definition)) (used : UsedVariables) (type_name field_name : ℕ)
    (location : Location)
    → (validate_all_variables_are_used definitions used type_name field_name location ≡ ok tt)
      ↔ (unused definitions used ≡ [])
unfolding validate_all_variables_are_used
validate_iff definitions used type_name field_name location =
    elim (List-cases (unused definitions used)) [
      | inl e ↦ ((λ h. e), (λ h. rw (e, validate_all_variables_are_used) refl))
      | inr (d, (ds, e)) ↦
          ((λ h. absurd (ground (arith, h, e))), (λ h. absurd (cons-nonempty d ds (sym e ∙ h))))
    ]

-- Once a selection's arguments are counted, the check of the variables passes exactly when each variable
-- that is defined had been used before or occurs in the value of one of the arguments.
pub validate_all_variables_are_used-contains :
    (definitions : List (WithSpan Definition)) (used : UsedVariables) (arguments : Arguments)
    (type_name field_name : ℕ) (location : Location)
    → (validate_all_variables_are_used definitions
          (extend_reachable_variables_with_args used arguments)
          type_name
          field_name
          location
        ≡ ok tt)
      ↔ All
          (λ d.
            (contains (argument_variables arguments) d.item.name.item || used d.item.name.item)
            ≡ true)
          definitions
validate_all_variables_are_used-contains definitions used arguments type_name field_name location =
    let after : UsedVariables = extend_reachable_variables_with_args used arguments in
    let counted : UsedVariables = λ x. contains (argument_variables arguments) x || used x in
    let same : (x : ℕ) → after x ≡ counted x =
      extend_reachable_variables_with_args_lem used arguments in
    let check = validate_iff definitions after type_name field_name location in
    let listed = unused_iff definitions after in
    (
      (λ h.
          All-same (λ d. after d.item.name.item) (λ d. counted d.item.name.item)
            (λ d. same d.item.name.item) definitions (listed.0 (check.0 h))),
      (λ h. check.1 (
          listed.1 (
            All-same (λ d. counted d.item.name.item) (λ d. after d.item.name.item)
              (λ d. sym (same d.item.name.item)) definitions h))),
    )
