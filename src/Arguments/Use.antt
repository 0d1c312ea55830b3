-- ===== src/Arguments/Use.antt =====
-- The check that a client field uses arguments and variables as they are defined:
-- crates/isograph_schema/src/validate_use_of_arguments.rs, with visit_selection_set.rs. The set of the
-- variables that are used is its membership test, and a panic is `none`.
use isograph.Prelude.{
  ℕ, Bool, true, false, ◌||◌, ◌==◌, if◌then◌else◌, Option, none, some, List, [], ◌∷◌, ◌++◌,
}
use isograph.Lang.Outcome.{Outcome, ok, err, panic}
use isograph.Lang.Location.{Location, WithLocation}
use isograph.Lang.Span.{WithSpan}
use isograph.Lang.GraphqlType.{is_nullable}
use isograph.Lang.Values.{
  NonConstantValue, NonConstantValues, NonConstantFields, VariableName, VariableDefinition,
  variable, integer, boolean, string, float, null, enum, list, object, nil, values, end, field,
}
use isograph.Lang.Selections.{SelectionFieldArgument}
use isograph.Arguments.Schema.{
  ServerEntityId, ServerEntityData, ServerScalarSelectable, ServerObjectSelectable,
}
use isograph.Arguments.Validate.{ValidateArgumentTypesError, value_satisfies_type}

abbrev pub Definition : Type 0
Definition = VariableDefinition ServerEntityId

abbrev pub Arguments : Type 0
Arguments = List (WithLocation SelectionFieldArgument)

pub data ValidateUseOfArgumentsError : Type 0 where
  missing_arguments : List Definition → ValidateUseOfArgumentsError
  extraneous_argument : Arguments → ValidateUseOfArgumentsError
  unused_variables :
      List (WithSpan Definition) → (type_name field_name : ℕ) → ValidateUseOfArgumentsError
  validate_argument_type : ValidateArgumentTypesError → ValidateUseOfArgumentsError

abbrev pub Errors : Type 0
Errors = List (WithLocation ValidateUseOfArgumentsError)

abbrev pub Checked : Type 0
Checked = Outcome (WithLocation ValidateUseOfArgumentsError) (Unit {0})

abbrev pub UsedVariables : Type 0
UsedVariables = VariableName → Bool

unfoldable mutual
  pub extend_reachable_variables_with_arg : NonConstantValue → UsedVariables → UsedVariables
  extend_reachable_variables_with_arg (variable name) used = λ x. (name == x) || used x
  extend_reachable_variables_with_arg (integer n) used = used
  extend_reachable_variables_with_arg (boolean b) used = used
  extend_reachable_variables_with_arg (string s) used = used
  extend_reachable_variables_with_arg (float f) used = used
  extend_reachable_variables_with_arg null used = used
  extend_reachable_variables_with_arg (enum e) used = used
  extend_reachable_variables_with_arg (list items) used = extend_with_values items used
  extend_reachable_variables_with_arg (object fields) used = extend_with_fields fields used

  pub extend_with_values : NonConstantValues → UsedVariables → UsedVariables
  extend_with_values nil used = used
  extend_with_values (values v l rest) used =
      extend_with_values rest (extend_reachable_variables_with_arg v used)

  pub extend_with_fields : NonConstantFields → UsedVariables → UsedVariables
  extend_with_fields end used = used
  extend_with_fields (field name v l rest) used =
      extend_with_fields rest (extend_reachable_variables_with_arg v used)

unfoldable pub extend_reachable_variables_with_args : UsedVariables → Arguments → UsedVariables
extend_reachable_variables_with_args used [] = used
extend_reachable_variables_with_args used (a ∷ arguments) =
    extend_reachable_variables_with_args
      (extend_reachable_variables_with_arg a.item.value.item used) arguments

unfoldable pub find_argument : ℕ → Arguments → Option (WithLocation SelectionFieldArgument)
find_argument name [] = none
find_argument name (a ∷ arguments) =
    if name == a.item.name.item then some a else find_argument name arguments

pub data ArgumentType : Type 0 where
  missing : Definition → ArgumentType
  provided : Definition → WithLocation SelectionFieldArgument → ArgumentType

-- Whether a definition may go without an argument.
abbrev pub has_default : Definition → Bool
has_default definition = elim definition.default_value [ none ↦ false | some value ↦ true ]

unfoldable pub argument_type : Definition → Arguments → Option ArgumentType
argument_type definition arguments = elim (find_argument definition.name.item arguments) [
  | some argument ↦ some (provided definition argument)
  | none ↦
      if has_default definition || is_nullable definition.type_
      then none
      else some (missing definition)
]

unfoldable pub get_missing_and_provided_arguments : List Definition → Arguments → List ArgumentType
get_missing_and_provided_arguments [] arguments = []
get_missing_and_provided_arguments (d ∷ definitions) arguments = elim (argument_type d arguments) [
  | none ↦ get_missing_and_provided_arguments definitions arguments
  | some t ↦ t ∷ get_missing_and_provided_arguments definitions arguments
]

abbrev pub is_argument_defined : List Definition → ℕ → Bool
is_argument_defined [] name = false
is_argument_defined (d ∷ definitions) name =
    (d.name.item == name) || is_argument_defined definitions name

-- `maybe_push_errors`, where the check may panic.
unfoldable pub maybe_push_errors : Errors → Checked → Option Errors
maybe_push_errors errors (ok t) = some errors
maybe_push_errors errors (err e) = some (errors ++ e ∷ [])
maybe_push_errors errors panic = none

-- `id` is the interned `"id"`.
module _ (id : ℕ) where
  unfoldable pub extra_arguments : List Definition → Arguments → Arguments
  extra_arguments definitions [] = []
  extra_arguments definitions (a ∷ arguments) =
      if (a.item.name.item == id) || is_argument_defined definitions a.item.name.item
      then extra_arguments definitions arguments
      else a ∷ extra_arguments definitions arguments

  unfoldable pub validate_no_extraneous_arguments : List Definition → Arguments → Location → Checked
  validate_no_extraneous_arguments definitions arguments location =
      elim (extra_arguments definitions arguments) [
        | [] ↦ ok tt
        | a ∷ rest ↦ err (record { item = extraneous_argument (a ∷ rest); location = location })
      ]

unfoldable pub assert_no_missing_arguments : List Definition → Location → Checked
assert_no_missing_arguments [] location = ok tt
assert_no_missing_arguments (d ∷ missing_args) location =
    err (record { item = missing_arguments (d ∷ missing_args); location = location })

unfoldable pub unused : List (WithSpan Definition) → UsedVariables → List (WithSpan Definition)
unused [] used = []
unused (d ∷ definitions) used =
    if used d.item.name.item then unused definitions used else d ∷ unused definitions used

unfoldable pub validate_all_variables_are_used :
    List (WithSpan Definition) → UsedVariables → (type_name field_name : ℕ) → Location → Checked
validate_all_variables_are_used definitions used type_name field_name location =
    elim (unused definitions used) [
      | [] ↦ ok tt
      | d ∷ ds ↦
          err
            (record { item = unused_variables (d ∷ ds) type_name field_name; location = location })
    ]

abbrev pub from_type_error : Outcome (WithLocation ValidateArgumentTypesError) (Unit {0}) → Checked
from_type_error (ok t) = ok t
from_type_error (err e) =
    err (record { item = validate_argument_type e.item; location = e.location })
from_type_error panic = panic

pub record Use : Type 0 where
  pub errors : Errors
  pub reachable_variables : UsedVariables

-- `fuel` is that of `value_satisfies_type`.
module _ (id fuel : ℕ) (variable_definitions : List (WithSpan Definition))
    (schema_data : ServerEntityData) (scalar_selectables : List ServerScalarSelectable)
    (object_selectables : List ServerObjectSelectable) where
  unfoldable pub check_argument : Definition → WithLocation SelectionFieldArgument → Checked
  check_argument definition argument = from_type_error (
      value_satisfies_type variable_definitions schema_data scalar_selectables object_selectables
        fuel argument.item.value definition.type_)

  -- The loop over the arguments: the errors, and the missing arguments.
  unfoldable pub check_arguments :
      List ArgumentType → Errors → List Definition → Option (Errors × List Definition)
  check_arguments [] errors missing_args = some (errors, missing_args)
  check_arguments (missing d ∷ types) errors missing_args =
      check_arguments types errors (missing_args ++ d ∷ [])
  check_arguments (provided d a ∷ types) errors missing_args =
      elim (maybe_push_errors errors (check_argument d a)) [
        | none ↦ none
        | some errors' ↦ check_arguments types errors' missing_args
      ]

  unfoldable pub validate_use_of_arguments_impl :
      Use → List Definition → Bool → Arguments → Location → Option Use
  validate_use_of_arguments_impl use_ definitions can_have_missing_args arguments location =
      elim (check_arguments (get_missing_and_provided_arguments definitions arguments) use_.errors
        []) [
          | none ↦ none
          | some (errors, missing_args) ↦
              elim (maybe_push_errors errors
                (validate_no_extraneous_arguments id definitions arguments location)) [
                  | none ↦ none
                  | some errors' ↦
                      elim (maybe_push_errors errors' (
                        if can_have_missing_args
                        then ok tt
                        else assert_no_missing_arguments missing_args location)) [
                          | none ↦ none
                          | some errors'' ↦ some (record {
                            errors = errors'';
                            reachable_variables =
                                extend_reachable_variables_with_args use_.reachable_variables
                                  arguments;
                          })
                        ]
                ]
        ]
