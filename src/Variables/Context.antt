-- ===== src/Variables/Context.antt =====
-- Variable contexts: crates/isograph_schema/src/variable_context.rs. A `HashMap` is a function; a
-- panic is `none`.
use isograph.Prelude.{ℕ, Option, none, some, List, [], ◌∷◌, ◌==◌, if◌then◌else◌}
use isograph.Lang.Outcome.{ok, err, panic}
use isograph.Lang.Location.{WithLocation}
use isograph.Lang.Span.{WithSpan}
use isograph.Lang.Values.{NonConstantValue, variable, VariableName, try_from, from_constant}
use isograph.Lang.Values
pub use isograph.Lang.Selections.{
  ScalarSelectionDirectiveSet, SelectionFieldArgument, loadable, updatable, none_set,
}
use isograph.Arguments.Schema.{VariableDefinition, ServerEntityId}

abbrev pub VariableContext : Type 0
VariableContext = VariableName → Option NonConstantValue

pub record ArgumentKeyAndValue : Type 0 where
  pub key : ℕ
  pub value : NonConstantValue

pub record NameAndArguments : Type 0 where
  pub name : ℕ
  pub arguments : List ArgumentKeyAndValue

unfoldable pub into_key_and_value : SelectionFieldArgument → ArgumentKeyAndValue
into_key_and_value a = record { key = a.name.item; value = a.value.item }

abbrev pub ValidatedVariableDefinition : Type 0
ValidatedVariableDefinition = VariableDefinition ServerEntityId

-- `collect` into a `HashMap`: a later pair takes the place of an earlier one.
abbrev pub collect_map : List (VariableName × NonConstantValue) → VariableContext
collect_map [] x = none
collect_map ((name, value) ∷ pairs) x = elim (collect_map pairs x) [
  | some v ↦ some v
  | none ↦ if name == x then some value else none
]

unfoldable pub matching_arg :
    List (WithLocation SelectionFieldArgument)
    → VariableName
    → Option (WithLocation SelectionFieldArgument)
matching_arg [] variable_name = none
matching_arg (s ∷ rest) variable_name =
    if s.item.name.item == variable_name then some s else matching_arg rest variable_name

-- What stands in for an argument that is not there.
unfoldable pub missing_value :
    ValidatedVariableDefinition → ScalarSelectionDirectiveSet → NonConstantValue
missing_value definition (loadable p) = variable definition.name.item
missing_value definition updatable = elim definition.default_value [
  | some default_value ↦ from_constant default_value.item
  | none ↦ Values.null
]
missing_value definition none_set = elim definition.default_value [
  | some default_value ↦ from_constant default_value.item
  | none ↦ Values.null
]

unfoldable pub child_value : VariableContext → NonConstantValue → Option NonConstantValue
child_value context value = elim (try_from value) [
  | ok c ↦ some value
  | err e ↦ context e
  | panic ↦ none
]

unfoldable pub child_pair :
    VariableContext
    → List (WithLocation SelectionFieldArgument)
    → ScalarSelectionDirectiveSet
    → WithSpan ValidatedVariableDefinition
    → Option (VariableName × NonConstantValue)
child_pair context selection_arguments selection_variant definition =
    let variable_name = definition.item.name.item in
    elim (matching_arg selection_arguments variable_name) [
      | none ↦ some (variable_name, missing_value definition.item selection_variant)
      | some arg ↦ elim (child_value context arg.item.value.item) [
        | none ↦ none
        | some value ↦ some (variable_name, value)
      ]
    ]

unfoldable pub child_pairs :
    VariableContext
    → List (WithLocation SelectionFieldArgument)
    → List (WithSpan ValidatedVariableDefinition)
    → ScalarSelectionDirectiveSet
    → Option (List (VariableName × NonConstantValue))
child_pairs context selection_arguments [] selection_variant = some []
child_pairs context selection_arguments (d ∷ ds) selection_variant =
    let rest = child_pairs context selection_arguments ds selection_variant in
    elim (child_pair context selection_arguments selection_variant d) [
      | none ↦ none
      | some pair ↦ elim rest [ none ↦ none | some pairs ↦ some (pair ∷ pairs) ]
    ]

unfoldable pub child_variable_context :
    VariableContext
    → List (WithLocation SelectionFieldArgument)
    → List (WithSpan ValidatedVariableDefinition)
    → ScalarSelectionDirectiveSet
    → Option VariableContext
child_variable_context context selection_arguments definitions selection_variant =
    elim (child_pairs context selection_arguments definitions selection_variant) [
      | none ↦ none
      | some pairs ↦ some (collect_map pairs)
    ]

abbrev own_names : List ValidatedVariableDefinition → List (VariableName × NonConstantValue)
own_names [] = []
own_names (d ∷ ds) = (d.name.item, variable d.name.item) ∷ own_names ds

-- The three functions of this name differ in where the definitions come from.
unfoldable pub initial_variable_context : List ValidatedVariableDefinition → VariableContext
initial_variable_context definitions = collect_map (own_names definitions)

-- `transform_selection_field_argument_into_merged_arg_with_child_context`.
unfoldable pub transform_argument : VariableContext → ArgumentKeyAndValue → ArgumentKeyAndValue
transform_argument context arg = elim arg.value [
  | variable used_variable_name ↦ elim (context used_variable_name) [
    | some value ↦ record { key = arg.key; value = value }
    | none ↦ record { key = arg.key; value = Values.null }
  ]
  | _ ↦ arg
]

unfoldable pub transform_arguments_with_child_context :
    List ArgumentKeyAndValue → VariableContext → List ArgumentKeyAndValue
transform_arguments_with_child_context [] context = []
transform_arguments_with_child_context (arg ∷ args) context =
    transform_argument context arg ∷ transform_arguments_with_child_context args context

unfoldable pub transform_name_and_arguments_with_child_variable_context :
    NameAndArguments → VariableContext → NameAndArguments
transform_name_and_arguments_with_child_variable_context n context = record {
  name = n.name;
  arguments = transform_arguments_with_child_context n.arguments context;
}

abbrev keys_and_values : List (WithLocation SelectionFieldArgument) → List ArgumentKeyAndValue
keys_and_values [] = []
keys_and_values (a ∷ rest) = into_key_and_value a.item ∷ keys_and_values rest

unfoldable pub create_transformed_name_and_arguments :
    ℕ → List (WithLocation SelectionFieldArgument) → VariableContext → NameAndArguments
create_transformed_name_and_arguments name arguments context = record {
  name = name;
  arguments = transform_arguments_with_child_context (keys_and_values arguments) context;
}
