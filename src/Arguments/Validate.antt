-- ===== src/Arguments/Validate.antt =====
-- The check of an argument's value: `value_satisfies_type` of
-- crates/isograph_schema/src/validate_argument_types.rs, with everything it calls. The recursion
-- through object literals takes fuel, one unit for each level of the value.
use isograph.Prelude.{
  ℕ, zero, suc, Ordering, compare, Bool, true, false, ◌==◌, if◌then◌else◌, Option, none, some, List,
  [], ◌∷◌, get_elem?,
}
use isograph.Lang.Outcome.{Outcome, ok, err, panic, ◌>>=◌}
use isograph.Lang.BaseTypes.{scalar, object, as_server}
use isograph.Lang.Location.{Location, WithLocation}
use isograph.Lang.Span.{WithSpan}
use isograph.Lang.GraphqlType
use isograph.Lang.GraphqlType.{
  GraphqlTypeAnnotation, named, list, non_null, non_null_named, non_null_list, is_nullable,
}
use isograph.Lang.IsographType
use isograph.Lang.IsographType.{TypeAnnotation, graphql_type_annotation_from_type_annotation}
use isograph.Lang.Values.{
  NonConstantValue, NonConstantValues, NonConstantFields, nil, values, end, field, VariableName,
}
pub use isograph.Lang.Values.{NameValuePair}
use isograph.Arguments.Schema.{
  ServerEntityId, ServerSelectableId, ServerObjectEntityAvailableSelectables, ServerEntityData,
  ServerScalarSelectable, ServerObjectSelectable, VariableDefinition, expect, server_scalar_entity,
  server_object_entity,
}
use isograph.Arguments.Subtype.{
  graphql_type_to_non_null_type, variable_type_satisfies_argument_type,
}

pub data ValidateArgumentTypesError : Type 0 where
  expected_type_found_variable :
      (expected_type variable_type : GraphqlTypeAnnotation ℕ) (variable_name : VariableName)
      → ValidateArgumentTypesError
  expected_type_found_scalar :
      (expected : GraphqlTypeAnnotation ℕ) (actual : ℕ) → ValidateArgumentTypesError
  expected_type_found_object : GraphqlTypeAnnotation ℕ → ValidateArgumentTypesError
  expected_type_found_list : GraphqlTypeAnnotation ℕ → ValidateArgumentTypesError
  expected_non_null_type_found_null : GraphqlTypeAnnotation ℕ → ValidateArgumentTypesError
  expected_type_found_enum :
      (expected : GraphqlTypeAnnotation ℕ) (actual : ℕ) → ValidateArgumentTypesError
  used_undefined_variable : VariableName → ValidateArgumentTypesError
  missing_fields : List ℕ → ValidateArgumentTypesError
  extraneous_fields : List NameValuePair → ValidateArgumentTypesError

abbrev pub Checked : Type 0 → Type 0
Checked A = Outcome (WithLocation ValidateArgumentTypesError) A

abbrev pub fail : {A : Type 0} → ValidateArgumentTypesError → Location → Checked A
fail e location = err (record { item = e; location = location })

-- The object literal's pairs, as the slice that the code goes through.
unfoldable pub pairs : NonConstantFields → List NameValuePair
pairs end = []
pairs (field name v l rest) =
    record { name = name; value = record { item = v; location = l } } ∷ pairs rest

module _ (schema_data : ServerEntityData) where
  unfoldable pub type_name : ServerEntityId → Checked ℕ
  type_name (scalar id) = server_scalar_entity schema_data id >>= (λ e. ok e.name.item)
  type_name (object id) = server_object_entity schema_data id >>= (λ e. ok e.name)

  unfoldable pub id_annotation_to_typename_annotation :
      GraphqlTypeAnnotation ServerEntityId → Checked (GraphqlTypeAnnotation ℕ)
  id_annotation_to_typename_annotation type_ = GraphqlType.and_then type_name type_

  unfoldable pub expected_scalar :
      ℕ → GraphqlTypeAnnotation ServerEntityId → Location → Checked (Unit {0})
  expected_scalar scalar_literal type_ location = do
    actual ← server_scalar_entity schema_data scalar_literal
    expected ← id_annotation_to_typename_annotation type_
    fail (expected_type_found_scalar expected actual.name.item) location

  unfoldable pub scalar_literal_satisfies_type :
      ℕ → GraphqlTypeAnnotation ServerEntityId → Location → Checked (Unit {0})
  scalar_literal_satisfies_type scalar_literal type_ location =
      elim (graphql_type_to_non_null_type type_) [
        | non_null_list l ↦ expected_scalar scalar_literal type_ location
        | non_null_named n ↦ elim n.item [
          | scalar expected_id ↦
              if expected_id == scalar_literal
              then ok tt
              else expected_scalar scalar_literal type_ location
          | object o ↦ expected_scalar scalar_literal type_ location
        ]
      ]

  -- A scalar literal that one of two types may take in; the error is the first one's.
  unfoldable pub or_else : {A : Type 0} → Checked A → Checked A → Checked A
  or_else (ok a) other = ok a
  or_else (err e) (ok a) = ok a
  or_else (err e) (err e') = err e
  or_else (err e) panic = panic
  or_else panic other = panic

  unfoldable pub enum_satisfies_type : ℕ → WithSpan ServerEntityId → Location → Checked (Unit {0})
  enum_satisfies_type enum_literal_value enum_type location = elim enum_type.item [
    | object id ↦ server_object_entity schema_data id >>= (λ e.
        fail
          (expected_type_found_enum (named (record { item = e.name; span = enum_type.span }))
            enum_literal_value)
          location)
    | scalar id ↦ panic
  ]

-- The first definition with the variable's name.
unfoldable pub get_variable_type :
    VariableName
    → List (WithSpan (VariableDefinition ServerEntityId))
    → Location
    → Checked (GraphqlTypeAnnotation ServerEntityId)
get_variable_type variable_name [] location = fail (used_undefined_variable variable_name) location
get_variable_type variable_name (d ∷ ds) location =
    if d.item.name.item == variable_name
    then ok d.item.type_
    else get_variable_type variable_name ds location

unfoldable pub is_defined : ServerObjectEntityAvailableSelectables → ℕ → Bool
is_defined [] name = false
is_defined (entry ∷ rest) name = if entry.0 == name then true else is_defined rest name

unfoldable pub extra_fields :
    ServerObjectEntityAvailableSelectables → List NameValuePair → List NameValuePair
extra_fields object_fields [] = []
extra_fields object_fields (p ∷ ps) =
    if is_defined object_fields p.name.item
    then extra_fields object_fields ps
    else p ∷ extra_fields object_fields ps

unfoldable pub validate_no_extraneous_fields :
    ServerObjectEntityAvailableSelectables → List NameValuePair → Location → Checked (Unit {0})
validate_no_extraneous_fields object_fields object_literal location =
    elim (extra_fields object_fields object_literal) [
      | [] ↦ ok tt
      | p ∷ ps ↦ fail (extraneous_fields (p ∷ ps)) location
    ]

pub data ObjectLiteralFieldType : Type 0 where
  provided : GraphqlTypeAnnotation ServerEntityId → NameValuePair → ObjectLiteralFieldType
  missing : ℕ → ObjectLiteralFieldType

unfoldable pub find_field : List NameValuePair → ℕ → Option NameValuePair
find_field [] name = none
find_field (p ∷ ps) name = if p.name.item == name then some p else find_field ps name

-- The derived order of the ids, by which a union's variants are sorted.
abbrev pub compare_entity : ServerEntityId → ServerEntityId → Ordering
compare_entity (scalar a) (scalar b) = compare a b
compare_entity (scalar a) (object b) = Ordering.lt
compare_entity (object a) (scalar b) = Ordering.gt
compare_entity (object a) (object b) = compare a b

module _ (scalar_selectables : List ServerScalarSelectable)
    (object_selectables : List ServerObjectSelectable) where
  unfoldable pub iso_type_annotation : ServerSelectableId → Checked (TypeAnnotation ServerEntityId)
  iso_type_annotation (scalar id) = do
    s ← expect (get_elem? scalar_selectables id)
    ok (IsographType.map compare_entity scalar s.target_scalar_entity)
  iso_type_annotation (object id) = do
    s ← expect (get_elem? object_selectables id)
    ok (IsographType.map compare_entity object s.target_object_entity)

  unfoldable pub field_state :
      ℕ
      → GraphqlTypeAnnotation ServerEntityId
      → Option NameValuePair
      → Option ObjectLiteralFieldType
  field_state field_name type_ (some p) = some (provided type_ p)
  field_state field_name (non_null t) none = some (missing field_name)
  field_state field_name (named t) none = none
  field_state field_name (list t) none = none

  abbrev pub cons_some :
      Option ObjectLiteralFieldType → List ObjectLiteralFieldType → List ObjectLiteralFieldType
  cons_some none rest = rest
  cons_some (some f) rest = f ∷ rest

  unfoldable pub missing_and_provided_fields :
      ServerObjectEntityAvailableSelectables
      → List NameValuePair
      → Checked (List ObjectLiteralFieldType)
  missing_and_provided_fields [] object_literal = ok []
  missing_and_provided_fields ((field_name, field_type) ∷ entries) object_literal =
      let rest = missing_and_provided_fields entries object_literal in
      elim (as_server field_type) [
        | none ↦ rest
        | some id ↦ do
          iso_type ← iso_type_annotation id
          type_ ← expect (graphql_type_annotation_from_type_annotation iso_type)
          fields ← rest
          ok (
              cons_some (field_state field_name type_ (find_field object_literal field_name))
                fields)
      ]

  unfoldable pub get_non_nullable_missing_and_provided_fields :
      ServerEntityData → List NameValuePair → ℕ → Checked (List ObjectLiteralFieldType)
  get_non_nullable_missing_and_provided_fields schema_data object_literal object_entity_id = do
    info ← expect (schema_data.server_object_entity_extra_info object_entity_id)
    missing_and_provided_fields info.selectables object_literal

-- The names of the missing fields, or the error of the first field whose value does not fit.
unfoldable pub check_fields :
    (WithLocation NonConstantValue → GraphqlTypeAnnotation ServerEntityId → Checked (Unit {0}))
    → List ObjectLiteralFieldType
    → Checked (List ℕ)
check_fields check [] = ok []
check_fields check (provided type_ p ∷ rest) =
    check p.value type_ >>= (λ u. check_fields check rest)
check_fields check (missing name ∷ rest) = check_fields check rest >>= (λ names. ok (name ∷ names))

unfoldable pub list_satisfies_type :
    (WithLocation NonConstantValue → GraphqlTypeAnnotation ServerEntityId → Checked (Unit {0}))
    → NonConstantValues
    → GraphqlTypeAnnotation ServerEntityId
    → Checked (Unit {0})
list_satisfies_type check nil type_ = ok tt
list_satisfies_type check (values v l rest) type_ =
    check (record { item = v; location = l }) type_ >>= (λ u. list_satisfies_type check rest type_)

module _ (variable_definitions : List (WithSpan (VariableDefinition ServerEntityId)))
    (schema_data : ServerEntityData) (scalar_selectables : List ServerScalarSelectable)
    (object_selectables : List ServerObjectSelectable) where
  abbrev pub fields_present : List ℕ → Location → Checked (Unit {0})
  fields_present [] location = ok tt
  fields_present (name ∷ names) location = fail (missing_fields (name ∷ names)) location

  unfoldable pub object_satisfies_type :
      (WithLocation NonConstantValue → GraphqlTypeAnnotation ServerEntityId → Checked (Unit {0}))
      → Location
      → List NameValuePair
      → ℕ
      → Checked (Unit {0})
  object_satisfies_type check location object_literal object_entity_id = do
    info ← expect (schema_data.server_object_entity_extra_info object_entity_id)
    u ← validate_no_extraneous_fields info.selectables object_literal location
    fields ←
        get_non_nullable_missing_and_provided_fields scalar_selectables object_selectables
          schema_data object_literal object_entity_id
    names ← check_fields check fields
    fields_present names location

  -- The body of the function, with its own recursive calls as an argument.
  unfoldable pub value_step :
      (WithLocation NonConstantValue → GraphqlTypeAnnotation ServerEntityId → Checked (Unit {0}))
      → NonConstantValue
      → Location
      → GraphqlTypeAnnotation ServerEntityId
      → Checked (Unit {0})
  value_step check (NonConstantValue.variable name) location type_ = do
    variable_type ← get_variable_type name variable_definitions location
    if variable_type_satisfies_argument_type variable_type type_ then ok tt else (do
      expected ← id_annotation_to_typename_annotation schema_data type_
      actual ← id_annotation_to_typename_annotation schema_data variable_type
      fail (expected_type_found_variable expected actual name) location)
  value_step check (NonConstantValue.integer n) location type_ =
      or_else schema_data
        (or_else schema_data
          (scalar_literal_satisfies_type schema_data schema_data.int_type_id type_ location)
          (scalar_literal_satisfies_type schema_data schema_data.float_type_id type_ location))
        (scalar_literal_satisfies_type schema_data schema_data.id_type_id type_ location)
  value_step check (NonConstantValue.boolean b) location type_ =
      scalar_literal_satisfies_type schema_data schema_data.boolean_type_id type_ location
  value_step check (NonConstantValue.string s) location type_ =
      or_else schema_data
        (scalar_literal_satisfies_type schema_data schema_data.string_type_id type_ location)
        (scalar_literal_satisfies_type schema_data schema_data.id_type_id type_ location)
  value_step check (NonConstantValue.float f) location type_ =
      scalar_literal_satisfies_type schema_data schema_data.float_type_id type_ location
  value_step check (NonConstantValue.enum e) location type_ =
      elim (graphql_type_to_non_null_type type_) [
        | non_null_list l ↦
            id_annotation_to_typename_annotation schema_data type_
            >>= (λ expected. fail (expected_type_found_enum expected e) location)
        | non_null_named n ↦ enum_satisfies_type schema_data e n location
      ]
  value_step check NonConstantValue.null location type_ =
      if is_nullable type_
      then ok tt
      else (id_annotation_to_typename_annotation schema_data type_
          >>= (λ expected. fail (expected_non_null_type_found_null expected) location))
  value_step check (NonConstantValue.list items) location type_ =
      elim (graphql_type_to_non_null_type type_) [
        | non_null_list list_type ↦ list_satisfies_type check items list_type
        | non_null_named n ↦
            id_annotation_to_typename_annotation schema_data type_
            >>= (λ expected. fail (expected_type_found_list expected) location)
      ]
  value_step check (NonConstantValue.object fields) location type_ =
      elim (graphql_type_to_non_null_type type_) [
        | non_null_list l ↦
            id_annotation_to_typename_annotation schema_data type_
            >>= (λ expected. fail (expected_type_found_object expected) location)
        | non_null_named n ↦ elim n.item [
          | scalar id ↦
              id_annotation_to_typename_annotation schema_data type_
              >>= (λ expected. fail (expected_type_found_object expected) location)
          | object id ↦ object_satisfies_type check location (pairs fields) id
        ]
      ]

  unfoldable pub value_satisfies_type :
      ℕ → WithLocation NonConstantValue → GraphqlTypeAnnotation ServerEntityId → Checked (Unit {0})
  value_satisfies_type zero value type_ = panic
  value_satisfies_type (suc fuel) value type_ =
      value_step (value_satisfies_type fuel) value.item value.location type_
