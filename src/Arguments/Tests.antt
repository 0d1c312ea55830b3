-- ===== src/Arguments/Tests.antt =====
-- The check of arguments at concrete inputs.
use isograph.Prelude.{ℕ, Ordering, arith, ◌≡◌, ◌≢◌, ◌↔◌, refl, some, none, true, false, [], ◌∷◌}
use isograph.Lang.Outcome.{ok}
use isograph.Lang.BaseTypes.{scalar, object, server, as_server}
use isograph.Lang.Location.{Location, WithLocation}
use isograph.Lang.Span.{todo_generated}
use isograph.Lang.GraphqlType.{
  GraphqlTypeAnnotation, named, list, non_null, non_null_named, non_null_list,
}
use isograph.Lang.IsographType
use isograph.Lang.IsographType.{from_graphql_type_annotation, from_non_null_type_annotation}
use isograph.Lang.Values.{NonConstantValue, end}
use isograph.Arguments.Schema.{ServerEntityId, ServerEntityData, ServerScalarSelectable}
use isograph.Arguments.Subtype.{
  Datum, Data, items, absent, has_type, variable_type_satisfies_argument_type, satisfies-Within,
  graphql_type_to_non_null_type,
}
use isograph.Arguments.Validate.{
  value_satisfies_type, value_step, object_satisfies_type, validate_no_extraneous_fields,
  extra_fields, get_non_nullable_missing_and_provided_fields, missing_and_provided_fields,
  iso_type_annotation, field_state, find_field, check_fields, pairs, fail, missing_fields,
}
use isograph.Arguments.Missing.{no_missing_fields}
use isograph.Arguments.Use.{
  Definition, Arguments, Use, validate_all_variables_are_used, extend_reachable_variables_with_args,
}
use isograph.Arguments.Unused.{validate_all_variables_are_used-contains}
use isograph.Arguments.Belongs.{belongs, belongs-map-from_graphql}
use isograph.Lang.GraphqlType
use isograph.Arguments.Fuel.{enough_fuel}

-- `Int!` and `Int`, for the scalar 0.
abbrev strict_int : GraphqlTypeAnnotation ServerEntityId
strict_int = non_null (non_null_named (record { item = scalar 0; span = todo_generated }))

abbrev loose_ints : GraphqlTypeAnnotation ServerEntityId
loose_ints = list (named (record { item = scalar 0; span = todo_generated }))

satisfies-Within_example :
    (variable_type_satisfies_argument_type (non_null (non_null_list strict_int)) loose_ints ≡ true)
    ↔ ((d : Datum)
        → has_type (non_null (non_null_list strict_int)) d ≡ true
        → has_type loose_ints d ≡ true)
satisfies-Within_example = satisfies-Within (non_null (non_null_list strict_int)) loose_ints

abbrev entity_order : ServerEntityId → ServerEntityId → Ordering
entity_order a b = Ordering.eq

-- `[Int!]`, where the name `Int` is 0.
abbrev strict_names : GraphqlTypeAnnotation ℕ
strict_names = list (non_null (non_null_named (record { item = 0; span = todo_generated })))

belongs-map-from_graphql_example :
    belongs
      (IsographType.map entity_order (λ n. scalar n) (from_graphql_type_annotation strict_names))
      (items (Data.cons absent Data.nil))
    ≡ has_type (GraphqlType.map (λ n. scalar n) strict_names) (items (Data.cons absent Data.nil))
belongs-map-from_graphql_example =
    belongs-map-from_graphql entity_order (λ n. scalar n) strict_names
      (items (Data.cons absent Data.nil))

-- An input object, 0, with the one field 3 of type `Int!`.
abbrev required : ServerScalarSelectable
required = record {
  target_scalar_entity =
      from_graphql_type_annotation
        (non_null (non_null_named (record { item = 0; span = todo_generated })));
}

abbrev schema : ServerEntityData
schema = record {
  server_objects = record { name = 50 } ∷ [];
  server_scalars = record { name = record { item = 60; location = Location.generated } } ∷ [];
  server_object_entity_extra_info =
      λ id. some (record { selectables = (3, server (scalar 0)) ∷ [] });
  id_type_id = 0;
  string_type_id = 0;
  float_type_id = 0;
  boolean_type_id = 0;
  int_type_id = 0;
}

abbrev empty_literal : WithLocation NonConstantValue
empty_literal = record { item = NonConstantValue.object end; location = Location.generated }

abbrev input_type : GraphqlTypeAnnotation ServerEntityId
input_type = named (record { item = object 0; span = todo_generated })

-- `{}` is taken for an object that has a required field.
empty_accepted :
    value_satisfies_type [] schema (required ∷ []) [] 2 empty_literal input_type ≡ ok tt
unfolding value_satisfies_type value_step object_satisfies_type validate_no_extraneous_fields
    extra_fields get_non_nullable_missing_and_provided_fields missing_and_provided_fields
    iso_type_annotation field_state find_field check_fields pairs graphql_type_to_non_null_type
    as_server from_graphql_type_annotation from_non_null_type_annotation IsographType.map
    IsographType.graphql_type_annotation_from_type_annotation
empty_accepted = refl

no_missing_fields_example :
    value_satisfies_type [] schema (required ∷ []) [] 2 empty_literal input_type
    ≢ fail (missing_fields (3 ∷ [])) Location.generated
no_missing_fields_example =
    no_missing_fields [] schema (required ∷ []) []
      ((non_null (non_null_named (record { item = 0; span = todo_generated })), refl), tt) tt 2
      empty_literal input_type (3 ∷ []) Location.generated

enough_fuel_example :
    value_satisfies_type [] schema (required ∷ []) [] 2 empty_literal input_type
    ≡ value_satisfies_type [] schema (required ∷ []) [] 6 empty_literal input_type
enough_fuel_example =
    enough_fuel [] schema (required ∷ []) [] empty_literal input_type 1 5 (omega arith)
      (omega arith)

-- A variable 5 of the input object's type, given the value `{}`.
abbrev definition : Definition
definition = record {
  name = record { item = 5; location = Location.generated };
  type_ = input_type;
  default_value = none;
}

abbrev given : Arguments
given =
    record {
      item = record { name = record { item = 5; span = todo_generated }; value = empty_literal };
      location = Location.generated;
    }
    ∷ []

abbrev fresh : Use
fresh = record { errors = []; reachable_variables = λ x. false }

-- An argument that is given the variable 5.
abbrev passed : Arguments
passed =
    record {
      item = record {
        name = record { item = 6; span = todo_generated };
        value = record { item = NonConstantValue.variable 5; location = Location.generated };
      };
      location = Location.generated;
    }
    ∷ []

validate_all_variables_are_used-contains_example :
    validate_all_variables_are_used
      (record { item = definition; span = todo_generated } ∷ [])
      (extend_reachable_variables_with_args (λ x. false) passed)
      70
      71
      Location.generated
    ≡ ok tt
unfolding isograph.Lang.Values.variables
validate_all_variables_are_used-contains_example =
    (validate_all_variables_are_used-contains
        (record { item = definition; span = todo_generated } ∷ []) (λ x. false) passed 70 71
        Location.generated).1
      (refl, tt)
