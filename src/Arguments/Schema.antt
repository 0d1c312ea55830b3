-- ===== src/Arguments/Schema.antt =====
-- The part of the schema that the check of arguments reads: ServerEntityData of
-- crates/isograph_schema/src/isograph_schema.rs, data_model/entities.rs and
-- data_model/server_selectables.rs. Ids and interned strings are their numbers; the fields that the
-- check does not read are left out.
use isograph.Prelude.{ℕ, Option, none, some, List, get_elem?}
use isograph.Lang.Outcome.{Outcome, ok, panic}
use isograph.Lang.BaseTypes.{SelectionType, DefinitionLocation}
use isograph.Lang.Location.{WithLocation}
use isograph.Lang.IsographType.{TypeAnnotation}
pub use isograph.Lang.Values.{VariableDefinition}

abbrev pub ServerEntityId : Type 0
ServerEntityId = SelectionType ℕ ℕ

-- An index into the scalar or the object selectables.
abbrev pub ServerSelectableId : Type 0
ServerSelectableId = SelectionType ℕ ℕ

abbrev pub SelectableId : Type 0
SelectableId = DefinitionLocation ServerSelectableId (SelectionType ℕ ℕ)

-- A `BTreeMap`, as its entries in the order of the keys.
abbrev pub ServerObjectEntityAvailableSelectables : Type 0
ServerObjectEntityAvailableSelectables = List (ℕ × SelectableId)

pub record ServerScalarEntity : Type 0 where
  pub name : WithLocation ℕ

pub record ServerObjectEntity : Type 0 where
  pub name : ℕ

pub record ServerObjectEntityExtraInfo : Type 0 where
  pub selectables : ServerObjectEntityAvailableSelectables

pub record ServerEntityData : Type 0 where
  pub server_objects : List ServerObjectEntity
  pub server_scalars : List ServerScalarEntity
  pub server_object_entity_extra_info : ℕ → Option ServerObjectEntityExtraInfo
  pub id_type_id : ℕ
  pub string_type_id : ℕ
  pub float_type_id : ℕ
  pub boolean_type_id : ℕ
  pub int_type_id : ℕ

pub record ServerScalarSelectable : Type 0 where
  pub target_scalar_entity : TypeAnnotation ℕ

pub record ServerObjectSelectable : Type 0 where
  pub target_object_entity : TypeAnnotation ℕ

-- What a vector or a map must hold.
abbrev pub expect {ℓ κ} : {E : Type ℓ} {A : Type κ} → Option A → Outcome E A
expect none = panic
expect (some a) = ok a

module _ {ℓ} {E : Type ℓ} where
  unfoldable pub server_scalar_entity : ServerEntityData → ℕ → Outcome E ServerScalarEntity
  server_scalar_entity data_ id = expect (get_elem? data_.server_scalars id)

  unfoldable pub server_object_entity : ServerEntityData → ℕ → Outcome E ServerObjectEntity
  server_object_entity data_ id = expect (get_elem? data_.server_objects id)
