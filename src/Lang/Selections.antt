-- ===== src/Lang/Selections.antt =====
-- Selections and declarations as the parser of iso literals makes them:
-- crates/isograph_lang_types/src/client_field_declaration.rs, entrypoint_declaration.rs,
-- selection_directive_set.rs, isograph_directives.rs. Interned strings are numbers, and the unit
-- `associated_data` is left out.
use isograph.Prelude.{ℕ, Bool, Option, none, some, List, [], ◌∷◌}
use isograph.Lang.Span.{Span, WithSpan}
use isograph.Lang.Location.{WithLocation}
use isograph.Lang.GraphqlType.{GraphqlTypeAnnotation}
use isograph.Lang.Values.{NonConstantValue, VariableDefinition}

pub record LoadableDirectiveParameters : Type 0 where
  pub complete_selection_set : Bool
  pub lazy_load_artifact : Bool

-- The directives of a selection; the parameters of `updatable` are an empty struct.
pub data ScalarSelectionDirectiveSet : Type 0 where
  loadable : LoadableDirectiveParameters → ScalarSelectionDirectiveSet
  updatable : ScalarSelectionDirectiveSet
  none_set : ScalarSelectionDirectiveSet

pub data ObjectSelectionDirectiveSet : Type 0 where
  object_updatable : ObjectSelectionDirectiveSet
  object_none_set : ObjectSelectionDirectiveSet

-- The parameters of `component` are an empty struct.
pub data ClientFieldDirectiveSet : Type 0 where
  component : ClientFieldDirectiveSet
  no_component : ClientFieldDirectiveSet

pub data EntrypointDirectiveSet : Type 0 where
  lazy_load : EntrypointDirectiveSet
  not_lazy : EntrypointDirectiveSet

pub record SelectionFieldArgument : Type 0 where
  pub name : WithSpan ℕ
  pub value : WithLocation NonConstantValue

pub record IsographFieldDirective : Type 0 where
  pub name : WithSpan ℕ
  pub arguments : List (WithLocation SelectionFieldArgument)

pub record ScalarSelection : Type 0 where
  pub name : WithLocation ℕ
  pub reader_alias : Option (WithLocation ℕ)
  pub arguments : List (WithLocation SelectionFieldArgument)
  pub scalar_selection_directive_set : ScalarSelectionDirectiveSet

-- An `ObjectSelection`, without its `selection_set`.
pub record ObjectSelection : Type 0 where
  pub name : WithLocation ℕ
  pub reader_alias : Option (WithLocation ℕ)
  pub arguments : List (WithLocation SelectionFieldArgument)
  pub object_selection_directive_set : ObjectSelectionDirectiveSet

-- `selection s span rest` is the `WithSpan` of `s` and `span` before `rest`.
mutual
  pub data UnvalidatedSelection : Type 0 where
    scalar : ScalarSelection → UnvalidatedSelection
    object : ObjectSelection → SelectionSet → UnvalidatedSelection

  pub data SelectionSet : Type 0 where
    end : SelectionSet
    selection : UnvalidatedSelection → Span → SelectionSet → SelectionSet

abbrev pub selection_set : List (WithSpan UnvalidatedSelection) → SelectionSet
selection_set [] = end
selection_set (s ∷ rest) = selection s.item s.span (selection_set rest)

abbrev alias_or : Option (WithLocation ℕ) → WithLocation ℕ → WithLocation ℕ
alias_or none name = name
alias_or (some alias) name = alias

unfoldable pub name_or_alias : UnvalidatedSelection → WithLocation ℕ
name_or_alias (scalar s) = alias_or s.reader_alias s.name
name_or_alias (object s nested) = alias_or s.reader_alias s.name

pub record EntrypointDeclaration : Type 0 where
  pub parent_type : WithSpan ℕ
  pub client_field_name : WithSpan ℕ
  pub entrypoint_keyword : WithSpan (Unit {0})
  pub dot : WithSpan (Unit {0})
  pub iso_literal_text : ℕ
  pub entrypoint_directive_set : EntrypointDirectiveSet

pub record ClientFieldDeclaration : Type 0 where
  pub const_export_name : ℕ
  pub parent_type : WithSpan ℕ
  pub client_field_name : WithSpan ℕ
  pub description : Option (WithSpan ℕ)
  pub selection_set : List (WithSpan UnvalidatedSelection)
  pub client_field_directive_set : ClientFieldDirectiveSet
  pub variable_definitions : List (WithSpan (VariableDefinition ℕ))
  pub definition_path : ℕ
  pub field_keyword : WithSpan (Unit {0})
  pub dot : WithSpan (Unit {0})

pub record ClientPointerDeclaration : Type 0 where
  pub directives : List (WithSpan IsographFieldDirective)
  pub const_export_name : ℕ
  pub parent_type : WithSpan ℕ
  pub target_type : GraphqlTypeAnnotation ℕ
  pub client_pointer_name : WithSpan ℕ
  pub description : Option (WithSpan ℕ)
  pub selection_set : List (WithSpan UnvalidatedSelection)
  pub variable_definitions : List (WithSpan (VariableDefinition ℕ))
  pub definition_path : ℕ
  pub pointer_keyword : WithSpan (Unit {0})
  pub dot : WithSpan (Unit {0})
