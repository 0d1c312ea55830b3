-- ===== src/Iso/Literal.antt =====
-- Whole literals: crates/isograph_lang_parser/src/parse_iso_literal.rs. The fuel of the loops is the
-- number of tokens and two: see `parse_iso_literal`.
use isograph.Prelude.{ℕ, ◌+◌, Option, none, some, List, length, codes, same_text, if◌then◌else◌}
use isograph.Lang.Span.{Span, WithSpan, todo_generated}
use isograph.Lang.Location.{TextSource, WithLocation}
use isograph.Lang.GraphqlType.{GraphqlTypeAnnotation}
use isograph.Lang.Selections.{
  EntrypointDeclaration, ClientFieldDeclaration, ClientPointerDeclaration,
}
use isograph.Iso.Token.{
  IsographLiteralParseError, period, parse_error, leftover_tokens, expected_to,
  expected_literal_to_be_exported, expected_field_or_pointer_or_entrypoint, LiteralType, identifier,
}
use isograph.Iso.Lexer.{
  Token, Parser, Reply, ◌>>=◌, pure, fail, map_err, with_span, new, remaining_token_span,
}
use isograph.Iso.Description.{parse_optional_description}
use isograph.Iso.Combinators.{
  Externals, P, located, token_of_kind, source_of_kind, name_of, directive_set,
}
use isograph.Iso.Values.{parse_directives}
use isograph.Iso.Types.{parse_type_annotation, parse_variable_definitions}
use isograph.Iso.SelectionSets.{parse_selection_set}

pub data IsoLiteralExtractionResult : Type 0 where
  client_pointer_declaration : WithSpan ClientPointerDeclaration → IsoLiteralExtractionResult
  client_field_declaration : WithSpan ClientFieldDeclaration → IsoLiteralExtractionResult
  entrypoint_declaration : WithSpan EntrypointDeclaration → IsoLiteralExtractionResult

-- `ParseResultWithLocation`, with the tokens.
abbrev pub L : Type 0 → Type 0
L A = Parser (WithLocation IsographLiteralParseError) A

abbrev no_item : Token → WithSpan (Unit {0})
no_item t = record { item = tt; span = t.span }

abbrev keyword : Span → WithSpan (Unit {0})
keyword span = record { item = tt; span = span }

module _ (x : Externals) (text_source : TextSource) where
  unfoldable pub description : P (Option (WithSpan ℕ))
  description =
      map_err (λ e. record { item = parse_error e.item; span = e.span })
        (parse_optional_description x.intern)

  abbrev with_location : {A : Type 0} → P A → L A
  with_location p = map_err (λ e. located text_source e) p

  -- What follows each kind of literal: nothing may be left.
  unfoldable pub no_leftover_tokens : {A : Type 0} → A → L A
  no_leftover_tokens declaration = do
    leftover ← remaining_token_span
    elim leftover [
      | none ↦ pure declaration
      | some span ↦ fail (located text_source (record { item = leftover_tokens; span = span }))
    ]

  -- `const_export_name.ok_or_else(…)`
  unfoldable pub exported : LiteralType → Option (List ℕ) → ℕ → P (List ℕ)
  exported literal_type none name =
      fail
        (record { item = expected_literal_to_be_exported literal_type name; span = todo_generated })
  exported literal_type (some const_export_name) name = pure const_export_name

  unfoldable pub parse_iso_entrypoint_declaration :
      ℕ → Span → List ℕ → L (WithSpan EntrypointDeclaration)
  parse_iso_entrypoint_declaration fuel entrypoint_keyword iso_literal_text = do
    declaration ← with_location (
        with_span (do
          parent_type ← name_of x.intern
          dot ← token_of_kind period
          client_field_name ← name_of x.intern
          directives ← parse_directives x text_source fuel
          entrypoint_directive_set ← directive_set x.entrypoint_directives directives
          pure {A = EntrypointDeclaration} (record {
            parent_type = parent_type;
            client_field_name = client_field_name;
            iso_literal_text = x.intern iso_literal_text;
            entrypoint_keyword = keyword entrypoint_keyword;
            dot = no_item dot;
            entrypoint_directive_set = entrypoint_directive_set;
          })))
    no_leftover_tokens declaration

  unfoldable pub parse_client_field_declaration_inner :
      ℕ → ℕ → Option (List ℕ) → Span → P (WithSpan ClientFieldDeclaration)
  parse_client_field_declaration_inner fuel definition_file_path const_export_name
        field_keyword_span =
      with_span (do
        parent_type ← name_of x.intern
        dot ← token_of_kind period
        client_field_name ← name_of x.intern
        variable_definitions ← parse_variable_definitions x text_source fuel
        directives ← parse_directives x text_source fuel
        client_field_directive_set ← directive_set x.field_directives directives
        description ← description
        selection_set ← parse_selection_set x text_source fuel
        const_export_name ← exported LiteralType.field const_export_name client_field_name.item
        pure {A = ClientFieldDeclaration} (record {
          const_export_name = x.intern const_export_name;
          parent_type = parent_type;
          client_field_name = client_field_name;
          description = description;
          selection_set = selection_set;
          client_field_directive_set = client_field_directive_set;
          variable_definitions = variable_definitions;
          definition_path = definition_file_path;
          field_keyword = keyword field_keyword_span;
          dot = no_item dot;
        }))

  unfoldable pub parse_iso_client_field_declaration :
      ℕ → ℕ → Option (List ℕ) → Span → L (WithSpan ClientFieldDeclaration)
  parse_iso_client_field_declaration fuel definition_file_path const_export_name
        field_keyword_span =
      do
        declaration ← with_location (
            parse_client_field_declaration_inner fuel definition_file_path const_export_name
              field_keyword_span)
        no_leftover_tokens declaration

  unfoldable pub parse_client_pointer_target_type : ℕ → P (GraphqlTypeAnnotation ℕ)
  parse_client_pointer_target_type fuel = do
    keyword ← source_of_kind identifier
    if same_text keyword.item (codes "to")
        then parse_type_annotation x fuel
        else fail (record { item = expected_to; span = keyword.span })

  unfoldable pub parse_client_pointer_declaration_inner :
      ℕ → ℕ → Option (List ℕ) → Span → P (WithSpan ClientPointerDeclaration)
  parse_client_pointer_declaration_inner fuel definition_file_path const_export_name
        pointer_keyword_span =
      with_span (do
        parent_type ← name_of x.intern
        dot ← token_of_kind period
        client_pointer_name ← name_of x.intern
        target_type ← parse_client_pointer_target_type fuel
        variable_definitions ← parse_variable_definitions x text_source fuel
        directives ← parse_directives x text_source fuel
        description ← description
        selection_set ← parse_selection_set x text_source fuel
        const_export_name ← exported LiteralType.pointer const_export_name client_pointer_name.item
        pure {A = ClientPointerDeclaration} (record {
          directives = directives;
          const_export_name = x.intern const_export_name;
          parent_type = parent_type;
          target_type = target_type;
          client_pointer_name = client_pointer_name;
          description = description;
          selection_set = selection_set;
          variable_definitions = variable_definitions;
          definition_path = definition_file_path;
          pointer_keyword = keyword pointer_keyword_span;
          dot = no_item dot;
        }))

  unfoldable pub parse_iso_client_pointer_declaration :
      ℕ → ℕ → Option (List ℕ) → Span → L (WithSpan ClientPointerDeclaration)
  parse_iso_client_pointer_declaration fuel definition_file_path const_export_name
        pointer_keyword_span =
      do
        declaration ← with_location (
            parse_client_pointer_declaration_inner fuel definition_file_path const_export_name
              pointer_keyword_span)
        no_leftover_tokens declaration

  -- The three kinds of literal, by the first word.
  unfoldable pub parse_by_keyword :
      ℕ → List ℕ → ℕ → Option (List ℕ) → WithSpan (List ℕ) → L IsoLiteralExtractionResult
  parse_by_keyword fuel iso_literal_text definition_file_path const_export_name discriminator =
      if same_text discriminator.item (codes "entrypoint")
      then (do
        d ← parse_iso_entrypoint_declaration fuel discriminator.span iso_literal_text
        pure (entrypoint_declaration d))
      else if same_text discriminator.item (codes "field")
      then (do
        d ←
            parse_iso_client_field_declaration fuel definition_file_path const_export_name
              discriminator.span
        pure (client_field_declaration d))
      else if same_text discriminator.item (codes "pointer")
      then (do
        d ←
            parse_iso_client_pointer_declaration fuel definition_file_path const_export_name
              discriminator.span
        pure (client_pointer_declaration d))
      else fail (
          located text_source
            (record { item = expected_field_or_pointer_or_entrypoint; span = discriminator.span }))

  unfoldable pub parse_iso_literal :
      List ℕ
      → ℕ
      → Option (List ℕ)
      → Reply (WithLocation IsographLiteralParseError) IsoLiteralExtractionResult
  parse_iso_literal iso_literal_text definition_file_path const_export_name =
      (with_location (source_of_kind identifier) >>= λ discriminator.
      parse_by_keyword (length (x.lex iso_literal_text) + 2) iso_literal_text definition_file_path
        const_export_name discriminator)
        (new x.lex iso_literal_text)
