-- ===== src/Iso/Combinators.antt =====
-- What the parsers of crates/isograph_lang_parser/src/parse_iso_literal.rs are put together from.
use isograph.Prelude.{ℕ, zero, suc, Bool, true, false, none, some, List, [], ◌∷◌, ◌++◌}
use isograph.Lang.Span.{Span, WithSpan, todo_generated}
use isograph.Lang.Location.{TextSource, WithLocation, Location}
use isograph.Lang.Outcome.{Outcome}
use isograph.Lang.Selections.{
  IsographFieldDirective, ScalarSelectionDirectiveSet, ObjectSelectionDirectiveSet,
  ClientFieldDirectiveSet, EntrypointDirectiveSet,
}
use isograph.Iso.Token.{
  IsographLangTokenKind, identifier, IsographLiteralParseError, parse_error,
  expected_delimiter_or_closing_token, unable_to_deserialize_directives,
}
use isograph.Iso.Lexer.{
  Token, Reply, ok, err, panic, out_of_fuel, Parser, ◌>>=◌, pure, fail, map_err, optional,
  get_state, parse_token_of_kind, parse_source_of_kind, parse_string_key_type,
}

-- What the code does not implement: the lexer that `logos` generates, the interner of strings, and
-- the deserialization of directives that `serde` generates.
pub record Externals : Type 0 where
  pub lex : List ℕ → List Token
  pub intern : List ℕ → ℕ
  pub scalar_directives :
      List (WithSpan IsographFieldDirective) → Outcome ℕ ScalarSelectionDirectiveSet
  pub object_directives :
      List (WithSpan IsographFieldDirective) → Outcome ℕ ObjectSelectionDirectiveSet
  pub field_directives : List (WithSpan IsographFieldDirective) → Outcome ℕ ClientFieldDirectiveSet
  pub entrypoint_directives :
      List (WithSpan IsographFieldDirective) → Outcome ℕ EntrypointDirectiveSet

abbrev pub ParseError : Type 0
ParseError = WithSpan IsographLiteralParseError

-- `ParseResultWithSpan`, with the tokens.
abbrev pub P : Type 0 → Type 0
P A = Parser ParseError A

abbrev pub located {ℓ} : {A : Type ℓ} → TextSource → WithSpan A → WithLocation A
located text_source w = record {
  item = w.item;
  location = Location.embedded (record { text_source = text_source; span = w.span });
}

unfoldable pub token_of_kind : IsographLangTokenKind → P Token
token_of_kind kind =
    map_err (λ e. record { item = parse_error e.item; span = e.span }) (parse_token_of_kind kind)

unfoldable pub source_of_kind : IsographLangTokenKind → P (WithSpan (List ℕ))
source_of_kind kind =
    map_err (λ e. record { item = parse_error e.item; span = e.span }) (parse_source_of_kind kind)

unfoldable pub name_of : (List ℕ → ℕ) → P (WithSpan ℕ)
name_of intern =
    map_err (λ e. record { item = parse_error e.item; span = e.span })
      (parse_string_key_type intern identifier)

-- Whether the next token is of the kind; if it is, it is read.
unfoldable pub skips : IsographLangTokenKind → P Bool
skips kind = do
  token ← optional (token_of_kind kind)
  elim token [ none ↦ pure false | some t ↦ pure true ]

-- `to_control_flow(p)?` before `next`: a value ends the search; after an error, what `p` has read
-- stays read.
abbrev pub attempt_reply {ℓ} :
    {A : Type ℓ} → Reply ParseError A → Parser ParseError A → Reply ParseError A
attempt_reply (ok a s) next = ok a s
attempt_reply (err e s) next = next s
attempt_reply panic next = panic
attempt_reply out_of_fuel next = out_of_fuel

abbrev pub attempt {ℓ} :
    {A : Type ℓ} → Parser ParseError A → Parser ParseError A → Parser ParseError A
attempt p next s = attempt_reply (p s) next

-- A deserialization error is reported at the first directive.
abbrev first_span : List (WithSpan IsographFieldDirective) → Span
first_span [] = todo_generated
first_span (d ∷ ds) = d.span

abbrev pub directive_set {ℓ} :
    {A : Type ℓ}
    → (List (WithSpan IsographFieldDirective) → Outcome ℕ A)
    → List (WithSpan IsographFieldDirective)
    → Parser ParseError A
directive_set deserialize directives s = elim (deserialize directives) [
  | Outcome.ok a ↦ ok a s
  | Outcome.err message ↦
      err (record { item = unable_to_deserialize_directives message; span = first_span directives })
        s
  | Outcome.panic ↦ panic
]

module _ {A : Type 0} (parse_item : P A) (delimiter closing_token : IsographLangTokenKind) where
  -- The loop of `parse_delimited_list`.
  unfoldable pub delimited_items : ℕ → List A → P (WithSpan (List A))
  delimited_items zero items s = out_of_fuel
  delimited_items (suc fuel) items s =
      (do
        item ← parse_item
        closed ← optional (token_of_kind closing_token)
        elim closed [
          | some end_span ↦ pure (record { item = items ++ item ∷ []; span = end_span.span })
          | none ↦ do
            delimited ← skips delimiter
            elim delimited [
              | false ↦ do
                here ← get_state
                fail (record {
                  item = expected_delimiter_or_closing_token closing_token delimiter;
                  span = here.current.span;
                })
              | true ↦ do
                trailing ← optional (token_of_kind closing_token)
                elim trailing [
                  | some end_span ↦
                      pure (record { item = items ++ item ∷ []; span = end_span.span })
                  | none ↦ delimited_items fuel (items ++ item ∷ [])
                ]
            ]
        ])
        s

  unfoldable pub parse_delimited_list : ℕ → P (WithSpan (List A))
  parse_delimited_list fuel = do
    closed ← optional (token_of_kind closing_token)
    elim closed [
      | some end_span ↦ pure (record { item = []; span = end_span.span })
      | none ↦ delimited_items fuel []
    ]
