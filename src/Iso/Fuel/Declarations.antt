-- ===== src/Iso/Fuel/Declarations.antt =====
-- Fuel above the number of tokens is enough for the declarations of
-- crates/isograph_lang_parser/src/parse_iso_literal.rs, and descriptions (description.rs) need none.
use isograph.Prelude.{
  ℕ, ◌-◌, ◌<◌, refl, Option, none, some, List, length, slice, same_text, codes, arith, inl, inr,
  Bool-cases,
}
use isograph.Lang.Span
use isograph.Lang.Span.{Span, WithSpan, todo_generated}
use isograph.Lang.Location.{TextSource}
use isograph.Lang.Selections.{UnvalidatedSelection}
use isograph.Iso.Token.{
  identifier, string_literal, same_kind, end_of_file, period, block_string_literal,
}
use isograph.Iso.Lexer.{PeekableLexer}
use isograph.Iso.Combinators.{Externals, P, token_of_kind, name_of, directive_set}
use isograph.Iso.Ends.{
  size, Ends, reads, rejects, Ends-weaken, Ends-bind, Ends-if, Ends-optional, zero_of, unwrap-Ends,
  Ends-ok_reply, token_of_kind-Ends, source_of_kind-Ends, name_of-Ends, with_span-Ends,
  directive_set-Ends, Ends-option,
}
use isograph.Iso.Fuel.{Takes, Stays, Ends-within}
use isograph.Iso.Token.{LiteralType}
use isograph.Lang.Selections.{EntrypointDeclaration}
use isograph.Iso.Lexer.{
  ◌>>=◌, pure, with_span, remaining_token_span, reached_eof, parse_token, next_state,
}
use isograph.Iso.Description.{
  parse_single_line_description, parse_multiline_description, parse_optional_description,
  clean_block_string_literal,
}
use isograph.Iso.Values.{parse_directives}
use isograph.Iso.SelectionSets.{parse_selection_set}
use isograph.Iso.Literal.{
  description, no_leftover_tokens, exported, parse_client_field_declaration_inner,
  parse_client_pointer_target_type, parse_client_pointer_declaration_inner,
}
use isograph.Iso.Fuel.Values.{parse_directives-Stays}
use isograph.Iso.Fuel.Types.{parse_type_annotation-Takes, parse_variable_definitions-Stays}
use isograph.Iso.Fuel.Selections.{parse_selection_set-Stays}
use isograph.Iso.Ends.{Ends-map_reply, parse_source_of_kind-Ends, advance-size}

module _ (intern : List ℕ → ℕ) where
  description_line-Ends :
      (s : PeekableLexer) → Ends zero_of (size s) (parse_single_line_description intern s)
  unfolding parse_single_line_description
  description_line-Ends s =
      Ends-optional _ _ (omega arith)
        (Ends-ok_reply (parse_source_of_kind-Ends string_literal s refl))
        (λ s1 h1. reads (omega (arith, h1)))
        λ text s1 h1.
          Ends-bind (omega (arith, h1)) (unwrap-Ends (slice text.item 1 (length text.item - 1)) s1)
            λ inner s2 h2. reads (omega (arith, h1, h2))

  description_block-Ends :
      (s : PeekableLexer) → Ends zero_of (size s) (parse_multiline_description intern s)
  unfolding parse_multiline_description
  description_block-Ends s =
      Ends-optional _ _ (omega arith)
        (Ends-ok_reply (parse_source_of_kind-Ends block_string_literal s refl))
        (λ s1 h1. reads (omega (arith, h1)))
        λ text s1 h1.
          Ends-bind (omega (arith, h1)) (unwrap-Ends (clean_block_string_literal text.item) s1)
            λ inner s2 h2. reads (omega (arith, h1, h2))

  optional_description-Ends :
      (s : PeekableLexer) → Ends zero_of (size s) (parse_optional_description intern s)
  unfolding parse_optional_description
  optional_description-Ends s = Ends-bind (omega arith) (description_line-Ends s) λ single s1 h1.
      Ends-option single _ _ s1 (Ends-within (omega arith) (description_block-Ends s1))
        λ d. reads (omega (arith, h1))

leftover-Ends :
    {E : Type 0} (s : PeekableLexer) → Ends {E = E} zero_of (size s) (remaining_token_span s)
unfolding remaining_token_span reached_eof parse_token next_state
leftover-Ends s = elim (Bool-cases (same_kind s.current.item end_of_file)) [
  | inl ends ↦ rw ends (reads (ground (arith, ends)))
  | inr more ↦ rw more (
      Ends-bind (ground (arith, advance-size s.lexer s.source))
        (unwrap-Ends (Span.new s.current.span.start (length s.source)) (next_state s))
        λ span s' h. reads (ground (arith, h, advance-size s.lexer s.source)))
]

module _ (x : Externals) (text_source : TextSource) where
  pub no_leftover_tokens-Ends :
      {A : Type 0} (declaration : A) (s : PeekableLexer)
      → Ends zero_of (size s) (no_leftover_tokens x text_source declaration s)
  unfolding no_leftover_tokens
  no_leftover_tokens-Ends declaration s =
      Ends-bind (omega arith) (leftover-Ends s) λ leftover s1 h1.
        Ends-option leftover _ _ s1 (reads (omega (arith, h1))) λ span. rejects (omega (arith, h1))

  description-Ends : (s : PeekableLexer) → Ends zero_of (size s) (description x text_source s)
  unfolding description
  description-Ends s = Ends-map_reply _ (optional_description-Ends x.intern s)

  exported-Ends :
      (literal_type : LiteralType) (export_name : Option (List ℕ)) (name : ℕ) (s : PeekableLexer)
      → Ends zero_of (size s) (exported x text_source literal_type export_name name s)
  unfolding exported
  exported-Ends literal_type none name s = rejects (omega arith)
  exported-Ends literal_type (some export_name) name s = reads (omega arith)

  pub entrypoint_inner-Ends :
      (fuel : ℕ) (span : Span) (text : List ℕ)
      → Stays fuel (
          with_span (do
            parent_type ← name_of x.intern
            dot ← token_of_kind period
            client_field_name ← name_of x.intern
            directives ← parse_directives x text_source fuel
            entrypoint_directive_set ← directive_set x.entrypoint_directives directives
            pure {A = EntrypointDeclaration} (record {
              parent_type = parent_type;
              client_field_name = client_field_name;
              iso_literal_text = x.intern text;
              entrypoint_keyword = record { item = tt; span = span };
              dot = record { item = tt; span = dot.span };
              entrypoint_directive_set = entrypoint_directive_set;
            })))
  entrypoint_inner-Ends fuel span text s lt = with_span-Ends 0 (size s) _ s (
      Ends-bind (omega arith) (name_of-Ends x.intern s) λ parent s1 h1.
        Ends-bind (omega (arith, h1)) (token_of_kind-Ends period s1 refl) λ dot s2 h2.
          Ends-bind (omega (arith, h1, h2)) (name_of-Ends x.intern s2) λ name s3 h3.
            Ends-bind (omega (arith, h1, h2, h3))
              (parse_directives-Stays x text_source fuel s3 (omega (arith, h1, h2, h3)))
              λ directives s4 h4.
                Ends-bind (omega (arith, h1, h2, h3, h4))
                  (directive_set-Ends x.entrypoint_directives directives s4)
                  λ set s5 h5. reads (omega (arith, h1, h2, h3, h4, h5)))

  target_type-Takes : (fuel : ℕ) → Takes fuel (parse_client_pointer_target_type x text_source fuel)
  unfolding parse_client_pointer_target_type
  target_type-Takes fuel s lt =
      Ends-bind (omega arith) (source_of_kind-Ends identifier s refl) λ keyword s1 h1.
        Ends-if (same_text keyword.item (codes "to")) _ _ s1
          (λ e.
            Ends-within (omega (arith, h1))
              (parse_type_annotation-Takes x fuel s1 (omega (arith, h1))))
          λ e. rejects (omega (arith, h1))

  description_and_selections-Ends :
      {A : Type 0} {next : Option (WithSpan ℕ) → List (WithSpan UnvalidatedSelection) → P A}
      (fuel : ℕ) (s : PeekableLexer)
      → size s < fuel
      → ((d : Option (WithSpan ℕ)) (selections : List (WithSpan UnvalidatedSelection))
            (s' : PeekableLexer)
          → Ends zero_of (size s') (next d selections s'))
      → Ends zero_of (size s) (
          (do
            d ← description x text_source
            selections ← parse_selection_set x text_source fuel
            next d selections)
            s)
  description_and_selections-Ends fuel s lt h =
      Ends-bind (omega arith) (description-Ends s) λ d s1 h1.
        Ends-bind (omega (arith, h1))
          (parse_selection_set-Stays x text_source fuel s1 (omega (arith, h1)))
          λ selections s2 h2. Ends-within (omega (arith, h1, h2)) (h d selections s2)

  pub field_inner-Ends :
      (fuel path : ℕ) (export_name : Option (List ℕ)) (span : Span)
      → Stays fuel (parse_client_field_declaration_inner x text_source fuel path export_name span)
  unfolding parse_client_field_declaration_inner
  field_inner-Ends fuel path export_name span s lt = with_span-Ends 0 (size s) _ s (
      Ends-bind (omega arith) (name_of-Ends x.intern s) λ parent s1 h1.
        Ends-bind (omega (arith, h1)) (token_of_kind-Ends period s1 refl) λ dot s2 h2.
          Ends-bind (omega (arith, h1, h2)) (name_of-Ends x.intern s2) λ name s3 h3.
            Ends-bind (omega (arith, h1, h2, h3))
              (parse_variable_definitions-Stays x text_source fuel s3 (omega (arith, h1, h2, h3)))
              λ definitions s4 h4.
                Ends-bind (omega (arith, h1, h2, h3, h4))
                  (parse_directives-Stays x text_source fuel s4 (omega (arith, h1, h2, h3, h4)))
                  λ directives s5 h5.
                    Ends-bind (omega (arith, h1, h2, h3, h4, h5))
                      (directive_set-Ends x.field_directives directives s5)
                      λ set s6 h6.
                        Ends-weaken zero_of (size s) 0 (omega (arith, h1, h2, h3, h4, h5, h6))
                          (λ a. omega arith)
                          (description_and_selections-Ends fuel s6
                            (omega (arith, h1, h2, h3, h4, h5, h6))
                            (λ d set s'.
                              Ends-bind (omega arith)
                                (exported-Ends LiteralType.field export_name name.item s')
                                λ n s'' h. reads (omega (arith, h)))))

  pub pointer_inner-Ends :
      (fuel path : ℕ) (export_name : Option (List ℕ)) (span : Span)
      → Stays fuel (parse_client_pointer_declaration_inner x text_source fuel path export_name span)
  unfolding parse_client_pointer_declaration_inner
  pointer_inner-Ends fuel path export_name span s lt = with_span-Ends 0 (size s) _ s (
      Ends-bind (omega arith) (name_of-Ends x.intern s) λ parent s1 h1.
        Ends-bind (omega (arith, h1)) (token_of_kind-Ends period s1 refl) λ dot s2 h2.
          Ends-bind (omega (arith, h1, h2)) (name_of-Ends x.intern s2) λ name s3 h3.
            Ends-bind (omega (arith, h1, h2, h3))
              (target_type-Takes fuel s3 (omega (arith, h1, h2, h3)))
              λ target s4 h4.
                Ends-bind (omega (arith, h1, h2, h3, h4))
                  (parse_variable_definitions-Stays x text_source fuel s4
                    (omega (arith, h1, h2, h3, h4)))
                  λ definitions s5 h5.
                    Ends-bind (omega (arith, h1, h2, h3, h4, h5))
                      (parse_directives-Stays x text_source fuel s5
                        (omega (arith, h1, h2, h3, h4, h5)))
                      λ directives s6 h6.
                        Ends-weaken zero_of (size s) 0 (omega (arith, h1, h2, h3, h4, h5, h6))
                          (λ a. omega arith)
                          (description_and_selections-Ends fuel s6
                            (omega (arith, h1, h2, h3, h4, h5, h6))
                            (λ d set s'.
                              Ends-bind (omega arith)
                                (exported-Ends LiteralType.pointer export_name name.item s')
                                λ n s'' h. reads (omega (arith, h)))))
