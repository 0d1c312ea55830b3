-- ===== src/Iso/Fuel/Selections.antt =====
-- Fuel above the number of tokens is enough for the selection sets of
-- crates/isograph_lang_parser/src/parse_iso_literal.rs.
use isograph.Prelude.{contains, ℕ, zero, suc, ◌||◌, refl, Option, List, [], arith}
use isograph.Lang.Span
use isograph.Lang.Span.{Span, WithSpan, todo_generated}
use isograph.Lang.Location.{TextSource}
use isograph.Lang.Selections.{UnvalidatedSelection, name_or_alias}
use isograph.Iso.Token.{colon, comma, open_brace, close_brace, same_kind}
use isograph.Iso.Lexer.{PeekableLexer, white_space_span}
use isograph.Iso.Combinators.{Externals, P}
use isograph.Iso.Ends.{
  size, Ends, reads, rejects, Ends-bind, Ends-if, Ends-skips, Ends-skips_if, zero_of, unwrap-Ends,
  name_of-Ends, skips-Ends, with_span-Ends, directive_set-Ends, source_text-Ends, Ends-elim,
  Ends-option,
}
use isograph.Iso.Fuel.{Takes, Stays, Ends-within}
use isograph.Iso.SelectionSets.{
  parse_comma_line_break_or_curly, parse_optional_alias_and_field_name, parse_selection,
  selections_loop, parse_optional_selection_set, parse_selection_set,
}
use isograph.Iso.Fuel.Values.{parse_optional_arguments-Stays, parse_directives-Stays}

comma_or_line_break-Ends :
    (s : PeekableLexer) → Ends zero_of (size s) (parse_comma_line_break_or_curly s)
unfolding parse_comma_line_break_or_curly white_space_span
comma_or_line_break-Ends s =
    Ends-skips_if _ _ (omega arith) (skips-Ends comma s refl) (λ s1 h1. reads (omega (arith, h1)))
      λ s1 h1.
        Ends-bind (omega (arith, h1))
          (unwrap-Ends (Span.new s1.end_index_of_last_parsed_token s1.current.span.start) s1)
          λ span s2 h2. Ends-bind (omega (arith, h1, h2)) (source_text-Ends span s2) λ text s3 h3.
            Ends-if (contains text b'\n' || same_kind s3.current.item close_brace) _ _ s3
              (λ e. reads (omega (arith, h1, h2, h3))) λ e. rejects (omega (arith, h1, h2, h3))

module _ (x : Externals) (text_source : TextSource) where
  alias_and_field_name-Takes : {n : ℕ} → Takes n (parse_optional_alias_and_field_name x text_source)
  unfolding parse_optional_alias_and_field_name
  alias_and_field_name-Takes s lt = Ends-bind (omega arith) (name_of-Ends x.intern s) λ name s1 h1.
      Ends-skips_if _ _ (omega (arith, h1)) (skips-Ends colon s1 refl)
        (λ s2 h2.
          Ends-bind (omega (arith, h1, h2)) (name_of-Ends x.intern s2)
            λ field s3 h3. reads (omega (arith, h1, h2, h3)))
        λ s2 h2. reads (omega (arith, h1, h2))

  parse_selection-Takes :
      (fuel : ℕ) (parse_nested : P (Option (List (WithSpan UnvalidatedSelection))))
      → Stays fuel parse_nested
      → Takes fuel (parse_selection x text_source fuel parse_nested)
  unfolding parse_selection
  parse_selection-Takes fuel parse_nested nested s lt = with_span-Ends 1 (size s) _ s (
      Ends-bind (omega arith) (alias_and_field_name-Takes s lt) λ names s1 h1.
        Ends-bind (omega (arith, h1))
          (parse_optional_arguments-Stays x text_source fuel s1 (omega (arith, h1)))
          λ arguments s2 h2.
            Ends-bind (omega (arith, h1, h2))
              (parse_directives-Stays x text_source fuel s2 (omega (arith, h1, h2)))
              λ directives s3 h3.
                Ends-bind (omega (arith, h1, h2, h3)) (nested s3 (omega (arith, h1, h2, h3)))
                  λ inner s4 h4.
                    Ends-bind (omega (arith, h1, h2, h3, h4)) (comma_or_line_break-Ends s4)
                      λ t s5 h5.
                        Ends-option inner _ _ s5
                          (Ends-bind (omega (arith, h1, h2, h3, h4, h5))
                            (directive_set-Ends x.scalar_directives directives s5)
                            λ set s6 h6. reads (omega (arith, h1, h2, h3, h4, h5, h6)))
                          λ selections.
                            Ends-bind (omega (arith, h1, h2, h3, h4, h5))
                              (directive_set-Ends x.object_directives directives s5)
                              λ set s6 h6. reads (omega (arith, h1, h2, h3, h4, h5, h6)))

  selections_loop-Stays :
      (parse_item : P (WithSpan UnvalidatedSelection)) (fuel : ℕ) (encountered : List ℕ)
      (selections : List (WithSpan UnvalidatedSelection))
      → Takes fuel parse_item
      → Stays fuel (selections_loop x text_source parse_item fuel encountered selections)
  unfolding selections_loop
  selections_loop-Stays parse_item zero encountered selections item s lt = absurd (omega arith)
  selections_loop-Stays parse_item (suc fuel) encountered selections item s lt =
      Ends-skips _ _ (omega arith) (skips-Ends close_brace s refl)
        (λ s1 h1. reads (omega (arith, h1)))
        λ s1 h1. Ends-bind (omega (arith, h1)) (item s1 (omega (arith, h1))) λ selection s2 h2.
          Ends-elim (contains encountered (name_or_alias selection.item).item) _ _ s2
            (rejects (omega (arith, h1, h2)))
            (Ends-within (omega (arith, h1, h2)) (
              selections_loop-Stays parse_item fuel _ _ (λ s3 h3. item s3 (omega arith)) s2
                (omega (arith, h1, h2))))

  parse_optional_selection_set-Stays :
      (fuel : ℕ) → Stays fuel (parse_optional_selection_set x text_source fuel)
  unfolding parse_optional_selection_set
  parse_optional_selection_set-Stays zero s lt = absurd (omega arith)
  parse_optional_selection_set-Stays (suc fuel) s lt =
      Ends-skips _ _ (omega arith) (skips-Ends open_brace s refl)
        (λ s1 h1.
          Ends-bind (omega (arith, h1))
            (selections_loop-Stays _ fuel [] []
              (parse_selection-Takes fuel (parse_optional_selection_set x text_source fuel)
                (parse_optional_selection_set-Stays fuel))
              s1 (omega (arith, h1)))
            λ selections s2 h2. reads (omega (arith, h1, h2)))
        λ s1 h1. reads (omega (arith, h1))

  pub parse_selection_set-Stays : (fuel : ℕ) → Stays fuel (parse_selection_set x text_source fuel)
  unfolding parse_selection_set
  parse_selection_set-Stays fuel s lt =
      Ends-bind (omega arith) (parse_optional_selection_set-Stays fuel s lt) λ selections s1 h1.
        Ends-option selections _ _ s1 (rejects (omega (arith, h1))) λ b. reads (omega (arith, h1))
