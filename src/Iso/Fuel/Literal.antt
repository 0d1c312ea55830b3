-- ===== src/Iso/Fuel/Literal.antt =====
-- A whole literal needs no more fuel than its tokens and two:
-- crates/isograph_lang_parser/src/parse_iso_literal.rs.
use isograph.Prelude.{ℕ, ◌≤◌, ◌<◌, ◌≢◌, refl, Option, List, length, same_text, codes, arith}
use isograph.Lang.Span.{WithSpan}
use isograph.Lang.Location.{TextSource}
use isograph.Iso.Token.{identifier}
use isograph.Iso.Lexer.{PeekableLexer, out_of_fuel, new}
use isograph.Iso.Combinators.{Externals, P, located}
use isograph.Iso.Ends.{
  size, Ends, reads, rejects, Ends-out_of_fuel, Ends-bind, Ends-if, zero_of, source_of_kind-Ends,
}
use isograph.Iso.Fuel.{Stays, Ends-within}
use isograph.Iso.Lexer.{◌>>=◌, pure, map_err, Token, next_state}
use isograph.Iso.Literal.{
  entrypoint_declaration, client_field_declaration, client_pointer_declaration, no_leftover_tokens,
  parse_iso_entrypoint_declaration, parse_iso_client_field_declaration,
  parse_iso_client_pointer_declaration, parse_by_keyword, parse_iso_literal,
}
use isograph.Iso.Ends.{Ends-map_reply, advance-size}
use isograph.Iso.Fuel.Declarations.{
  entrypoint_inner-Ends, field_inner-Ends, pointer_inner-Ends, no_leftover_tokens-Ends,
}

new-size :
    (lex : List ℕ → List Token) (source : List ℕ) → size (new lex source) ≤ length (lex source)
unfolding new next_state
new-size lex source = advance-size (lex source) source

module _ (x : Externals) (text_source : TextSource) where
  declaration-Ends :
      {A B : Type 0} (wrap : WithSpan A → B) (p : P (WithSpan A)) (fuel : ℕ) (s : PeekableLexer)
      → Stays fuel p
      → size s < fuel
      → Ends zero_of (size s) (
          (do
            d ← (do
              declaration ← map_err (λ e. located text_source e) p
              no_leftover_tokens x text_source declaration)
            pure (wrap d))
            s)
  declaration-Ends wrap p fuel s h lt =
      Ends-bind {n = size s} (omega arith)
        (Ends-bind (omega arith) (Ends-map_reply _ (h s lt)) λ declaration s1 h1.
          Ends-within (omega (arith, h1)) (no_leftover_tokens-Ends x text_source declaration s1))
        λ d s1 h1. reads (omega (arith, h1))

  parse_by_keyword-Ends :
      (fuel : ℕ) (text : List ℕ) (path : ℕ) (export_name : Option (List ℕ))
      (discriminator : WithSpan (List ℕ)) (s : PeekableLexer)
      → size s < fuel
      → Ends zero_of
          (size s)
          (parse_by_keyword x text_source fuel text path export_name discriminator s)
  unfolding parse_by_keyword parse_iso_client_field_declaration parse_iso_client_pointer_declaration
      parse_iso_entrypoint_declaration
  parse_by_keyword-Ends fuel text path export_name discriminator s lt =
      Ends-if (same_text discriminator.item (codes "entrypoint")) _ _ s
        (λ e.
          declaration-Ends entrypoint_declaration _ fuel s
            (entrypoint_inner-Ends x text_source fuel _ text) lt)
        λ e.
          Ends-if (same_text discriminator.item (codes "field")) _ _ s
            (λ e'.
              declaration-Ends client_field_declaration _ fuel s
                (field_inner-Ends x text_source fuel path export_name discriminator.span) lt)
            λ e'.
              Ends-if (same_text discriminator.item (codes "pointer")) _ _ s
                (λ e''.
                  declaration-Ends client_pointer_declaration _ fuel s
                    (pointer_inner-Ends x text_source fuel path export_name discriminator.span) lt)
                λ e''. rejects (omega arith)

  -- `parse_iso_literal` is modelled with fuel for its loops; the fuel that it takes is enough for
  -- every literal and every lexer: it never runs out.
  pub parse_iso_literal-ends :
      (iso_literal_text : List ℕ) (definition_file_path : ℕ) (const_export_name : Option (List ℕ))
      → parse_iso_literal x text_source iso_literal_text definition_file_path const_export_name
        ≢ out_of_fuel
  unfolding parse_iso_literal
  parse_iso_literal-ends text path export_name =
      let s = new x.lex text in
      Ends-out_of_fuel (
        Ends-bind {m = size s} (omega arith)
          (Ends-map_reply _ (source_of_kind-Ends identifier s refl))
          λ d s1 h1. Ends-within (omega (arith, h1)) (
            parse_by_keyword-Ends _ text path export_name d s1
              (omega (arith, h1, new-size x.lex text))))
