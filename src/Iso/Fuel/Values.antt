-- ===== src/Iso/Fuel/Values.antt =====
-- Fuel above the number of tokens is enough for the literal values, arguments and directives of
-- crates/isograph_lang_parser/src/parse_iso_literal.rs.
use isograph.Prelude.{ℕ, zero, suc, ◌-◌, refl, List, [], length, slice, same_text, codes, arith}
use isograph.Lang.Span
use isograph.Lang.Span.{Span, WithSpan, todo_generated}
use isograph.Lang.Location.{TextSource}
use isograph.Lang.Values.{NonConstantValue}
use isograph.Lang.Selections.{IsographFieldDirective}
use isograph.Iso.Token.{
  dollar, colon, comma, identifier, string_literal, integer_literal, open_brace, close_brace,
  open_paren, close_paren, at_sign,
}
use isograph.Iso.Combinators.{Externals, P}
use isograph.Iso.Ends.{
  size, reads, rejects, Ends-bind, Ends-if, Ends-optional, Ends-skips_if, unwrap-Ends,
  Ends-ok_reply, token_of_kind-Ends, source_of_kind-Ends, name_of-Ends, skips-Ends, with_span-Ends,
}
use isograph.Iso.Fuel.{Takes, Stays, Ends-within, attempt-Takes, parse_delimited_list-Takes}
use isograph.Iso.Values.{
  parse_i64, parse_variable, parse_string, parse_integer, parse_bool_or_null, parse_object_entry,
  parse_object, parse_non_constant_value, parse_argument, parse_optional_arguments, directives_loop,
  parse_directives,
}

module _ (x : Externals) (text_source : TextSource) where
  parse_variable-Takes : {n : ℕ} → Takes n (parse_variable x text_source)
  unfolding parse_variable
  parse_variable-Takes s le = Ends-bind (omega arith) (token_of_kind-Ends dollar s refl) λ t s1 h1.
      Ends-bind (omega (arith, h1)) (name_of-Ends x.intern s1)
        λ name s2 h2. reads (omega (arith, h1, h2))

  parse_string-Takes : {n : ℕ} → Takes n (parse_string x text_source)
  unfolding parse_string
  parse_string-Takes s le =
      Ends-bind (omega arith) (source_of_kind-Ends string_literal s refl) λ text s1 h1.
        Ends-bind (omega (arith, h1)) (unwrap-Ends (slice text.item 1 (length text.item - 1)) s1)
          λ inner s2 h2. reads (omega (arith, h1, h2))

  parse_integer-Takes : {n : ℕ} → Takes n (parse_integer x text_source)
  unfolding parse_integer
  parse_integer-Takes s le =
      Ends-bind (omega arith) (source_of_kind-Ends integer_literal s refl) λ number s1 h1.
        Ends-bind (omega (arith, h1)) (unwrap-Ends (parse_i64 number.item) s1)
          λ inner s2 h2. reads (omega (arith, h1, h2))

  parse_bool_or_null-Takes : {n : ℕ} → Takes n (parse_bool_or_null x text_source)
  unfolding parse_bool_or_null
  parse_bool_or_null-Takes s le =
      Ends-bind (omega arith) (source_of_kind-Ends identifier s refl) λ text s1 h1.
        Ends-if (same_text text.item (codes "null")) _ _ s1 (λ e. reads (omega (arith, h1)))
          λ e.
            Ends-if (same_text text.item (codes "true")) _ _ s1 (λ e'. reads (omega (arith, h1)))
              λ e'.
                Ends-if (same_text text.item (codes "false")) _ _ s1
                  (λ e''. reads (omega (arith, h1))) λ e''. rejects (omega (arith, h1))

  module _ (parse_value : P (WithSpan NonConstantValue)) where
    parse_object_entry-Takes :
        {n : ℕ} → Takes n parse_value → Takes n (parse_object_entry x text_source parse_value)
    unfolding parse_object_entry
    parse_object_entry-Takes value s le =
        Ends-bind (omega arith) (name_of-Ends x.intern s) λ name s1 h1.
          Ends-bind (omega (arith, h1)) (token_of_kind-Ends colon s1 refl) λ t s2 h2.
            Ends-bind (omega (arith, h1, h2)) (value s2 (omega (arith, h1, h2)))
              λ v s3 h3. reads (omega (arith, h1, h2, h3))

    parse_object-Takes :
        (fuel : ℕ)
        → Takes fuel parse_value
        → Takes (suc fuel) (parse_object x text_source fuel parse_value)
    unfolding parse_object
    parse_object-Takes fuel value s lt =
        Ends-bind (omega arith) (token_of_kind-Ends open_brace s refl) λ t s1 h1.
          Ends-bind (omega (arith, h1))
            (parse_delimited_list-Takes (parse_object_entry x text_source parse_value) comma
              close_brace refl refl fuel (parse_object_entry-Takes value) s1 (omega (arith, h1)))
            λ entries s2 h2. reads (omega (arith, h1, h2))

  pub parse_non_constant_value-Takes :
      (fuel : ℕ) → Takes fuel (parse_non_constant_value x text_source fuel)
  unfolding parse_non_constant_value
  parse_non_constant_value-Takes zero s lt = absurd (omega arith)
  parse_non_constant_value-Takes (suc fuel) s lt =
      attempt-Takes parse_variable-Takes
        (attempt-Takes parse_string-Takes (
          attempt-Takes parse_integer-Takes (
            attempt-Takes
              (parse_object-Takes (parse_non_constant_value x text_source fuel) fuel
                (parse_non_constant_value-Takes fuel))
              (attempt-Takes parse_bool_or_null-Takes λ s lt. rejects (omega arith)))))
        s lt

  pub parse_argument-Takes : (fuel : ℕ) → Takes fuel (parse_argument x text_source fuel)
  unfolding parse_argument
  parse_argument-Takes fuel s lt =
      Ends-bind (omega arith)
        (with_span-Ends 1 (size s) _ s (
          Ends-bind (omega arith) (name_of-Ends x.intern s) λ name s1 h1.
            Ends-bind (omega (arith, h1)) (token_of_kind-Ends colon s1 refl) λ t s2 h2.
              Ends-bind (omega (arith, h1, h2))
                (parse_non_constant_value-Takes fuel s2 (omega (arith, h1, h2)))
                λ v s3 h3. reads (omega (arith, h1, h2, h3))))
        λ a s1 h1. reads (omega (arith, h1))

  pub parse_optional_arguments-Stays :
      (fuel : ℕ) → Stays fuel (parse_optional_arguments x text_source fuel)
  unfolding parse_optional_arguments
  parse_optional_arguments-Stays fuel s lt =
      Ends-skips_if _ _ (omega arith) (skips-Ends open_paren s refl)
        (λ s1 h1.
          Ends-bind (omega (arith, h1))
            (parse_delimited_list-Takes (parse_argument x text_source fuel) comma close_paren refl
              refl fuel (parse_argument-Takes fuel) s1 (omega (arith, h1)))
            λ arguments s2 h2. reads (omega (arith, h1, h2)))
        λ s1 h1. reads (omega (arith, h1))

  directives_loop-Stays :
      (fuel : ℕ) (directives : List (WithSpan IsographFieldDirective))
      → Stays fuel (directives_loop x text_source fuel directives)
  unfolding directives_loop
  directives_loop-Stays zero directives s lt = absurd (omega arith)
  directives_loop-Stays (suc fuel) directives s lt =
      Ends-optional _ _ (omega arith) (Ends-ok_reply (token_of_kind-Ends at_sign s refl))
        (λ s1 h1. reads (omega (arith, h1)))
        λ t s1 h1. Ends-bind (omega (arith, h1)) (name_of-Ends x.intern s1) λ name s2 h2.
          Ends-bind (omega (arith, h1, h2)) (unwrap-Ends (Span.join t.span name.span) s2)
            λ span s3 h3.
              Ends-bind (omega (arith, h1, h2, h3))
                (parse_optional_arguments-Stays fuel s3 (omega (arith, h1, h2, h3)))
                λ arguments s4 h4.
                  Ends-within (omega (arith, h1, h2, h3, h4))
                    (directives_loop-Stays fuel _ s4 (omega (arith, h1, h2, h3, h4)))

  pub parse_directives-Stays : (fuel : ℕ) → Stays fuel (parse_directives x text_source fuel)
  unfolding parse_directives
  parse_directives-Stays fuel = directives_loop-Stays fuel []
