-- ===== src/Iso/Fuel/Types.antt =====
-- Fuel above the number of tokens is enough for the type annotations and variable definitions of
-- crates/isograph_lang_parser/src/parse_iso_literal.rs.
use isograph.Prelude.{ℕ, zero, suc, refl, arith}
use isograph.Lang.Location.{TextSource}
use isograph.Lang.GraphqlType.{GraphqlTypeAnnotation}
use isograph.Lang.Values.{try_from}
use isograph.Iso.Token.{
  dollar, colon, comma, equals, exclamation, open_paren, close_paren, open_bracket, close_bracket,
}
use isograph.Iso.Combinators.{Externals, P}
use isograph.Iso.Ends.{
  size, reads, rejects, Ends-bind, Ends-skips_if, token_of_kind-Ends, name_of-Ends, skips-Ends,
  with_span-Ends, skips-Stays, Ends-outcome,
}
use isograph.Iso.Fuel.{Takes, Stays, attempt-Takes, parse_delimited_list-Takes}
use isograph.Iso.Types.{
  parse_named_type, parse_list_type, parse_type_annotation, parse_optional_default_value,
  parse_variable_definition, parse_variable_definitions,
}
use isograph.Iso.Fuel.Values.{parse_non_constant_value-Takes}

module _ (x : Externals) where
  parse_named_type-Takes : {n : ℕ} → Takes n (parse_named_type x)
  unfolding parse_named_type
  parse_named_type-Takes s lt = Ends-bind (omega arith) (name_of-Ends x.intern s) λ name s1 h1.
      Ends-bind (omega (arith, h1)) (skips-Stays exclamation s1 refl)
        λ b s2 h2. reads (omega (arith, h1, h2))

  parse_list_type-Takes :
      {fuel : ℕ} (parse_inner : P (GraphqlTypeAnnotation ℕ))
      → Takes fuel parse_inner
      → Takes (suc fuel) (parse_list_type x parse_inner)
  unfolding parse_list_type
  parse_list_type-Takes parse_inner inner s lt =
      Ends-bind (omega arith) (token_of_kind-Ends open_bracket s refl) λ t s1 h1.
        Ends-bind (omega (arith, h1)) (inner s1 (omega (arith, h1))) λ a s2 h2.
          Ends-bind (omega (arith, h1, h2)) (token_of_kind-Ends close_bracket s2 refl) λ t' s3 h3.
            Ends-bind (omega (arith, h1, h2, h3)) (skips-Stays exclamation s3 refl)
              λ b s4 h4. reads (omega (arith, h1, h2, h3, h4))

  pub parse_type_annotation-Takes : (fuel : ℕ) → Takes fuel (parse_type_annotation x fuel)
  unfolding parse_type_annotation
  parse_type_annotation-Takes zero s lt = absurd (omega arith)
  parse_type_annotation-Takes (suc fuel) s lt =
      attempt-Takes parse_named_type-Takes
        (attempt-Takes
          (parse_list_type-Takes (parse_type_annotation x fuel) (parse_type_annotation-Takes fuel))
          λ s lt. rejects (omega arith))
        s lt

module _ (x : Externals) (text_source : TextSource) where
  parse_optional_default_value-Stays :
      (fuel : ℕ) → Stays fuel (parse_optional_default_value x text_source fuel)
  unfolding parse_optional_default_value
  parse_optional_default_value-Stays fuel s lt =
      Ends-skips_if _ _ (omega arith) (skips-Ends equals s refl)
        (λ s1 h1.
          Ends-bind (omega (arith, h1))
            (parse_non_constant_value-Takes x text_source fuel s1 (omega (arith, h1)))
            λ value s2 h2.
              Ends-outcome (try_from value.item) _ _ s2 (λ c. reads (omega (arith, h1, h2)))
                λ e. rejects (omega (arith, h1, h2)))
        λ s1 h1. reads (omega (arith, h1))

  parse_variable_definition-Takes :
      (fuel : ℕ) → Takes fuel (parse_variable_definition x text_source fuel)
  unfolding parse_variable_definition
  parse_variable_definition-Takes fuel s lt = with_span-Ends 1 (size s) _ s (
      Ends-bind (omega arith) (token_of_kind-Ends dollar s refl) λ t s1 h1.
        Ends-bind (omega (arith, h1)) (name_of-Ends x.intern s1) λ name s2 h2.
          Ends-bind (omega (arith, h1, h2)) (token_of_kind-Ends colon s2 refl) λ t' s3 h3.
            Ends-bind (omega (arith, h1, h2, h3))
              (parse_type_annotation-Takes x fuel s3 (omega (arith, h1, h2, h3)))
              λ a s4 h4.
                Ends-bind (omega (arith, h1, h2, h3, h4))
                  (parse_optional_default_value-Stays fuel s4 (omega (arith, h1, h2, h3, h4)))
                  λ v s5 h5. reads (omega (arith, h1, h2, h3, h4, h5)))

  pub parse_variable_definitions-Stays :
      (fuel : ℕ) → Stays fuel (parse_variable_definitions x text_source fuel)
  unfolding parse_variable_definitions
  parse_variable_definitions-Stays fuel s lt =
      Ends-skips_if _ _ (omega arith) (skips-Ends open_paren s refl)
        (λ s1 h1.
          Ends-bind (omega (arith, h1))
            (parse_delimited_list-Takes (parse_variable_definition x text_source fuel) comma
              close_paren refl refl fuel (parse_variable_definition-Takes fuel) s1
              (omega (arith, h1)))
            λ definitions s2 h2. reads (omega (arith, h1, h2)))
        λ s1 h1. reads (omega (arith, h1))
