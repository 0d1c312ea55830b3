-- ===== src/Iso/Fuel.antt =====
-- The loops and the recursion of crates/isograph_lang_parser/src/parse_iso_literal.rs end: fuel above
-- the number of tokens that are left is enough.
pub mod Values
pub mod Types
pub mod Selections
pub mod Declarations
pub mod Literal
use isograph.Prelude.{
  ℕ, zero, suc, ◌+◌, ◌≤◌, ◌<◌, ◌≡◌, ◌≢◌, refl, Bool, true, false, if◌then◌else◌, Option, none, some,
  List, [], ◌∷◌, ◌++◌, length, slice, same_text, codes, arith,
}
use isograph.Lang.Span.{WithSpan}
use isograph.Lang.Location.{TextSource, WithLocation}
use isograph.Lang.GraphqlType.{GraphqlTypeAnnotation}
use isograph.Lang.Values.{NonConstantValue, NameValuePair, try_from}
use isograph.Lang.Outcome
use isograph.Lang.Outcome.{Outcome-cases}
use isograph.Lang.Selections.{UnvalidatedSelection, IsographFieldDirective, SelectionFieldArgument}
use isograph.Iso.Token.{
  IsographLangTokenKind, dollar, colon, comma, equals, exclamation, identifier, string_literal,
  integer_literal, open_brace, close_brace, open_paren, close_paren, open_bracket, close_bracket,
  at_sign, same_kind, end_of_file,
}
use isograph.Iso.Lexer.{PeekableLexer, Reply, out_of_fuel}
use isograph.Iso.Combinators.{
  Externals, P, ParseError, attempt, token_of_kind, source_of_kind, name_of, skips, delimited_items,
  parse_delimited_list,
}
use isograph.Iso.Values.{
  parse_i64, parse_variable, parse_string, parse_integer, parse_bool_or_null, parse_object_entry,
  parse_object, parse_non_constant_value, parse_argument, parse_optional_arguments, directives_loop,
  parse_directives,
}
use isograph.Iso.Ends.{
  size, Ends, reads, rejects, panics, Ends-out_of_fuel, Ends-weaken, Ends-bind, Ends-if,
  Ends-optional, Ends-skips, Ends-skips_if, Ends-attempt, one, zero_of, found, taken, unwrap-Ends,
  Ends-ok_reply, token_of_kind-Ends, source_of_kind-Ends, name_of-Ends, skips-Ends, with_span-Ends,
  directive_set-Ends,
}

-- With fewer than `n` tokens left, the parser ends, and a value takes a token.
abbrev pub Takes : {A : Type 0} → ℕ → P A → Type 0
Takes n p = (s : PeekableLexer) → size s < n → Ends one (size s) (p s)

-- The same, where a value may take none.
abbrev pub Stays : {A : Type 0} → ℕ → P A → Type 0
Stays n p = (s : PeekableLexer) → size s < n → Ends zero_of (size s) (p s)

module _ {E A : Type 0} {k : A → ℕ} {n : ℕ} where
  -- What ends with fewer tokens ends with more.
  pub Ends-within : {m : ℕ} {r : Reply E A} → n ≤ m → Ends k n r → Ends k m r
  Ends-within le h = Ends-weaken k _ 0 (omega arith) (λ a. omega arith) h

pub attempt-Takes : {A : Type 0} {n : ℕ} {p q : P A} → Takes n p → Takes n q → Takes n (attempt p q)
attempt-Takes hp hq s le = Ends-attempt (hp s le) λ s' le'. Ends-within le' (hq s' (omega arith))

module _ {A : Type 0} (parse_item : P A) (delimiter closing : IsographLangTokenKind)
    (d : same_kind delimiter end_of_file ≡ false) (c : same_kind closing end_of_file ≡ false) where
  delimited_items-Takes :
      (fuel : ℕ) (items : List A)
      → Takes fuel parse_item
      → Takes fuel (delimited_items parse_item delimiter closing fuel items)
  unfolding delimited_items
  delimited_items-Takes zero items item s lt = absurd (omega arith)
  delimited_items-Takes (suc fuel) items item s lt =
      Ends-bind (omega arith) (item s (omega arith)) λ a s1 h1.
        Ends-optional _ _ (omega (arith, h1)) (Ends-ok_reply (token_of_kind-Ends closing s1 c))
          (λ s2 h2.
            Ends-skips _ _ (omega (arith, h1, h2)) (skips-Ends delimiter s2 d)
              (λ s3 h3.
                Ends-optional _ _ (omega (arith, h1, h2, h3))
                  (Ends-ok_reply (token_of_kind-Ends closing s3 c))
                  (λ s4 h4. Ends-within (omega (arith, h1, h2, h3, h4)) (
                    delimited_items-Takes fuel (items ++ a ∷ []) (λ s5 h5. item s5 (omega arith)) s4
                      (omega (arith, h1, h2, h3, h4))))
                  λ t s4 h4. reads (omega (arith, h1, h2, h3, h4)))
              λ s3 h3. rejects (omega (arith, h1, h2, h3)))
          λ t s2 h2. reads (omega (arith, h1, h2))

  pub parse_delimited_list-Takes :
      (fuel : ℕ)
      → Takes fuel parse_item
      → Takes fuel (parse_delimited_list parse_item delimiter closing fuel)
  unfolding parse_delimited_list
  parse_delimited_list-Takes fuel item s lt =
      Ends-optional _ _ (omega arith) (Ends-ok_reply (token_of_kind-Ends closing s c))
        (λ s1 h1.
          Ends-within (omega (arith, h1))
            (delimited_items-Takes fuel [] item s1 (omega (arith, h1))))
        λ t s1 h1. reads (omega (arith, h1))
