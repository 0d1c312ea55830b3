-- ===== src/Iso/Alternatives.antt =====
-- What `parse_non_constant_value` of crates/isograph_lang_parser/src/parse_iso_literal.rs does where
-- an alternative fails.
use isograph.Prelude.{
  ℕ, suc, ◌≤◌, ◌^◌, true, false, ◌==◌, ltb, none, some, List, ◌∷◌, ◌≡◌, refl, slice, arith,
  if_false,
}
use isograph.Lang.Location.{TextSource}
use isograph.Iso.Token.{same_kind, identifier, dollar, string_literal, integer_literal}
use isograph.Iso.Lexer.{PeekableLexer, panic, next_state}
use isograph.Iso.Combinators.{Externals}
use isograph.Iso.Values.{
  digits, parse_i64, parse_variable, parse_string, parse_integer, parse_non_constant_value,
}
use isograph.Iso.Steps.{
  token_of_kind-found, token_of_kind-missing, name_of-missing, other_kind, source_of_kind-found,
  source_of_kind-missing,
}

module _ (x : Externals) (text_source : TextSource) where
  -- A `$` that no name and no `$` follows is passed over: the value is what comes after it.
  pub dollar_is_passed_over :
      (fuel : ℕ) (s : PeekableLexer)
      → same_kind s.current.item dollar ≡ true
      → same_kind (next_state s).current.item identifier ≡ false
      → same_kind (next_state s).current.item dollar ≡ false
      → parse_non_constant_value x text_source (suc fuel) s
        ≡ parse_non_constant_value x text_source (suc fuel) (next_state s)
  unfolding parse_non_constant_value parse_variable
  dollar_is_passed_over fuel s h h' h'' =
      rw
        (
          token_of_kind-found dollar s h,
          (name_of-missing x.intern (next_state s) h').1,
          (token_of_kind-missing dollar (next_state s) h'').1,
        )
        refl

  parse_i64-none :
      (c : ℕ) (cs : List ℕ)
      → (c == b'-') ≡ false
      → 2 ^ 63 ≤ digits 0 (c ∷ cs)
      → parse_i64 (c ∷ cs) ≡ none
  unfolding parse_i64
  parse_i64-none c cs sign large =
      rw sign (if_false {b = ltb (digits 0 (c ∷ cs)) (2 ^ 63)} _ _ (ground (arith, large)))

  -- An integer literal without a sign, from 2^63 on, makes the parser panic.
  pub large_integer-panics :
      (fuel : ℕ) (s : PeekableLexer) (c : ℕ) (cs : List ℕ)
      → same_kind s.current.item integer_literal ≡ true
      → slice s.source s.current.span.start s.current.span.end ≡ some (c ∷ cs)
      → (c == b'-') ≡ false
      → 2 ^ 63 ≤ digits 0 (c ∷ cs)
      → parse_non_constant_value x text_source (suc fuel) s ≡ panic
  unfolding parse_non_constant_value parse_variable parse_string parse_integer
  large_integer-panics fuel s c cs h e sign large =
      rw
        (
          (token_of_kind-missing dollar s (other_kind _ integer_literal dollar h refl)).1,
          (source_of_kind-missing string_literal s
              (other_kind _ integer_literal string_literal h refl)).1,
          source_of_kind-found integer_literal s (c ∷ cs) h e,
          parse_i64-none c cs sign large,
        )
        refl
