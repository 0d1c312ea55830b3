-- ===== src/Iso/Lexer.antt =====
-- The lexer with one token of lookahead: crates/isograph_lang_parser/src/peekable_lexer.rs. The
-- `logos` lexer is the list of the tokens that it will still give, with their spans; after the
-- last its span is the empty one at the end of the source. `offset` is 0 everywhere and left out.
use isograph.Prelude.{
  ℕ, Bool, Option, none, some, List, [], ◌∷◌, length, slice, same_text, if◌then◌else◌,
}
use isograph.Lang.Span
use isograph.Lang.Span.{Span, WithSpan, todo_generated, as_usize}
use isograph.Iso.Token.{
  IsographLangTokenKind, end_of_file, identifier, same_kind, LowLevelParseError,
  parse_token_kind_error, parse_matching_identifier_error,
}

abbrev pub Token : Type 0
Token = WithSpan IsographLangTokenKind

pub record PeekableLexer : Type 0 where
  pub current : Token
  pub lexer : List Token
  pub source : List ℕ
  pub end_index_of_last_parsed_token : ℕ

-- What a parser leaves: also after an error, how far it has read. `panic` is a panic of the code, and
-- `out_of_fuel` the end of the model's fuel.
pub data Reply {ℓ κ} (E : Type ℓ) (A : Type κ) : Type (ℓ ⊔ κ) where
  ok : A → PeekableLexer → Reply E A
  err : E → PeekableLexer → Reply E A
  panic : Reply E A
  out_of_fuel : Reply E A

abbrev pub Parser {ℓ κ} : Type ℓ → Type κ → Type (ℓ ⊔ κ)
Parser E A = PeekableLexer → Reply E A

abbrev pub bind {ℓ κ μ} :
    {E : Type ℓ} {A : Type κ} {B : Type μ} → Reply E A → (A → Parser E B) → Reply E B
bind (ok a s) f = f a s
bind (err e s) f = err e s
bind panic f = panic
bind out_of_fuel f = out_of_fuel

infixl 5 ◌>>=◌
abbrev pub ◌>>=◌ {ℓ κ μ} :
    {E : Type ℓ} {A : Type κ} {B : Type μ} → Parser E A → (A → Parser E B) → Parser E B
◌>>=◌ p f s = bind (p s) f

module _ {ℓ κ} {E : Type ℓ} {A : Type κ} where
  abbrev pub pure : A → Parser E A
  pure a s = ok a s

  abbrev pub fail : E → Parser E A
  fail e s = err e s

  -- A value that the code unwraps.
  abbrev pub unwrap : Option A → Parser E A
  unwrap none s = panic
  unwrap (some a) s = ok a s

  abbrev pub map_reply {μ} : {F : Type μ} → (E → F) → Reply E A → Reply F A
  map_reply f (ok a s) = ok a s
  map_reply f (err e s) = err (f e) s
  map_reply f panic = panic
  map_reply f out_of_fuel = out_of_fuel

  abbrev pub map_err {μ} : {F : Type μ} → (E → F) → Parser E A → Parser F A
  map_err f p s = map_reply f (p s)

  -- `p(tokens).ok()`
  abbrev pub ok_reply : Reply E A → Reply E (Option A)
  ok_reply (ok a s) = ok (some a) s
  ok_reply (err e s) = ok none s
  ok_reply panic = panic
  ok_reply out_of_fuel = out_of_fuel

  abbrev pub optional : Parser E A → Parser E (Option A)
  optional p s = ok_reply (p s)

abbrev pub get_state {ℓ} : {E : Type ℓ} → Parser E PeekableLexer
get_state s = ok s s

-- The token at the end of the text.
abbrev pub end_token : List ℕ → Token
end_token source = record {
  item = end_of_file;
  span = record { start = length source; end = length source };
}

abbrev pub advance : List Token → List ℕ → Token × List Token
advance [] source = (end_token source, [])
advance (t ∷ ts) source = (t, ts)

unfoldable pub next_state : PeekableLexer → PeekableLexer
next_state s = record s {
  current = (advance s.lexer s.source).0;
  lexer = (advance s.lexer s.source).1;
  end_index_of_last_parsed_token = s.current.span.end;
}

unfoldable pub parse_token {ℓ} : {E : Type ℓ} → Parser E Token
unfolding next_state
parse_token s = ok s.current (next_state s)

-- `lex` is the `logos` lexer.
unfoldable pub new : (List ℕ → List Token) → List ℕ → PeekableLexer
unfolding next_state
new lex source = next_state (record {
  current = record { item = end_of_file; span = todo_generated };
  lexer = lex source;
  source = source;
  end_index_of_last_parsed_token = 0;
})

unfoldable pub reached_eof : PeekableLexer → Bool
reached_eof s = same_kind s.current.item end_of_file

unfoldable pub remaining_token_span {ℓ} : {E : Type ℓ} → Parser E (Option Span)
unfolding reached_eof parse_token
remaining_token_span s =
    if reached_eof s
    then ok none s
    else (parse_token >>= λ next_token.
          unwrap (Span.new next_token.span.start (length s.source)) >>= λ span. pure (some span))
        s

-- The text under a span.
unfoldable pub source_text {ℓ} : {E : Type ℓ} → Span → Parser E (List ℕ)
source_text span s = unwrap (slice s.source span.start span.end) s

unfoldable pub parse_token_of_kind :
    IsographLangTokenKind → Parser (WithSpan LowLevelParseError) Token
unfolding parse_token
parse_token_of_kind expected_kind s =
    if same_kind s.current.item expected_kind
    then parse_token s
    else err
        (record {
          item = parse_token_kind_error expected_kind s.current.item;
          span = s.current.span;
        })
        s

unfoldable pub parse_source_of_kind :
    IsographLangTokenKind → Parser (WithSpan LowLevelParseError) (WithSpan (List ℕ))
parse_source_of_kind expected_kind = do
  kind ← parse_token_of_kind expected_kind
  text ← source_text kind.span
  pure (record { item = text; span = kind.span })

-- `intern` is the interner of strings.
unfoldable pub parse_string_key_type :
    (List ℕ → ℕ) → IsographLangTokenKind → Parser (WithSpan LowLevelParseError) (WithSpan ℕ)
parse_string_key_type intern expected_kind = do
  kind ← parse_token_of_kind expected_kind
  text ← source_text kind.span
  pure (record { item = intern text; span = kind.span })

unfoldable pub parse_matching_identifier : List ℕ → Parser (WithSpan LowLevelParseError) Token
unfolding parse_token
parse_matching_identifier expected s =
    if same_kind s.current.item identifier
    then (source_text s.current.span >>= λ text.
          if same_text text expected
          then parse_token
          else fail (record {
            item = parse_matching_identifier_error expected text;
            span = s.current.span;
          }))
        s
    else err
        (record { item = parse_token_kind_error identifier s.current.item; span = s.current.span })
        s

unfoldable pub with_span {ℓ κ} : {E : Type ℓ} {A : Type κ} → Parser E A → Parser E (WithSpan A)
with_span do_stuff s = bind (do_stuff s) λ result s'.
    (unwrap (Span.new s.current.span.start s'.end_index_of_last_parsed_token) >>= λ span.
    pure (record { item = result; span = span }))
      s'

unfoldable pub white_space_span {ℓ} : {E : Type ℓ} → Parser E Span
white_space_span s = unwrap (Span.new s.end_index_of_last_parsed_token s.current.span.start) s
