-- ===== src/Iso/Steps.antt =====
-- What the parsers that read one token return, as equations: crates/isograph_lang_parser/src.
use isograph.Prelude.{
  ℕ, true, false, none, some, List, [], ◌∷◌, ◌++◌, ◌≡◌, refl, sym, subst, slice, arith,
}
use isograph.Iso.Token.{
  IsographLangTokenKind, same_kind, identifier, parse_error, parse_token_kind_error,
}
use isograph.Iso.Lexer.{
  Token, PeekableLexer, ok, err, panic, next_state, parse_token, parse_token_of_kind, source_text,
  parse_string_key_type, parse_source_of_kind,
}
use isograph.Iso.Combinators.{ParseError, token_of_kind, name_of, source_of_kind, skips}

-- The tokens lead from one state of the lexer to another.
abbrev pub Consumes : PeekableLexer → List Token → PeekableLexer → Type 0
Consumes s [] s' = s ≡ s'
Consumes s (t ∷ ts) s' = (s.current ≡ t) × Consumes (next_state s) ts s'

pub Consumes-append :
    (ts us : List Token) (s m s' : PeekableLexer)
    → Consumes s ts m
    → Consumes m us s'
    → Consumes s (ts ++ us) s'
Consumes-append [] us s m s' h h' = subst (λ n. Consumes n us s') (sym h) h'
Consumes-append (t ∷ ts) us s m s' h h' = (h.0, Consumes-append ts us (next_state s) m s' h.1 h')

pub Consumes-split :
    (ts us : List Token) (s s' : PeekableLexer)
    → Consumes s (ts ++ us) s'
    → (m : PeekableLexer) × (Consumes s ts m × Consumes m us s')
Consumes-split [] us s s' h = (s, (refl, h))
Consumes-split (t ∷ ts) us s s' h =
    let rest = Consumes-split ts us (next_state s) s' h.1 in (rest.0, ((h.0, rest.1.0), rest.1.1))

module _ (kind : IsographLangTokenKind) (s : PeekableLexer) where
  pub token_of_kind-found :
      same_kind s.current.item kind ≡ true → token_of_kind kind s ≡ ok s.current (next_state s)
  unfolding token_of_kind parse_token_of_kind parse_token
  token_of_kind-found h = rw h refl

  abbrev wrong_kind : ParseError
  wrong_kind = record {
    item = parse_error (parse_token_kind_error kind s.current.item);
    span = s.current.span;
  }

  pub token_of_kind-missing :
      same_kind s.current.item kind ≡ false → (e : ParseError) × (token_of_kind kind s ≡ err e s)
  unfolding token_of_kind parse_token_of_kind
  token_of_kind-missing h = (wrong_kind, rw h refl)

  pub skips-found : same_kind s.current.item kind ≡ true → skips kind s ≡ ok true (next_state s)
  unfolding skips
  skips-found h = rw (token_of_kind-found h) refl

  pub skips-missing : same_kind s.current.item kind ≡ false → skips kind s ≡ ok false s
  unfolding skips
  skips-missing h = rw ((token_of_kind-missing h).1) refl

module _ (intern : List ℕ → ℕ) (s : PeekableLexer) where
  pub name_of-found :
      (text : List ℕ)
      → same_kind s.current.item identifier ≡ true
      → slice s.source s.current.span.start s.current.span.end ≡ some text
      → name_of intern s ≡ ok (record { item = intern text; span = s.current.span }) (next_state s)
  unfolding name_of parse_string_key_type parse_token_of_kind parse_token source_text
  name_of-found text h e = rw (h, e) refl

  pub name_of-panics :
      same_kind s.current.item identifier ≡ true
      → slice s.source s.current.span.start s.current.span.end ≡ none
      → name_of intern s ≡ panic
  unfolding name_of parse_string_key_type parse_token_of_kind parse_token source_text
  name_of-panics h e = rw (h, e) refl

  pub name_of-missing :
      same_kind s.current.item identifier ≡ false → (e : ParseError) × (name_of intern s ≡ err e s)
  unfolding name_of parse_string_key_type parse_token_of_kind
  name_of-missing h = (wrong_kind identifier s, rw h refl)

module _ (kind : IsographLangTokenKind) (s : PeekableLexer) where
  pub source_of_kind-found :
      (text : List ℕ)
      → same_kind s.current.item kind ≡ true
      → slice s.source s.current.span.start s.current.span.end ≡ some text
      → source_of_kind kind s ≡ ok (record { item = text; span = s.current.span }) (next_state s)
  unfolding source_of_kind parse_source_of_kind parse_token_of_kind parse_token source_text
  source_of_kind-found text h e = rw (h, e) refl

  pub source_of_kind-missing :
      same_kind s.current.item kind ≡ false → (e : ParseError) × (source_of_kind kind s ≡ err e s)
  unfolding source_of_kind parse_source_of_kind parse_token_of_kind
  source_of_kind-missing h = (wrong_kind kind s, rw h refl)

-- A token has one kind.
pub other_kind :
    (k kind other : IsographLangTokenKind)
    → same_kind k kind ≡ true
    → same_kind kind other ≡ false
    → same_kind k other ≡ false
other_kind k kind other h e = ground (arith, h, e)
