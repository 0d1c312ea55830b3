-- ===== src/Iso/Grammar.antt =====
-- The grammar of type annotations, and `parse_type_annotation` of
-- crates/isograph_lang_parser/src/parse_iso_literal.rs as its parser.
use isograph.Prelude.{
  ℕ, zero, suc, Bool, true, false, if◌then◌else◌, some, List, [], ◌∷◌, ◌++◌, ◌≡◌, refl, slice,
  Bool-cases, Option-cases, inl, inr,
}
use isograph.Lang.Span.{WithSpan}
use isograph.Lang.GraphqlType.{
  GraphqlTypeAnnotation, named, list, non_null, non_null_named, non_null_list,
}
use isograph.Iso.Token.{same_kind, identifier, exclamation, open_bracket, close_bracket}
use isograph.Iso.Lexer.{Token, PeekableLexer, Reply, ok, Parser, next_state}
use isograph.Iso.Combinators.{Externals, P, ParseError, attempt_reply, skips}
use isograph.Iso.Types.{parse_named_type, parse_list_type, parse_type_annotation}
use isograph.Iso.Reads.{Reads, value, error, panics, runs_out, Reads-bind}
use isograph.Iso.Steps.{
  Consumes, Consumes-append, token_of_kind-found, token_of_kind-missing, skips-found, skips-missing,
  name_of-found, name_of-panics, name_of-missing,
}

-- The `!` at the end of a type that is not null.
pub data Ending : List Token → Bool → Type 0 where
  nullable : Ending [] false
  marked : {t : Token} → same_kind t.item exclamation ≡ true → Ending (t ∷ []) true

abbrev pub named_type : WithSpan ℕ → Bool → GraphqlTypeAnnotation ℕ
named_type n b = if b then non_null (non_null_named n) else named n

abbrev pub list_type : GraphqlTypeAnnotation ℕ → Bool → GraphqlTypeAnnotation ℕ
list_type t b = if b then non_null (non_null_list t) else list t

module _ (intern : List ℕ → ℕ) (source : List ℕ) where
  -- The tokens of a text that write a type: `A`, `A!`, `[T]` and `[T]!`.
  pub data Written : List Token → GraphqlTypeAnnotation ℕ → Type 0 where
    name :
        {t : Token} {text : List ℕ} {ts : List Token} {b : Bool}
        → same_kind t.item identifier ≡ true
        → slice source t.span.start t.span.end ≡ some text
        → Ending ts b
        → Written (t ∷ ts) (named_type (record { item = intern text; span = t.span }) b)
    brackets :
        {o : Token} {inner : GraphqlTypeAnnotation ℕ} {b : Bool} (ts : List Token) (c : Token)
        (us : List Token)
        → same_kind o.item open_bracket ≡ true
        → Written ts inner
        → same_kind c.item close_bracket ≡ true
        → Ending us b
        → Written (o ∷ (ts ++ c ∷ us)) (list_type inner b)

module _ (x : Externals) where
  -- What a type annotation that is read from `s` is.
  abbrev pub ReadFrom : PeekableLexer → GraphqlTypeAnnotation ℕ → PeekableLexer → Type 0
  ReadFrom s t s' = (ts : List Token) × (Written x.intern s.source ts t × Consumes s ts s')

  -- What is read of an optional `!`.
  record OptionalMark (s : PeekableLexer) : Type 0 where
    is_non_null : Bool
    left : PeekableLexer
    tokens : List Token
    ending : Ending tokens is_non_null
    consumes : Consumes s tokens left
    reads : skips exclamation s ≡ ok is_non_null left

  optional_mark : (s : PeekableLexer) → OptionalMark s
  optional_mark s = elim (Bool-cases (same_kind s.current.item exclamation)) [
    | inl h ↦ record {
      is_non_null = true;
      left = next_state s;
      tokens = s.current ∷ [];
      ending = marked h;
      consumes = (refl, refl);
      reads = skips-found exclamation s h;
    }
    | inr h ↦ record {
      is_non_null = false;
      left = s;
      tokens = [];
      ending = nullable;
      consumes = refl;
      reads = skips-missing exclamation s h;
    }
  ]

  parse_named_type-Reads :
      (s : PeekableLexer) (next : P (GraphqlTypeAnnotation ℕ))
      → same_kind s.current.item identifier ≡ true
      → Reads (ReadFrom s) (attempt_reply (parse_named_type x s) next)
  unfolding parse_named_type
  parse_named_type-Reads s next h =
      elim (Option-cases (slice s.source s.current.span.start s.current.span.end)) [
        | inl e ↦ rw (name_of-panics x.intern s h e) panics
        | inr (text, e) ↦
            let mark = optional_mark (next_state s) in
            rw (name_of-found x.intern s text h e, mark.reads)
              (value (s.current ∷ mark.tokens, (name h e mark.ending, (refl, mark.consumes))))
      ]

  parse_list_type-Reads :
      (parse_inner : P (GraphqlTypeAnnotation ℕ)) (s : PeekableLexer)
      → Reads (ReadFrom (next_state s)) (parse_inner (next_state s))
      → Reads (ReadFrom s) (parse_list_type x parse_inner s)
  unfolding parse_list_type next_state
  parse_list_type-Reads parse_inner s inner =
      elim (Bool-cases (same_kind s.current.item open_bracket)) [
        | inr h ↦ rw ((token_of_kind-missing open_bracket s h).1) error
        | inl h ↦ rw (token_of_kind-found open_bracket s h) (
            Reads-bind inner λ t s2 q. elim (Bool-cases (same_kind s2.current.item close_bracket)) [
              | inr h' ↦ rw ((token_of_kind-missing close_bracket s2 h').1) error
              | inl h' ↦ rw (token_of_kind-found close_bracket s2 h') (
                  let mark = optional_mark (next_state s2) in
                  rw mark.reads (
                    value (
                      s.current ∷ (q.0 ++ s2.current ∷ mark.tokens),
                      (
                        brackets q.0 s2.current mark.tokens h q.1.0 h' mark.ending,
                        (refl, Consumes-append q.0 _ _ s2 _ q.1.1 (refl, mark.consumes)),
                      ),
                    )))
            ])
      ]

  Reads-last :
      {A : Type 0} {Q : A → PeekableLexer → Type 0} {r : Reply ParseError A}
      {next : Parser ParseError A}
      → Reads Q r
      → ((s : PeekableLexer) → Reads Q (next s))
      → Reads Q (attempt_reply r next)
  Reads-last (value q) h = value q
  Reads-last (error {e} {s}) h = h s
  Reads-last panics h = panics
  Reads-last runs_out h = runs_out

  pub parse_type_annotation-Reads :
      (fuel : ℕ) (s : PeekableLexer) → Reads (ReadFrom s) (parse_type_annotation x fuel s)
  unfolding parse_type_annotation parse_named_type
  parse_type_annotation-Reads zero s = runs_out
  parse_type_annotation-Reads (suc fuel) s =
      elim (Bool-cases (same_kind s.current.item identifier)) [
        | inl h ↦ parse_named_type-Reads s _ h
        | inr h ↦ rw ((name_of-missing x.intern s h).1) (
            Reads-last (parse_list_type-Reads _ s (parse_type_annotation-Reads fuel (next_state s)))
              λ s2. error)
      ]
