-- ===== src/Iso/Annotations.antt =====
-- `parse_type_annotation` of crates/isograph_lang_parser/src/parse_iso_literal.rs reads the grammar of
-- type annotations.
use isograph.Prelude.{
  ℕ, zero, suc, ◌≤◌, ◌<◌, ◌↔◌, All, All-append, Bool, true, false, some, List, [], ◌∷◌, length,
  length-append, ◌≡◌, refl, sym, ap, ◌∙◌, subst, slice, arith,
}
use isograph.Lang.GraphqlType.{GraphqlTypeAnnotation}
use isograph.Iso.Token.{
  IsographLangTokenKind, same_kind, end_of_file, identifier, exclamation, open_bracket,
  close_bracket,
}
use isograph.Iso.Lexer.{Token, PeekableLexer, ok, next_state}
use isograph.Iso.Combinators.{Externals, skips}
use isograph.Iso.Types.{parse_named_type, parse_list_type, parse_type_annotation}
use isograph.Iso.Reads.{Reads-ok}
use isograph.Iso.Ends.{size, advance-size}
use isograph.Iso.Steps.{
  Consumes, Consumes-split, token_of_kind-found, skips-found, skips-missing, name_of-found,
  name_of-missing, other_kind,
}
use isograph.Iso.Grammar.{
  Ending, nullable, marked, named_type, Written, name, brackets, ReadFrom,
  parse_type_annotation-Reads,
}

module _ (x : Externals) where
  is_kind :
      (kind : IsographLangTokenKind) {t u : Token}
      → t ≡ u
      → same_kind u.item kind ≡ true
      → same_kind t.item kind ≡ true
  is_kind kind e h = subst (λ c. same_kind c.item kind ≡ true) (sym e) h

  Ending-reads :
      (us : List Token) (s s' : PeekableLexer) {b : Bool}
      → Ending us b
      → Consumes s us s'
      → same_kind s'.current.item exclamation ≡ false
      → skips exclamation s ≡ ok b s'
  Ending-reads us s s' nullable h e =
      skips-missing exclamation s
        (subst (λ m. same_kind m.current.item exclamation ≡ false) (sym h) e)
      ∙ ap (ok false) h
  Ending-reads us s s' (marked m) h e =
      skips-found exclamation s (is_kind exclamation h.0 m) ∙ ap (ok true) h.1

  Written-reads :
      (fuel : ℕ) (s s' : PeekableLexer) {ts : List Token} {t : GraphqlTypeAnnotation ℕ}
      → Written x.intern s.source ts t
      → Consumes s ts s'
      → same_kind s'.current.item exclamation ≡ false
      → length ts ≤ fuel
      → parse_type_annotation x fuel s ≡ ok t s'
  unfolding parse_type_annotation parse_named_type parse_list_type next_state
  Written-reads zero s s' (name i e m) h last le = absurd (omega arith)
  Written-reads zero s s' (brackets ts c us o w cl m) h last le = absurd (omega arith)
  Written-reads (suc fuel) s s' (name {t} {text} {ts} {b} i e m) h last le =
      rw
        (
          name_of-found x.intern s text (is_kind identifier h.0 i)
              (subst (λ c. slice s.source c.span.start c.span.end ≡ some text) (sym h.0) e),
          Ending-reads ts (next_state s) s' m h.1 last,
        )
        (ap (λ c. ok (named_type (record { item = x.intern text; span = c.span }) b) s') h.0)
  Written-reads (suc fuel) s s' (brackets {o} {inner} {b} ts c us op w cl m) h last le =
      let split = Consumes-split ts (c ∷ us) (next_state s) s' h.1 in
      let closed = is_kind close_bracket split.1.1.0 cl in
      rw
        (
          (name_of-missing x.intern s (
              other_kind s.current.item open_bracket identifier (is_kind open_bracket h.0 op)
                refl)).1,
          token_of_kind-found open_bracket s (is_kind open_bracket h.0 op),
          Written-reads fuel (next_state s) split.0 w split.1.0
              (other_kind split.0.current.item close_bracket exclamation closed refl)
              (ground (arith, le, length-append ts (c ∷ us))),
          token_of_kind-found close_bracket split.0 closed,
          Ending-reads us (next_state split.0) s' m split.1.1.1 last,
        )
        refl

  abbrev NotLast : Token → Type 0
  NotLast t = same_kind t.item end_of_file ≡ false

  Ending-NotLast : (us : List Token) {b : Bool} → Ending us b → All NotLast us
  Ending-NotLast us nullable = tt
  Ending-NotLast us (marked {t} m) = (other_kind t.item exclamation end_of_file m refl, tt)

  Written-NotLast :
      (source : List ℕ) (ts : List Token) {t : GraphqlTypeAnnotation ℕ}
      → Written x.intern source ts t
      → All NotLast ts
  Written-NotLast source us (name {t} {text} {ts} i e m) =
      (other_kind t.item identifier end_of_file i refl, Ending-NotLast ts m)
  Written-NotLast source us (brackets {o} ts c vs op w cl m) = (
    other_kind o.item open_bracket end_of_file op refl,
    All-append NotLast ts (c ∷ vs) (Written-NotLast source ts w)
        (other_kind c.item close_bracket end_of_file cl refl, Ending-NotLast vs m),
  )

  Consumes-size :
      (ts : List Token) (s s' : PeekableLexer)
      → All NotLast ts
      → Consumes s ts s'
      → length ts ≤ size s
  unfolding next_state
  Consumes-size [] s s' live h = omega arith
  Consumes-size (t ∷ ts) s s' live h = ground (
    arith,
    subst NotLast (sym h.0) live.0,
    advance-size s.lexer s.source,
    Consumes-size ts (next_state s) s' live.1 h.1,
  )

  -- With fuel above the number of tokens, and no `!` after the type: `parse_type_annotation` reads a
  -- type exactly where the tokens that it reads write that type in the grammar.
  pub parse_type_annotation-Written :
      (fuel : ℕ) (s s' : PeekableLexer) (t : GraphqlTypeAnnotation ℕ)
      → size s < fuel
      → same_kind s'.current.item exclamation ≡ false
      → (parse_type_annotation x fuel s ≡ ok t s')
        ↔ ((ts : List Token) × (Written x.intern s.source ts t × Consumes s ts s'))
  parse_type_annotation-Written fuel s s' t lt last = (
    (λ e. Reads-ok (ReadFrom x s) (parse_type_annotation-Reads x fuel s) e),
    (λ (ts, (w, c)).
        Written-reads fuel s s' w c last
          (omega (arith, lt, Consumes-size ts s s' (Written-NotLast s.source ts w) c))),
  )
