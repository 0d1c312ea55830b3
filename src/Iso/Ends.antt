-- ===== src/Iso/Ends.antt =====
-- Postconditions on what a parser of crates/isograph_lang_parser/src has read: how many tokens are
-- left, and that the model's fuel has not run out.
use isograph.Prelude.{
  ℕ, ◌+◌, ◌≤◌, ◌≡◌, ◌≢◌, refl, Bool, true, false, if◌then◌else◌, Option, none, some, List, [], ◌∷◌,
  length, slice, arith, Bool-cases, inl, inr,
}
use isograph.Lang.Span
use isograph.Lang.Span.{Span, WithSpan}
use isograph.Iso.Token.{IsographLangTokenKind, same_kind, end_of_file, identifier}
use isograph.Iso.Lexer.{
  Token, PeekableLexer, advance, Reply, ok, err, panic, out_of_fuel, Parser, bind, unwrap,
  map_reply, ok_reply, next_state, parse_token, parse_token_of_kind, source_text,
  parse_source_of_kind, parse_string_key_type, with_span,
}
use isograph.Lang.Outcome.{Outcome, Outcome-cases}
use isograph.Lang.Selections.{IsographFieldDirective}
use isograph.Iso.Combinators.{
  ParseError, token_of_kind, source_of_kind, name_of, skips, attempt_reply, directive_set,
}

-- A token that is not the end of the file.
abbrev live : IsographLangTokenKind → ℕ
live k = if same_kind k end_of_file then 0 else 1

-- The tokens that are left, with the current one.
abbrev pub size : PeekableLexer → ℕ
size s = length s.lexer + live s.current.item

-- The fuel has not run out, and at most `n` tokens are left; a value `a` has taken `k a` of them.
pub data Ends {E A : Type 0} (k : A → ℕ) (n : ℕ) : Reply E A → Type 0 where
  reads : {a : A} {s : PeekableLexer} → size s + k a ≤ n → Ends k n (ok a s)
  rejects : {e : E} {s : PeekableLexer} → size s ≤ n → Ends k n (err e s)
  panics : Ends k n panic

module _ {E A : Type 0} {k : A → ℕ} {n : ℕ} where
  pub Ends-out_of_fuel : {r : Reply E A} → Ends k n r → r ≢ out_of_fuel
  Ends-out_of_fuel (reads h) = cc
  Ends-out_of_fuel (rejects h) = cc
  Ends-out_of_fuel panics = cc

  pub Ends-weaken :
      {r : Reply E A} (k' : A → ℕ) (m d : ℕ)
      → n + d ≤ m
      → ((a : A) → k' a ≤ k a + d)
      → Ends k n r
      → Ends k' m r
  Ends-weaken k' m d le h (reads {a} b) = reads (omega (arith, h a))
  Ends-weaken k' m d le h (rejects b) = rejects (omega arith)
  Ends-weaken k' m d le h panics = panics

  pub Ends-bind :
      {B : Type 0} {j : B → ℕ} {m : ℕ} {r : Reply E A} {f : A → Parser E B}
      → n ≤ m
      → Ends k n r
      → ((a : A) (s : PeekableLexer) → size s + k a ≤ n → Ends j m (f a s))
      → Ends j m (bind r f)
  Ends-bind le (reads {a} {s} h) next = next a s h
  Ends-bind le (rejects h) next = rejects (omega arith)
  Ends-bind le panics next = panics

module _ {E A : Type 0} {k : A → ℕ} {n : ℕ} where
  pub Ends-if :
      (b : Bool) (p q : Parser E A) (s : PeekableLexer)
      → (b ≡ true → Ends k n (p s))
      → (b ≡ false → Ends k n (q s))
      → Ends k n ((if b then p else q) s)
  Ends-if true p q s h h' = h refl
  Ends-if false p q s h h' = h' refl

  pub Ends-elim :
      (b : Bool) (p q : Parser E A) (s : PeekableLexer)
      → Ends k n (p s)
      → Ends k n (q s)
      → Ends k n ((elim b as (λ b'. Parser E A) [ true ↦ p | false ↦ q ]) s)
  Ends-elim true p q s h h' = h
  Ends-elim false p q s h h' = h'

  pub Ends-option :
      {B : Type 0} (o : Option B) (p : Parser E A) (q : B → Parser E A) (s : PeekableLexer)
      → Ends k n (p s)
      → ((b : B) → Ends k n (q b s))
      → Ends k n ((elim o as (λ o'. Parser E A) [ none ↦ p | some b ↦ q b ]) s)
  Ends-option none p q s h h' = h
  Ends-option (some b) p q s h h' = h' b

  pub Ends-outcome :
      {B F : Type 0} (o : Outcome F B) (p : B → Parser E A) (q : F → Parser E A) (s : PeekableLexer)
      → ((b : B) → Ends k n (p b s))
      → ((e : F) → Ends k n (q e s))
      → Ends k n (
          (elim o as (λ o'. Parser E A) [
            | Outcome.ok b ↦ p b
            | Outcome.err e ↦ q e
            | Outcome.panic ↦ λ s'. panic
          ])
            s)
  Ends-outcome (Outcome.ok b) p q s h h' = h b
  Ends-outcome (Outcome.err e) p q s h h' = h' e
  Ends-outcome Outcome.panic p q s h h' = panics

  pub Ends-map_reply :
      {F : Type 0} (f : E → F) {r : Reply E A} → Ends k n r → Ends k n (map_reply f r)
  Ends-map_reply f (reads h) = reads h
  Ends-map_reply f (rejects h) = rejects h
  Ends-map_reply f panics = panics

abbrev pub one : {A : Type 0} → A → ℕ
one a = 1

abbrev pub zero_of : {A : Type 0} → A → ℕ
zero_of a = 0

abbrev pub found : {A : Type 0} → Option A → ℕ
found none = 0
found (some a) = 1

abbrev pub taken : Bool → ℕ
taken true = 1
taken false = 0

pub unwrap-Ends :
    {E A : Type 0} (o : Option A) (s : PeekableLexer) → Ends {E = E} zero_of (size s) (unwrap o s)
unwrap-Ends none s = panics
unwrap-Ends (some a) s = reads (omega arith)

pub source_text-Ends :
    {E : Type 0} (span : Span) (s : PeekableLexer)
    → Ends {E = E} zero_of (size s) (source_text span s)
unfolding source_text
source_text-Ends span s = unwrap-Ends (slice s.source span.start span.end) s

pub Ends-ok_reply :
    {E A : Type 0} {n : ℕ} {r : Reply E A} → Ends one n r → Ends found n (ok_reply r)
Ends-ok_reply (reads h) = reads h
Ends-ok_reply (rejects h) = reads (omega (arith, h))
Ends-ok_reply panics = panics

pub Ends-attempt :
    {A : Type 0} {k : A → ℕ} {n : ℕ} {r : Reply ParseError A} {next : Parser ParseError A}
    → Ends k n r
    → ((s : PeekableLexer) → size s ≤ n → Ends k n (next s))
    → Ends k n (attempt_reply r next)
Ends-attempt (reads h) next = reads h
Ends-attempt (rejects {e} {s} h) next = next s h
Ends-attempt panics next = panics

pub advance-size :
    (ts : List Token) (source : List ℕ)
    → length (advance ts source).1 + live (advance ts source).0.item ≤ length ts
advance-size [] source = omega arith
advance-size (t ∷ ts) source = ground arith

pub token-Ends :
    (kind : IsographLangTokenKind) (s : PeekableLexer)
    → same_kind kind end_of_file ≡ false
    → Ends one (size s) (parse_token_of_kind kind s)
unfolding parse_token_of_kind parse_token next_state
token-Ends kind s other = elim (Bool-cases (same_kind s.current.item kind)) [
  | inl same ↦ rw same (reads (ground (arith, advance-size s.lexer s.source)))
  | inr differs ↦ rw differs (rejects (omega arith))
]

pub token_of_kind-Ends :
    (kind : IsographLangTokenKind) (s : PeekableLexer)
    → same_kind kind end_of_file ≡ false
    → Ends one (size s) (token_of_kind kind s)
unfolding token_of_kind
token_of_kind-Ends kind s other = Ends-map_reply _ (token-Ends kind s other)

pub parse_source_of_kind-Ends :
    (kind : IsographLangTokenKind) (s : PeekableLexer)
    → same_kind kind end_of_file ≡ false
    → Ends one (size s) (parse_source_of_kind kind s)
unfolding parse_source_of_kind
parse_source_of_kind-Ends kind s other = Ends-bind (omega arith) (token-Ends kind s other) λ t s' h.
    Ends-bind (omega arith) (source_text-Ends t.span s') λ text s'' h'. reads (omega arith)

pub source_of_kind-Ends :
    (kind : IsographLangTokenKind) (s : PeekableLexer)
    → same_kind kind end_of_file ≡ false
    → Ends one (size s) (source_of_kind kind s)
unfolding source_of_kind
source_of_kind-Ends kind s other = Ends-map_reply _ (parse_source_of_kind-Ends kind s other)

pub name_of-Ends : (intern : List ℕ → ℕ) (s : PeekableLexer) → Ends one (size s) (name_of intern s)
unfolding name_of parse_string_key_type
name_of-Ends intern s = Ends-map_reply _ (
    Ends-bind (omega arith) (token-Ends identifier s refl) λ t s' h.
      Ends-bind (omega arith) (source_text-Ends t.span s') λ text s'' h'. reads (omega arith))

module _ {E A : Type 0} {k : A → ℕ} {n m : ℕ} where
  pub Ends-optional :
      {B : Type 0} {r : Reply E (Option B)} (p : Parser E A) (q : B → Parser E A)
      → n ≤ m
      → Ends found n r
      → ((s : PeekableLexer) → size s ≤ n → Ends k m (p s))
      → ((b : B) (s : PeekableLexer) → size s + 1 ≤ n → Ends k m (q b s))
      → Ends k m (bind r (λ o. elim o [ none ↦ p | some b ↦ q b ]))
  Ends-optional p q le (reads {a = none} {s} h) hp hq = hp s (omega (arith, h))
  Ends-optional p q le (reads {a = some b} {s} h) hp hq = hq b s (omega (arith, h))
  Ends-optional p q le (rejects h) hp hq = rejects (omega (arith, h))
  Ends-optional p q le panics hp hq = panics

  pub Ends-skips :
      {r : Reply E Bool} (p q : Parser E A)
      → n ≤ m
      → Ends taken n r
      → ((s : PeekableLexer) → size s + 1 ≤ n → Ends k m (p s))
      → ((s : PeekableLexer) → size s ≤ n → Ends k m (q s))
      → Ends k m (bind r (λ b. elim b [ true ↦ p | false ↦ q ]))
  Ends-skips p q le (reads {a = true} {s} h) hp hq = hp s (omega (arith, h))
  Ends-skips p q le (reads {a = false} {s} h) hp hq = hq s (omega (arith, h))
  Ends-skips p q le (rejects h) hp hq = rejects (omega (arith, h))
  Ends-skips p q le panics hp hq = panics

  pub Ends-skips_if :
      {r : Reply E Bool} (p q : Parser E A)
      → n ≤ m
      → Ends taken n r
      → ((s : PeekableLexer) → size s + 1 ≤ n → Ends k m (p s))
      → ((s : PeekableLexer) → size s ≤ n → Ends k m (q s))
      → Ends k m (bind r (λ b. if b then p else q))
  Ends-skips_if p q le (reads {a = true} {s} h) hp hq = hp s (omega (arith, h))
  Ends-skips_if p q le (reads {a = false} {s} h) hp hq = hq s (omega (arith, h))
  Ends-skips_if p q le (rejects h) hp hq = rejects (omega (arith, h))
  Ends-skips_if p q le panics hp hq = panics

pub skips-Ends :
    (kind : IsographLangTokenKind) (s : PeekableLexer)
    → same_kind kind end_of_file ≡ false
    → Ends taken (size s) (skips kind s)
unfolding skips
skips-Ends kind s other =
    Ends-optional _ _ (omega arith) (Ends-ok_reply (token_of_kind-Ends kind s other))
      (λ s' h. reads (omega (arith, h))) λ t s' h. reads (omega (arith, h))

pub skips-Stays :
    (kind : IsographLangTokenKind) (s : PeekableLexer)
    → same_kind kind end_of_file ≡ false
    → Ends zero_of (size s) (skips kind s)
skips-Stays kind s other =
    Ends-weaken zero_of (size s) 0 (omega arith) (λ a. omega arith) (skips-Ends kind s other)

pub with_span-Ends :
    {E A : Type 0} (k n : ℕ) (p : Parser E A) (s : PeekableLexer)
    → Ends (λ a. k) n (p s)
    → Ends (λ a. k) n (with_span p s)
unfolding with_span
with_span-Ends k n p s h = Ends-bind (omega arith) h λ a s' le.
    Ends-bind (omega arith)
      (unwrap-Ends (Span.new s.current.span.start s'.end_index_of_last_parsed_token) s')
      λ span s'' h'. reads (omega arith)

pub directive_set-Ends :
    {A : Type 0} (deserialize : List (WithSpan IsographFieldDirective) → Outcome ℕ A)
    (directives : List (WithSpan IsographFieldDirective)) (s : PeekableLexer)
    → Ends zero_of (size s) (directive_set deserialize directives s)
directive_set-Ends deserialize directives s = elim (Outcome-cases (deserialize directives)) [
  | inl (a, e) ↦ rw (e, directive_set) (reads (omega arith))
  | inr (inl (m, e)) ↦ rw (e, directive_set) (rejects (omega arith))
  | inr (inr e) ↦ rw (e, directive_set) panics
]
