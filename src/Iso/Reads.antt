-- ===== src/Iso/Reads.antt =====
-- Conditions on what a parser of crates/isograph_lang_parser/src leaves when it reads a value.
use isograph.Prelude.{Bool, true, false, if◌then◌else◌, Option, none, some, ◌≡◌, refl, subst}
use isograph.Lang.Span
use isograph.Lang.Span.{WithSpan}
use isograph.Iso.Lexer.{
  PeekableLexer, Reply, ok, err, panic, out_of_fuel, Parser, bind, map_reply, unwrap, with_span,
}

-- A value that is read, and what is left, have the property; a reply that is none has it too.
pub data Reads {E A : Type 0} (Q : A → PeekableLexer → Type 0) : Reply E A → Type 0 where
  value : {a : A} {s : PeekableLexer} → Q a s → Reads Q (ok a s)
  error : {e : E} {s : PeekableLexer} → Reads Q (err e s)
  panics : Reads Q panic
  runs_out : Reads Q out_of_fuel

-- Nothing is said.
abbrev pub Anything : {A : Type 0} → A → PeekableLexer → Type 0
Anything a s = Unit

module _ {E A : Type 0} (Q : A → PeekableLexer → Type 0) where
  abbrev At : Reply E A → Type 0
  At (ok a s) = Q a s
  At (err e s) = Unit
  At panic = Unit
  At out_of_fuel = Unit

  At-Reads : {r : Reply E A} → Reads Q r → At r
  At-Reads (value q) = q
  At-Reads error = tt
  At-Reads panics = tt
  At-Reads runs_out = tt

  pub Reads-ok : {r : Reply E A} {a : A} {s : PeekableLexer} → Reads Q r → r ≡ ok a s → Q a s
  Reads-ok h e = subst At e (At-Reads h)

module _ {E A : Type 0} {Q : A → PeekableLexer → Type 0} where
  pub Reads-bind :
      {B : Type 0} {R : B → PeekableLexer → Type 0} {r : Reply E A} {f : A → Parser E B}
      → Reads Q r
      → ((a : A) (s : PeekableLexer) → Q a s → Reads R (f a s))
      → Reads R (bind r f)
  Reads-bind (value {a} {s} q) next = next a s q
  Reads-bind error next = error
  Reads-bind panics next = panics
  Reads-bind runs_out next = runs_out

  -- What was read before is not looked at.
  pub Reads-then :
      {B : Type 0} (r : Reply E B) (f : B → Parser E A)
      → ((b : B) (s : PeekableLexer) → Reads Q (f b s))
      → Reads Q (bind r f)
  Reads-then (ok b s) f next = next b s
  Reads-then (err e s) f next = error
  Reads-then panic f next = panics
  Reads-then out_of_fuel f next = runs_out

  pub Reads-if :
      (b : Bool) (p q : Parser E A) (s : PeekableLexer)
      → Reads Q (p s)
      → Reads Q (q s)
      → Reads Q ((if b then p else q) s)
  Reads-if true p q s h h' = h
  Reads-if false p q s h h' = h'

  pub Reads-elim :
      (b : Bool) (p q : Parser E A) (s : PeekableLexer)
      → Reads Q (p s)
      → (b ≡ false → Reads Q (q s))
      → Reads Q ((elim b as (λ b'. Parser E A) [ true ↦ p | false ↦ q ]) s)
  Reads-elim true p q s h h' = h
  Reads-elim false p q s h h' = h' refl

  pub Reads-option :
      {B : Type 0} (o : Option B) (p : Parser E A) (q : B → Parser E A) (s : PeekableLexer)
      → (o ≡ none → Reads Q (p s))
      → ((b : B) → o ≡ some b → Reads Q (q b s))
      → Reads Q ((elim o as (λ o'. Parser E A) [ none ↦ p | some b ↦ q b ]) s)
  Reads-option none p q s h h' = h refl
  Reads-option (some b) p q s h h' = h' b refl

  pub Reads-map_reply :
      {F : Type 0} (f : E → F) {r : Reply E A} → Reads Q r → Reads Q (map_reply f r)
  Reads-map_reply f (value q) = value q
  Reads-map_reply f error = error
  Reads-map_reply f panics = panics
  Reads-map_reply f runs_out = runs_out

pub with_span-Reads :
    {E A : Type 0} {Q : A → Type 0} (p : Parser E A) (s : PeekableLexer)
    → Reads (λ a s'. Q a) (p s)
    → Reads (λ w s'. Q w.item) (with_span p s)
unfolding with_span
with_span-Reads p s h = Reads-bind h λ a s' q.
    Reads-then (unwrap (Span.new s.current.span.start s'.end_index_of_last_parsed_token) s') _
      λ span s''. value q
