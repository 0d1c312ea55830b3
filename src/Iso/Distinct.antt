-- ===== src/Iso/Distinct.antt =====
-- In every selection set that crates/isograph_lang_parser/src/parse_iso_literal.rs reads, at every
-- depth, no two selections have the same name or alias.
use isograph.Prelude.{
  contains, ℕ, zero, suc, true, false, Option, none, some, List, [], ◌∷◌, ◌++◌, ◌≡◌, ◌≢◌, sym,
  subst, arith, All,
}
use isograph.Lang.Span.{Span, WithSpan}
use isograph.Lang.Location.{TextSource}
use isograph.Lang.Selections.{
  UnvalidatedSelection, SelectionSet, scalar, object, end, selection, selection_set, name_or_alias,
}
use isograph.Iso.Lexer.{PeekableLexer}
use isograph.Iso.Combinators.{Externals, P, skips, directive_set}
use isograph.Iso.Token.{close_brace, open_brace}
use isograph.Iso.SelectionSets.{
  parse_comma_line_break_or_curly, parse_optional_alias_and_field_name, parse_selection,
  selections_loop, parse_optional_selection_set, parse_selection_set,
}
use isograph.Iso.Values.{parse_optional_arguments, parse_directives}
use isograph.Iso.Reads.{
  Reads, value, error, runs_out, Reads-bind, Reads-then, Reads-elim, Reads-option, with_span-Reads,
}

abbrev names : SelectionSet → List ℕ
names end = []
names (selection item span rest) = (name_or_alias item).item ∷ names rest

abbrev nested : UnvalidatedSelection → SelectionSet
nested (scalar s) = end
nested (object o inner) = inner

-- The names and aliases differ, here and in every nested set.
pub data Distinct : SelectionSet → Type 0 where
  none_left : Distinct end
  one_more :
      {item : UnvalidatedSelection} {span : Span} {rest : SelectionSet}
      → All (λ n. n ≢ (name_or_alias item).item) (names rest)
      → Distinct (nested item)
      → Distinct rest
      → Distinct (selection item span rest)

names-append :
    (P : ℕ → Type 0) (selections : List (WithSpan UnvalidatedSelection))
    (last : WithSpan UnvalidatedSelection)
    → All P (names (selection_set selections))
    → P (name_or_alias last.item).item
    → All P (names (selection_set (selections ++ last ∷ [])))
names-append P [] last h p = (p, tt)
names-append P (s ∷ selections) last h p = (h.0, names-append P selections last h.1 p)

Distinct-append :
    (selections : List (WithSpan UnvalidatedSelection)) (last : WithSpan UnvalidatedSelection)
    → Distinct (selection_set selections)
    → Distinct (nested last.item)
    → All (λ n. n ≢ (name_or_alias last.item).item) (names (selection_set selections))
    → Distinct (selection_set (selections ++ last ∷ []))
Distinct-append [] last none_left inner apart = one_more tt inner none_left
Distinct-append (s ∷ selections) last (one_more h h' rest) inner apart =
    one_more (names-append _ selections last h λ e. apart.0 (sym e)) h'
      (Distinct-append selections last rest inner apart.1)

-- What the loop has read: the names of the selections are encountered, and they differ.
record Encountered (encountered : List ℕ) (selections : List (WithSpan UnvalidatedSelection))
    : Type 0 where
  seen : All (λ n. contains encountered n ≡ true) (names (selection_set selections))
  distinct : Distinct (selection_set selections)

seen-more :
    (encountered : List ℕ) (m : ℕ) (ns : List ℕ)
    → All (λ n. contains encountered n ≡ true) ns
    → All (λ n. contains (m ∷ encountered) n ≡ true) ns
seen-more encountered m [] h = tt
seen-more encountered m (n ∷ ns) h = (rw h.0 (ground arith), seen-more encountered m ns h.1)

unseen :
    (encountered : List ℕ) (m : ℕ) (ns : List ℕ)
    → contains encountered m ≡ false
    → All (λ n. contains encountered n ≡ true) ns
    → All (λ n. n ≢ m) ns
unseen encountered m [] e h = tt
unseen encountered m (n ∷ ns) e h =
    ((λ same. ground (arith, e, h.0, same)), unseen encountered m ns e h.1)

Encountered-append :
    (encountered : List ℕ) (selections : List (WithSpan UnvalidatedSelection))
    (last : WithSpan UnvalidatedSelection)
    → Encountered encountered selections
    → contains encountered (name_or_alias last.item).item ≡ false
    → Distinct (nested last.item)
    → Encountered ((name_or_alias last.item).item ∷ encountered) (selections ++ last ∷ [])
Encountered-append encountered selections last h fresh inner = record {
  seen = names-append _ selections last (seen-more encountered _ _ h.seen) (ground arith);
  distinct = Distinct-append selections last h.distinct inner (unseen encountered _ _ fresh h.seen);
}

module _ (x : Externals) (text_source : TextSource) where
  abbrev AllDistinct : Option (List (WithSpan UnvalidatedSelection)) → Type 0
  AllDistinct none = Unit
  AllDistinct (some selections) = Distinct (selection_set selections)

  parse_selection-Distinct :
      (fuel : ℕ) (parse_nested : P (Option (List (WithSpan UnvalidatedSelection))))
      (s : PeekableLexer)
      → ((s : PeekableLexer) → Reads (λ o s'. AllDistinct o) (parse_nested s))
      → Reads (λ w s'. Distinct (nested w.item)) (parse_selection x text_source fuel parse_nested s)
  unfolding parse_selection
  parse_selection-Distinct fuel parse_nested s h = with_span-Reads _ s (
      Reads-then (parse_optional_alias_and_field_name x text_source s) _ λ names s1.
        Reads-then (parse_optional_arguments x text_source fuel s1) _ λ arguments s2.
          Reads-then (parse_directives x text_source fuel s2) _ λ directives s3.
            Reads-bind (h s3) λ inner s4 q.
              Reads-then (parse_comma_line_break_or_curly s4) _ λ t s5.
                Reads-option inner _ _ s5
                  (λ e.
                    Reads-then (directive_set x.scalar_directives directives s5) _
                      λ set s6. value none_left)
                  λ selections e.
                    Reads-then (directive_set x.object_directives directives s5) _
                      λ set s6. value (subst AllDistinct e q))

  selections_loop-Distinct :
      (parse_item : P (WithSpan UnvalidatedSelection)) (fuel : ℕ) (encountered : List ℕ)
      (selections : List (WithSpan UnvalidatedSelection)) (s : PeekableLexer)
      → ((s : PeekableLexer) → Reads (λ w s'. Distinct (nested w.item)) (parse_item s))
      → Encountered encountered selections
      → Reads
          (λ l s'. Distinct (selection_set l))
          (selections_loop x text_source parse_item fuel encountered selections s)
  unfolding selections_loop
  selections_loop-Distinct parse_item zero encountered selections s item h = runs_out
  selections_loop-Distinct parse_item (suc fuel) encountered selections s item h =
      Reads-then (skips close_brace s) _ λ closed s1.
        Reads-elim closed _ _ s1 (value h.distinct) λ c. Reads-bind (item s1) λ last s2 inner.
          Reads-elim (contains encountered (name_or_alias last.item).item) _ _ s2 error λ fresh.
            selections_loop-Distinct parse_item fuel _ _ s2 item
              (Encountered-append encountered selections last h fresh inner)

  parse_optional_selection_set-Distinct :
      (fuel : ℕ) (s : PeekableLexer)
      → Reads (λ o s'. AllDistinct o) (parse_optional_selection_set x text_source fuel s)
  unfolding parse_optional_selection_set
  parse_optional_selection_set-Distinct zero s = runs_out
  parse_optional_selection_set-Distinct (suc fuel) s =
      Reads-then (skips open_brace s) _ λ opened s1.
        Reads-elim opened _ _ s1
          (Reads-bind
            (selections_loop-Distinct _ fuel [] [] s1
              (λ s'.
                parse_selection-Distinct fuel _ s'
                  (λ s''. parse_optional_selection_set-Distinct fuel s''))
              (record { seen = tt; distinct = none_left }))
            λ selections s2 q. value q)
          λ c. value tt

  pub parse_selection_set-Distinct :
      (fuel : ℕ) (s : PeekableLexer)
      → Reads (λ l s'. Distinct (selection_set l)) (parse_selection_set x text_source fuel s)
  unfolding parse_selection_set
  parse_selection_set-Distinct fuel s =
      Reads-bind (parse_optional_selection_set-Distinct fuel s) λ selections s1 q.
        Reads-option selections _ _ s1 (λ e. error) λ l e. value (subst AllDistinct e q)
