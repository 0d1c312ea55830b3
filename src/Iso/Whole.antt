-- ===== src/Iso/Whole.antt =====
-- What `parse_iso_literal` of crates/isograph_lang_parser/src/parse_iso_literal.rs guarantees for a
-- literal that it reads.
use isograph.Prelude.{
  ℕ, true, Option, none, List, [], ◌≡◌, refl, sym, subst, codes, same_text, Bool-cases, inl, inr,
}
use isograph.Lang.Span.{Span, WithSpan}
use isograph.Lang.Location.{TextSource}
use isograph.Lang.Selections.{UnvalidatedSelection, selection_set}
use isograph.Iso.Token.{identifier, period, LiteralType}
use isograph.Iso.Lexer.{
  PeekableLexer, Reply, ok, new, reached_eof, remaining_token_span, map_err, unwrap,
}
use isograph.Iso.Combinators.{
  Externals, located, name_of, token_of_kind, source_of_kind, directive_set,
}
use isograph.Iso.Values.{parse_directives}
use isograph.Iso.Types.{parse_variable_definitions}
use isograph.Iso.Literal.{
  IsoLiteralExtractionResult, entrypoint_declaration, client_field_declaration,
  client_pointer_declaration, description, no_leftover_tokens, exported,
  parse_iso_entrypoint_declaration, parse_client_field_declaration_inner,
  parse_iso_client_field_declaration, parse_client_pointer_target_type,
  parse_client_pointer_declaration_inner, parse_iso_client_pointer_declaration, parse_by_keyword,
  parse_iso_literal,
}
use isograph.Iso.Reads.{
  Reads, value, error, panics, runs_out, Reads-ok, Reads-bind, Reads-then, Reads-if, Reads-option,
  Reads-map_reply, with_span-Reads,
}
use isograph.Iso.Distinct.{Distinct, none_left, parse_selection_set-Distinct}

-- The selections of a declaration; an entrypoint has none.
abbrev selections : IsoLiteralExtractionResult → List (WithSpan UnvalidatedSelection)
selections (entrypoint_declaration d) = []
selections (client_field_declaration d) = d.item.selection_set
selections (client_pointer_declaration d) = d.item.selection_set

-- A declaration with distinct names, after which no token is left.
abbrev Complete : IsoLiteralExtractionResult → PeekableLexer → Type 0
Complete r s = Distinct (selection_set (selections r)) × (reached_eof s ≡ true)

-- What holds of a declaration holds of the same one after the check for leftover tokens.
weaken :
    {E A : Type 0} {Q : A → Type 0} {declaration : A} {r : Reply E A}
    → Q declaration
    → Reads (λ a s. (a ≡ declaration) × (reached_eof s ≡ true)) r
    → Reads (λ a s. Q a × (reached_eof s ≡ true)) r
weaken {Q} q (value h) = value (subst Q (sym h.0) q, h.1)
weaken q error = error
weaken q panics = panics
weaken q runs_out = runs_out

remaining_token_span-Reads :
    {E : Type 0} (s : PeekableLexer)
    → Reads {E = E} (λ o s'. o ≡ none → reached_eof s' ≡ true) (remaining_token_span s)
unfolding remaining_token_span
remaining_token_span-Reads s = elim (Bool-cases (reached_eof s)) [
  | inl ends ↦ rw ends (value λ e. ends)
  | inr more ↦ rw more (Reads-then (unwrap _ _) _ λ span s'. value λ e. cc)
]

module _ (x : Externals) (text_source : TextSource) where
  no_leftover_tokens-Reads :
      {A : Type 0} (declaration : A) (s : PeekableLexer)
      → Reads
          (λ a s'. (a ≡ declaration) × (reached_eof s' ≡ true))
          (no_leftover_tokens x text_source declaration s)
  unfolding no_leftover_tokens
  no_leftover_tokens-Reads declaration s =
      Reads-bind (remaining_token_span-Reads s)
        λ leftover s1 q. Reads-option leftover _ _ s1 (λ e. value (refl, q e)) λ span e. error

  field_inner-Reads :
      (fuel path : ℕ) (export_name : Option (List ℕ)) (span : Span) (s : PeekableLexer)
      → Reads
          (λ d s'. Distinct (selection_set d.item.selection_set))
          (parse_client_field_declaration_inner x text_source fuel path export_name span s)
  unfolding parse_client_field_declaration_inner
  field_inner-Reads fuel path export_name span s = with_span-Reads _ s (
      Reads-then (name_of x.intern s) _ λ parent s1.
        Reads-then (token_of_kind period s1) _ λ dot s2.
          Reads-then (name_of x.intern s2) _ λ name s3.
            Reads-then (parse_variable_definitions x text_source fuel s3) _ λ definitions s4.
              Reads-then (parse_directives x text_source fuel s4) _ λ directives s5.
                Reads-then (directive_set x.field_directives directives s5) _ λ set s6.
                  Reads-then (description x text_source s6) _ λ d s7.
                    Reads-bind (parse_selection_set-Distinct x text_source fuel s7) λ l s8 q.
                      Reads-then (exported x text_source LiteralType.field export_name name.item s8)
                        _ λ n s9. value q)

  pointer_inner-Reads :
      (fuel path : ℕ) (export_name : Option (List ℕ)) (span : Span) (s : PeekableLexer)
      → Reads
          (λ d s'. Distinct (selection_set d.item.selection_set))
          (parse_client_pointer_declaration_inner x text_source fuel path export_name span s)
  unfolding parse_client_pointer_declaration_inner
  pointer_inner-Reads fuel path export_name span s = with_span-Reads _ s (
      Reads-then (name_of x.intern s) _ λ parent s1.
        Reads-then (token_of_kind period s1) _ λ dot s2.
          Reads-then (name_of x.intern s2) _ λ name s3.
            Reads-then (parse_client_pointer_target_type x text_source fuel s3) _ λ target s4.
              Reads-then (parse_variable_definitions x text_source fuel s4) _ λ definitions s5.
                Reads-then (parse_directives x text_source fuel s5) _ λ directives s6.
                  Reads-then (description x text_source s6) _ λ d s7.
                    Reads-bind (parse_selection_set-Distinct x text_source fuel s7) λ l s8 q.
                      Reads-then
                        (exported x text_source LiteralType.pointer export_name name.item s8) _
                        λ n s9. value q)

  parse_by_keyword-Complete :
      (fuel : ℕ) (text : List ℕ) (path : ℕ) (export_name : Option (List ℕ))
      (discriminator : WithSpan (List ℕ)) (s : PeekableLexer)
      → Reads Complete (parse_by_keyword x text_source fuel text path export_name discriminator s)
  unfolding parse_by_keyword parse_iso_client_field_declaration parse_iso_client_pointer_declaration
      parse_iso_entrypoint_declaration
  parse_by_keyword-Complete fuel text path export_name discriminator s =
      Reads-if (same_text discriminator.item (codes "entrypoint")) _ _ s
        (Reads-bind
          (Reads-then _ _
            λ declaration s1. weaken {Q = λ d. Unit} tt (no_leftover_tokens-Reads declaration s1))
          λ d s1 q. value (none_left, q.1))
        (Reads-if (same_text discriminator.item (codes "field")) _ _ s
          (Reads-bind
            (Reads-bind
              (Reads-map_reply _ (field_inner-Reads fuel path export_name discriminator.span s))
              λ declaration s1 h. weaken h (no_leftover_tokens-Reads declaration s1))
            λ d s1 q. value q)
          (Reads-if (same_text discriminator.item (codes "pointer")) _ _ s
            (Reads-bind
              (Reads-bind
                (Reads-map_reply _ (pointer_inner-Reads fuel path export_name discriminator.span s))
                λ declaration s1 h. weaken h (no_leftover_tokens-Reads declaration s1))
              λ d s1 q. value q)
            error))

  -- A literal that is read is read to its end, and in every selection set of its declaration, at
  -- every depth, no two selections have the same name or alias.
  pub parse_iso_literal-Complete :
      (iso_literal_text : List ℕ) (definition_file_path : ℕ) (const_export_name : Option (List ℕ))
      {result : IsoLiteralExtractionResult} {s : PeekableLexer}
      → parse_iso_literal x text_source iso_literal_text definition_file_path const_export_name
        ≡ ok result s
      → Distinct (selection_set (selections result)) × (reached_eof s ≡ true)
  unfolding parse_iso_literal
  parse_iso_literal-Complete text path export_name e =
      Reads-ok Complete
        (Reads-then
          (map_err (λ e. located text_source e) (source_of_kind identifier) (new x.lex text)) _
          λ d s1. parse_by_keyword-Complete _ text path export_name d s1)
        e
