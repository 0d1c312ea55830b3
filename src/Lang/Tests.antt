-- ===== src/Lang/Tests.antt =====
-- The shared types' theorems at concrete inputs.
use isograph.Prelude.{ℕ, ◌+◌, ◌^◌, ◌<◌, ◌≤◌, ◌≡◌, none, some, true, arith}
use isograph.Lang.Outcome.{Outcome, ok}
use isograph.Lang.Span.{Span, IsSpan, from_usize, as_usize, with_offset, len, with_offset-len}
use isograph.Lang.Location.{Location}
use isograph.Lang.GraphqlType
use isograph.Lang.GraphqlType.{
  GraphqlTypeAnnotation, named, list, non_null, non_null_named, is_nullable,
}
use isograph.Lang.GraphqlLaws.{rebuilt, and_then_lem}
use isograph.Lang.IsographType.{
  from_graphql_type_annotation, graphql_type_annotation_from_type_annotation,
}
use isograph.Lang.IsographLaws.{erase, graphql-from_graphql}
use isograph.Lang.Values.{
  NonConstantValue, variable, null, object, end, field, try_from, from_constant, variables,
}
use isograph.Lang.Constants.{Converts, try_from_lem}

abbrev word : Span
word = record { start = 3; end = 8 }

word-IsSpan : IsSpan word
word-IsSpan = record { ordered = omega arith; narrow = omega arith }

with_offset-len_example :
    (from_usize (as_usize word).0 (as_usize word).1 ≡ some word)
    × (word.end + 4 < 2 ^ 32
        → (t : Span) × (with_offset word 4 ≡ some t) × IsSpan t × (len t ≡ len word))
    × (2 ^ 32 ≤ word.end + 4 → with_offset word 4 ≡ none)
with_offset-len_example = with_offset-len word 4 word-IsSpan

-- `[5!]!`, but for the outer `!`.
abbrev numbers : GraphqlTypeAnnotation ℕ
numbers = list (non_null (non_null_named (record { item = 5; span = word })))

abbrev next : ℕ → Outcome ℕ ℕ
next n = ok (n + 1)

and_then_lem_example :
    GraphqlType.and_then next numbers ≡ rebuilt numbers (next (GraphqlType.inner numbers))
and_then_lem_example = and_then_lem next numbers

graphql-from_graphql_example :
    (graphql_type_annotation_from_type_annotation (from_graphql_type_annotation numbers)
      ≡ some (erase numbers))
    × (is_nullable (erase numbers) ≡ true)
graphql-from_graphql_example = graphql-from_graphql numbers

-- `{ 1: null, 2: $9 }`
abbrev pair_literal : NonConstantValue
pair_literal = object (
    field (record { item = 1; location = Location.generated }) null Location.generated
      (field (record { item = 2; location = Location.generated }) (variable 9) Location.generated
        end))

try_from_lem_example :
    Converts from_constant pair_literal (try_from pair_literal) (variables pair_literal)
try_from_lem_example = try_from_lem pair_literal
