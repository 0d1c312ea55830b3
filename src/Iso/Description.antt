-- ===== src/Iso/Description.antt =====
-- Descriptions: crates/isograph_lang_parser/src/description.rs. Texts are bytes.
use isograph.Prelude.{
  ℕ, suc, ◌-◌, Bool, true, false, not, ◌&&◌, ◌==◌, ltb, if◌then◌else◌, Option, none, some, List, [],
  ◌∷◌, ◌++◌, length, drop, slice, map,
}
use isograph.Lang.Span.{WithSpan}
use isograph.Iso.Token.{LowLevelParseError, block_string_literal, string_literal}
use isograph.Iso.Lexer.{Parser, ◌>>=◌, pure, unwrap, optional, parse_source_of_kind}

unfoldable pub is_not_whitespace : ℕ → Bool
is_not_whitespace c = not (c == b' ') && not (c == b'\t')

unfoldable pub line_is_whitespace : List ℕ → Bool
line_is_whitespace [] = true
line_is_whitespace (c ∷ cs) = not (is_not_whitespace c) && line_is_whitespace cs

-- A line without the `\r` at its end.
abbrev strip_return : List ℕ → List ℕ
strip_return [] = []
strip_return (c ∷ []) = if c == b'\r' then [] else c ∷ []
strip_return (c ∷ d ∷ cs) = c ∷ strip_return (d ∷ cs)

-- The rest of `str::lines`, with the line that has begun: a line ends at `\n`, and the last one may
-- end with the text.
unfoldable pub lines_from : List ℕ → List ℕ → List (List ℕ)
lines_from [] [] = []
lines_from (c ∷ cs) [] = (c ∷ cs) ∷ []
lines_from begun (c ∷ cs) = elim (c == b'\n') [
  | true ↦ strip_return begun ∷ lines_from [] cs
  | false ↦ lines_from (begun ++ c ∷ []) cs
]

-- Where the first character stands that is not whitespace.
unfoldable pub first_index : List ℕ → Option ℕ
first_index [] = none
first_index (c ∷ cs) =
    if is_not_whitespace c
    then some 0
    else elim (first_index cs) [ none ↦ none | some i ↦ some (suc i) ]

abbrev pub smaller : Option ℕ → Option ℕ → Option ℕ
smaller common none = common
smaller none (some i) = some i
smaller (some indent) (some i) = if ltb i indent then some i else some indent

unfoldable pub common_indent_from : Option ℕ → List (List ℕ) → ℕ
common_indent_from none [] = 0
common_indent_from (some indent) [] = indent
common_indent_from common (line ∷ lines) =
    common_indent_from (smaller common (first_index line)) lines

unfoldable pub get_common_indent : List ℕ → ℕ
get_common_indent source = common_indent_from none (drop 1 (lines_from [] source))

abbrev cut_lines : ℕ → List (List ℕ) → List (List ℕ)
cut_lines indent [] = []
cut_lines indent (line ∷ lines) = line ∷ map (λ l. drop indent l) lines

unfoldable pub drop_blank_front : List (List ℕ) → List (List ℕ)
drop_blank_front [] = []
drop_blank_front (line ∷ lines) =
    if line_is_whitespace line then drop_blank_front lines else line ∷ lines

unfoldable pub drop_blank_back : List (List ℕ) → List (List ℕ)
drop_blank_back [] = []
drop_blank_back (line ∷ lines) = elim (drop_blank_back lines) [
  | [] ↦ if line_is_whitespace line then [] else line ∷ []
  | l ∷ ls ↦ line ∷ l ∷ ls
]

unfoldable pub join_lines : List (List ℕ) → List ℕ
join_lines [] = []
join_lines (line ∷ []) = line
join_lines (line ∷ next ∷ lines) = line ++ (b'\n' ∷ join_lines (next ∷ lines))

unfoldable pub clean_block_string_literal : List ℕ → Option (List ℕ)
clean_block_string_literal source = elim (slice source 3 (length source - 3)) [
  | none ↦ none
  | some inner ↦ some (
      join_lines (
        drop_blank_back
          (drop_blank_front (cut_lines (get_common_indent inner) (lines_from [] inner)))))
]

module _ (intern : List ℕ → ℕ) where
  unfoldable pub parse_multiline_description :
      Parser (WithSpan LowLevelParseError) (Option (WithSpan ℕ))
  parse_multiline_description = do
    parsed_str ← optional (parse_source_of_kind block_string_literal)
    elim parsed_str [
      | none ↦ pure none
      | some text ↦ do
        cleaned ← unwrap (clean_block_string_literal text.item)
        pure (some (record { item = intern cleaned; span = text.span }))
    ]

  unfoldable pub parse_single_line_description :
      Parser (WithSpan LowLevelParseError) (Option (WithSpan ℕ))
  parse_single_line_description = do
    parsed_str ← optional (parse_source_of_kind string_literal)
    elim parsed_str [
      | none ↦ pure none
      | some text ↦ do
        inner ← unwrap (slice text.item 1 (length text.item - 1))
        pure (some (record { item = intern inner; span = text.span }))
    ]

  unfoldable pub parse_optional_description :
      Parser (WithSpan LowLevelParseError) (Option (WithSpan ℕ))
  parse_optional_description = do
    single ← parse_single_line_description
    elim single [ none ↦ parse_multiline_description | some d ↦ pure (some d) ]
