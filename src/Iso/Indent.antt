-- ===== src/Iso/Indent.antt =====
-- The indentation that a block string loses: crates/isograph_lang_parser/src/description.rs.
use isograph.Prelude.{
  ℕ, zero, suc, ◌≤◌, true, ltb, Option, none, some, List, [], ◌∷◌, ◌≡◌, refl, take, drop, All,
  arith, Bool-cases, Option-cases, inl, inr,
}
use isograph.Iso.Description.{
  is_not_whitespace, line_is_whitespace, lines_from, first_index, smaller, common_indent_from,
  get_common_indent,
}

-- The line has nothing but whitespace before the place.
abbrev pub IsBlankUpTo : ℕ → List ℕ → Type 0
IsBlankUpTo n line = line_is_whitespace (take n line) ≡ true

first_index-none : (line : List ℕ) (n : ℕ) → first_index line ≡ none → IsBlankUpTo n line
unfolding first_index line_is_whitespace
first_index-none [] zero h = refl
first_index-none [] (suc n) h = refl
first_index-none (c ∷ cs) zero h = refl
first_index-none (c ∷ cs) (suc n) h = elim (Bool-cases (is_not_whitespace c)) [
  | inl e ↦ absurd (ground (arith, e, h))
  | inr e ↦ elim (Option-cases (first_index cs)) [
    | inl none_of ↦ rw e (first_index-none cs n none_of)
    | inr (i, found) ↦ absurd (ground (arith, e, found, h))
  ]
]

first_index-some :
    (line : List ℕ) (n i : ℕ) → first_index line ≡ some i → n ≤ i → IsBlankUpTo n line
unfolding first_index line_is_whitespace
first_index-some [] n i h le = cc
first_index-some (c ∷ cs) zero i h le = refl
first_index-some (c ∷ cs) (suc n) i h le = elim (Bool-cases (is_not_whitespace c)) [
  | inl e ↦ absurd (ground (arith, e, h, le))
  | inr e ↦ elim (Option-cases (first_index cs)) [
    | inl none_of ↦ rw e (first_index-none cs n none_of)
    | inr (j, found) ↦ rw e (first_index-some cs n j found (ground (arith, e, found, h, le)))
  ]
]

module _ (lines : List (List ℕ)) where
  smaller-le :
      (common : Option ℕ) (i j : ℕ)
      → ((i : ℕ) → common_indent_from (some i) lines ≤ i)
      → i ≤ j
      → common_indent_from (smaller common (some i)) lines ≤ j
  smaller-le none i j h le = omega (arith, h i)
  smaller-le (some k) i j h le = elim (Bool-cases (ltb i k)) [
    | inl e ↦ rw e (omega (arith, h i))
    | inr e ↦ rw e (ground (arith, e, h k))
  ]

common_indent_from-le : (lines : List (List ℕ)) (i : ℕ) → common_indent_from (some i) lines ≤ i
unfolding common_indent_from
common_indent_from-le [] i = omega arith
common_indent_from-le (line ∷ lines) i = elim (Option-cases (first_index line)) [
  | inl e ↦ rw e (common_indent_from-le lines i)
  | inr (j, e) ↦ elim (Bool-cases (ltb j i)) [
    | inl less ↦ rw (e, less) (ground (arith, less, common_indent_from-le lines j))
    | inr more ↦ rw (e, more) (common_indent_from-le lines i)
  ]
]

common_indent_from-All :
    (lines : List (List ℕ)) (common : Option ℕ)
    → All (IsBlankUpTo (common_indent_from common lines)) lines
unfolding common_indent_from
common_indent_from-All [] common = tt
common_indent_from-All (line ∷ lines) common = (
  elim (Option-cases (first_index line)) [
    | inl e ↦ first_index-none line _ e
    | inr (i, e) ↦
        first_index-some line _ i e
          (rw e (smaller-le lines common i i (common_indent_from-le lines) (omega arith)))
  ],
  common_indent_from-All lines (smaller common (first_index line)),
)

-- Every line of a block string but the first loses only whitespace to the common indentation.
pub get_common_indent-All :
    (source : List ℕ) → All (IsBlankUpTo (get_common_indent source)) (drop 1 (lines_from [] source))
unfolding get_common_indent
get_common_indent-All source = common_indent_from-All (drop 1 (lines_from [] source)) none
