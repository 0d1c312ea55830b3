-- ===== src/Lang/Span.antt =====
-- Positions in a source text: crates/common_lang_types/src/span.rs. Offsets are `u32`; where the
-- code panics (its `debug_assert!`, an overflow, a failed `try_from`), the model returns `none`.
use isograph.Prelude.{
  ℕ, ◌+◌, ◌-◌, ◌^◌, ◌≤◌, ◌<◌, ◌≡◌, Bool, Option, none, some, ltb, leb, ◌==◌, if◌then◌else◌, arith,
}
use isograph.Lang.Outcome.{Outcome, ok, ◌>>=◌}

pub record Span : Type 0 where
  pub start : ℕ
  pub end : ℕ

unfoldable pub new : ℕ → ℕ → Option Span
new start end = if leb start end then some (record { start = start; end = end }) else none

abbrev pub todo_generated : Span
todo_generated = record { start = 0; end = 0 }

unfoldable pub is_empty : Span → Bool
is_empty s = s.start == s.end

abbrev u32_add : ℕ → ℕ → Option ℕ
u32_add a b = if ltb (a + b) (2 ^ 32) then some (a + b) else none

unfoldable pub with_offset : Span → ℕ → Option Span
with_offset s offset = elim (u32_add s.start offset) [
  | none ↦ none
  | some start ↦ elim (u32_add s.end offset) [ none ↦ none | some end ↦ new start end ]
]

abbrev u32_try_from : ℕ → Option ℕ
u32_try_from n = if ltb n (2 ^ 32) then some n else none

unfoldable pub from_usize : ℕ → ℕ → Option Span
from_usize start end = elim (u32_try_from start) [
  | none ↦ none
  | some s ↦ elim (u32_try_from end) [ none ↦ none | some e ↦ new s e ]
]

unfoldable pub as_usize : Span → ℕ × ℕ
as_usize s = (s.start, s.end)

unfoldable pub join : Span → Span → Option Span
join left right = new left.start right.end

-- The subtraction panics where it would go below 0.
unfoldable pub len : Span → Option ℕ
len s = if leb s.start s.end then some (s.end - s.start) else none

unfoldable pub span_between : Span → Span → Span
span_between s other = record { start = s.end; end = other.start }

-- The invariant that the struct's comment states, and the width of the offsets.
pub record IsSpan (s : Span) : Type 0 where
  pub ordered : s.start ≤ s.end
  pub narrow : s.end < 2 ^ 32

pub record WithSpan {ℓ} (T : Type ℓ) : Type ℓ where
  pub item : T
  pub span : Span

module _ {ℓ κ} {T : Type ℓ} {U : Type κ} where
  abbrev pub map : (T → U) → WithSpan T → WithSpan U
  map f w = record { item = f w.item; span = w.span }

  abbrev pub and_then {μ} : {E : Type μ} → (T → Outcome E U) → WithSpan T → Outcome E (WithSpan U)
  and_then f w = f w.item >>= (λ item. ok (record { item = item; span = w.span }))

-- A span within the width of its offsets comes back from its two `usize`. An offset that keeps its
-- end within the width moves it without a change of length, and a larger offset makes the code
-- panic.
pub with_offset-len :
    (s : Span) (offset : ℕ)
    → IsSpan s
    → (from_usize (as_usize s).0 (as_usize s).1 ≡ some s)
      × (s.end + offset < 2 ^ 32
          → (t : Span) × (with_offset s offset ≡ some t) × IsSpan t × (len t ≡ len s))
      × (2 ^ 32 ≤ s.end + offset → with_offset s offset ≡ none)
unfolding from_usize as_usize new with_offset len
with_offset-len s offset valid = (
  ground (arith, valid.ordered, valid.narrow),
  λ fits. (
    record { start = s.start + offset; end = s.end + offset },
    ground (arith, valid.ordered, valid.narrow),
    record { ordered = omega (arith, valid.ordered); narrow = fits },
    ground (arith, valid.ordered, valid.narrow),
  ),
  λ large. ground (arith, valid.ordered, valid.narrow),
)
