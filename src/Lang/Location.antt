-- ===== src/Lang/Location.antt =====
-- Where an item of a source text stands: crates/common_lang_types/src/location.rs. An interned
-- string is its number.
use isograph.Prelude.{ℕ, Option}
use isograph.Lang.Span.{Span}

pub record TextSource : Type 0 where
  pub current_working_directory : ℕ
  pub relative_path_to_source_file : ℕ
  pub span : Option Span

pub record EmbeddedLocation : Type 0 where
  pub text_source : TextSource
  pub span : Span

pub data Location : Type 0 where
  embedded : EmbeddedLocation → Location
  generated : Location

pub record WithLocation {ℓ} (T : Type ℓ) : Type ℓ where
  pub item : T
  pub location : Location
