-- ===== src/Lang/BaseTypes.antt =====
-- The two sums that run through the compiler: crates/isograph_lang_types/src/base_types.rs.
use isograph.Prelude.{Option, none, some}
use isograph.Lang.Outcome.{Outcome, ok, err}

pub data SelectionType {ℓ κ} (S : Type ℓ) (O : Type κ) : Type (ℓ ⊔ κ) where
  scalar : S → SelectionType S O
  object : O → SelectionType S O

pub data DefinitionLocation {ℓ κ} (S : Type ℓ) (C : Type κ) : Type (ℓ ⊔ κ) where
  server : S → DefinitionLocation S C
  client : C → DefinitionLocation S C

module _ {ℓ κ} {S : Type ℓ} {C : Type κ} where
  unfoldable pub as_server : DefinitionLocation S C → Option S
  as_server (server s) = some s
  as_server (client c) = none

  unfoldable pub as_server_result : DefinitionLocation S C → Outcome C S
  as_server_result (server s) = ok s
  as_server_result (client c) = err c

  unfoldable pub as_client : DefinitionLocation S C → Option C
  as_client (server s) = none
  as_client (client c) = some c

  unfoldable pub as_client_result : DefinitionLocation S C → Outcome S C
  as_client_result (server s) = err s
  as_client_result (client c) = ok c

  unfoldable pub as_scalar : SelectionType S C → Option S
  as_scalar (scalar s) = some s
  as_scalar (object o) = none

  unfoldable pub as_scalar_result : SelectionType S C → Outcome C S
  as_scalar_result (scalar s) = ok s
  as_scalar_result (object o) = err o

  unfoldable pub as_object : SelectionType S C → Option C
  as_object (scalar s) = none
  as_object (object o) = some o

  unfoldable pub as_object_result : SelectionType S C → Outcome S C
  as_object_result (scalar s) = err s
  as_object_result (object o) = ok o

module _ {ℓ κ μ ν} {S : Type ℓ} {O : Type κ} {S' : Type μ} {O' : Type ν} where
  unfoldable pub transpose :
      DefinitionLocation (SelectionType S O) (SelectionType S' O')
      → SelectionType (DefinitionLocation S S') (DefinitionLocation O O')
  transpose (server (object o)) = object (server o)
  transpose (server (scalar s)) = scalar (server s)
  transpose (client (object o)) = object (client o)
  transpose (client (scalar s)) = scalar (client s)
