-- ===== src/Pico/State.antt =====
-- The state of crates/pico/src: epoch.rs, index.rs, intern.rs, source.rs, derived_node.rs,
-- dependency.rs and the structs of database.rs. A handle of the external `intern` crate is its
-- number, a `boxcar::Vec` is a list that grows at its end, and a map is a function into `Option`.
use isograph.Prelude.{ℕ, ◌+◌, ◌^◌, Option, none, some, List, ◌==◌, if◌then◌else◌}

-- Why the code stops: the panics of the crate, and the end of the model's fuel.
pub data Panic : Type 0 where
  epoch_is_zero : Panic
  epoch_overflow : Panic
  count_overflow : Panic
  count_underflow : Panic
  stack_not_empty : Panic
  stack_empty : Panic
  cyclic_dependency : Panic
  source_not_found : Panic
  invalid_index : Panic
  revision_missing : Panic
  node_missing : Panic
  param_missing : Panic
  new_node_failed : Panic
  retained_query_missing : Panic
  retained_query_dropped : Panic
  out_of_fuel : Panic

pub data Result {ℓ} (A : Type ℓ) : Type ℓ where
  ok : A → Result A
  panic : Panic → Result A

infixl 5 ◌>>=◌
abbrev pub ◌>>=◌ {ℓ κ} : {A : Type ℓ} {B : Type κ} → Result A → (A → Result B) → Result B
ok a >>= f = f a
panic e >>= f = panic e

-- `expect` and `unwrap` on an `Option`.
abbrev pub expect {ℓ} : {A : Type ℓ} → Option A → Panic → Result A
expect none e = panic e
expect (some a) e = ok a

-- A `NonZeroUsize`; a `usize` has 64 bits.
abbrev pub Epoch : Type 0
Epoch = ℕ

abbrev pub initial_epoch : Epoch
initial_epoch = 1

-- Past the largest `usize` the sum overflows, or wraps to 0 and fails to be `NonZeroUsize`.
unfoldable pub increment : Epoch → Result Epoch
increment e = if e + 1 == 2 ^ 64 then panic epoch_overflow else ok (e + 1)

abbrev pub Key : Type 0
Key = ℕ

abbrev pub ParamId : Type 0
ParamId = ℕ

abbrev pub DerivedNodeId : Type 0
DerivedNodeId = ℕ

-- A function pointer, by its address. What the function does is a parameter of the model.
abbrev pub InnerFn : Type 0
InnerFn = ℕ

-- An index into one of the append-only vectors.
abbrev pub Index : Type 0
Index = ℕ

pub data NodeKind : Type 0 where
  source : Key → NodeKind
  derived : DerivedNodeId → NodeKind

pub record Dependency : Type 0 where
  pub node_to : NodeKind
  pub time_verified_or_updated : Epoch

pub record TrackedDependencies : Type 0 where
  pub dependencies : List Dependency
  pub max_time_updated : Epoch
  pub derived_node_id : DerivedNodeId

-- The calls under way, the innermost first.
abbrev pub DependencyStack : Type 0
DependencyStack = List TrackedDependencies

pub record SourceNode (V : Type 0) : Type 0 where
  pub time_updated : Epoch
  pub value : V

pub record DerivedNode (V : Type 0) : Type 0 where
  pub dependencies : List Dependency
  pub inner_fn : InnerFn
  pub value : V

pub record DerivedNodeRevision : Type 0 where
  pub time_updated : Epoch
  pub time_verified : Epoch
  pub index : Index

pub record DatabaseStorage (V : Type 0) : Type 0 where
  pub param_id_to_index : ParamId → Option Index
  pub derived_node_id_to_revision : DerivedNodeId → Option DerivedNodeRevision
  pub source_node_key_to_index : Key → Option Index
  pub derived_nodes : List (DerivedNode V)
  pub source_nodes : List (Option (SourceNode V))
  pub params : List V
  pub current_epoch : Epoch

-- `lru_cache` stands for the external `lru` crate's cache: its keys, in the order of its `iter`.
pub record Database (V : Type 0) : Type 0 where
  pub dependency_stack : DependencyStack
  pub storage : DatabaseStorage V
  pub top_level_calls : List DerivedNodeId
  pub top_level_call_lru_cache : List DerivedNodeId
  pub retained_calls : DerivedNodeId → Option ℕ

pub data DidRecalculate : Type 0 where
  reused_memoized_value : DidRecalculate
  recalculated : DidRecalculate
  error : DidRecalculate

-- What a memoized function does with the database, read by read. `ret none` is an early `?`,
-- `param` reads an interned argument, `get` is `db.get`, `memo` calls a memoized function and
-- reads the `MemoRef` that it returns, and `deref` reads a `MemoRef` that came as an argument.
pub data Program (V : Type 0) : Type 0 where
  ret : Option V → Program V
  param : ParamId → (V → Program V) → Program V
  get : Key → (V → Program V) → Program V
  intern : ParamId → V → Program V → Program V
  memo : DerivedNodeId → InnerFn → (V → Program V) → Program V
  deref : DerivedNodeId → (V → Program V) → Program V

-- A map with one entry written.
abbrev pub update {ℓ} : {A : Type ℓ} → (ℕ → Option A) → ℕ → A → ℕ → Option A
update f k v j = if k == j then some v else f j

-- A map with one entry taken out.
abbrev pub erase_entry {ℓ} : {A : Type ℓ} → (ℕ → Option A) → ℕ → ℕ → Option A
erase_entry f k j = if k == j then none else f j
