-- ===== src/Pico/Tests.antt =====
-- Runs of the model of crates/pico, and the theorems at concrete inputs.
use isograph.Prelude.{
  ℕ, zero, suc, ◌+◌, ◌≡◌, ◌==◌, ==_iff, Bool, true, false, Option, none, some, some_unique, subst,
  ◌≢◌, List, [], ◌∷◌, contains, ◌↔◌, Bool-cases, inl, inr, refl, arith, ◌⊎◌, ◌++◌, if◌then◌else◌,
}
use isograph.Pico.State.{
  Result, ok, panic, source_not_found, DidRecalculate, Epoch, Key, DerivedNodeId, InnerFn, Database,
  Program, ◌>>=◌, update, increment, DatabaseStorage, DerivedNodeRevision, DerivedNode, NodeKind,
  Dependency, ParamId,
}
use isograph.Pico.Stack
use isograph.Pico.Storage
use isograph.Pico.Storage.{
  new_with_capacity, get_source_node, get_param, set_db, remove, deref, get_derived_node,
  get_derived_node_revision,
}
use isograph.Pico.Execute.{
  run, execute_memoized_function, execute_step, create_derived_node, update_derived_node,
  store_new_node, store_updated_node, invoke_with_dependency_tracking, record_top_level_call,
  reuse_or_update, any_dependency_changed, dependency_changed, source_node_changed_since,
  derived_node_changed_since,
}
use isograph.Pico.Spec.{Evaluates, Client, IsStratified}
use isograph.Pico.Invariant.{NodeGood, stored, IsValid, dependency_on}
use isograph.Pico.Inputs.{Idle, put, with_source}
use isograph.Pico.Session.{Returns, execute-deref, set_db-execute, new_with_capacity-IsValid}
use isograph.Pico.SetSource.{StillTotal, SourceWasSet, set_source-IsValid}
use isograph.Pico.Leaks.{check-registers}
use isograph.Pico.Collect.{
  run_garbage_collection, sweep, collect, collect_node, collect_params, add_dependencies_to_queue,
  RetainedQuery, retain, clear_retain,
}
use isograph.Pico.Reachable.{AreApart, Reachable, moved, targets, root, through}
use isograph.Pico.Collected.{run_garbage_collection-Reachable}
use isograph.Pico.Retain.{clear_retain-retain}
use isograph.Pico.SweepEnds.{run_garbage_collection-ends}

program : Unit {0}
unfolding run execute_memoized_function execute_step create_derived_node update_derived_node
    store_new_node store_updated_node invoke_with_dependency_tracking record_top_level_call
    reuse_or_update any_dependency_changed dependency_changed source_node_changed_since
    derived_node_changed_since new_with_capacity get_source_node get_param set_db remove deref
    get_derived_node increment Stack.new_tracked Stack.push Stack.push_if_not_empty Stack.is_empty
    Stack.assert_no_cycles Stack.enter Stack.leave Storage.get
    Storage.register_dependency_in_parent_memoized_fn Storage.node_verified_in_current_epoch
    Storage.verify_derived_node Storage.insert_derived_node_revision Storage.insert_derived_node
    Storage.insert_source_node Storage.assert_empty_dependency_stack Storage.overwrite_source
    Storage.add_source Storage.set_source Storage.remove_source
program = tt

-- `first` reads the source 7; `second` calls `first` and adds one.

abbrev code : InnerFn → DerivedNodeId → Program ℕ
code zero id = Program.get 7 (λ v. Program.ret (some v))
code (suc zero) id = Program.memo 0 0 (λ v. Program.ret (some (v + 1)))
code (suc (suc n)) id = Program.ret (some 0)

abbrev same : ℕ → ℕ → Bool
same a b = a == b

same_sound : (a b : ℕ) → same a b ≡ true → a ≡ b
same_sound a b h = (==_iff a b).0 h

code-IsStratified :
    (id : DerivedNodeId) → IsStratified (λ n. n) (λ n. n) (λ j. []) (λ q. 0) id [] (code id id)
code-IsStratified zero = λ v. tt
code-IsStratified (suc zero) = (omega arith, refl, λ v. tt, λ q h. h)
code-IsStratified (suc (suc n)) = tt

abbrev client : Client same code
client = record {
  rank = λ id. id;
  fn_of = λ id. id;
  reads = λ id. [];
  param_value = λ id. 0;
  stratified = code-IsStratified;
  dyn_eq_sound = same_sound;
}

abbrev start : Database ℕ
start = new_with_capacity

-- The second call finds both nodes; the value is the one over the new source.
session :
    (do
      db1 ← set_db same start 7 10
      (_, db2) ← execute_memoized_function same code 5 1 1 db1
      db3 ← set_db same db2 7 20
      (_, db4) ← execute_memoized_function same code 5 1 1 db3
      deref db4 1)
    ≡ ok 21
unfolding program
session = refl

-- Function 3 returns what the reference 0 points to, which came to it as an argument.
abbrev reading : InnerFn → DerivedNodeId → Program ℕ
reading (suc (suc (suc n))) id = Program.deref 0 (λ v. Program.ret (some v))
reading fn id = Program.get 7 (λ v. Program.ret (some v))

-- The functions 0 and 3 are called before and after the source is set to 20.
abbrev reference_session : Result (ℕ × ℕ)
reference_session = do
  db1 ← set_db same start 7 10
  (_, db2) ← execute_memoized_function same reading 5 0 0 db1
  (_, db3) ← execute_memoized_function same reading 5 3 3 db2
  db4 ← set_db same db3 7 20
  (_, db5) ← execute_memoized_function same reading 5 0 0 db4
  (_, db6) ← execute_memoized_function same reading 5 3 3 db5
  new ← deref db6 0
  old ← deref db6 3
  ok (new, old)

-- The function 3 still returns what the function 0 returned before.
stale_reference : reference_session ≡ ok (20, 10)
unfolding program
stale_reference = refl

-- Function 3 reads the source 22 and calls 2, which calls 1 only while the source 20 is 0; 1 reads
-- the source 21, and the missing source 23 once that is 9.
abbrev guarded : InnerFn → DerivedNodeId → Program ℕ
guarded zero id = Program.ret (some 0)
guarded (suc zero) id =
    Program.get 21
      (λ b. if b == 9 then Program.get 23 (λ v. Program.ret (some v)) else Program.ret (some b))
guarded (suc (suc zero)) id =
    Program.get 20
      (λ a. if a == 0 then Program.memo 1 1 (λ v. Program.ret (some v)) else Program.ret (some 6))
guarded (suc (suc (suc n))) id = Program.get 22 (λ d. Program.memo 2 2 (λ v. Program.ret (some v)))

-- The sources for which the function 3 is computed twice, and then called with the others.
abbrev guarded_session : Result (DidRecalculate × Database ℕ)
guarded_session = do
  db1 ← set_db same start 20 0
  db2 ← set_db same db1 21 0
  db3 ← set_db same db2 22 0
  (_, db4) ← execute_memoized_function same guarded 5 3 3 db3
  db5 ← set_db same db4 22 1
  (_, db6) ← execute_memoized_function same guarded 5 3 3 db5
  db7 ← set_db same db6 20 1
  db8 ← set_db same db7 21 9
  execute_memoized_function same guarded 5 3 3 db8

-- The call checks the function 1, a dependency that the function 3 never had, and panics.
stale_dependency_panics : guarded_session ≡ panic source_not_found
unfolding program
stale_dependency_panics = refl

abbrev guarded_sources : Key → Option ℕ
guarded_sources key =
    if key == 20 then some 1 else if key == 21 then some 9 else if key == 22 then some 1 else none

-- Computed anew from the same sources, the function 3 has the value 6.
guarded_value : Evaluates guarded (λ p. 0) guarded_sources (guarded 3 3) 6
guarded_value =
    Evaluates.get 1 refl
      (Evaluates.memo 6 (Evaluates.get 1 refl (Evaluates.ret refl)) (Evaluates.ret refl))

abbrev sources : Key → Option ℕ
sources = with_source (λ k. none) 7 (some 10)

second-Evaluates : Evaluates code client.param_value sources (code 1 1) 11
second-Evaluates =
    Evaluates.memo 10 (Evaluates.get 10 refl (Evaluates.ret refl)) (Evaluates.ret refl)

-- The database with the source 7 set, and nothing computed yet.
abbrev loaded : Database ℕ
loaded = record start {
  storage = record (start.storage) {
    source_node_key_to_index = update (start.storage.source_node_key_to_index) 7 0;
    source_nodes = some (record { time_updated = 1; value = 10 }) ∷ [];
  };
}

abbrev history : Epoch → Key → Option ℕ
history t = sources

loaded-IsValid : IsValid client history 1 Idle loaded.storage
unfolding new_with_capacity get_source_node get_param stored
loaded-IsValid = record {
  epoch = refl;
  sources = λ key. elim (Bool-cases (7 == key)) [
    | inl here ↦ (
      some (record { time_updated = 1; value = 10 }),
      ground arith,
      (omega arith, λ t a b. ground arith),
    )
    | inr away ↦ (none, ground arith, ground arith)
  ];
  source_table = record {
    points = λ key i h. (record { time_updated = 1; value = 10 }, ground arith);
    apart = λ k k' i h h'. ground arith;
  };
  params = λ q. inr refl;
  ready = λ id e h. absurd cc;
  indices = λ id rev h. absurd cc;
  nodes = λ id e h. absurd cc;
}

execute-deref_example : Returns client history 1 2 1 loaded 11
unfolding new_with_capacity
execute-deref_example =
    execute-deref client history 1 2 1 loaded 11 refl loaded-IsValid (λ q m. absurd cc)
      second-Evaluates (omega arith)

abbrev verified_now : DerivedNodeRevision
verified_now = record { time_updated = 1; time_verified = 2; index = 0 }

abbrev verified_before : DerivedNodeRevision
verified_before = record { time_updated = 1; time_verified = 1; index = 1 }

abbrev target_node : DerivedNode ℕ
target_node = record { dependencies = []; inner_fn = 0; value = 10 }

abbrev reader_node : DerivedNode ℕ
reader_node = record { dependencies = []; inner_fn = 3; value = 5 }

-- In its second epoch: node 0, verified in it, and node 1, which read the node 0 in the first.
abbrev cached : Database ℕ
cached = record start {
  storage = record (start.storage) {
    derived_node_id_to_revision =
        update (update (start.storage.derived_node_id_to_revision) 0 verified_now) 1
          verified_before;
    derived_nodes = target_node ∷ reader_node ∷ [];
    current_epoch = 2;
  };
}

cached_0 : stored cached.storage 0 ≡ some (verified_now, target_node)
unfolding stored new_with_capacity
cached_0 = refl

cached_1 : stored cached.storage 1 ≡ some (verified_before, reader_node)
unfolding stored new_with_capacity
cached_1 = refl

check-registers_example :
    (db' : Database ℕ) × (derived_node_changed_since
        (execute_memoized_function same code 4)
        cached
        0
        1
      ≡ ok (false, db'))
    × (db'.dependency_stack
        ≡ Stack.push_if_not_empty cached.dependency_stack
            (dependency_on (NodeKind.derived 0) cached.storage.current_epoch)
            cached.storage.current_epoch)
    × (db'.top_level_calls ≡ (
        if Stack.is_empty cached.dependency_stack
        then cached.top_level_calls ++ 0 ∷ []
        else cached.top_level_calls))
unfolding new_with_capacity
check-registers_example =
    check-registers same code 3 cached 0 1 (verified_now, target_node) cached_0 refl (omega arith)

-- Node 1 depends on node 2, and nothing on node 3.
abbrev plain_node : List Dependency → ℕ → DerivedNode ℕ
plain_node dependencies value = record { dependencies = dependencies; inner_fn = 0; value = value }

abbrev on_two : List Dependency
on_two = record { node_to = NodeKind.derived 2; time_verified_or_updated = 1 } ∷ []

abbrev revision_at : ℕ → DerivedNodeRevision
revision_at index = record { time_updated = 1; time_verified = 1; index = index }

abbrev three_nodes : DatabaseStorage ℕ
three_nodes = record {
  param_id_to_index = λ id. none;
  derived_node_id_to_revision = λ id.
      if id == 1
      then some (revision_at 0)
      else if id == 2
      then some (revision_at 1)
      else if id == 3
      then some (revision_at 2)
      else none;
  source_node_key_to_index = λ key. none;
  derived_nodes = plain_node on_two 10 ∷ plain_node [] 20 ∷ plain_node [] 30 ∷ [];
  source_nodes = [];
  params = [];
  current_epoch = 1;
}

abbrev two_nodes : DatabaseStorage ℕ
two_nodes = record three_nodes {
  derived_nodes = plain_node on_two 10 ∷ plain_node [] 20 ∷ [];
  derived_node_id_to_revision = update (update (λ id. none) 1 (revision_at 0)) 2 (revision_at 1);
}

abbrev no_params : DerivedNodeId → List ParamId
no_params id = []

-- Retaining node 1 keeps node 2, and node 3 goes.
three_to_two : run_garbage_collection 0 no_params three_nodes 5 (1 ∷ []) ≡ ok two_nodes
unfolding run_garbage_collection sweep collect collect_node collect_params add_dependencies_to_queue
three_to_two = refl

three_nodes_apart : AreApart three_nodes
three_nodes_apart id other rev rev' h h' e = ground (arith, h, h', e)

run_garbage_collection-Reachable_example :
    ((index : ℕ) × (stored two_nodes 2 ≡ some (moved (revision_at 1, plain_node [] 20) index))) ↔ (
      Reachable three_nodes (1 ∷ []) 2
      × ((index : ℕ) × (stored three_nodes 2
            ≡ some (moved (revision_at 1, plain_node [] 20) index))))
run_garbage_collection-Reachable_example =
    run_garbage_collection-Reachable 0 no_params three_nodes (1 ∷ []) three_nodes_apart 5 two_nodes
      2 (revision_at 1, plain_node [] 20) three_to_two

two_of : (id : ℕ) → contains (2 ∷ []) id ≡ true → 2 ≡ id
two_of id h = ground (arith, h)

no_target : (id : ℕ) → contains [] id ≢ true
no_target id h = cc

one_or_two : (id : ℕ) → Reachable three_nodes (1 ∷ []) id → (1 ≡ id) ⊎ (2 ≡ id)
unfolding stored
one_or_two id (root h) = inl (ground (arith, h))
one_or_two id (through i {target} {e} r at t) = elim (one_or_two i r) [
  | inl one ↦
      let same = some_unique e (revision_at 0, plain_node on_two 10) at (rw⁻¹ one refl) in
      inr (two_of target (subst (λ x. contains (targets x.1.dependencies) target ≡ true) same t))
  | inr two ↦
      let same = some_unique e (revision_at 1, plain_node [] 20) at (rw⁻¹ two refl) in
      absurd
        (no_target target (subst (λ x. contains (targets x.1.dependencies) target ≡ true) same t))
]

one_and_two_stored :
    (id : ℕ)
    → Reachable three_nodes (1 ∷ []) id
    → (e : DerivedNodeRevision × DerivedNode ℕ) × (stored three_nodes id ≡ some e)
unfolding stored
one_and_two_stored id r = elim (one_or_two id r) [
  | inl one ↦ ((revision_at 0, plain_node on_two 10), rw⁻¹ one refl)
  | inr two ↦ ((revision_at 1, plain_node [] 20), rw⁻¹ two refl)
]

run_garbage_collection-ends_example :
    (s' : DatabaseStorage ℕ) × (run_garbage_collection 0 no_params three_nodes 3 (1 ∷ []) ≡ ok s')
run_garbage_collection-ends_example =
    run_garbage_collection-ends 0 no_params three_nodes (1 ∷ []) three_nodes_apart
      one_and_two_stored 3 (λ id index h. cc) (omega arith)

-- A query of the function 4 is retained twice already.
abbrev retaining : Database ℕ
retaining = record start { retained_calls = update start.retained_calls 4 2 }

clear_retain-retain_example :
    (query : RetainedQuery) × ((db1 : Database ℕ) × ((db2 : Database ℕ) × ((retain retaining 4
            ≡ ok (query, db1))
          × ((clear_retain db1 query ≡ ok (record { derived_node_id = 4; cleared = true }, db2))
              × ((j : DerivedNodeId) → db2.retained_calls j ≡ retaining.retained_calls j)))))
unfolding new_with_capacity
clear_retain-retain_example = clear_retain-retain retaining 4 (λ e. cc) (omega arith)

-- The function 0 reads the source 7, 1 returns its argument, the parameter 40, and the others call 1
-- with the argument 6.
abbrev echo : InnerFn → DerivedNodeId → Program ℕ
echo zero id = Program.get 7 (λ v. Program.ret (some v))
echo (suc zero) id = Program.param 40 (λ v. Program.ret (some v))
echo (suc (suc n)) id = Program.intern 40 6 (Program.memo 1 1 (λ v. Program.ret (some v)))

abbrev echo_reads : DerivedNodeId → List ParamId
echo_reads zero = []
echo_reads (suc zero) = 40 ∷ []
echo_reads (suc (suc n)) = []

-- The values that the parameters' ids stand for.
abbrev echo_params : ParamId → ℕ
echo_params q = if q == 41 then 8 else 6

echo-IsStratified :
    (id : DerivedNodeId)
    → IsStratified (λ n. n) (λ n. n) echo_reads echo_params id (echo_reads id) (echo id id)
echo-IsStratified zero = λ v. tt
echo-IsStratified (suc zero) = (refl, λ v. tt)
echo-IsStratified (suc (suc n)) = (refl, (omega arith, refl, λ v. tt, λ q h. h))

abbrev echo_client : Client same echo
echo_client = record {
  rank = λ id. id;
  fn_of = λ id. id;
  reads = echo_reads;
  param_value = echo_params;
  stratified = echo-IsStratified;
  dyn_eq_sound = same_sound;
}

-- The node 0, which read the source 7, and the node 1, with the parameters 41 and 40.
abbrev node_zero : DerivedNode ℕ
node_zero = record {
  dependencies = dependency_on (NodeKind.source 7) 1 ∷ [];
  inner_fn = 0;
  value = 10;
}

abbrev node_one : DerivedNode ℕ
node_one = record { dependencies = []; inner_fn = 1; value = 6 }

abbrev unclean : DatabaseStorage ℕ
unclean = record (loaded.storage) {
  derived_node_id_to_revision = update (update (λ id. none) 1 (revision_at 1)) 0 (revision_at 0);
  derived_nodes = node_zero ∷ node_one ∷ [];
  params = 8 ∷ 6 ∷ [];
  param_id_to_index = update (update (λ id. none) 41 0) 40 1;
}

-- Every function from 2 on has the value 6, whatever the sources are.
call_one : {f : Key → Option ℕ} (n id : ℕ) → Evaluates echo echo_params f (echo (suc (suc n)) id) 6
call_one n id =
    Evaluates.intern (Evaluates.memo 6 (Evaluates.param (Evaluates.ret refl)) (Evaluates.ret refl))

good_zero : NodeGood echo_client history 1 Idle (stored unclean) 0 (revision_at 0, node_zero)
good_zero = record {
  same_fn = refl;
  started = 1;
  started_le = omega arith;
  verified_le = omega arith;
  trace = (10, [], refl, refl, (refl, refl));
  fresh = λ e. inr (Evaluates.get 10 refl (Evaluates.ret refl));
  total = (10, Evaluates.get 10 refl (Evaluates.ret refl));
}

good_one : NodeGood echo_client history 1 Idle (stored unclean) 1 (revision_at 1, node_one)
good_one = record {
  same_fn = refl;
  started = 1;
  started_le = omega arith;
  verified_le = omega arith;
  trace = (refl, refl);
  fresh = λ e. inr (Evaluates.param (Evaluates.ret refl));
  total = (6, Evaluates.param (Evaluates.ret refl));
}

unclean-NodeGood :
    (id : DerivedNodeId) (e : DerivedNodeRevision × DerivedNode ℕ)
    → stored unclean id ≡ some e
    → NodeGood echo_client history 1 Idle (stored unclean) id e
unfolding stored new_with_capacity
unclean-NodeGood id e at = elim (Bool-cases (0 == id)) [
  | inl zero_id ↦
      subst
        (λ i. stored unclean i ≡ some e → NodeGood echo_client history 1 Idle (stored unclean) i e)
        ((==_iff 0 id).0 zero_id)
        (λ found.
          subst (λ x. NodeGood echo_client history 1 Idle (stored unclean) 0 x)
            (some_unique (revision_at 0, node_zero) e refl found) good_zero)
        at
  | inr other ↦ elim (Bool-cases (1 == id)) [
    | inl one_id ↦
        subst
          (λ i.
            stored unclean i ≡ some e → NodeGood echo_client history 1 Idle (stored unclean) i e)
          ((==_iff 1 id).0 one_id)
          (λ found.
            subst (λ x. NodeGood echo_client history 1 Idle (stored unclean) 1 x)
              (some_unique (revision_at 1, node_one) e refl found) good_one)
          at
    | inr neither ↦ absurd (ground (arith, at, other, neither))
  ]
]

unclean-params :
    (q : ParamId)
    → (get_param unclean q ≡ ok (some (echo_params q))) ⊎ (get_param unclean q ≡ ok none)
unfolding get_param
unclean-params q = elim (Bool-cases (40 == q)) [
  | inl first ↦
      inl
        (subst (λ i. get_param unclean i ≡ ok (some (echo_params i))) ((==_iff 40 q).0 first) refl)
  | inr other ↦ elim (Bool-cases (41 == q)) [
    | inl second ↦
        inl (
          subst (λ i. get_param unclean i ≡ ok (some (echo_params i))) ((==_iff 41 q).0 second)
            refl)
    | inr neither ↦ inr (ground (arith, other, neither))
  ]
]

unclean-Ready :
    (id : DerivedNodeId) (q : ParamId)
    → contains (echo_reads id) q ≡ true
    → get_param unclean q ≡ ok (some (echo_params q))
unfolding get_param
unclean-Ready zero q m = absurd cc
unclean-Ready (suc zero) q m =
    subst (λ i. get_param unclean i ≡ ok (some (echo_params i)))
      ((==_iff 40 q).0 (ground (arith, m))) refl
unclean-Ready (suc (suc n)) q m = absurd cc

unclean-IsValid : IsValid echo_client history 1 Idle unclean
unfolding new_with_capacity get_source_node stored
unclean-IsValid = record {
  epoch = refl;
  sources = loaded-IsValid.sources;
  source_table = loaded-IsValid.source_table;
  params = unclean-params;
  ready = λ id e h. unclean-Ready id;
  indices = λ id rev h. elim (Bool-cases (0 == id)) [
    | inl zero_id ↦ (node_zero, ground (arith, h, zero_id))
    | inr other ↦ (node_one, ground (arith, h, other))
  ];
  nodes = unclean-NodeGood;
}

-- Only the node 1 is retained: the node 0 and the parameter 41 go.
abbrev cleaned : DatabaseStorage ℕ
cleaned = record unclean {
  derived_node_id_to_revision = update (λ id. none) 1 (revision_at 0);
  derived_nodes = node_one ∷ [];
  params = 6 ∷ [];
  param_id_to_index = update (λ id. none) 40 0;
}

-- After the source 7 is set to 20, the node 0, which is stored, has a new value.
abbrev reset : Key → Option ℕ
reset = with_source (history 1) 7 (some 20)

unclean-StillTotal : StillTotal echo_client history 1 unclean reset
unclean-StillTotal zero e h = (20, Evaluates.get 20 refl (Evaluates.ret refl))
unclean-StillTotal (suc zero) e h = (6, Evaluates.param (Evaluates.ret refl))
unclean-StillTotal (suc (suc n)) e h = (6, call_one n (suc (suc n)))

set_source-IsValid_example : SourceWasSet echo_client history 1 unclean 7 20
set_source-IsValid_example =
    set_source-IsValid echo_client history 1 unclean 7 20 unclean-IsValid (omega arith)
      unclean-StillTotal

abbrev computed : Database ℕ
computed = record loaded { storage = unclean }

set_db-execute_example :
    (db1 : Database ℕ) × (next : Epoch) × (set_db same computed 7 20 ≡ ok db1)
    × Returns echo_client (put history 1 next 7 (some 20)) next 1 0 db1 20
unfolding new_with_capacity
set_db-execute_example =
    set_db-execute echo_client history 1 1 0 computed 7 20 20 refl unclean-IsValid (unclean-Ready 0)
      (omega arith) unclean-StillTotal (Evaluates.get 20 refl (Evaluates.ret refl)) (omega arith)

abbrev push_call : List DerivedNodeId → DerivedNodeId → List DerivedNodeId
push_call cache id = id ∷ cache

abbrev no_keys : (DerivedNodeId → Option ℕ) → List DerivedNodeId
no_keys counts = []

-- Node 0 was called last, and node 1 goes with its argument, the parameter 40.
abbrev used : Database ℕ
used = record loaded { storage = unclean; top_level_calls = 0 ∷ [] }

abbrev swept : Database ℕ
swept = record loaded {
  storage = record unclean {
    derived_node_id_to_revision = update (λ id. none) 0 (revision_at 0);
    derived_nodes = node_zero ∷ [];
    params = [];
    param_id_to_index = λ id. none;
  };
  top_level_call_lru_cache = 0 ∷ [];
}

abbrev no_history : Epoch → Key → Option ℕ
no_history t k = none

new_with_capacity-IsValid_example : IsValid echo_client no_history 1 Idle start.storage
new_with_capacity-IsValid_example = new_with_capacity-IsValid echo_client no_history (λ key. refl)
