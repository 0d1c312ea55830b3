-- ===== src/Pico/Body.antt =====
-- A memoized function's body runs to its value: `run` of the model, that is the closure which
-- crates/pico_macros/src/memo_macro.rs builds, over the operations of crates/pico/src/database.rs.
use mathlib.Core.List.{append_assoc, append-nil}
use native.Mathlib.Nat.{le_refl, le_trans}
use isograph.Prelude.{
  ℕ, suc, ◌≤◌, ◌≡◌, Bool, Option, none, some, List, [], ◌∷◌, ◌++◌, max, refl, All, true, contains,
  ◌||◌, ◌==◌, Bool-cases, inl, inr, sym, subst, ◌∙◌, ap, some_unique, arith,
}
use isograph.Pico.State.{
  ok, Epoch, Key, ParamId, DerivedNodeId, InnerFn, NodeKind, Dependency, SourceNode,
  TrackedDependencies, DependencyStack, Database, Program,
}
use isograph.Pico.Stack.{push, push_if_not_empty}
use isograph.Pico.Storage
use isograph.Pico.Storage.{get_source_node, get_param, register_dependency_in_parent_memoized_fn}
use isograph.Pico.Execute.{Exec, run, intern_params}
use isograph.Pico.Spec.{
  Evaluates, Client, IsStratified, get_inv, memo_inv, param_inv, intern_inv, ret_inv,
}
use isograph.Pico.Invariant.{
  IsExtra, stored, dependency_on, HasValue, IsValid, SourceGood, Interned,
}
use isograph.Pico.Frames.{Extends, Above, Above-weaken, Extends-weaken}
use isograph.Pico.Outcome.{IsFresh, Advances, Outcome, Succeeds, Ran, Advances-trans, IsFresh-kept}
use isograph.Pico.Tables.{get_derived_node_found}
use isograph.Pico.Interned.{intern_params-dependency_stack}
use isograph.Pico.Interning.{intern_params-Advances, intern_params-Interned}

module _ {V : Type 0} {dyn_eq : V → V → Bool} {code : InnerFn → DerivedNodeId → Program V}
    (c : Client dyn_eq code) (hist : Epoch → Key → Option V) (now : Epoch) where
  -- A source that the specification reads is present, with that value since its time.
  pub source_present :
      (busy : DerivedNodeId → Type 0) (db : Database V) (key : Key) (a : V)
      → IsValid c hist now busy db.storage
      → hist now key ≡ some a
      → (node : SourceNode V) × (get_source_node db.storage key ≡ ok (some node))
        × (node.value ≡ a)
        × ((t : Epoch) → node.time_updated ≤ t → t ≤ now → hist t key ≡ some a)
  source_present busy db key a valid has =
      go (valid.sources key).0 (valid.sources key).1 (valid.sources key).2
    where
      go :
          (o : Option (SourceNode V))
          → get_source_node db.storage key ≡ ok o
          → SourceGood c hist now key o
          → (node : SourceNode V) × (get_source_node db.storage key ≡ ok (some node))
            × (node.value ≡ a)
            × ((t : Epoch) → node.time_updated ≤ t → t ≤ now → hist t key ≡ some a)
      go none e good = cc
      go (some node) e (le, good) =
          let same : node.value ≡ a = some_unique _ _ (good now le (le_refl now)) has in
          (node, e, same, λ t u n. good t u n ∙ ap some same)

  read_source :
      (db : Database V) (key : Key) (node : SourceNode V) (frame : TrackedDependencies)
      (rest : DependencyStack)
      → get_source_node db.storage key ≡ ok (some node)
      → db.dependency_stack ≡ frame ∷ rest
      → db.storage.current_epoch ≡ now
      → Storage.get db key
        ≡ ok (
          node.value,
          record db {
            dependency_stack =
                push frame (dependency_on (NodeKind.source key) now) node.time_updated ∷ rest;
          },
        )
  unfolding Storage.get register_dependency_in_parent_memoized_fn push_if_not_empty
  read_source db key node frame rest found stack epoch = ground arith

  pub deref_fresh :
      (db : Database V) (id : DerivedNodeId) (a : V)
      → IsFresh c hist now (stored db.storage) id a
      → Storage.deref db id ≡ ok a
  unfolding Storage.deref
  deref_fresh db id a (e, found, verified, value) =
      ground (arith, get_derived_node_found db.storage id e found)

  -- The caller's frame after a call: what the call's check left behind, then the call itself.
  abbrev CallFrame :
      ℕ → DerivedNodeId → Epoch → TrackedDependencies → DependencyStack → DependencyStack → Type 0
  CallFrame r id time_updated frame rest stack =
      (f : TrackedDependencies) × (extra : List Dependency) × (stack ≡ f ∷ rest)
      × (f.derived_node_id ≡ frame.derived_node_id)
      × (f.dependencies
          ≡ frame.dependencies ++ (extra ++ (dependency_on (NodeKind.derived id) now ∷ [])))
      × All (IsExtra c hist r now) extra
      × (frame.max_time_updated ≤ f.max_time_updated)
      × (time_updated ≤ f.max_time_updated)

  call_frame :
      (r : ℕ) (id : DerivedNodeId) (time_updated : Epoch) (frame : TrackedDependencies)
      (rest before middle stack : DependencyStack)
      → before ≡ frame ∷ rest
      → Extends c hist r now before middle
      → stack ≡ push_if_not_empty middle (dependency_on (NodeKind.derived id) now) time_updated
      → CallFrame r id time_updated frame rest stack
  unfolding push_if_not_empty push
  call_frame r id u frame rest [] middle stack b x e = cc
  call_frame r id u frame rest (g ∷ others) [] stack b (f', extra, s, i, d, all, m) e = cc
  call_frame r id u frame rest (g ∷ others) (h ∷ others') stack b (f', extra, s, i, d, all, m) e = (
    record h {
      dependencies = h.dependencies ++ dependency_on (NodeKind.derived id) now ∷ [];
      max_time_updated = max u h.max_time_updated;
    },
    extra,
    ground arith,
    ground arith,
    ground
        (arith, append_assoc g.dependencies extra (dependency_on (NodeKind.derived id) now ∷ [])),
    all,
    ground arith,
    ground arith,
  )

  run-get :
      (exec : Exec V) (busy : DerivedNodeId → Type 0) (r : ℕ) (key : Key) (k : V → Program V)
      (db : Database V) (frame : TrackedDependencies) (rest : DependencyStack) (node : SourceNode V)
      (v : V)
      → IsValid c hist now busy db.storage
      → get_source_node db.storage key ≡ ok (some node)
      → ((t : Epoch) → node.time_updated ≤ t → t ≤ now → hist t key ≡ some node.value)
      → hist now key ≡ some node.value
      → db.dependency_stack ≡ frame ∷ rest
      → let frame1 = push frame (dependency_on (NodeKind.source key) now) node.time_updated in
        Ran c hist now exec busy r
          (k node.value)
          (record db { dependency_stack = frame1 ∷ rest })
          frame1
          rest
          v
        → Ran c hist now exec busy r (Program.get key k) db frame rest v
  unfolding run push
  run-get exec busy r key k db frame rest node v valid found good has stack ran = record {
    after = ran.after;
    frame_after = ran.frame_after;
    reads = dependency_on (NodeKind.source key) now ∷ ran.reads;
    result = ground (arith, read_source db key node frame rest found stack valid.epoch, ran.result);
    stack = ran.stack;
    recorded =
        ran.recorded
        ∙ append_assoc frame.dependencies (dependency_on (NodeKind.source key) now ∷ []) ran.reads;
    max_le = omega (arith, ran.max_le);
    advances = record {
      valid = ran.advances.valid;
      kept = ran.advances.kept;
      links = ran.advances.links;
      interned = ran.advances.interned;
    };
    trace = (node.value, ran.reads, has, refl, ran.trace);
    since =
        λ t u n. Evaluates.get node.value (good t (omega (arith, ran.max_le)) n) (ran.since t u n);
  }

  run-memo :
      (exec : Exec V) (busy : DerivedNodeId → Type 0) (r : ℕ) (id : DerivedNodeId)
      (k : V → Program V) (db : Database V) (frame : TrackedDependencies) (rest : DependencyStack)
      (a v : V)
      → HasValue c hist now id a
      → (called : Outcome c hist now exec busy id db a)
      → (f : CallFrame r id called.time_updated frame rest called.after.dependency_stack)
      → Ran c hist now exec busy r (k a) called.after f.0 rest v
      → Ran c hist now exec busy r (Program.memo id (c.fn_of id) k) db frame rest v
  unfolding run
  run-memo exec busy r id k db frame rest a v has called f ran = record {
    after = ran.after;
    frame_after = ran.frame_after;
    reads = f.1 ++ (dependency_on (NodeKind.derived id) now ∷ ran.reads);
    result = ground (arith, called.result, deref_fresh called.after id a called.fresh, ran.result);
    stack = ran.stack;
    recorded = ground (
      arith,
      ran.recorded,
      append_assoc f.1 (dependency_on (NodeKind.derived id) now ∷ []) ran.reads,
      append_assoc frame.dependencies (f.1 ++ (dependency_on (NodeKind.derived id) now ∷ []))
          ran.reads,
    );
    max_le = omega (arith, ran.max_le, f.6);
    advances = Advances-trans c hist now db called.after ran.after called.advances ran.advances;
    trace = (
      a,
      f.1,
      ran.reads,
      f.5,
      refl,
      has,
      IsFresh-kept c hist now (stored called.after.storage) (stored ran.after.storage)
          ran.advances.kept id a called.fresh,
      ran.trace,
    );
    since = λ t u n.
        Evaluates.memo a (called.since t (omega (arith, ran.max_le, f.7)) n) (ran.since t u n);
  }

  -- The database after one argument is interned.
  abbrev after_intern : Database V → ParamId → V → Database V
  after_intern db id b = intern_params db ((id, b) ∷ [])

  run-intern :
      (exec : Exec V) (busy : DerivedNodeId → Type 0) (r : ℕ) (id : ParamId) (b : V) (p : Program V)
      (db : Database V) (frame : TrackedDependencies) (rest : DependencyStack) (v : V)
      → Advances c hist now busy db (after_intern db id b)
      → Ran c hist now exec busy r p (after_intern db id b) frame rest v
      → Ran c hist now exec busy r (Program.intern id b p) db frame rest v
  unfolding run intern_params
  run-intern exec busy r id b p db frame rest v advances ran = record {
    after = ran.after;
    frame_after = ran.frame_after;
    reads = ran.reads;
    result = ran.result;
    stack = ran.stack;
    recorded = ran.recorded;
    max_le = ran.max_le;
    advances = Advances-trans c hist now db (after_intern db id b) ran.after advances ran.advances;
    trace = ran.trace;
    since = λ t u n. Evaluates.intern (ran.since t u n);
  }

  -- The parameters that a body may read are interned.
  abbrev pub Knows : List ParamId → Database V → Type 0
  Knows known db = (q : ParamId) → contains known q ≡ true → Interned c hist db.storage q

  Knows-intern :
      (busy : DerivedNodeId → Type 0) (id : ParamId) (b : V) (known : List ParamId)
      (db : Database V)
      → IsValid c hist now busy db.storage
      → b ≡ c.param_value id
      → Knows known db
      → Knows (id ∷ known) (after_intern db id b)
  Knows-intern busy id b known db valid named knows q at = elim (Bool-cases (id == q)) [
    | inl same ↦
        intern_params-Interned c hist now busy db valid ((id, b) ∷ []) (named, tt) q
          (ground (arith, same))
    | inr other ↦
        (intern_params-Advances c hist now busy db valid ((id, b) ∷ []) (named, tt)).interned q
          (knows q (subst (λ t. t || contains known q ≡ true) other at))
  ]

  -- By induction on the body: where the specification gives it a value, so does the run.
  pub run-Succeeds :
      (exec : Exec V) (busy : DerivedNodeId → Type 0) (r : ℕ)
      → Succeeds c hist now r exec
      → ((j : DerivedNodeId) → busy j → r ≤ c.rank j)
      → (known : List ParamId) (p : Program V) (db : Database V) (frame : TrackedDependencies)
        (rest : DependencyStack) (v : V)
      → db.dependency_stack ≡ frame ∷ rest
      → Above c hist r (frame ∷ rest)
      → IsValid c hist now busy db.storage
      → Knows known db
      → IsStratified c.rank c.fn_of c.reads c.param_value r known p
      → Evaluates code c.param_value (hist now) p v
      → Ran c hist now exec busy r p db frame rest v
  unfolding run push
  run-Succeeds exec busy r ih above known (Program.ret o) db frame rest v stack high valid knows fit
        e =
      record {
        after = db;
        frame_after = frame;
        reads = [];
        result = ground (arith, ret_inv e);
        stack = stack;
        recorded = sym (append-nil frame.dependencies);
        max_le = le_refl _;
        advances = record {
          valid = valid;
          kept = λ id n h w. h;
          links = λ t id w le has link. link;
          interned = λ q h. h;
        };
        trace = (ret_inv e, refl);
        since = λ t u n. Evaluates.ret (ret_inv e);
      }
  run-Succeeds exec busy r ih above known (Program.param id k) db frame rest v stack high valid
        knows fit e =
      let found = knows id fit.0 in
      let ran =
        run-Succeeds exec busy r ih above known (k (c.param_value id)) db frame rest v stack high
          valid knows (fit.1 (c.param_value id)) (param_inv e) in
      record {
        after = ran.after;
        frame_after = ran.frame_after;
        reads = ran.reads;
        result = ground (arith, found, ran.result);
        stack = ran.stack;
        recorded = ran.recorded;
        max_le = ran.max_le;
        advances = ran.advances;
        trace = ran.trace;
        since = λ t u n. Evaluates.param (ran.since t u n);
      }
  run-Succeeds exec busy r ih above known (Program.intern id b p) db frame rest v stack high valid
        knows fit e =
      let advances = intern_params-Advances c hist now busy db valid ((id, b) ∷ []) (fit.0, tt) in
      run-intern exec busy r id b p db frame rest v advances (
        run-Succeeds exec busy r ih above (id ∷ known) p (after_intern db id b) frame rest v
          (intern_params-dependency_stack ((id, b) ∷ []) db ∙ stack) high advances.valid
          (Knows-intern busy id b known db valid fit.0 knows) fit.1 (intern_inv e))
  run-Succeeds exec busy r ih above known (Program.get key k) db frame rest v stack high valid knows
        fit e =
      let (a, has, e1) = get_inv e in
      let (node, found, same, good) = source_present busy db key a valid has in
      let back : a ≡ node.value = sym same in
      run-get exec busy r key k db frame rest node v valid found
        (λ t u n. good t u n ∙ ap some back) (has ∙ ap some back) stack
        (run-Succeeds exec busy r ih above known (k node.value) _ _ rest v refl high valid knows
          (fit node.value) (subst (λ x. Evaluates code c.param_value (hist now) (k x) v) back e1))
  run-Succeeds exec busy r ih above known (Program.memo id fn k) db frame rest v stack high valid
        knows fit e =
      let (a, call, e1) = memo_inv e in
      let has = subst (λ f. Evaluates code c.param_value (hist now) (code f id) a) fit.1 call in
      let called =
        ih busy id db a fit.0 (λ j b. le_trans fit.0 (above j b))
          (subst (Above c hist (suc (c.rank id))) (sym stack)
            (Above-weaken c hist fit.0 (frame ∷ rest) high))
          valid (λ q m. knows q (fit.3 q m)) has in
      let f =
        call_frame r id called.time_updated frame rest db.dependency_stack called.middle
          called.after.dependency_stack stack
          (Extends-weaken c hist now (omega (arith, fit.0)) db.dependency_stack called.middle
            called.checked)
          called.registered in
      rw (fit.1) (
        run-memo exec busy r id k db frame rest a v has called f (
          run-Succeeds exec busy r ih above known (k a) called.after f.0 rest v f.2
            (subst (λ x. r ≤ c.rank x) (sym f.3) high.0, high.1) called.advances.valid
            (λ q m. called.advances.interned q (knows q m)) (fit.2 a) e1))
  run-Succeeds exec busy r ih above known (Program.deref id k) db frame rest v stack high valid
        knows fit e =
      absurd fit
