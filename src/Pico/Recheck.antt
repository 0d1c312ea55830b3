-- ===== src/Pico/Recheck.antt =====
-- A check that finds no change is right: the stored value is the value now
-- (crates/pico/src/execute_memoized_function.rs, `any_dependency_changed`).
use isograph.Prelude.{
  ℕ, ◌<◌, ◌≤◌, ◌≡◌, inl, inr, Bool, false, Option, List, [], ◌∷◌, ◌++◌, All, ltb, ltb→le,
  Bool-cases, refl, sym, subst, ◌∙◌, some_unique, arith,
}
use isograph.Pico.State.{
  Epoch, Key, ParamId, DerivedNodeId, InnerFn, NodeKind, Dependency, Database, Program,
}
use isograph.Pico.Execute.{Exec, any_dependency_changed}
use isograph.Pico.Spec.{
  Evaluates, Client, IsStratified, get_inv, memo_inv, param_inv, intern_inv, ret_inv,
  Evaluates_unique,
}
use isograph.Pico.Invariant.{stored, dependency_on, Link, IsExtra, Trace, IsValid, map_Trace}
use isograph.Pico.Frames.{Above, Extends-refl, Above-Extends}
use isograph.Pico.Outcome.{Advances, Succeeds, Advances-trans}
use isograph.Pico.Body.{source_present}
use isograph.Pico.Check.{
  NodeChecked, Checked, check_node, Checked-stop, Checked-go, Checked-source_stop,
  Checked-source_go, Advances-refl,
}

module _ {V : Type 0} {dyn_eq : V → V → Bool} {code : InnerFn → DerivedNodeId → Program V}
    (c : Client dyn_eq code) (hist : Epoch → Key → Option V) (now : Epoch) (r : ℕ) (since : Epoch)
    (exec : Exec V) (busy : DerivedNodeId → Type 0) (ih : Succeeds c hist now r exec)
    (outer : (j : DerivedNodeId) → busy j → r ≤ c.rank j) (earlier : since < now) where
  -- The check of a node at the head of the list, and of what follows if it did not change.
  check_head :
      (db : Database V) (id : DerivedNodeId) (tail : List Dependency) (v0 v : V)
      → c.rank id < r
      → Above c hist r db.dependency_stack
      → IsValid c hist now busy db.storage
      → ((n : NodeChecked c hist now r since exec busy db id)
          → n.changed ≡ false
          → Checked c hist now r since exec busy n.after tail v0 v)
      → Checked c hist now r since exec busy db
          (dependency_on (NodeKind.derived id) since ∷ tail)
          v0
          v
  check_head db id tail v0 v lt high valid later =
      let n = check_node c hist now r since exec busy ih outer db id lt high valid in
      elim (Bool-cases n.changed) [
        | inl stop ↦
            Checked-stop c hist now r since exec busy db id tail v0 v earlier valid.epoch n stop
        | inr go ↦
            Checked-go c hist now r since exec busy db id tail v0 v earlier valid.epoch n go
              (later n go)
      ]

  check_extras :
      (extra tail : List Dependency) (v0 v : V) (db : Database V)
      → All (IsExtra c hist r since) extra
      → Above c hist r db.dependency_stack
      → IsValid c hist now busy db.storage
      → ((db' : Database V)
          → Advances c hist now busy db db'
          → Above c hist r db'.dependency_stack
          → Checked c hist now r since exec busy db' tail v0 v)
      → Checked c hist now r since exec busy db (extra ++ tail) v0 v
  check_extras [] tail v0 v db x high valid later =
      later db (Advances-refl c hist now db valid) high
  check_extras (d ∷ extra) tail v0 v db ((id, e, lt), x) high valid later =
      subst (λ y. Checked c hist now r since exec busy db (y ∷ (extra ++ tail)) v0 v) (sym e)
        (check_head db id (extra ++ tail) v0 v lt high valid (λ n go.
          check_extras extra tail v0 v n.after x
            (Above-Extends c hist r r now db.dependency_stack n.after.dependency_stack high n.stack)
            n.advances.valid
            (λ db' adv high'.
              later db' (Advances-trans c hist now db n.after db' n.advances adv) high')))

  pub check_succeeds :
      (known : List ParamId) (p : Program V) (ds : List Dependency) (v0 v : V) (db : Database V)
      → Trace c hist (Link c hist (stored db.storage) since) since r p ds v0
      → Evaluates code c.param_value (hist now) p v
      → IsStratified c.rank c.fn_of c.reads c.param_value r known p
      → Above c hist r db.dependency_stack
      → IsValid c hist now busy db.storage
      → Checked c hist now r since exec busy db ds v0 v
  unfolding any_dependency_changed
  check_succeeds known (Program.ret o) ds v0 v db (h, e) now_e fit high valid =
      subst (λ x. Checked c hist now r since exec busy db x v0 v) (sym e)
        (record {
          changed = false;
          after = db;
          result = refl;
          stack = Extends-refl c hist r now db.dependency_stack;
          advances = Advances-refl c hist now db valid;
          unchanged = λ _. some_unique v0 v h (ret_inv now_e);
        })
  check_succeeds known (Program.param id k) ds v0 v db trace now_e fit high valid =
      check_succeeds known (k (c.param_value id)) ds v0 v db trace (param_inv now_e)
        (fit.1 (c.param_value id)) high valid
  check_succeeds known (Program.intern id b p) ds v0 v db trace now_e fit high valid =
      check_succeeds (id ∷ known) p ds v0 v db trace (intern_inv now_e) fit.1 high valid
  check_succeeds known (Program.get key k) ds v0 v db (a, rest, has, e, trace) now_e fit high
        valid =
      let (a', has', now_k) = get_inv now_e in
      let (node, found, same, good) = source_present c hist now busy db key a' valid has' in
      subst (λ x. Checked c hist now r since exec busy db x v0 v) (sym e)
        (elim (Bool-cases (ltb since node.time_updated)) [
          | inl newer ↦
              Checked-source_stop c hist now r since exec busy db key node rest v0 v earlier valid
                found newer
          | inr older ↦
              let eq : a' ≡ a =
                some_unique a' a (good since (ltb→le _ _ older) (omega (arith, earlier))) has in
              Checked-source_go c hist now r since exec busy db key node rest v0 v earlier valid
                found older
                (check_succeeds known (k a) rest v0 v db trace
                  (subst (λ x. Evaluates code c.param_value (hist now) (k x) v) eq now_k) (fit a)
                  high valid)
        ])
  check_succeeds known (Program.memo id fn k) ds v0 v db (a, extra, rest, x, e, has, link, trace)
        now_e fit high valid =
      let (a', call, now_k) = memo_inv now_e in
      let le : since ≤ now = omega (arith, earlier) in
      subst (λ y. Checked c hist now r since exec busy db y v0 v) (sym e)
        (check_extras extra (dependency_on (NodeKind.derived id) since ∷ rest) v0 v db x high valid
          (λ db' adv high'. check_head db' id rest v0 v fit.0 high' adv.valid (λ n go.
            let (old, b, found, u, has_b, value) = n.unchanged go in
            let was : old.1.value ≡ a = adv.links since id a le has link old found u in
            let is : a' ≡ b =
              Evaluates_unique
                (subst (λ f. Evaluates code c.param_value (hist now) (code f id) a') fit.1 call)
                has_b in
            let eq : a' ≡ a = is ∙ sym value ∙ was in
            check_succeeds known (k a) rest v0 v n.after
              (map_Trace c hist r
                (λ j b' has' link'.
                  n.advances.links since j b' le has' (adv.links since j b' le has' link'))
                (k a) rest v0 trace)
              (subst (λ y. Evaluates code c.param_value (hist now) (k y) v) eq now_k) (fit.2 a)
              (Above-Extends c hist r r now db'.dependency_stack n.after.dependency_stack high'
                n.stack)
              n.advances.valid)))
  check_succeeds known (Program.deref id k) ds v0 v db trace now_e fit high valid = absurd fit
