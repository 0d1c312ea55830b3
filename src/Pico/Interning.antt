-- ===== src/Pico/Interning.antt =====
-- A database whose arguments are interned is as valid as before, and has them:
-- crates/pico/src/macro_fns.rs and crates/pico_macros/src/memo_macro.rs.
use isograph.Prelude.{
  Bool, true, Option, none, List, ◌≡◌, ◌⊎◌, sym, subst, inl, inr, Bool-cases, contains,
}
use isograph.Pico.State.{ok, Epoch, Key, ParamId, Index, DerivedNodeId, InnerFn, Database, Program}
use isograph.Pico.Storage.{get_param, get_source_node}
use isograph.Pico.Execute.{intern_params}
use isograph.Pico.Spec.{Client}
use isograph.Pico.Invariant.{stored, IsValid, Interned}
use isograph.Pico.Outcome.{Advances}
use isograph.Pico.Interned.{
  ids, with_params, AreNamed, intern_params-keeps, intern_params-holds, intern_params-other,
  intern_params-with_params,
}

module _ {V : Type 0} {dyn_eq : V → V → Bool} {code : InnerFn → DerivedNodeId → Program V}
    (c : Client dyn_eq code) (hist : Epoch → Key → Option V) (now : Epoch)
    (busy : DerivedNodeId → Type 0) (db : Database V)
    (valid : IsValid c hist now busy db.storage) where
  with_params-Advances :
      (params : List V) (index : ParamId → Option Index)
      → ((q : ParamId)
          → Interned c hist db.storage q
          → Interned c hist (with_params db params index).storage q)
      → ((q : ParamId)
          → Interned c hist (with_params db params index).storage q
            ⊎ (get_param (with_params db params index).storage q ≡ ok none))
      → Advances c hist now busy db (with_params db params index)
  unfolding stored get_source_node
  with_params-Advances params index keeps either = record {
    valid = record {
      epoch = valid.epoch;
      sources = valid.sources;
      source_table = valid.source_table;
      params = either;
      ready = λ id e h q m. keeps q (valid.ready id e h q m);
      indices = valid.indices;
      nodes = valid.nodes;
    };
    kept = λ id e h v. h;
    links = λ t id a le has link. link;
    interned = keeps;
  }

  module _ (arguments : List (ParamId × V)) (named : AreNamed c.param_value arguments) where
    either_after :
        (q : ParamId)
        → Interned c hist (intern_params db arguments).storage q
          ⊎ (get_param (intern_params db arguments).storage q ≡ ok none)
    either_after q = elim (valid.params q) [
      | inl held ↦ inl (intern_params-keeps arguments db q (c.param_value q) held)
      | inr free ↦ elim (Bool-cases (contains (ids arguments) q)) [
        | inl at ↦ inl (intern_params-holds c.param_value arguments db q named at free)
        | inr out ↦ inr (intern_params-other arguments db q out free)
      ]
    ]

    pub intern_params-Advances : Advances c hist now busy db (intern_params db arguments)
    intern_params-Advances =
        let (params, (index, e)) = intern_params-with_params arguments db in
        subst (λ d. Advances c hist now busy db d) (sym e)
          (with_params-Advances params index
            (λ q h.
              subst (λ d. Interned c hist d.storage q) e
                (intern_params-keeps arguments db q (c.param_value q) h))
            (λ q.
              subst (λ d. Interned c hist d.storage q ⊎ (get_param d.storage q ≡ ok none)) e
                (either_after q)))

    pub intern_params-Interned :
        (q : ParamId)
        → contains (ids arguments) q ≡ true
        → Interned c hist (intern_params db arguments).storage q
    intern_params-Interned q at = elim (valid.params q) [
      | inl held ↦ intern_params-keeps arguments db q (c.param_value q) held
      | inr free ↦ intern_params-holds c.param_value arguments db q named at free
    ]
