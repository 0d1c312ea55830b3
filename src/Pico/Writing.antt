-- ===== src/Pico/Writing.antt =====
-- Writing one node keeps the invariant (crates/pico/src/database.rs, `insert_derived_node` and
-- the revisions' map), if earlier readers of the node can go on relying on it.
use native.Mathlib.Nat.{le_trans}
use isograph.Prelude.{
  ◌≤◌, ◌≡◌, ◌≢◌, inl, inr, Bool, true, contains, Option, some, ◌==◌, Bool-cases, ==_iff, ne_of_==,
  ap, sym, subst, subst₂, ◌∙◌, some_unique, arith,
}
use isograph.Pico.State.{Epoch, Key, DerivedNodeId, InnerFn, DatabaseStorage, Program}
use isograph.Pico.Spec.{Client, Evaluates_unique}
use isograph.Pico.Invariant.{
  Entry, Table, stored, HasIndices, HasSources, SameInputs, HasValue, Link, NodeGood, IsValid,
  KeepsLinks, Ready, map_Trace,
}
use isograph.Pico.Outcome.{HoldsSince}

module _ {V : Type 0} where
  -- One entry of the table was written.
  abbrev pub Written : Table V → Table V → DerivedNodeId → Entry V → Type 0
  Written st st' id e = (st' id ≡ some e) × ((j : DerivedNodeId) → id ≢ j → st' j ≡ st j)

module _ {V : Type 0} {dyn_eq : V → V → Bool} {code : InnerFn → DerivedNodeId → Program V}
    (c : Client dyn_eq code) (hist : Epoch → Key → Option V) (now : Epoch) where
  -- Whoever relied on the old entry can rely on the new one.
  abbrev pub Relinks : Table V → DerivedNodeId → Entry V → Type 0
  Relinks st id e =
      (t : Epoch) (a : V)
      → t ≤ now
      → HasValue c hist t id a
      → Link c hist st t id a
      → e.0.time_updated ≤ t
      → e.1.value ≡ a

  pub Relinks-same :
      (st : Table V) (id : DerivedNodeId) (e0 e : Entry V)
      → st id ≡ some e0
      → e.0.time_updated ≡ e0.0.time_updated
      → e.1.value ≡ e0.1.value
      → Relinks st id e
  Relinks-same st id e0 e found u v t a le has link le' = v ∙ link e0 found (omega arith)

  pub Relinks-since :
      (st : Table V) (id : DerivedNodeId) (e : Entry V)
      → HoldsSince c hist now e.0.time_updated (code (c.fn_of id) id) e.1.value
      → Relinks st id e
  Relinks-since st id e since t a le has link le' = Evaluates_unique (since t le' le) has

  pub links-Written :
      (st st' : Table V) (id : DerivedNodeId) (e : Entry V)
      → Written st st' id e
      → Relinks st id e
      → KeepsLinks c hist now st st'
  links-Written st st' id e w relinks t j a le has link e1 found u = elim (Bool-cases (id == j)) [
    | inl same ↦
        let eq : j ≡ id = sym ((==_iff id j).0 same) in
        let old : e1 ≡ e = some_unique e1 e (subst (λ x. st' x ≡ some e1) eq found) w.0 in
        ap (λ x. x.1.value) old
        ∙ relinks t a le (subst (λ x. HasValue c hist t x a) eq has)
            (subst (λ x. Link c hist st t x a) eq link) (subst (λ x. x.0.time_updated ≤ t) old u)
    | inr other ↦ link e1 (sym (w.1 j (ne_of_== id j other)) ∙ found) u
  ]

  pub node_rebase :
      (busy busy' : DerivedNodeId → Type 0) (st st' : Table V) (j : DerivedNodeId) (e : Entry V)
      → KeepsLinks c hist now st st'
      → (busy j → busy' j)
      → NodeGood c hist now busy st j e
      → NodeGood c hist now busy' st' j e
  node_rebase busy busy' st st' j e links keep good = record {
    same_fn = good.same_fn;
    started = good.started;
    started_le = good.started_le;
    verified_le = good.verified_le;
    trace =
        map_Trace c hist (c.rank j)
          (λ id a has link.
            links good.started id a (le_trans good.started_le good.verified_le) has link)
          (code (c.fn_of j) j) e.1.dependencies e.1.value good.trace;
    fresh = λ v. elim (good.fresh v) [ inl b ↦ inl (keep b) | inr h ↦ inr h ];
    total = good.total;
  }

  pub Written-IsValid :
      (busy busy' : DerivedNodeId → Type 0) (s s' : DatabaseStorage V) (id : DerivedNodeId)
      (e : Entry V)
      → IsValid c hist now busy s
      → SameInputs s s'
      → HasIndices s'
      → Written (stored s) (stored s') id e
      → Relinks (stored s) id e
      → NodeGood c hist now busy' (stored s') id e
      → ((j : DerivedNodeId) → id ≢ j → busy j → busy' j)
      → Ready c hist s id
      → IsValid c hist now busy' s'
  Written-IsValid busy busy' s s' id e valid same indices w relinks good keep ready = record {
    epoch = same.epoch ∙ valid.epoch;
    sources = λ key.
        let (o, found, source_good) = valid.sources key in
        (o, same.sources key ∙ found, source_good);
    source_table =
        subst₂ (λ f l. HasSources f l) (sym same.index_of) (sym same.slots) valid.source_table;
    params = λ q. elim (valid.params q) [
      | inl h ↦ inl (same.params q ∙ h)
      | inr h ↦ inr (same.params q ∙ h)
    ];
    ready = λ j e1 found q m. same.params q ∙ elim (Bool-cases (id == j)) [
      | inl eq ↦ ready q (subst (λ x. contains (c.reads x) q ≡ true) (sym ((==_iff id j).0 eq)) m)
      | inr other ↦ valid.ready j e1 (sym (w.1 j (ne_of_== id j other)) ∙ found) q m
    ];
    indices = indices;
    nodes = λ j e1 found. elim (Bool-cases (id == j)) [
      | inl eq ↦
          let jd : id ≡ j = (==_iff id j).0 eq in
          let old : e ≡ e1 =
            some_unique e e1 w.0 (subst (λ x. stored s' x ≡ some e1) (sym jd) found) in
          subst (λ x. NodeGood c hist now busy' (stored s') x e1) jd
            (subst (λ x. NodeGood c hist now busy' (stored s') id x) old good)
      | inr other ↦
          let ne = ne_of_== id j other in
          node_rebase busy busy' (stored s) (stored s') j e1
            (links-Written (stored s) (stored s') id e w relinks) (keep j ne)
            (valid.nodes j e1 (sym (w.1 j ne) ∙ found))
    ];
  }
