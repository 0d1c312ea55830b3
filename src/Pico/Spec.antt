-- ===== src/Pico/Spec.antt =====
-- What crates/pico promises, said without the database: the value that a memoized function has
-- when everything is computed from the sources, and what the engine asks of its clients.
use isograph.Prelude.{
  ℕ, ◌<◌, ◌≡◌, Bool, true, Option, some, List, ◌∷◌, contains, sym, subst, some_unique,
}
use isograph.Pico.State.{Key, ParamId, DerivedNodeId, InnerFn, Program}

module _ {V : Type 0} (code : InnerFn → DerivedNodeId → Program V) (param_value : ParamId → V) where
  -- The value of a program over the sources of one moment, with every call computed anew.
  pub data Evaluates (sources : Key → Option V) : Program V → V → Type 0 where
    ret : {o : Option V} {v : V} → o ≡ some v → Evaluates sources (Program.ret o) v
    param :
        {id : ParamId} {k : V → Program V} {v : V}
        → Evaluates sources (k (param_value id)) v
        → Evaluates sources (Program.param id k) v
    get :
        {key : Key} {k : V → Program V} {v : V} (a : V)
        → sources key ≡ some a
        → Evaluates sources (k a) v
        → Evaluates sources (Program.get key k) v
    intern :
        {id : ParamId} {a v : V} {p : Program V}
        → Evaluates sources p v
        → Evaluates sources (Program.intern id a p) v
    memo :
        {id : DerivedNodeId} {fn : InnerFn} {k : V → Program V} {v : V} (a : V)
        → Evaluates sources (code fn id) a
        → Evaluates sources (k a) v
        → Evaluates sources (Program.memo id fn k) v

module _ {V : Type 0} (rank : DerivedNodeId → ℕ) (fn_of : DerivedNodeId → InnerFn)
    (reads : DerivedNodeId → List ParamId) (param_value : ParamId → V) where
  -- Every call goes to a smaller rank, names the one function that the node's id stands for, and comes
  -- after its arguments were interned; every parameter read is one of the node's own or was interned
  -- before, and no `MemoRef` is read that came as an argument.
  abbrev pub IsStratified : ℕ → List ParamId → Program V → Type 0
  IsStratified r known (Program.ret o) = Unit
  IsStratified r known (Program.param id k) =
      (contains known id ≡ true) × ((v : V) → IsStratified r known (k v))
  IsStratified r known (Program.get key k) = (v : V) → IsStratified r known (k v)
  IsStratified r known (Program.intern id a p) =
      (a ≡ param_value id) × IsStratified r (id ∷ known) p
  IsStratified r known (Program.memo id fn k) =
      (rank id < r)
      × (fn ≡ fn_of id)
      × ((v : V) → IsStratified r known (k v))
      × ((q : ParamId) → contains (reads id) q ≡ true → contains known q ≡ true)
  IsStratified r known (Program.deref id k) = ⊥

-- What the engine asks of the memoized functions and of their values' `Eq`.
pub record Client {V : Type 0} (dyn_eq : V → V → Bool) (code : InnerFn → DerivedNodeId → Program V)
    : Type 0 where
  pub rank : DerivedNodeId → ℕ
  pub fn_of : DerivedNodeId → InnerFn
  pub reads : DerivedNodeId → List ParamId
  pub param_value : ParamId → V
  pub stratified :
      (id : DerivedNodeId)
      → IsStratified rank fn_of reads param_value (rank id) (reads id) (code (fn_of id) id)
  pub dyn_eq_sound : (a b : V) → dyn_eq a b ≡ true → a ≡ b

module _ {V : Type 0} {code : InnerFn → DerivedNodeId → Program V} {param_value : ParamId → V}
    {sources : Key → Option V} where
  pub get_inv :
      {key : Key} {k : V → Program V} {v : V}
      → Evaluates code param_value sources (Program.get key k) v
      → (a : V) × (sources key ≡ some a) × Evaluates code param_value sources (k a) v
  get_inv (Evaluates.get a h e) = (a, h, e)

  pub memo_inv :
      {id : DerivedNodeId} {fn : InnerFn} {k : V → Program V} {v : V}
      → Evaluates code param_value sources (Program.memo id fn k) v
      → (a : V) × Evaluates code param_value sources (code fn id) a
        × Evaluates code param_value sources (k a) v
  memo_inv (Evaluates.memo a call e) = (a, call, e)

  pub param_inv :
      {id : ParamId} {k : V → Program V} {v : V}
      → Evaluates code param_value sources (Program.param id k) v
      → Evaluates code param_value sources (k (param_value id)) v
  param_inv (Evaluates.param e) = e

  pub intern_inv :
      {id : ParamId} {a v : V} {p : Program V}
      → Evaluates code param_value sources (Program.intern id a p) v
      → Evaluates code param_value sources p v
  intern_inv (Evaluates.intern e) = e

  pub ret_inv :
      {o : Option V} {v : V} → Evaluates code param_value sources (Program.ret o) v → o ≡ some v
  ret_inv (Evaluates.ret h) = h

  -- A program has at most one value.
  pub Evaluates_unique :
      {p : Program V} {a b : V}
      → Evaluates code param_value sources p a
      → Evaluates code param_value sources p b
      → a ≡ b
  Evaluates_unique (Evaluates.ret h) d = some_unique _ _ h (ret_inv d)
  Evaluates_unique (Evaluates.param e) d = Evaluates_unique e (param_inv d)
  Evaluates_unique (Evaluates.intern e) d = Evaluates_unique e (intern_inv d)
  Evaluates_unique {b} (Evaluates.get {k} a h e) d =
      let (a', h', e') = get_inv d in
      Evaluates_unique e
        (subst (λ x. Evaluates code param_value sources (k x) b) (some_unique a' a h' h) e')
  Evaluates_unique {b} (Evaluates.memo {k} a c e) d =
      let (a', c', e') = memo_inv d in
      Evaluates_unique e
        (subst (λ x. Evaluates code param_value sources (k x) b) (sym (Evaluates_unique c c')) e')
