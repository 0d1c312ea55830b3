-- ===== src/Pico/Interned.antt =====
-- The interning of a call's arguments: crates/pico/src/macro_fns.rs, as
-- crates/pico_macros/src/memo_macro.rs uses it.
use isograph.Prelude.{
  ◌==◌, ◌||◌, ==_iff, ==_refl, true, false, if_true, if_false, Option, none, some, List, [], ◌∷◌,
  ◌++◌, length, contains, All, get_elem?, get_elem?-append, get_elem?-append_length, ◌≡◌, ◌≢◌, refl,
  sym, ap, ◌∙◌, subst, inl, inr, arith, Bool-cases, Option-cases,
}
use isograph.Pico.State.{ok, ParamId, Index, DatabaseStorage, Database, update}
use isograph.Pico.Storage.{get_param, intern_param}
use isograph.Pico.Execute.{intern_params}

none-some : {A : Type 0} {x : A} → none ≢ some x
none-some h = cc

module _ {V : Type 0} where
  abbrev pub ids : List (ParamId × V) → List ParamId
  ids [] = []
  ids ((id, value) ∷ arguments) = id ∷ ids arguments

  abbrev pub with_params : Database V → List V → (ParamId → Option Index) → Database V
  with_params db params index = record db {
    storage = record db.storage { params = params; param_id_to_index = index };
  }

  intern_new :
      (db : Database V) (id : ParamId) (b : V)
      → db.storage.param_id_to_index id ≡ none
      → (intern_param (λ _. id) db b).1
        ≡ with_params db
            (db.storage.params ++ b ∷ [])
            (update db.storage.param_id_to_index id (length db.storage.params))
  unfolding intern_param
  intern_new db id b e = rw (e, intern_param) refl

  intern_old :
      (db : Database V) (id : ParamId) (b : V) (index : Index)
      → db.storage.param_id_to_index id ≡ some index
      → (intern_param (λ _. id) db b).1 ≡ db
  unfolding intern_param
  intern_old db id b index e = rw (e, intern_param) refl

  get_param-at :
      (s : DatabaseStorage V) (q : ParamId) (index : Index) (a : V)
      → s.param_id_to_index q ≡ some index
      → get_elem? s.params index ≡ some a
      → get_param s q ≡ ok (some a)
  unfolding get_param
  get_param-at s q index a at held = rw (at, held, get_param) refl

  pub get_param-free :
      (s : DatabaseStorage V) (q : ParamId) → s.param_id_to_index q ≡ none → get_param s q ≡ ok none
  unfolding get_param
  get_param-free s q free = rw (free, get_param) refl

  get_param-some :
      (s : DatabaseStorage V) (q : ParamId) (a : V)
      → get_param s q ≡ ok (some a)
      → (index : Index) × ((s.param_id_to_index q ≡ some index)
          × (get_elem? s.params index ≡ some a))
  unfolding get_param
  get_param-some s q a h = elim (Option-cases (s.param_id_to_index q)) [
    | inl e ↦ absurd (ground (arith, h, e))
    | inr (index, e) ↦ elim (Option-cases (get_elem? s.params index)) [
      | inl lost ↦ absurd (ground (arith, h, e, lost))
      | inr (b, held) ↦ (index, (e, ground (arith, h, e, held)))
    ]
  ]

  get_param-none :
      (s : DatabaseStorage V) (q : ParamId) → get_param s q ≡ ok none → s.param_id_to_index q ≡ none
  unfolding get_param
  get_param-none s q h = elim (Option-cases (s.param_id_to_index q)) [
    | inl e ↦ e
    | inr (index, e) ↦ elim (Option-cases (get_elem? s.params index)) [
      | inl lost ↦ absurd (ground (arith, h, e, lost))
      | inr (b, held) ↦ absurd (ground (arith, h, e, held))
    ]
  ]

  -- What is interned stays interned, with its value.
  intern_param-keeps :
      (db : Database V) (id q : ParamId) (b a : V)
      → get_param db.storage q ≡ ok (some a)
      → get_param (intern_param (λ _. id) db b).1.storage q ≡ ok (some a)
  intern_param-keeps db id q b a held = elim (Option-cases (db.storage.param_id_to_index id)) [
    | inr (index, e) ↦
        subst (λ d. get_param d.storage q ≡ ok (some a)) (sym (intern_old db id b index e)) held
    | inl e ↦
        let (index, (at, there)) = get_param-some db.storage q a held in
        let other : (id == q) ≡ false = elim (Bool-cases (id == q)) [
          | inl same ↦ absurd (
              none-some (
                sym (subst (λ i. db.storage.param_id_to_index i ≡ none) ((==_iff id q).0 same) e)
                ∙ at))
          | inr ne ↦ ne
        ] in
        subst (λ d. get_param d.storage q ≡ ok (some a)) (sym (intern_new db id b e))
          (get_param-at _ q index a (if_false _ _ other ∙ at)
            (get_elem?-append db.storage.params (b ∷ []) index there))
  ]

  intern_param-holds :
      (db : Database V) (q : ParamId) (b : V)
      → get_param db.storage q ≡ ok none
      → get_param (intern_param (λ _. q) db b).1.storage q ≡ ok (some b)
  intern_param-holds db q b free =
      subst (λ d. get_param d.storage q ≡ ok (some b))
        (sym (intern_new db q b (get_param-none db.storage q free)))
        (get_param-at _ q (length db.storage.params) b (if_true _ _ (==_refl q))
          (get_elem?-append_length db.storage.params b))

  intern_param-other :
      (db : Database V) (id q : ParamId) (b : V)
      → (id == q) ≡ false
      → get_param db.storage q ≡ ok none
      → get_param (intern_param (λ _. id) db b).1.storage q ≡ ok none
  intern_param-other db id q b other free = elim (Option-cases (db.storage.param_id_to_index id)) [
    | inr (index, e) ↦
        subst (λ d. get_param d.storage q ≡ ok none) (sym (intern_old db id b index e)) free
    | inl e ↦
        subst (λ d. get_param d.storage q ≡ ok none) (sym (intern_new db id b e))
          (get_param-free _ q (if_false _ _ other ∙ get_param-none db.storage q free))
  ]

  pub intern_params-keeps :
      (arguments : List (ParamId × V)) (db : Database V) (q : ParamId) (a : V)
      → get_param db.storage q ≡ ok (some a)
      → get_param (intern_params db arguments).storage q ≡ ok (some a)
  unfolding intern_params
  intern_params-keeps [] db q a held = held
  intern_params-keeps ((id, b) ∷ arguments) db q a held =
      intern_params-keeps arguments (intern_param (λ _. id) db b).1 q a
        (intern_param-keeps db id q b a held)

  -- The value that each id stands for.
  abbrev pub AreNamed : (ParamId → V) → List (ParamId × V) → Type 0
  AreNamed value arguments = All (λ x. x.1 ≡ value x.0) arguments

  -- An argument that was free is interned with its value.
  pub intern_params-holds :
      (value : ParamId → V) (arguments : List (ParamId × V)) (db : Database V) (q : ParamId)
      → AreNamed value arguments
      → contains (ids arguments) q ≡ true
      → get_param db.storage q ≡ ok none
      → get_param (intern_params db arguments).storage q ≡ ok (some (value q))
  unfolding intern_params
  intern_params-holds value [] db q named at free = cc
  intern_params-holds value ((id, b) ∷ arguments) db q named at free = elim (Bool-cases (id == q)) [
    | inl same ↦ intern_params-keeps arguments (intern_param (λ _. id) db b).1 q (value q) (
        subst
          (λ i.
            (b ≡ value i)
            → get_param db.storage i ≡ ok none
            → get_param (intern_param (λ _. id) db b).1.storage i ≡ ok (some (value i)))
          ((==_iff id q).0 same)
          (λ named_id free_id. intern_param-holds db id b free_id ∙ ap (λ x. ok (some x)) named_id)
          (subst (λ i. b ≡ value i) ((==_iff id q).0 same) named.0) free)
    | inr other ↦
        intern_params-holds value arguments (intern_param (λ _. id) db b).1 q named.1
          (subst (λ t. t || contains (ids arguments) q ≡ true) other at)
          (intern_param-other db id q b other free)
  ]

  -- What is not among the arguments stays free.
  pub intern_params-other :
      (arguments : List (ParamId × V)) (db : Database V) (q : ParamId)
      → contains (ids arguments) q ≡ false
      → get_param db.storage q ≡ ok none
      → get_param (intern_params db arguments).storage q ≡ ok none
  unfolding intern_params
  intern_params-other [] db q out free = free
  intern_params-other ((id, b) ∷ arguments) db q out free = elim (Bool-cases (id == q)) [
    | inl same ↦ absurd (ground (arith, out, same))
    | inr other ↦
        intern_params-other arguments (intern_param (λ _. id) db b).1 q
          (subst (λ t. t || contains (ids arguments) q ≡ false) other out)
          (intern_param-other db id q b other free)
  ]

  -- Only the parameters' tables change.
  pub intern_params-with_params :
      (arguments : List (ParamId × V)) (db : Database V)
      → (params : List V) × ((index : ParamId → Option Index) × (intern_params db arguments
            ≡ with_params db params index))
  unfolding intern_params
  intern_params-with_params [] db = (db.storage.params, (db.storage.param_id_to_index, refl))
  intern_params-with_params ((id, b) ∷ arguments) db =
      let (ps, (ix, e)) = intern_params-with_params arguments (intern_param (λ _. id) db b).1 in
      elim (Option-cases (db.storage.param_id_to_index id)) [
        | inr (index, old) ↦
            (ps, (ix, e ∙ ap (λ d. with_params d ps ix) (intern_old db id b index old)))
        | inl new ↦ (ps, (ix, e ∙ ap (λ d. with_params d ps ix) (intern_new db id b new)))
      ]

  pub intern_params-dependency_stack :
      (arguments : List (ParamId × V)) (db : Database V)
      → (intern_params db arguments).dependency_stack ≡ db.dependency_stack
  intern_params-dependency_stack arguments db =
      ap (λ d. d.dependency_stack) (intern_params-with_params arguments db).1.1
