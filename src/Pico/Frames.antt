-- ===== src/Pico/Frames.antt =====
-- How a call changes the dependency stack (crates/pico/src/dependency.rs): only the topmost
-- frame grows, and no call that is under way is entered again.
use mathlib.Core.List.{append_assoc, append-nil}
use native.Mathlib.Nat.{le_refl, le_trans}
use isograph.Prelude.{
  ℕ, suc, ◌<◌, ◌≤◌, ◌≡◌, List, [], ◌∷◌, ◌++◌, All, All-append, max, refl, sym, subst, arith,
}
use isograph.Pico.State.{
  ok, Epoch, Key, DerivedNodeId, InnerFn, NodeKind, Dependency, TrackedDependencies,
  DependencyStack, Program,
}
use isograph.Prelude.{Bool, Option}
use isograph.Pico.Stack.{push, push_if_not_empty, assert_no_cycles}
use isograph.Pico.Spec.{Client}
use isograph.Pico.Invariant.{IsExtra, dependency_on}

module _ {V : Type 0} {dyn_eq : V → V → Bool} {code : InnerFn → DerivedNodeId → Program V}
    (c : Client dyn_eq code) (hist : Epoch → Key → Option V) where
  -- The topmost frame has taken on dependencies of ranks below `r`, and nothing else changed.
  abbrev pub Extends : ℕ → Epoch → DependencyStack → DependencyStack → Type 0
  Extends r t [] s = s ≡ []
  Extends r t (f ∷ rest) s =
      (f' : TrackedDependencies) × (extra : List Dependency) × (s ≡ f' ∷ rest)
      × (f'.derived_node_id ≡ f.derived_node_id)
      × (f'.dependencies ≡ f.dependencies ++ extra)
      × All (IsExtra c hist r t) extra
      × (f.max_time_updated ≤ f'.max_time_updated)

  -- Every call under way has at least the rank `r`.
  abbrev pub Above : ℕ → DependencyStack → Type 0
  Above r = All (λ f. r ≤ c.rank f.derived_node_id)

  pub Extends-refl : (r : ℕ) (t : Epoch) (s : DependencyStack) → Extends r t s s
  Extends-refl r t [] = refl
  Extends-refl r t (f ∷ rest) = (f, [], refl, refl, sym (append-nil f.dependencies), tt, le_refl _)

  IsExtra-weaken :
      {r r' : ℕ} (t : Epoch)
      → r ≤ r'
      → (ds : List Dependency) → All (IsExtra c hist r t) ds
      → All (IsExtra c hist r' t) ds
  IsExtra-weaken t h [] x = tt
  IsExtra-weaken t h (d ∷ ds) ((id, e, lt), x) = ((id, e, le_trans lt h), IsExtra-weaken t h ds x)

  pub Extends-weaken :
      {r r' : ℕ} (t : Epoch)
      → r ≤ r'
      → (s s' : DependencyStack) → Extends r t s s'
      → Extends r' t s s'
  Extends-weaken t h [] s' e = e
  Extends-weaken t h (f ∷ rest) s' (f', extra, e, i, d, x, m) =
      (f', extra, e, i, d, IsExtra-weaken t h extra x, m)

  pub Extends-trans :
      (r : ℕ) (t : Epoch) (s s' s'' : DependencyStack)
      → Extends r t s s'
      → Extends r t s' s''
      → Extends r t s s''
  Extends-trans r t [] [] s'' a b = b
  Extends-trans r t [] (f ∷ rest) s'' a b = cc
  Extends-trans r t (f ∷ rest) [] s'' (f', extra, e, i, d, x, m) b = cc
  Extends-trans r t (f ∷ rest) (g ∷ rest') s'' (f', extra, e, i, d, x, m)
        (g', extra', e', i', d', x', m') =
      (
        g',
        extra ++ extra',
        ground arith,
        ground arith,
        ground (arith, append_assoc f.dependencies extra extra'),
        All-append (IsExtra c hist r t) extra extra' x x',
        ground arith,
      )

  -- A call's own dependency, pushed after those of its check.
  pub Extends-call :
      (r : ℕ) (t : Epoch) (id : DerivedNodeId) (time_updated : Epoch) (s m : DependencyStack)
      → c.rank id < r
      → Extends r t s m
      → Extends r t s (push_if_not_empty m (dependency_on (NodeKind.derived id) t) time_updated)
  unfolding push_if_not_empty push
  Extends-call r t id time_updated [] [] lt a = refl
  Extends-call r t id time_updated [] (f ∷ rest) lt a = cc
  Extends-call r t id time_updated (f ∷ rest) [] lt (f', extra, e, i, d, x, m) = cc
  Extends-call r t id time_updated (f ∷ rest) (g ∷ rest') lt (f', extra, e, i, d, x, m) = (
    record g {
      dependencies = g.dependencies ++ dependency_on (NodeKind.derived id) t ∷ [];
      max_time_updated = max time_updated g.max_time_updated;
    },
    extra ++ dependency_on (NodeKind.derived id) t ∷ [],
    ground arith,
    ground arith,
    ground (arith, append_assoc f.dependencies extra (dependency_on (NodeKind.derived id) t ∷ [])),
    All-append (IsExtra c hist r t) extra (dependency_on (NodeKind.derived id) t ∷ []) x
        ((id, refl, lt), tt),
    ground arith,
  )

  pub Above-weaken : {r r' : ℕ} → r ≤ r' → (s : DependencyStack) → Above r' s → Above r s
  Above-weaken h [] a = tt
  Above-weaken h (f ∷ rest) (a, b) = (le_trans h a, Above-weaken h rest b)

  pub Above-Extends :
      (r r' : ℕ) (t : Epoch) (s s' : DependencyStack) → Above r s → Extends r' t s s' → Above r s'
  Above-Extends r r' t [] [] a e = tt
  Above-Extends r r' t [] (g ∷ rest') a e = cc
  Above-Extends r r' t (f ∷ rest) [] a (f', extra, e, i, d, x, m) = cc
  Above-Extends r r' t (f ∷ rest) (g ∷ rest') (a, b) (f', extra, e, i, d, x, m) =
      let same : rest ≡ rest' = ground arith in (ground arith, subst (Above r) same b)

  pub no_cycle :
      (id : DerivedNodeId) (s : DependencyStack)
      → Above (suc (c.rank id)) s
      → assert_no_cycles s id ≡ ok tt
  unfolding assert_no_cycles
  no_cycle id [] a = refl
  no_cycle id (f ∷ rest) (a, b) = ground (arith, no_cycle id rest b)
