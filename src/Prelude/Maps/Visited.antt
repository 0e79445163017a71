-- ===== src/Prelude/Maps/Visited.antt =====
-- What the loop leaves under one key: what its turn made of the entry, and nothing where there was
-- none.
use svlopp.Prelude.Tests.{Bool-cases}
use svlopp.Prelude.Equality.{Eq, ◌==◌}
use svlopp.Prelude.Maps.{Map, get, Distinct, contains_key-get}
use svlopp.Prelude.Maps.Loop.{retain_with, keep}
use mathlib.Core.Path.{◌≡◌, refl, sym, subst, ap₂, ◌∙◌}
use mathlib.Core.Bool.{false}
use mathlib.Core.Logic.{inl, inr}
use mathlib.Core.Option.{Option, none, some}
use mathlib.Core.List.{[], ◌∷◌}
use native.Mathlib.Omega.{arith}

module _ {ℓ κ ι} {K : Type ℓ} {V : Type κ} {S : Type ι} ⦃e : Eq K⦄
    (f : K → V → S → Option V × S) where
  get-keep_other :
      (j k : K) (o : Option V) (m : Map K V) → (j == k) ≡ false → get k (keep j o m) ≡ get k m
  unfolding get
  get-keep_other j k none m n = refl
  get-keep_other j k (some v) m n = rw n refl

  get-keep_self : (k : K) (o : Option V) (m : Map K V) → get k m ≡ none → get k (keep k o m) ≡ o
  unfolding get
  get-keep_self k none m n = n
  get-keep_self k (some v) m n = rw ((e.beq_iff k k).1 refl)

  pub retain_with-absent :
      (m : Map K V) (s : S) (k : K) → get k m ≡ none → get k (retain_with f m s).0 ≡ none
  unfolding retain_with get
  retain_with-absent [] s k h = refl
  retain_with-absent ((j, w) ∷ m) s k h =
      let other : (j == k) ≡ false = ground (arith, h) in
      rw (get-keep_other j k (f j w s).0 (retain_with f m (f j w s).1).0 other)
        (retain_with-absent m (f j w s).1 k (rw other at h))

  -- The turn saw a state that every turn before it kept.
  pub retain_with-get {ρ} :
      (P : S → Type ρ)
      → ((k : K) (v : V) (s : S) → P s → P (f k v s).1)
      → (m : Map K V) (s : S) (k : K) (v : V) → Distinct m
      → get k m ≡ some v
      → P s
      → (s' : S) × P s' × (get k (retain_with f m s).0 ≡ (f k v s').0)
  unfolding retain_with get
  retain_with-get P kept [] s k v d h h_s = ground arith
  retain_with-get P kept ((j, w) ∷ m) s k v d h h_s = elim (Bool-cases (j == k)) [
    | inl p ↦
        let same : j ≡ k = (e.beq_iff j k).0 p in
        let value : w ≡ v = ground (arith, h, p) in
        let gone : get k m ≡ none = subst (λ i. get i m ≡ none) same (contains_key-get j m d.0) in
        (
          s,
          h_s,
          subst (λ i. get k (keep i (f j w s).0 (retain_with f m (f j w s).1).0) ≡ (f k v s).0)
              (sym same)
              (get-keep_self k (f j w s).0 _ (retain_with-absent m (f j w s).1 k gone)
                ∙ ap₂ (λ i u. (f i u s).0) same value),
        )
    | inr p ↦
        let (s', h_s', q) =
          retain_with-get P kept m (f j w s).1 k v d.1 (rw p at h) (kept j w s h_s) in
        (s', h_s', get-keep_other j k (f j w s).0 (retain_with f m (f j w s).1).0 p ∙ q)
  ]
