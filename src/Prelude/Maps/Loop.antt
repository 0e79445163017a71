-- ===== src/Prelude/Maps/Loop.antt =====
-- `HashMap::retain`, `iter_mut` and `values_mut` as one loop that threads a state, and its rule.
use svlopp.Prelude.Tests.{if◌then◌else◌}
use svlopp.Prelude.Equality.{Eq, ◌==◌}
use svlopp.Prelude.Maps.{Map, get, contains_key, Distinct, contains_key-get}
use mathlib.Core.Path.{◌≡◌, refl, sym, subst}
use mathlib.Core.Bool.{false}
use mathlib.Core.Option.{Option, none, some}
use mathlib.Core.List.{[], ◌∷◌, ◌++◌, append_assoc}
use native.Mathlib.Omega.{arith}

-- The entry that the closure leaves, in front of the others; `none` drops it.
abbrev pub keep {ℓ κ} : {K : Type ℓ} {V : Type κ} → K → Option V → Map K V → Map K V
keep k none m = m
keep k (some v) m = (k, v) ∷ m

unfoldable pub retain_with {ℓ κ ι} :
    {K : Type ℓ} {V : Type κ} {S : Type ι} → (K → V → S → Option V × S) → Map K V → S → Map K V × S
retain_with f [] s = ([], s)
retain_with f ((k, v) ∷ m) s =
    let (o, s') = f k v s in let (m', s'') = retain_with f m s' in (keep k o m', s'')

-- The entries in front of the turn, with the one that the turn left.
abbrev push {ℓ κ} : {K : Type ℓ} {V : Type κ} → Map K V → K → Option V → Map K V
push done k none = done
push done k (some v) = done ++ (k, v) ∷ []

push-append {ℓ κ} :
    {K : Type ℓ} {V : Type κ} (done m : Map K V) (k : K) (o : Option V)
    → push done k o ++ m ≡ done ++ keep k o m
push-append done m k none = refl
push-append done m k (some v) = append_assoc done ((k, v) ∷ []) m

module _ {ℓ κ} {K : Type ℓ} {V : Type κ} ⦃e : Eq K⦄ where
  -- `m'` is `m` with the entry of `k` replaced by `o`.
  abbrev pub Changed : K → Option V → Map K V → Map K V → Type (ℓ ⊔ κ)
  Changed k o m m' = (j : K) → get j m' ≡ (if k == j then o else get j m)

  contains_key-middle :
      (j : K) (done m : Map K V) (k : K) (v : V)
      → contains_key j (done ++ (k, v) ∷ m) ≡ false
      → ((k == j) ≡ false) × (contains_key j done ≡ false) × (contains_key j m ≡ false)
  unfolding contains_key
  contains_key-middle j [] m k v h = ground arith
  contains_key-middle j ((i, w) ∷ done) m k v h = ground (arith, contains_key-middle j done m k v)

  contains_key-keep :
      (j : K) (done m : Map K V) (k : K) (v : V) (o : Option V)
      → contains_key j (done ++ (k, v) ∷ m) ≡ false
      → contains_key j (done ++ keep k o m) ≡ false
  unfolding contains_key
  contains_key-keep j [] m k v none h = ground arith
  contains_key-keep j [] m k v (some v') h = ground arith
  contains_key-keep j ((i, w) ∷ done) m k v o h = ground (arith, contains_key-keep j done m k v o)

  get-split :
      (done m : Map K V) (k : K) (v : V)
      → Distinct (done ++ (k, v) ∷ m)
      → (get k (done ++ (k, v) ∷ m) ≡ some v) × (contains_key k m ≡ false)
  unfolding get
  get-split [] m k v d = ground (arith, e.beq_iff k k)
  get-split ((j, w) ∷ done) m k v d =
      ground (
        arith,
        contains_key-middle j done m k v,
        e.beq_iff j k,
        e.beq_iff k j,
        get-split done m k v,
      )

  pub Distinct-keep :
      (done m : Map K V) (k : K) (v : V) (o : Option V)
      → Distinct (done ++ (k, v) ∷ m)
      → Distinct (done ++ keep k o m)
  Distinct-keep [] m k v none d = d.1
  Distinct-keep [] m k v (some v') d = d
  Distinct-keep ((j, w) ∷ done) m k v o d =
      (contains_key-keep j done m k v o d.0, Distinct-keep done m k v o d.1)

  keep-Changed :
      (done m : Map K V) (k : K) (v : V) (o : Option V)
      → Distinct (done ++ (k, v) ∷ m)
      → Changed k o (done ++ (k, v) ∷ m) (done ++ keep k o m)
  unfolding get
  keep-Changed [] m k v none d j = ground (arith, e.beq_iff k j, contains_key-get k m)
  keep-Changed [] m k v (some v') d j = ground arith
  keep-Changed ((i, w) ∷ done) m k v o d j = ground (
    arith,
    contains_key-middle i done m k v,
    e.beq_iff i j,
    e.beq_iff k j,
    e.beq_iff k i,
    keep-Changed done m k v o d.1 j,
  )

-- All services that a map holds.
abbrev pub AllValues {ℓ κ ρ} : {K : Type ℓ} {V : Type κ} → (V → Type ρ) → Map K V → Type ρ
AllValues Q [] = Unit
AllValues Q ((k, v) ∷ m) = Q v × AllValues Q m

-- The rule of the loop: what each turn of the closure keeps of the whole map and the state, the
-- loop keeps, if the statement depends on the map through `get` alone. A turn may use what holds
-- of every value before the loop.
module _ {ℓ κ ι ρ θ} {K : Type ℓ} {V : Type κ} {S : Type ι} ⦃e : Eq K⦄ (P : Map K V → S → Type ρ)
    (Q : V → Type θ) (f : K → V → S → Option V × S)
    (turn : (m m' : Map K V) (k : K) (v : V) (s : S)
      → P m s
      → Q v
      → get k m ≡ some v
      → Changed k (f k v s).0 m m'
      → P m' (f k v s).1) where
  retain_from_inv :
      (done m : Map K V) (s : S)
      → AllValues Q m
      → Distinct (done ++ m)
      → P (done ++ m) s
      → Distinct (done ++ (retain_with f m s).0)
        × P (done ++ (retain_with f m s).0) (retain_with f m s).1
  unfolding retain_with
  retain_from_inv done [] s q d h = (d, h)
  retain_from_inv done ((k, v) ∷ m) s q d h =
      let (o, s') = f k v s in
      let rest = (retain_with f m s').0 in
      let end = (retain_with f m s').1 in
      subst (λ l. Distinct l × P l end) (push-append done rest k o)
        (retain_from_inv (push done k o) m s' q.1
          (subst (λ l. Distinct l) (sym (push-append done m k o)) (Distinct-keep done m k v o d))
          (subst (λ l. P l s') (sym (push-append done m k o))
            (turn _ _ k v s h q.0 (get-split done m k v d).0 (keep-Changed done m k v o d))))

  pub retain_with_all :
      (m : Map K V) (s : S)
      → AllValues Q m
      → Distinct m
      → P m s
      → Distinct (retain_with f m s).0 × P (retain_with f m s).0 (retain_with f m s).1
  retain_with_all m s q d h = retain_from_inv [] m s q d h

AllValues-any {ℓ κ} : {K : Type ℓ} {V : Type κ} (m : Map K V) → AllValues (λ _. Unit {0}) m
AllValues-any [] = tt
AllValues-any ((k, v) ∷ m) = (tt, AllValues-any m)

module _ {ℓ κ ι ρ} {K : Type ℓ} {V : Type κ} {S : Type ι} ⦃e : Eq K⦄ (P : Map K V → S → Type ρ)
    (f : K → V → S → Option V × S)
    (turn : (m m' : Map K V) (k : K) (v : V) (s : S)
      → P m s
      → get k m ≡ some v
      → Changed k (f k v s).0 m m'
      → P m' (f k v s).1) where
  pub retain_with_inv :
      (m : Map K V) (s : S)
      → Distinct m
      → P m s
      → Distinct (retain_with f m s).0 × P (retain_with f m s).0 (retain_with f m s).1
  retain_with_inv m s d h =
      retain_with_all P (λ _. Unit {0}) f (λ m m' k v s p q here c. turn m m' k v s p here c) m s
        (AllValues-any m) d h

-- What each turn keeps of the state alone.
pub retain_with_state {ℓ κ ι ρ} :
    {K : Type ℓ} {V : Type κ} {S : Type ι} (P : S → Type ρ) (f : K → V → S → Option V × S)
    → ((k : K) (v : V) (s : S) → P s → P (f k v s).1)
    → (m : Map K V) (s : S) → P s
    → P (retain_with f m s).1
unfolding retain_with
retain_with_state P f turn [] s p = p
retain_with_state P f turn ((k, v) ∷ m) s p =
    retain_with_state P f turn m (f k v s).1 (turn k v s p)
