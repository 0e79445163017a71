-- ===== src/Reload/Known.antt =====
-- What the second loop of a reload knows of the ids, and what a step makes of it.
use svlopp.Prelude.{
  ℕ, ◌<◌, ◌≤◌, ◌==◌, ◌≡◌, ◌≢◌, refl, sym, ap, ◌∙◌, subst, inl, inr, true, Option, none, some, ◌∷◌,
  arith, nat_eq, list_eq, Text, ok, Option-cases, Bool-cases, nat_beq_iff,
}
use svlopp.Prelude.Maps.{Map, get, contains_key, contains_key-cons_self}
use svlopp.Os.{Os, SigSet, History}
use svlopp.Service.Config.{ServiceConfig}
use svlopp.Service.Methods.{Service, ServiceIdGen}
use svlopp.Registry.Defs.{ServiceRegistry, service}
use svlopp.Reload.{change_one, apply_config}
use svlopp.Reload.Outcome.{IsAsConfigured, Leaves, change_one-Leaves, add_new-Leaves}

-- A service has the name and the configuration.
abbrev pub IsThere : Map ℕ Service → Text → ServiceConfig → Type 0
IsThere m name cfg = (k : ℕ) × (s : Service) × (get k m ≡ some s) × IsAsConfigured name cfg s

-- The ids that the reload found: each was given, and is that of a service of the name, which is
-- still there where the name is configured.
pub record AreKnown (ids : Map Text ℕ) (configs : Map Text ServiceConfig) (next : ℕ)
    (m : Map ℕ Service) : Type 0 where
  pub given : (x : Text) (k : ℕ) → get x ids ≡ some k → k < next
  pub named : (x : Text) (k : ℕ) (s : Service) → get x ids ≡ some k → get k m ≡ some s → s.name ≡ x
  pub present :
      (x : Text) (k : ℕ)
      → get x ids ≡ some k
      → contains_key x configs ≡ true
      → (s : Service) × (get k m ≡ some s)

abbrev entry_name_or : Text → Option Service → Text
entry_name_or x none = x
entry_name_or x (some s) = s.name

-- The id that a step writes to: that of the name, or the next one.
abbrev pub Writes : Option ℕ → ℕ → ℕ → Type 0
Writes none next k = k ≡ next
Writes (some j) next k = k ≡ j

module _ (os : Os) (sigset : SigSet) (ids : Map Text ℕ) (name : Text) (cfg : ServiceConfig)
    (registry : ServiceRegistry) (next : ServiceIdGen) (h : History) where
  pub apply_config-Leaves :
      (o : Option ℕ)
      → ((k : ℕ) → o ≡ some k → (s : Service) × (service k registry ≡ some s) × (s.name ≡ name))
      → (apply_config os sigset name cfg o registry next h).0 ≡ ok tt
      → (k : ℕ) × Writes o next k
        × Leaves k name cfg registry.services_map
            (apply_config os sigset name cfg o registry next h).1.services_map
  unfolding apply_config
  apply_config-Leaves none f e = (next, refl, add_new-Leaves os sigset name cfg registry h next e)
  apply_config-Leaves (some k) f e =
      let (s, here, n) = f k refl in
      (
        k,
        refl,
        subst
            (λ o.
              Leaves k name cfg registry.services_map
                (change_one os sigset cfg k o registry h).1.services_map)
            (sym here)
            (change_one-Leaves os sigset name cfg registry h k s here n
              (ap (λ o. (change_one os sigset cfg k o registry h).0) (sym here) ∙ e)),
      )

module _ (ids : Map Text ℕ) (name : Text) (cfg : ServiceConfig) (next : ℕ) (m m' : Map ℕ Service)
    (k : ℕ) (writes : Writes (get name ids) next k) (leaves : Leaves k name cfg m m')
    (unused : get next m ≡ none) (configs : Map Text ServiceConfig)
    (known : AreKnown ids ((name, cfg) ∷ configs) next m) where
  -- A service of another name is not under the id that is written to.
  other_name : (j : ℕ) (s : Service) → get j m ≡ some s → s.name ≢ name → j ≢ k
  other_name j s here n same = elim (Option-cases (get name ids)) [
    | inl e ↦
        let w : Writes none next k = subst (λ o. Writes o next k) e writes in
        ground (arith, ap (λ i. get i m) (same ∙ w))
    | inr (i, e) ↦
        let w : Writes (some i) next k = subst (λ o. Writes o next k) e writes in
        n (known.named name i s e (ap (λ i. get i m) (sym (same ∙ w)) ∙ here))
  ]

  pub Leaves-IsThere : (x : Text) (c : ServiceConfig) → x ≢ name → IsThere m x c → IsThere m' x c
  Leaves-IsThere x c n (j, s, here, (is_named, config)) = (
    j,
    s,
    leaves.others j (other_name j s here (λ e. n (sym is_named ∙ e))) ∙ here,
    (is_named, config),
  )

  -- An id that was given to another name is not written to.
  pub Leaves-keeps : (j : ℕ) → j < next → get name ids ≢ some j → get j m' ≡ get j m
  Leaves-keeps j lt ne = leaves.others j (λ same. elim (Option-cases (get name ids)) [
    | inl e ↦
        let w : Writes none next k = subst (λ o. Writes o next k) e writes in
        ground (arith, same, w, lt)
    | inr (i, e) ↦
        let w : Writes (some i) next k = subst (λ o. Writes o next k) e writes in
        ne (e ∙ ap some (sym (same ∙ w)))
  ])

  step-named :
      (x : Text) (j : ℕ) (s : Service) → get x ids ≡ some j → get j m' ≡ some s → s.name ≡ x
  step-named x j s e here = elim (Bool-cases (j == k)) [
    | inr p ↦ known.named x j s e (sym (leaves.others j (ground (arith, nat_beq_iff j k))) ∙ here)
    | inl p ↦
        let same : j ≡ k = (nat_beq_iff j k).0 p in
        let (s', there, (is_named, _)) = leaves.there in
        elim (Option-cases (get name ids)) [
          | inl q ↦
              let w : Writes none next k = subst (λ o. Writes o next k) q writes in
              absurd (omega (arith, known.given x j e))
          | inr (i, q) ↦
              let w : Writes (some i) next k = subst (λ o. Writes o next k) q writes in
              let (s0, was) = known.present name i q (contains_key-cons_self name cfg configs) in
              let first : s0.name ≡ x = known.named x j s0 e (ap (λ i. get i m) (same ∙ w) ∙ was) in
              let second : s0.name ≡ name = known.named name i s0 q was in
              let equal : some s ≡ some s' = sym here ∙ ap (λ i. get i m') same ∙ there in
              ap (entry_name_or name) equal ∙ is_named ∙ sym second ∙ first
        ]
  ]

  step-present :
      (x : Text) (j : ℕ)
      → get x ids ≡ some j
      → contains_key x configs ≡ true
      → (s : Service) × (get j m' ≡ some s)
  unfolding contains_key
  step-present x j e inside = elim (Bool-cases (j == k)) [
    | inl p ↦
        let (s', there, _) = leaves.there in
        (s', ap (λ i. get i m') ((nat_beq_iff j k).0 p) ∙ there)
    | inr p ↦
        let (s, was) = known.present x j e (ground (arith, inside)) in
        (s, leaves.others j (ground (arith, nat_beq_iff j k)) ∙ was)
  ]

  pub AreKnown-step : (next' : ℕ) → next ≤ next' → AreKnown ids configs next' m'
  AreKnown-step next' le = record {
    given = λ x j e. omega (arith, known.given x j e);
    named = step-named;
    present = step-present;
  }
