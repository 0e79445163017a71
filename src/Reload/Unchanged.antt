-- ===== src/Reload/Unchanged.antt =====
-- A reload of a configuration in which nothing has changed.
use svlopp.Prelude.{
  ℕ, ◌≡◌, refl, ap, sym, ◌∙◌, true, Bool-cases, Option, some, Option-cases, inl, inr, [], ◌∷◌,
  arith, nat_eq, list_eq, Text, All, ok, Eq, ◌==◌,
}
use mathlib.Core.Path.{subst₂}
use svlopp.Prelude.Maps.{Map, get, insert, contains_key, Distinct, contains_key-get}
use svlopp.Os.{Os, SigSet, History, config_read}
use svlopp.Service.ConfigFile.{from_config_file}
use svlopp.Service.Config.{ServiceConfig, config_beq}
use svlopp.Service.Methods.{Service, ServiceIdGen}
use svlopp.Registry.Defs.{ServiceRegistry, service}
use svlopp.Registry.Invariant.{IsConsistent}
use svlopp.Reload.{
  ids_from, service_ids, remove_missing, with_gen, and_reload, change_one, apply_config,
  apply_configs, reload_with, reload_services,
}
use svlopp.Reload.Names.{service_ids-none, entry_name}

-- What holds of all keys with their values.
abbrev pub AllEntries {ℓ κ ρ} : {K : Type ℓ} {V : Type κ} → (K → V → Type ρ) → Map K V → Type ρ
AllEntries Q m = All (λ e. Q e.0 e.1) m

module _ {ℓ κ ρ} {K : Type ℓ} {V : Type κ} ⦃e : Eq K⦄ (Q : K → V → Type ρ) where
  pub get-AllEntries :
      (m : Map K V) → Distinct m → ((k : K) (v : V) → get k m ≡ some v → Q k v) → AllEntries Q m
  unfolding get contains_key
  get-AllEntries [] d f = tt
  get-AllEntries ((k, v) ∷ m) d f = (
    f k v (ground (arith, e.beq_iff k k)),
    get-AllEntries m d.1 (λ j w q. f j w (ground (arith, e.beq_iff k j, contains_key-get k m))),
  )

  pub AllEntries-get : (m : Map K V) → AllEntries Q m → (k : K) (v : V) → get k m ≡ some v → Q k v
  unfolding get
  AllEntries-get [] a k v q = ground arith
  AllEntries-get ((j, w) ∷ m) a k v q = elim (Bool-cases (j == k)) [
    | inl p ↦ subst₂ Q ((e.beq_iff j k).0 p) (ground arith) a.0
    | inr p ↦ AllEntries-get m a.1 k v (rw p at q)
  ]

  insert-AllEntries :
      (k : K) (v : V) (m : Map K V) → Q k v → AllEntries Q m → AllEntries Q (insert k v m)
  unfolding insert
  insert-AllEntries k v [] q a = (q, tt)
  insert-AllEntries k v ((j, w) ∷ m) q a = ground (arith, insert-AllEntries k v m q a.1)

ids_from-AllEntries {ρ} :
    (Q : Text → ℕ → Type ρ) (m : Map ℕ Service) (ids : Map Text ℕ)
    → AllEntries (λ k s. Q s.name s.id) m
    → AllEntries Q ids
    → AllEntries Q (ids_from m ids)
unfolding ids_from
ids_from-AllEntries Q [] ids a b = b
ids_from-AllEntries Q ((k, s) ∷ m) ids a b =
    ids_from-AllEntries Q m (insert s.name s.id ids) a.1 (insert-AllEntries Q s.name s.id ids a.0 b)

-- What holds of the name and the id of every service holds of every entry of `service_ids`.
pub service_ids-AllEntries {ρ} :
    (Q : Text → ℕ → Type ρ) (registry : ServiceRegistry)
    → Distinct registry.services_map
    → ((k : ℕ) (s : Service) → service k registry ≡ some s → Q s.name s.id)
    → AllEntries Q (service_ids registry)
unfolding service_ids
service_ids-AllEntries Q registry d f =
    ids_from-AllEntries Q registry.services_map [] (get-AllEntries _ registry.services_map d f) tt

-- Each service is configured.
abbrev pub IsConfigured : ServiceRegistry → Map Text ServiceConfig → Type 0
IsConfigured registry configs =
    (k : ℕ) (s : Service) → service k registry ≡ some s → contains_key s.name configs ≡ true

-- Each configured service is there, and its configuration is equal.
abbrev pub IsUpToDate : ServiceRegistry → Map Text ServiceConfig → Type 0
IsUpToDate registry configs =
    (name : Text) (cfg : ServiceConfig)
    → get name configs ≡ some cfg
    → (k : ℕ) × (s : Service) × (service k registry ≡ some s)
      × (s.name ≡ name)
      × (config_beq s.config cfg ≡ true)

module _ (os : Os) (sigset : SigSet) (registry : ServiceRegistry) (next : ServiceIdGen)
    (h : History) where
  remove_missing-same :
      (configs : Map Text ServiceConfig) (ids : Map Text ℕ)
      → AllEntries (λ name k. contains_key name configs ≡ true) ids
      → remove_missing os configs ids registry h ≡ (ok tt, registry, h)
  unfolding remove_missing
  remove_missing-same configs [] a = refl
  remove_missing-same configs ((name, k) ∷ ids) a = rw a.0 (remove_missing-same configs ids a.1)

  change_one-same :
      (cfg : ServiceConfig) (k : ℕ) (s : Service)
      → service k registry ≡ some s
      → config_beq s.config cfg ≡ true
      → change_one os sigset cfg k (service k registry) registry h ≡ (ok tt, registry, h)
  unfolding change_one
  change_one-same cfg k s here same = rw (here, same) refl

  apply_config-same :
      (h' : History) (name : Text) (cfg : ServiceConfig) (k j : ℕ) (s t : Service) (o : Option ℕ)
      → IsConsistent registry next h'
      → service k registry ≡ some s
      → s.name ≡ name
      → config_beq s.config cfg ≡ true
      → o ≡ some j
      → service j registry ≡ some t
      → t.name ≡ name
      → apply_config os sigset name cfg o registry next h ≡ (ok tt, registry, next, h)
  unfolding apply_config
  apply_config-same h' name cfg k j s t o c here n same o_is there m = rw o_is (
      ap (with_gen next) (
        change_one-same cfg j s
          (ap (λ i. service i registry) (c.inv.named j k t s there here (m ∙ sym n)) ∙ here) same))

-- The id of a name is that of a service with the name.
abbrev pub Knows : ServiceRegistry → Text → ℕ → Type 0
Knows registry name k = (s : Service) × (service k registry ≡ some s) × (s.name ≡ name)

pub service_ids-Knows :
    (registry : ServiceRegistry) (next : ServiceIdGen) (h : History) (name : Text) (k : ℕ)
    → IsConsistent registry next h
    → get name (service_ids registry) ≡ some k
    → Knows registry name k
service_ids-Knows registry next h name k c e =
    AllEntries-get (Knows registry) (service_ids registry)
      (service_ids-AllEntries (Knows registry) registry c.distinct
        (λ j s q. (s, ap (λ i. service i registry) (c.inv.keyed j s q).0 ∙ q, refl)))
      name k e

module _ (os : Os) (sigset : SigSet) (registry : ServiceRegistry) (next : ServiceIdGen)
    (h h' : History) (c : IsConsistent registry next h') where
  apply_configs-same :
      (configs : Map Text ServiceConfig)
      → AllEntries
          (λ name cfg.
            (k : ℕ) × (s : Service) × (service k registry ≡ some s)
            × (s.name ≡ name)
            × (config_beq s.config cfg ≡ true))
          configs
      → apply_configs os sigset (service_ids registry) configs registry next h
        ≡ (ok tt, registry, next, h)
  unfolding apply_configs
  apply_configs-same [] a = refl
  apply_configs-same ((name, cfg) ∷ configs) ((k, s, here, n, same), a) =
      elim (Option-cases (get name (service_ids registry))) [
        | inl q ↦ absurd (service_ids-none registry name q k (ap entry_name here ∙ ap some n))
        | inr (j, q) ↦
            let (t, there, m) = service_ids-Knows registry next h' name j c q in
            ap (λ out. and_reload out (apply_configs os sigset (service_ids registry) configs))
              (apply_config-same os sigset registry next h h' name cfg k j s t _ c here n same q
                there m)
            ∙ apply_configs-same configs a
      ]

-- From a consistent registry, a reload of a configuration that names exactly the services there
-- are, each with an equal configuration (paths by their components), reads the file and does
-- nothing else; pending actions, a removal too, stay.
pub reload_services-same :
    (os : Os) (registry : ServiceRegistry) (next : ServiceIdGen) (sigset : SigSet) (h : History)
    (configs : Map Text ServiceConfig)
    → IsConsistent registry next h
    → Distinct configs
    → from_config_file os h ≡ ok configs
    → IsConfigured registry configs
    → IsUpToDate registry configs
    → reload_services os registry next sigset h
      ≡ (ok tt, registry, next, config_read (ok configs) ∷ h)
unfolding reload_services reload_with
reload_services-same os registry next sigset h configs c d file configured up_to_date =
    let h' = config_read (ok configs) ∷ h in
    rw file (
      ap
        (λ out.
          and_reload (with_gen next out) (apply_configs os sigset (service_ids registry) configs))
        (remove_missing-same os sigset registry next h' configs (service_ids registry) (
          service_ids-AllEntries (λ name k. contains_key name configs ≡ true) registry c.distinct
            configured))
      ∙ apply_configs-same os sigset registry next h' h c configs
          (get-AllEntries _ configs d up_to_date))
