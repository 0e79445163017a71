-- ===== src/Reload/Outcome.antt =====
-- What a step of the second loop leaves where it succeeds: the service of one name.
use svlopp.Prelude.{
  ℕ, ◌+◌, ◌^◌, ltb, ◌≡◌, ◌≢◌, refl, sym, ◌∙◌, subst, ◌⊎◌, inl, inr, true, some, arith, nat_eq,
  list_eq, Text, Result, ok, err, Bool-cases, nat_beq_iff,
}
use svlopp.Prelude.Maps.{Map, get, insert, get-insert}
use svlopp.Os.{Os, SigSet, History}
use svlopp.Service.Types.{ServiceState, stopped, running, stopping, restart}
use svlopp.Service.Config.{ServiceConfig, config_beq}
use svlopp.Service.Methods.{Service, ServiceIdGen, new, nextval, update_config}
use svlopp.Service.Process.{Outcome, start_service, stop_service}
use svlopp.Registry.Defs.{
  ServiceRegistry, service, insert_service, start_registered, stop_registered,
}
use svlopp.Reload.{insert_started, start_new, add_new, change_in, change_updated, change_one}

-- The service has the name, and the configuration or one that is equal to it.
abbrev pub IsAsConfigured : Text → ServiceConfig → Service → Type 0
IsAsConfigured name cfg s = (s.name ≡ name) × ((s.config ≡ cfg) ⊎ (config_beq s.config cfg ≡ true))

-- There is such a service under the id, and under other ids nothing has changed.
pub record Leaves (k : ℕ) (name : Text) (cfg : ServiceConfig) (m m' : Map ℕ Service) : Type 0 where
  pub there : (s : Service) × (get k m' ≡ some s) × IsAsConfigured name cfg s
  pub others : (j : ℕ) → j ≢ k → get j m' ≡ get j m

start_service-config :
    (os : Os) (s : Service) (sigset : SigSet) (h : History)
    → let s' = (start_service os s sigset h).1 in (s'.name ≡ s.name) × (s'.config ≡ s.config)
unfolding start_service
start_service-config os s sigset h = ground arith

start_service-id :
    (os : Os) (s : Service) (sigset : SigSet) (h : History)
    → (start_service os s sigset h).1.id ≡ s.id
unfolding start_service
start_service-id os s sigset h = ground arith

stop_service-config :
    (os : Os) (s : Service) (h : History)
    → let s' = (stop_service os s h).1 in (s'.name ≡ s.name) × (s'.config ≡ s.config)
unfolding stop_service
stop_service-config os s h = ground arith

update_config-config :
    (s : Service) (cfg : ServiceConfig)
    → (update_config s cfg).0 ≡ ok tt
    → let s' = (update_config s cfg).1 in (s'.name ≡ s.name) × (s'.config ≡ cfg)
unfolding update_config
update_config-config s cfg e = ground arith

new-config :
    (id : ℕ) (name : Text) (cfg : ServiceConfig) (s : Service)
    → new id name cfg ≡ ok s
    → (s.id ≡ id) × (s.name ≡ name) × (s.config ≡ cfg)
unfolding new
new-config id name cfg s e = ground arith

module _ (k : ℕ) (name : Text) (cfg : ServiceConfig) (m : Map ℕ Service) where
  -- A service that is put under the id.
  put-Leaves : (s : Service) → s.name ≡ name → s.config ≡ cfg → Leaves k name cfg m (insert k s m)
  put-Leaves s n e = record {
    there = (s, ground (arith, get-insert k k s m, nat_beq_iff k k), (n, inl e));
    others = λ j ne. ground (arith, get-insert j k s m, nat_beq_iff k j);
  }

  same-Leaves :
      (s : Service)
      → get k m ≡ some s
      → s.name ≡ name
      → config_beq s.config cfg ≡ true
      → Leaves k name cfg m m
  same-Leaves s here n e = record { there = (s, here, (n, inr e)); others = λ j ne. refl }

module _ (os : Os) (sigset : SigSet) (name : Text) (cfg : ServiceConfig)
    (registry : ServiceRegistry) (h : History) where
  change_in-Leaves :
      (state : ServiceState) (k : ℕ) (s : Service)
      → s.name ≡ name
      → s.config ≡ cfg
      → Leaves k name cfg registry.services_map
          (change_in os sigset state k s registry h).1.services_map
  unfolding change_in start_registered stop_registered
  change_in-Leaves (stopped r) k s n e =
      let (n', e') = start_service-config os s sigset h in
      put-Leaves k name cfg registry.services_map _ (n' ∙ n) (e' ∙ e)
  change_in-Leaves (stopping p d) k s n e = put-Leaves k name cfg registry.services_map _ n e
  change_in-Leaves (running p) k s n e =
      let (n', e') = stop_service-config os (record s { pending_action = restart }) h in
      put-Leaves k name cfg registry.services_map _ (n' ∙ n) (e' ∙ e)

  change_updated-Leaves :
      (k : ℕ) (r : Result (Unit {0})) (s : Service)
      → (r ≡ ok tt → (s.name ≡ name) × (s.config ≡ cfg))
      → (change_updated os sigset k (r, s) registry h).0 ≡ ok tt
      → Leaves k name cfg registry.services_map
          (change_updated os sigset k (r, s) registry h).1.services_map
  unfolding change_updated
  change_updated-Leaves k (ok _) s f e = let (n, c) = f refl in change_in-Leaves s.state k s n c
  change_updated-Leaves k (err x) s f e = ground arith

  pub change_one-Leaves :
      (k : ℕ) (s : Service)
      → service k registry ≡ some s
      → s.name ≡ name
      → (change_one os sigset cfg k (some s) registry h).0 ≡ ok tt
      → Leaves k name cfg registry.services_map
          (change_one os sigset cfg k (some s) registry h).1.services_map
  unfolding change_one
  change_one-Leaves k s here n e = elim (Bool-cases (config_beq s.config cfg)) [
    | inl p ↦ rw p (same-Leaves k name cfg registry.services_map s here n p)
    | inr p ↦ rw p (
        change_updated-Leaves k (update_config s cfg).0 (update_config s cfg).1
          (λ q. let (n', c) = update_config-config s cfg q in (n' ∙ n, c)) (rw p at e))
  ]

  insert_started-Leaves :
      (k : ℕ) (out : Outcome) (gen : ServiceIdGen)
      → out.1.id ≡ k
      → out.1.name ≡ name
      → out.1.config ≡ cfg
      → (insert_started k out registry gen).0 ≡ ok tt
      → Leaves k name cfg registry.services_map (insert_started k out registry gen).1.services_map
  unfolding insert_started insert_service
  insert_started-Leaves k (err x, s, h') gen i n c e = ground arith
  insert_started-Leaves k (ok _, s, h') gen i n c e =
      subst (λ j. Leaves k name cfg registry.services_map (insert j s registry.services_map))
        (sym i) (put-Leaves k name cfg registry.services_map s n c)

  start_new-Leaves :
      (k : ℕ) (r : Result Service) (gen : ServiceIdGen)
      → new k name cfg ≡ r
      → (start_new os sigset k r registry gen h).0 ≡ ok tt
      → Leaves k name cfg registry.services_map
          (start_new os sigset k r registry gen h).1.services_map
  unfolding start_new
  start_new-Leaves k (err x) gen q e = ground arith
  start_new-Leaves k (ok s) gen q e =
      let (i, n, c) = new-config k name cfg s q in
      let (n', c') = start_service-config os s sigset h in
      insert_started-Leaves k (start_service os s sigset h) gen (start_service-id os s sigset h ∙ i)
        (n' ∙ n) (c' ∙ c) e

  pub add_new-Leaves :
      (gen : ServiceIdGen)
      → (add_new os sigset name cfg (nextval gen) registry h).0 ≡ ok tt
      → Leaves gen name cfg registry.services_map
          (add_new os sigset name cfg (nextval gen) registry h).1.services_map
  unfolding add_new nextval
  add_new-Leaves gen e = elim (Bool-cases (ltb (gen + 1) (2 ^ 64))) [
    | inl p ↦ rw p (start_new-Leaves gen (new gen name cfg) (gen + 1) refl (rw p at e))
    | inr p ↦ absurd (ground (arith, p, (rw p at e)))
  ]
