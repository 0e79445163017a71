-- ===== src/Reload/Convergence.antt =====
-- After a reload that succeeds, every configured name has a service with its configuration.
use svlopp.Prelude.{
  ℕ, ◌≡◌, ◌≢◌, sym, ap, ◌∙◌, subst, inl, inr, true, false, some, ◌∷◌, arith, nat_eq, list_eq, Text,
  ok, Option-cases,
}
use svlopp.Prelude.Maps.{Map, Distinct, get, contains_key}
use svlopp.Os.{Os, SigSet, History, ForkIsFresh, config_read}
use svlopp.Service.ConfigFile.{from_config_file}
use svlopp.Service.Config.{ServiceConfig}
use svlopp.Service.Methods.{Service, ServiceIdGen}
use svlopp.Registry.Defs.{ServiceRegistry, service}
use svlopp.Registry.Invariant.{IsConsistent, history-Inv}
use svlopp.Reload.{
  reload_services, reload_with, with_gen, service_ids, remove_missing, Reloaded, apply_configs,
}
use svlopp.Reload.Unchanged.{AllEntries-get, service_ids-Knows}
use svlopp.Reload.SecondLoop.{Converges, and_reload-ok, apply_configs-Converges}
use svlopp.Reload.Leaving.{IsLeaving, remove_missing-IsGoneOrLeaving}
use svlopp.Reload.Kept.{remove_missing-keeps, service_ids-Named}
use svlopp.Reload.Invariant.{remove_missing-Preserves}
use svlopp.Reload.Names.{entry_name, NoNewNames-IsFree, service_ids-none}
use svlopp.Reload.Known.{IsThere, AreKnown}

module _ (os : Os) (fresh : ForkIsFresh os) (sigset : SigSet) (registry : ServiceRegistry)
    (next : ServiceIdGen) (configs : Map Text ServiceConfig) (d : Distinct configs) where
  -- What the first loop leaves of the ids.
  removed-AreKnown :
      (h : History) (c : IsConsistent registry next h)
      → AreKnown
          (service_ids registry)
          configs
          next
          (remove_missing os configs (service_ids registry) registry h).1.services_map
  removed-AreKnown h c =
      let ids = service_ids registry in
      let kept = remove_missing-Preserves os fresh next configs ids registry h c in
      record {
        given = λ x k e.
            let (t, was, _) = service_ids-Knows registry next h x k c e in (c.inv.keyed k t was).1;
        named = λ x k s e here.
            let (t, was, n) = service_ids-Knows registry next h x k c e in
            ground (arith, kept.names k s.name (ap entry_name here), was, n);
        present = λ x k e inside.
            let (t, was, n) = service_ids-Knows registry next h x k c e in
            (
              t,
              remove_missing-keeps os fresh next configs k t ids registry h c
                  (service_ids-Named registry next h c) was
                  (ap (λ y. contains_key y configs) n ∙ inside),
            );
      }

  reload_with-Converges :
      (h : History) (c : IsConsistent registry next h)
      → (reload_with os sigset (ok configs) registry next h).0 ≡ ok tt
      → let removed = remove_missing os configs (service_ids registry) registry h in
        (removed.0 ≡ ok tt)
        × Converges
            (service_ids registry)
            configs
            next
            removed.1.services_map
            (reload_with os sigset (ok configs) registry next h).1.services_map
  unfolding reload_with
  reload_with-Converges h c e =
      let ids = service_ids registry in
      let removed = remove_missing os configs ids registry h in
      let kept = remove_missing-Preserves os fresh next configs ids registry h c in
      let (good, whole) =
        and_reload-ok os fresh sigset ids (with_gen next removed)
          (apply_configs os sigset ids configs) e in
      (
        good,
        subst (λ (o : Reloaded). Converges ids configs next removed.1.services_map o.1.services_map)
            (sym whole)
            (apply_configs-Converges os fresh sigset ids configs removed.1 next removed.2 d
              (λ name inside new_name.
                NoNewNames-IsFree name _ _ kept.names (service_ids-none registry name new_name))
              kept.consistent (removed-AreKnown h c) (sym (ap (λ o. o.0) whole) ∙ e)),
      )

-- The id of a service is that of its name.
service_ids-get :
    (registry : ServiceRegistry) (next : ServiceIdGen) (h : History) (k : ℕ) (s : Service)
    → IsConsistent registry next h
    → service k registry ≡ some s
    → get s.name (service_ids registry) ≡ some k
service_ids-get registry next h k s c here =
    elim (Option-cases (get s.name (service_ids registry))) [
      | inl e ↦ absurd (service_ids-none registry s.name e k (ap entry_name here))
      | inr (j, e) ↦
          let (t, there, n) = service_ids-Knows registry next h s.name j c e in
          e ∙ ap some (sym (c.inv.named k j s t here there (sym n)))
    ]

module _ (os : Os) (fresh : ForkIsFresh os) (sigset : SigSet) (registry : ServiceRegistry)
    (next : ServiceIdGen) (configs : Map Text ServiceConfig) (d : Distinct configs) (h : History)
    (c : IsConsistent registry next h) (k : ℕ) (s : Service)
    (outside : contains_key s.name configs ≡ false) where
  -- The id of a name that is not configured is not that of one that is.
  other_id :
      (s0 : Service)
      → service k registry ≡ some s0
      → s0.name ≡ s.name
      → (x : Text) → contains_key x configs ≡ true
      → get x (service_ids registry) ≢ some k
  other_id s0 here n x inside e =
      let (t, was, m) = service_ids-Knows registry next h x k c e in
      let same : x ≡ s.name = ground (arith, here, was, n, m) in
      ground (arith, inside, outside, ap (λ y. contains_key y configs) same)

  reload_with-IsLeaving :
      (reload_with os sigset (ok configs) registry next h).0 ≡ ok tt
      → service k (reload_with os sigset (ok configs) registry next h).1 ≡ some s
      → IsLeaving s
  reload_with-IsLeaving e here =
      let ids = service_ids registry in
      let (good, end) = reload_with-Converges os fresh sigset registry next configs d h c e in
      let kept = remove_missing-Preserves os fresh next configs ids registry h c in
      let before : entry_name (service k registry) ≡ some s.name =
        kept.names k s.name (end.names k s.name outside (ap entry_name here)) in
      elim (Option-cases (service k registry)) [
        | inl q ↦ absurd (ground (arith, before, q))
        | inr (s0, q) ↦
            let n : s0.name ≡ s.name = ground (arith, before, q) in
            let known : get s.name ids ≡ some k =
              ap (λ x. get x ids) (sym n) ∙ service_ids-get registry next h k s0 c q in
            remove_missing-IsGoneOrLeaving os configs k s.name ids registry h outside (inr known)
              good s (sym (end.keeps k (c.inv.keyed k s0 q).1 (other_id s0 q n)) ∙ here)
      ]

-- Where forked pids are fresh, after a reload of a configuration that succeeds from a consistent
-- registry, each configured name has a service whose configuration is the one of the file or equal
-- to it, paths by their components.
pub reload_services-IsThere :
    (os : Os)
    → ForkIsFresh os
    → (sigset : SigSet) (registry : ServiceRegistry) (next : ServiceIdGen) (h : History)
      (configs : Map Text ServiceConfig)
    → IsConsistent registry next h
    → Distinct configs
    → from_config_file os h ≡ ok configs
    → (reload_services os registry next sigset h).0 ≡ ok tt
    → (name : Text) (cfg : ServiceConfig) → get name configs ≡ some cfg
    → IsThere (reload_services os registry next sigset h).1.services_map name cfg
unfolding reload_services
reload_services-IsThere os fresh sigset registry next h configs c d file e name cfg q =
    let h' : History = config_read (from_config_file os h) ∷ h in
    let c' : IsConsistent registry next h' = record {
      distinct = c.distinct;
      inv = history-Inv c.inv h' (λ p a. a);
    } in
    let step : (reload_with os sigset (ok configs) registry next h').0 ≡ ok tt =
      ap (λ r. (reload_with os sigset r registry next h').0) (sym file) ∙ e in
    subst (λ r. IsThere (reload_with os sigset r registry next h').1.services_map name cfg)
      (sym file)
      (AllEntries-get _ configs
        (reload_with-Converges os fresh sigset registry next configs d h' c' step).1.all name cfg q)

-- Where forked pids are fresh, after a reload of a configuration that succeeds from a consistent
-- registry, every service whose name is not configured is stopping, with its removal pending.
pub reload_services-IsLeaving :
    (os : Os)
    → ForkIsFresh os
    → (sigset : SigSet) (registry : ServiceRegistry) (next : ServiceIdGen) (h : History)
      (configs : Map Text ServiceConfig)
    → IsConsistent registry next h
    → Distinct configs
    → from_config_file os h ≡ ok configs
    → (reload_services os registry next sigset h).0 ≡ ok tt
    → (k : ℕ) (s : Service) → service k (reload_services os registry next sigset h).1 ≡ some s
    → contains_key s.name configs ≡ false
    → IsLeaving s
unfolding reload_services
reload_services-IsLeaving os fresh sigset registry next h configs c d file e k s here outside =
    let h' : History = config_read (from_config_file os h) ∷ h in
    let c' : IsConsistent registry next h' = record {
      distinct = c.distinct;
      inv = history-Inv c.inv h' (λ p a. a);
    } in
    reload_with-IsLeaving os fresh sigset registry next configs d h' c' k s outside
      (ap (λ r. (reload_with os sigset r registry next h').0) (sym file) ∙ e)
      (ap (λ r. service k (reload_with os sigset r registry next h').1) (sym file) ∙ here)
