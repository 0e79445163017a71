-- ===== src/Reload/Preserves.antt =====
-- What a step of the reload on one service keeps.
use svlopp.Prelude.{ℕ, ◌≡◌, none, some, arith, nat_eq, list_eq, sym, ap, ◌∙◌, subst, Result, ok}
use svlopp.Prelude.Maps.{Map, get-remove, remove-Distinct}
use svlopp.Os.{Os, SigSet, History, ForkIsFresh}
use svlopp.Service.Types.{stopped, ServiceStopReason}
use svlopp.Service.Config.{ServiceConfig}
use svlopp.Service.Methods.{Service, state_pid, update_config}
use svlopp.Service.Process.Outcomes.{stop_service-pid, start_service-name}
use svlopp.Registry.Defs.{
  ServiceRegistry, Handled, service, put_service, remove_service, start_registered, stop_registered,
}
use svlopp.Registry.Invariant.{IsConsistent, drop-Inv}
use svlopp.Registry.Steps.{
  start_registered-IsConsistent, stop_registered-IsConsistent, put_service-IsConsistent,
}
use svlopp.Lifecycle
use svlopp.Lifecycle.{Steps, live, removed, here as here_now, drop, Follows}
use svlopp.Lifecycle.Changes.{Inv-AreGiven, Follows-refl, Follows-trans, changed-Follows}
use svlopp.Lifecycle.Registry.{
  put_service-Follows, start_registered-Follows, stop_registered-Follows,
}
use svlopp.Reload.Names.{NoNewNames, insert-NoNewNames, remove-NoNewNames}

-- A step leaves a consistent registry, makes up no names, and follows the life of each service.
pub record Preserves (next : ℕ) (m : Map ℕ Service) (h : History) (out : Handled) : Type 0 where
  pub consistent : IsConsistent out.1 next out.2
  pub names : NoNewNames m out.1.services_map
  pub stages : Follows next m h next out.1.services_map out.2

module _ (os : Os) (fresh : ForkIsFresh os) (next : ℕ) (k : ℕ) (s0 s : Service)
    (registry : ServiceRegistry) (h : History) (c : IsConsistent registry next h)
    (here : service k registry ≡ some s0) (same_id : s.id ≡ s0.id) (same_name : s.name ≡ s0.name)
    (same_state : s.state ≡ s0.state) where
  pub stop_registered-Preserves :
      Preserves next registry.services_map h (stop_registered os k s registry h)
  unfolding stop_registered
  stop_registered-Preserves = record {
    consistent =
        stop_registered-IsConsistent k s0 s registry c here same_id same_name os
          (ap state_pid same_state);
    names = insert-NoNewNames k s0 _ _ here ((stop_service-pid os s h).1 ∙ same_name);
    stages = stop_registered-Follows next k s0 s registry (Inv-AreGiven c.inv) here same_state os h;
  }

  pub put_service-Preserves :
      (r : Result (Unit {0}))
      → Preserves next registry.services_map h (r, put_service k s registry, h)
  put_service-Preserves r = record {
    consistent =
        put_service-IsConsistent k s0 s registry c here same_id same_name os
          (ap state_pid same_state);
    names = insert-NoNewNames k s0 s _ here same_name;
    stages = put_service-Follows next k s0 s registry (Inv-AreGiven c.inv) here same_state;
  }

  pub start_registered-Preserves :
      (sigset : SigSet) (r : ServiceStopReason)
      → s0.state ≡ stopped r
      → Preserves next registry.services_map h (start_registered os k k s sigset registry h)
  unfolding start_registered
  start_registered-Preserves sigset r idle = record {
    consistent =
        start_registered-IsConsistent k s0 s registry c here same_id same_name os sigset fresh
          (ap state_pid idle) (ap state_pid (same_state ∙ idle));
    stages =
        start_registered-Follows next k s0 s registry (Inv-AreGiven c.inv) here same_state os k
          sigset h r idle;
    names = insert-NoNewNames k s0 _ _ here ((start_service-name os s sigset h).1 ∙ same_name);
  }

pub unchanged-Preserves :
    (next : ℕ) (r : Result (Unit {0})) (registry : ServiceRegistry) (h : History)
    → IsConsistent registry next h
    → Preserves next registry.services_map h (r, registry, h)
unchanged-Preserves next r registry h c = record {
  consistent = c;
  names = λ j x e. e;
  stages = Follows-refl next registry.services_map;
}

pub update_config-same :
    (s : Service) (cfg : ServiceConfig)
    → let out = update_config s cfg in
      (out.1.id ≡ s.id) × (out.1.name ≡ s.name) × (out.1.state ≡ s.state)
unfolding update_config
update_config-same s cfg = ground arith

-- A stopped service is removed at once.
pub remove_service-Preserves :
    (next : ℕ) (k : ℕ) (s : Service) (registry : ServiceRegistry) (h : History)
    (r : ServiceStopReason)
    → IsConsistent registry next h
    → service k registry ≡ some s
    → s.state ≡ stopped r
    → Preserves next registry.services_map h (ok tt, remove_service k registry, h)
unfolding remove_service
remove_service-Preserves next k s registry h r c here idle = record {
  consistent = record {
    distinct = remove-Distinct k registry.services_map c.distinct;
    inv = drop-Inv c.inv k s _ here (ap state_pid idle) (λ j. get-remove j k registry.services_map);
  };
  names = remove-NoNewNames k registry.services_map;
  stages =
      changed-Follows next k s none registry.services_map _ here (Inv-AreGiven c.inv k s here)
        (λ j. get-remove j k registry.services_map)
        (subst (λ x. Steps (live x) h removed h) (sym idle) (Lifecycle.next here_now (drop r)))
        (λ a. here_now);
}

pub Preserves-trans :
    {h h' : History} (next : ℕ) (m m' : Map ℕ Service) (out : Handled)
    → NoNewNames m m'
    → Follows next m h next m' h'
    → Preserves next m' h' out
    → Preserves next m h out
Preserves-trans next m m' out n f k = record {
  stages = Follows-trans next next next m m' out.1.services_map f k.stages;
  consistent = k.consistent;
  names = λ j x e. n j x (k.names j x e);
}
