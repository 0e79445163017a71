-- ===== src/Registry/Steps.antt =====
-- What starting and stopping one service of the registry does to its invariant.
use svlopp.Prelude.{ℕ, ◌≡◌, inl, inr, none, some, nat_eq, ap, ◌∙◌, sym, subst}
use svlopp.Prelude.Maps.{Map, get, get-insert, insert-Distinct}
use svlopp.Prelude.Maps.Loop.{Changed}
use svlopp.Os.{Os, SigSet, History, ForkIsFresh}
use svlopp.Service.Methods.{Service, pid}
use svlopp.Service.Process.{start_service, stop_service}
use svlopp.Service.Process.Outcomes.{start_service-Started, stop_service-pid, stop_service-Keeps}
use svlopp.Registry.Defs.{
  ServiceRegistry, register_started, pids_after, start_registered, stop_registered, put_service,
}
use mathlib.Core.Path.{subst₂}
use svlopp.Registry.Invariant.{Inv, IsConsistent, keep-Inv, start-Inv}

module _ {m : Map ℕ Service} {next : ℕ} {pids : Map ℕ ℕ} {h : History} (k : ℕ) (s0 s : Service)
    (m' : Map ℕ Service) (i : Inv m next pids h) (here : get k m ≡ some s0) (same_id : s.id ≡ s0.id)
    (same_name : s.name ≡ s0.name) (os : Os) where
  -- Starting a service that has no pid and registering the pid, if it started.
  pub start-step :
      (sigset : SigSet)
      → ForkIsFresh os
      → pid s0 ≡ none
      → pid s ≡ none
      → let out = start_service os s sigset h in
        Changed k (some out.1) m m' → Inv m' next (pids_after out.0 (pid out.1) k pids) out.2
  unfolding register_started
  start-step sigset fresh idle0 idle c =
      let out = start_service os s sigset h in
      elim (start_service-Started os fresh s sigset h) [
        | inl (p, r, e, new_pid, born, kept) ↦
            subst₂ (λ x o. Inv m' next (pids_after x o k pids) out.2) (sym r) (sym (ap pid e))
              (start-Inv k s0 _ m' i here (ap (λ t. t.id) e ∙ same_id)
                (ap (λ t. t.name) e ∙ same_name) c _ p idle0 (ap pid e) new_pid born kept)
        | inr (x, r, e, kept) ↦
            subst (λ x. Inv m' next (pids_after x (pid out.1) k pids) out.2) (sym r)
              (keep-Inv k s0 _ m' i here (ap (λ t. t.id) e ∙ same_id)
                (ap (λ t. t.name) e ∙ same_name) c _ (ap pid e ∙ idle ∙ sym idle0) kept)
      ]

  -- Stopping a service, or leaving it as it is.
  pub stop-step :
      pid s ≡ pid s0
      → let out = stop_service os s h in Changed k (some out.1) m m' → Inv m' next pids out.2
  stop-step same c =
      let (same_id', same_name', same_pid) = stop_service-pid os s h in
      keep-Inv k s0 _ m' i here (same_id' ∙ same_id) (same_name' ∙ same_name) c _ (same_pid ∙ same)
        (stop_service-Keeps os s h)

module _ {next : ℕ} {h : History} (k : ℕ) (s0 s : Service) (registry : ServiceRegistry)
    (c : IsConsistent registry next h) (here : get k registry.services_map ≡ some s0)
    (same_id : s.id ≡ s0.id) (same_name : s.name ≡ s0.name) (os : Os) where
  pub start_registered-IsConsistent :
      (sigset : SigSet)
      → ForkIsFresh os
      → pid s0 ≡ none
      → pid s ≡ none
      → let out = start_registered os k k s sigset registry h in IsConsistent out.1 next out.2
  unfolding start_registered
  start_registered-IsConsistent sigset fresh idle0 idle = record {
    distinct = insert-Distinct k _ registry.services_map c.distinct;
    inv =
        start-step k s0 s _ c.inv here same_id same_name os sigset fresh idle0 idle
          (λ j. get-insert j k _ registry.services_map);
  }

  pub stop_registered-IsConsistent :
      pid s ≡ pid s0 → let out = stop_registered os k s registry h in IsConsistent out.1 next out.2
  unfolding stop_registered
  stop_registered-IsConsistent same = record {
    distinct = insert-Distinct k _ registry.services_map c.distinct;
    inv =
        stop-step k s0 s _ c.inv here same_id same_name os same
          (λ j. get-insert j k _ registry.services_map);
  }

  -- The service is put back with its pid.
  pub put_service-IsConsistent : pid s ≡ pid s0 → IsConsistent (put_service k s registry) next h
  put_service-IsConsistent same = record {
    distinct = insert-Distinct k _ registry.services_map c.distinct;
    inv =
        keep-Inv k s0 s _ c.inv here same_id same_name (λ j. get-insert j k _ registry.services_map)
          h same (λ q a. a);
  }
