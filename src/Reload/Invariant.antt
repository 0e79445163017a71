-- ===== src/Reload/Invariant.antt =====
-- A reload keeps the registry consistent, whether it succeeds or stops at an error.
use svlopp.Prelude.{
  ℕ, ◌≡◌, refl, Option, none, some, [], ◌∷◌, arith, nat_eq, list_eq, Text, nat_beq_iff, if_cases,
  sym, ◌∙◌, Result, ok, err,
}
use svlopp.Prelude.Maps.{Map, get-insert, contains_key}
use svlopp.Os.{Os, SigSet, History, ForkIsFresh}
use svlopp.Service.Types.{ServiceState, stopped, running, stopping, nothing}
use svlopp.Service.Config.{ServiceConfig, config_beq}
use svlopp.Service.Methods.{Service, update_config}
use svlopp.Registry.Defs.{ServiceRegistry, Handled, service}
use svlopp.Registry.Invariant.{IsConsistent}
use svlopp.Reload.{
  and_then, remove_in, remove_one, remove_missing, change_in, change_updated, change_one,
}
use svlopp.Reload.Preserves.{
  Preserves, stop_registered-Preserves, put_service-Preserves, start_registered-Preserves,
  unchanged-Preserves, update_config-same, remove_service-Preserves, Preserves-trans,
}

module _ (os : Os) (fresh : ForkIsFresh os) (next : ℕ) where
  remove_in-Preserves :
      (state : ServiceState) (k : ℕ) (s : Service) (registry : ServiceRegistry) (h : History)
      → IsConsistent registry next h
      → service k registry ≡ some s
      → s.state ≡ state
      → Preserves next registry.services_map h (remove_in os state k s registry h)
  unfolding remove_in
  remove_in-Preserves (stopped r) k s registry h c here e =
      let put =
        put_service-Preserves os fresh next k s (record s { pending_action = nothing }) registry h c
          here refl refl refl (ok tt) in
      Preserves-trans next _ _ _ put.names put.stages (
        remove_service-Preserves next k (record s { pending_action = nothing }) _ h r put.consistent
          (ground (
            arith,
            get-insert k k (record s { pending_action = nothing }) registry.services_map,
            nat_beq_iff k k,
          ))
          e)
  remove_in-Preserves (stopping p d) k s registry h c here e =
      put_service-Preserves os fresh next k s _ registry h c here refl refl refl (ok tt)
  remove_in-Preserves (running p) k s registry h c here e =
      stop_registered-Preserves os fresh next k s _ registry h c here refl refl refl

  pub remove_one-Preserves :
      (k : ℕ) (o : Option Service) (registry : ServiceRegistry) (h : History)
      → IsConsistent registry next h
      → service k registry ≡ o
      → Preserves next registry.services_map h (remove_one os k o registry h)
  unfolding remove_one
  remove_one-Preserves k none registry h c here = unchanged-Preserves next (ok tt) registry h c
  remove_one-Preserves k (some s) registry h c here =
      remove_in-Preserves s.state k s registry h c here refl

  and_then-Preserves :
      (m : Map ℕ Service) (h0 : History) (out : Handled)
      (then_do : ServiceRegistry → History → Handled)
      → Preserves next m h0 out
      → ((registry : ServiceRegistry) (h : History)
          → IsConsistent registry next h
          → Preserves next registry.services_map h (then_do registry h))
      → Preserves next m h0 (and_then out then_do)
  and_then-Preserves m h0 (ok _, registry, h) then_do k f =
      Preserves-trans next m registry.services_map _ k.names k.stages (f registry h k.consistent)
  and_then-Preserves m h0 (err e, registry, h) then_do k f = k

  pub remove_missing-Preserves :
      (configs : Map Text ServiceConfig) (ids : Map Text ℕ) (registry : ServiceRegistry)
      (h : History)
      → IsConsistent registry next h
      → Preserves next registry.services_map h (remove_missing os configs ids registry h)
  unfolding remove_missing
  remove_missing-Preserves configs [] registry h c = unchanged-Preserves next (ok tt) registry h c
  remove_missing-Preserves configs ((name, k) ∷ ids) registry h c =
      and_then-Preserves registry.services_map h _ (remove_missing os configs ids)
        (if_cases (Preserves next registry.services_map h) (contains_key name configs) _ _
          (λ _. unchanged-Preserves next (ok tt) registry h c)
          (λ _. remove_one-Preserves k (service k registry) registry h c refl))
        (remove_missing-Preserves configs ids)

  change_in-Preserves :
      (sigset : SigSet) (state : ServiceState) (k : ℕ) (s0 s : Service) (registry : ServiceRegistry)
      (h : History)
      → IsConsistent registry next h
      → service k registry ≡ some s0
      → s.id ≡ s0.id
      → s.name ≡ s0.name
      → s.state ≡ s0.state
      → s.state ≡ state
      → Preserves next registry.services_map h (change_in os sigset state k s registry h)
  unfolding change_in
  change_in-Preserves sigset (stopped r) k s0 s registry h c here i n t e =
      start_registered-Preserves os fresh next k s0 s registry h c here i n t sigset r (sym t ∙ e)
  change_in-Preserves sigset (stopping p d) k s0 s registry h c here i n t e =
      put_service-Preserves os fresh next k s0 _ registry h c here i n t (ok tt)
  change_in-Preserves sigset (running p) k s0 s registry h c here i n t e =
      stop_registered-Preserves os fresh next k s0 _ registry h c here i n t

  change_updated-Preserves :
      (sigset : SigSet) (k : ℕ) (s0 : Service) (r : Result (Unit {0})) (s : Service)
      (registry : ServiceRegistry) (h : History)
      → IsConsistent registry next h
      → service k registry ≡ some s0
      → s.id ≡ s0.id
      → s.name ≡ s0.name
      → s.state ≡ s0.state
      → Preserves next registry.services_map h (change_updated os sigset k (r, s) registry h)
  unfolding change_updated
  change_updated-Preserves sigset k s0 (ok _) s registry h c here i n t =
      change_in-Preserves sigset s.state k s0 s registry h c here i n t refl
  change_updated-Preserves sigset k s0 (err e) s registry h c here i n t =
      put_service-Preserves os fresh next k s0 s registry h c here i n t (err e)

  pub change_one-Preserves :
      (sigset : SigSet) (cfg : ServiceConfig) (k : ℕ) (o : Option Service)
      (registry : ServiceRegistry) (h : History)
      → IsConsistent registry next h
      → service k registry ≡ o
      → Preserves next registry.services_map h (change_one os sigset cfg k o registry h)
  unfolding change_one
  change_one-Preserves sigset cfg k none registry h c here =
      unchanged-Preserves next (ok tt) registry h c
  change_one-Preserves sigset cfg k (some s) registry h c here =
      if_cases (Preserves next registry.services_map h) (config_beq s.config cfg) _ _
        (λ _. unchanged-Preserves next (ok tt) registry h c)
        (λ _.
          let (i, n, t) = update_config-same s cfg in
          change_updated-Preserves sigset k s (update_config s cfg).0 (update_config s cfg).1
            registry h c here i n t)
