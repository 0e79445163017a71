-- ===== src/Reload/Kept.antt =====
-- The first loop of a reload leaves the configured services as they are.
use svlopp.Prelude.{
  ℕ, ◌≡◌, ◌≢◌, refl, sym, ap, ◌∙◌, true, Option, none, some, [], ◌∷◌, arith, nat_eq, list_eq, Text,
  ok, err, nat_beq_iff, Bool-cases, Option-cases, inl, inr,
}
use svlopp.Prelude.Maps.{Map, get, insert, contains_key, get-insert, get-remove}
use svlopp.Os.{Os, History, ForkIsFresh}
use svlopp.Service.Types.{ServiceState, stopped, running, stopping, nothing, remove}
use svlopp.Service.Config.{ServiceConfig}
use svlopp.Service.Methods.{Service}
use svlopp.Service.Process.{stop_service}
use svlopp.Registry.Defs.{ServiceRegistry, Handled, service, remove_service, stop_registered}
use svlopp.Registry.Invariant.{IsConsistent}
use svlopp.Reload.{remove_in, remove_one, remove_missing, and_then, service_ids}
use svlopp.Reload.Names.{entry_name}
use svlopp.Reload.Invariant.{remove_one-Preserves}
use svlopp.Reload.Unchanged.{AllEntries, service_ids-AllEntries}

remove_in-other :
    (os : Os) (state : ServiceState) (k : ℕ) (s : Service) (registry : ServiceRegistry)
    (h : History) (j : ℕ)
    → j ≢ k
    → service j (remove_in os state k s registry h).1 ≡ service j registry
unfolding remove_in stop_registered remove_service
remove_in-other os (stopped r) k s registry h j ne =
    let s' : Service = record s { pending_action = nothing } in
    ground (
      arith,
      get-remove j k (insert k s' registry.services_map),
      get-insert j k s' registry.services_map,
      nat_beq_iff k j,
    )
remove_in-other os (stopping p d) k s registry h j ne = ground (
  arith,
  get-insert j k (record s { pending_action = remove }) registry.services_map,
  nat_beq_iff k j,
)
remove_in-other os (running p) k s registry h j ne = ground (
  arith,
  get-insert j k (stop_service os (record s { pending_action = remove }) h).1 registry.services_map,
  nat_beq_iff k j,
)

pub remove_one-other :
    (os : Os) (k : ℕ) (o : Option Service) (registry : ServiceRegistry) (h : History) (j : ℕ)
    → j ≢ k
    → service j (remove_one os k o registry h).1 ≡ service j registry
unfolding remove_one
remove_one-other os k none registry h j ne = refl
remove_one-other os k (some s) registry h j ne = remove_in-other os s.state k s registry h j ne

-- A service under the id of a name has the name.
abbrev pub Named : Map ℕ Service → Text → ℕ → Type 0
Named m name k = (s : Service) → get k m ≡ some s → s.name ≡ name

Named-all :
    (m m' : Map ℕ Service) (ids : Map Text ℕ)
    → ((j : ℕ) (x : Text) → entry_name (get j m') ≡ some x → entry_name (get j m) ≡ some x)
    → AllEntries (Named m) ids
    → AllEntries (Named m') ids
Named-all m m' [] names a = tt
Named-all m m' ((name, k) ∷ ids) names a = (
  λ s e. elim (Option-cases (get k m)) [
    | inl q ↦ absurd (ground (arith, names k s.name (ap entry_name e), q))
    | inr (t, q) ↦ ground (arith, names k s.name (ap entry_name e), q, a.0 t q)
  ],
  Named-all m m' ids names a.1,
)

pub service_ids-Named :
    (registry : ServiceRegistry) (next : ℕ) (h : History)
    → IsConsistent registry next h
    → AllEntries (Named registry.services_map) (service_ids registry)
service_ids-Named registry next h c =
    service_ids-AllEntries (Named registry.services_map) registry c.distinct (λ k s e t f.
      ground (arith, sym e ∙ ap (λ i. service i registry) (sym (c.inv.keyed k s e).0) ∙ f))

module _ (os : Os) (fresh : ForkIsFresh os) (next : ℕ) (configs : Map Text ServiceConfig) (j : ℕ)
    (s : Service) where
  pub remove_missing-keeps :
      (ids : Map Text ℕ) (registry : ServiceRegistry) (h : History)
      → IsConsistent registry next h
      → AllEntries (Named registry.services_map) ids
      → service j registry ≡ some s
      → contains_key s.name configs ≡ true
      → service j (remove_missing os configs ids registry h).1 ≡ some s
  unfolding remove_missing
  remove_missing-keeps [] registry h c a here inside = here
  remove_missing-keeps ((name, k) ∷ ids) registry h c a here inside =
      elim (Bool-cases (contains_key name configs)) [
        | inl p ↦ rw p (remove_missing-keeps ids registry h c a.1 here inside)
        | inr p ↦
            let out = remove_one os k (service k registry) registry h in
            let kept =
              remove_one-Preserves os fresh next k (service k registry) registry h c refl in
            let other : j ≢ k = λ q. ground (
              arith,
              p,
              inside,
              ap (λ x. contains_key x configs)
                  (a.0 s (ap (λ i. get i registry.services_map) (sym q) ∙ here)),
            ) in
            rw p (
              and_then-keeps out
                (remove_one-other os k (service k registry) registry h j other ∙ here)
                (λ still.
                  remove_missing-keeps ids out.1 out.2 kept.consistent
                    (Named-all registry.services_map out.1.services_map ids kept.names a.1) still
                    inside))
      ]
    where
      and_then-keeps :
          (out : Handled)
          → service j out.1 ≡ some s
          → (service j out.1 ≡ some s
              → service j (remove_missing os configs ids out.1 out.2).1 ≡ some s)
          → service j (and_then out (remove_missing os configs ids)).1 ≡ some s
      and_then-keeps (ok _, registry', h') e f = f e
      and_then-keeps (err x, registry', h') e f = e
