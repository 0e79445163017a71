-- ===== src/Registry/Lookup.antt =====
-- Lookups by pid, against a search through all services.
use svlopp.Prelude.{
  ℕ, ◌==◌, nat_eq, nat_beq_iff, ◌≡◌, refl, Bool, true, false, Option, none, some, [], ◌∷◌,
  Option-cases, Bool-cases, inl, inr, if◌then◌else◌, arith,
}
use svlopp.Prelude.Maps.{Map, Distinct, get, get-remove, remove, contains_key-get}
use svlopp.Os.{History, is_child}
use svlopp.Service.Methods.{Service, pid}
use svlopp.Registry.Defs.{
  ServiceRegistry, service, get_by_pid, take_by_pid, all_stopped, all_values_stopped,
}
use svlopp.Registry.Invariant.{IsConsistent}

abbrev has_pid : ℕ → Option ℕ → Bool
has_pid p none = false
has_pid p (some q) = q == p

-- The first service that a search finds with the pid.
abbrev pub search_pid : ℕ → Map ℕ Service → Option Service
search_pid p [] = none
search_pid p ((k, s) ∷ m) = if has_pid p (pid s) then some s else search_pid p m

-- The service that was taken.
abbrev pub taken_service : Option (ℕ × Service) → Option Service
taken_service none = none
taken_service (some (k, s)) = some s

get-other :
    (k : ℕ) (s : Service) (m : Map ℕ Service) (j : ℕ) (t : Service)
    → Distinct ((k, s) ∷ m)
    → get j m ≡ some t
    → get j ((k, s) ∷ m) ≡ some t
unfolding get
get-other k s m j t d e = ground (arith, nat_beq_iff k j, contains_key-get k m)

has_pid-pid : (p : ℕ) (o : Option ℕ) → has_pid p o ≡ true → o ≡ some p
has_pid-pid p none e = ground arith
has_pid-pid p (some q) e = ground (arith, nat_beq_iff q p)

search_pid-found :
    (p : ℕ) (m : Map ℕ Service) (t : Service)
    → Distinct m
    → search_pid p m ≡ some t
    → (k : ℕ) × (get k m ≡ some t) × (pid t ≡ some p)
unfolding get
search_pid-found p [] t d e = ground arith
search_pid-found p ((k, s) ∷ m) t d e = elim (Bool-cases (has_pid p (pid s))) [
  | inl is_it ↦ (k, ground (arith, nat_beq_iff k k), has_pid-pid p (pid t) (ground arith))
  | inr other ↦
      let (j, f, q) = search_pid-found p m t d.1 (ground arith) in (j, get-other k s m j t d f, q)
]

search_pid-missed :
    (p : ℕ) (m : Map ℕ Service) (k : ℕ) (t : Service)
    → search_pid p m ≡ none
    → get k m ≡ some t
    → ¬ (pid t ≡ some p)
unfolding get
search_pid-missed p [] k t e f = ground arith
search_pid-missed p ((j, s) ∷ m) k t e f =
    ground (arith, search_pid-missed p m k t, nat_beq_iff p p)

module _ (registry : ServiceRegistry) (next : ℕ) (h : History) (c : IsConsistent registry next h)
    (p : ℕ) where
  -- Only the service that the pid is registered for has it.
  search_pid-entry :
      (k : ℕ) (s : Service)
      → get p registry.pids_map ≡ some k
      → service k registry ≡ some s
      → search_pid p registry.services_map ≡ some s
  search_pid-entry k s e f = elim (Option-cases (search_pid p registry.services_map)) [
    | inl missed ↦ absurd (
        search_pid-missed p registry.services_map k s missed f
          (ground (arith, c.inv.owned k p e, f)))
    | inr (t, found) ↦
        let (j, g, q) = search_pid-found p registry.services_map t c.distinct found in
        ground (arith, c.inv.indexed j p, g, q, e, f, found)
  ]

  search_pid-none : get p registry.pids_map ≡ none → search_pid p registry.services_map ≡ none
  search_pid-none e = elim (Option-cases (search_pid p registry.services_map)) [
    | inl missed ↦ missed
    | inr (t, found) ↦
        let (j, g, q) = search_pid-found p registry.services_map t c.distinct found in
        ground (arith, c.inv.indexed j p, g, q, e)
  ]

  gone : get p (remove p registry.pids_map) ≡ none
  gone = ground (arith, get-remove p p registry.pids_map, nat_beq_iff p p)

  -- In a consistent registry, get_by_pid and take_by_pid find the service that a search through
  -- all services for the pid finds, and once it is taken get_by_pid finds none.
  pub by_pid-search :
      (get_by_pid p registry ≡ search_pid p registry.services_map)
      × (taken_service (take_by_pid p registry).0 ≡ search_pid p registry.services_map)
      × (get_by_pid p (take_by_pid p registry).1 ≡ none)
  unfolding get_by_pid take_by_pid
  by_pid-search = elim (Option-cases (get p registry.pids_map)) [
    | inl e ↦ rw (e, search_pid-none e) (refl, refl, rw e refl)
    | inr (k, e) ↦ elim (Option-cases (service k registry)) [
      | inl f ↦ absurd (ground (arith, c.inv.owned k p e, f))
      | inr (s, f) ↦
          rw (e, f, search_pid-entry k s e f) (refl, rw (f, taken_service) refl, rw gone refl)
    ]
  ]

some_awake :
    (m : Map ℕ Service)
    → Distinct m
    → all_values_stopped m ≡ false
    → (k : ℕ) × (s : Service) × (p : ℕ) × (get k m ≡ some s) × (pid s ≡ some p)
unfolding all_values_stopped get
some_awake [] d e = ground arith
some_awake ((k, s) ∷ m) d e = elim (Option-cases (pid s)) [
  | inr (p, q) ↦ (k, s, p, ground (arith, nat_beq_iff k k), q)
  | inl q ↦
      let (j, t, p, f, r) = some_awake m d.1 (ground arith) in (j, t, p, get-other k s m j t d f, r)
]

-- If not all services are stopped, one of them has a process, which is a child.
pub all_stopped-awake :
    (registry : ServiceRegistry) (next : ℕ) (h : History)
    → IsConsistent registry next h
    → all_stopped registry ≡ false
    → (k : ℕ) × (s : Service) × (p : ℕ) × (service k registry ≡ some s)
      × (pid s ≡ some p)
      × (is_child p h ≡ true)
unfolding all_stopped
all_stopped-awake registry next h c e =
    let (k, s, p, f, q) = some_awake registry.services_map c.distinct e in
    (k, s, p, f, q, c.inv.live p k (c.inv.indexed k p (ground (arith, f, q))))
