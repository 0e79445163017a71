-- ===== src/Reload/Names.antt =====
-- The names in the registry during a reload: which are new, and that no step makes one up.
use svlopp.Prelude.{ℕ, ◌≡◌, ◌≢◌, Option, none, some, [], ◌∷◌, arith, nat_eq, list_eq, Text, eq_iff}
use svlopp.Prelude.Maps.{Map, get, insert, remove, get-insert, get-remove}
use svlopp.Service.Methods.{Service}
use svlopp.Registry.Defs.{ServiceRegistry}
use svlopp.Reload.{ids_from, service_ids}

abbrev pub entry_name : Option Service → Option Text
entry_name none = none
entry_name (some s) = some s.name

abbrev pub NoNewNames : Map ℕ Service → Map ℕ Service → Type 0
NoNewNames m m' =
    (j : ℕ) (x : Text) → entry_name (get j m') ≡ some x → entry_name (get j m) ≡ some x

abbrev pub IsFree : Text → Map ℕ Service → Type 0
IsFree name m = (j : ℕ) → entry_name (get j m) ≢ some name

pub insert-NoNewNames :
    (k : ℕ) (s s' : Service) (m : Map ℕ Service)
    → get k m ≡ some s
    → s'.name ≡ s.name
    → NoNewNames m (insert k s' m)
insert-NoNewNames k s s' m here same j x e = ground (arith, get-insert j k s' m, here)

pub remove-NoNewNames : (k : ℕ) (m : Map ℕ Service) → NoNewNames m (remove k m)
remove-NoNewNames k m j x e = ground (arith, get-remove j k m)

pub NoNewNames-IsFree :
    (name : Text) (m m' : Map ℕ Service) → NoNewNames m m' → IsFree name m → IsFree name m'
NoNewNames-IsFree name m m' n free j e = free j (n j name e)

ids_from-none :
    (m : Map ℕ Service) (ids : Map Text ℕ) (name : Text)
    → get name (ids_from m ids) ≡ none
    → (get name ids ≡ none) × IsFree name m
unfolding ids_from get
ids_from-none [] ids name e = (e, λ j f. ground arith)
ids_from-none ((k, s) ∷ m) ids name e =
    let (before, free) = ids_from-none m (insert s.name s.id ids) name e in
    (
      ground (arith, before, get-insert name s.name s.id ids),
      λ j f. ground (arith, before, get-insert name s.name s.id ids, free j, eq_iff s.name name),
    )

-- A name without an id is the name of no service.
pub service_ids-none :
    (registry : ServiceRegistry) (name : Text)
    → get name (service_ids registry) ≡ none
    → IsFree name registry.services_map
unfolding service_ids
service_ids-none registry name e = (ids_from-none registry.services_map [] name e).1
