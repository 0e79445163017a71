-- ===== src/Registry/Invariant.antt =====
-- What holds of the registry between two events, and what keeps it: each change of one service.
use svlopp.Prelude.{
  ℕ, suc, ◌<◌, ◌≡◌, ◌≢◌, true, false, Option, none, some, nat_eq, arith, Option-cases, inl, inr,
}
use svlopp.Registry.Defs.{ServiceRegistry}
use svlopp.Prelude.Maps.{Map, Distinct, get, insert, remove, get-insert, get-remove}
use svlopp.Prelude.Maps.Loop.{Changed}
use svlopp.Os.{History, is_child, Keeps}
use svlopp.Service.Methods.{Service, pid}

-- The pid of the service of an id, if there is such a service and it has one.
abbrev pub entry_pid : Option Service → Option ℕ
entry_pid none = none
entry_pid (some s) = pid s

-- Keys are ids below the next one, names are distinct, and `pids_map` is exactly the inverse of
-- the services' pids, all of which are children that are not yet reaped.
pub record Inv (services : Map ℕ Service) (next : ℕ) (pids : Map ℕ ℕ) (h : History) : Type 0 where
  pub keyed : (k : ℕ) (s : Service) → get k services ≡ some s → (s.id ≡ k) × (k < next)
  pub named :
      (k j : ℕ) (s t : Service)
      → get k services ≡ some s
      → get j services ≡ some t
      → s.name ≡ t.name
      → k ≡ j
  pub indexed : (k p : ℕ) → entry_pid (get k services) ≡ some p → get p pids ≡ some k
  pub owned : (k p : ℕ) → get p pids ≡ some k → entry_pid (get k services) ≡ some p
  pub live : (p k : ℕ) → get p pids ≡ some k → is_child p h ≡ true

-- The invariant of a registry, with each id at most once.
pub record IsConsistent (registry : ServiceRegistry) (next : ℕ) (h : History) : Type 0 where
  pub distinct : Distinct registry.services_map
  pub inv : Inv registry.services_map next registry.pids_map h

module _ {m : Map ℕ Service} {next : ℕ} {pids : Map ℕ ℕ} {h : History} (k : ℕ) (s s' : Service)
    (m' : Map ℕ Service) (i : Inv m next pids h) (here : get k m ≡ some s) (same_id : s'.id ≡ s.id)
    (same_name : s'.name ≡ s.name) (c : Changed k (some s') m m') where
  changed-keyed : (j : ℕ) (t : Service) → get j m' ≡ some t → (t.id ≡ j) × (j < next)
  changed-keyed j t e = ground (arith, c j, i.keyed j t, i.keyed k s here)

  changed-named :
      (j l : ℕ) (t u : Service) → get j m' ≡ some t → get l m' ≡ some u → t.name ≡ u.name → j ≡ l
  changed-named j l t u e f n =
      ground (arith, c j, c l, i.named j l t u, i.named k l s u here, i.named j k t s)

  -- The pid stays, or there is none before and after.
  pub keep-Inv : (h' : History) → pid s' ≡ pid s → Keeps h h' → Inv m' next pids h'
  keep-Inv h' same kept = record {
    keyed = changed-keyed;
    named = changed-named;
    indexed = λ j p e. ground (arith, c j, here, i.indexed j p);
    owned = λ j p e. ground (arith, c j, here, i.owned j p);
    live = λ p j e. kept p (i.live p j e);
  }

  -- The service gets a pid that no child had.
  pub start-Inv :
      (h' : History) (p : ℕ)
      → pid s ≡ none
      → pid s' ≡ some p
      → is_child p h ≡ false
      → is_child p h' ≡ true
      → Keeps h h'
      → Inv m' next (insert p k pids) h'
  start-Inv h' p before after fresh born kept = record {
    keyed = changed-keyed;
    named = changed-named;
    indexed = λ j q e. ground (arith, c j, here, get-insert q p k pids, i.indexed j q, i.live q j);
    owned = λ j q e. ground (arith, c j, here, get-insert q p k pids, i.owned j q, i.live q j);
    live = λ q j e. ground (arith, get-insert q p k pids, kept q, i.live q j);
  }

  -- The service's process is reaped.
  pub reap-Inv :
      (h' : History) (p : ℕ)
      → pid s ≡ some p
      → pid s' ≡ none
      → ((q : ℕ) → q ≢ p → is_child q h ≡ true → is_child q h' ≡ true)
      → Inv m' next (remove p pids) h'
  reap-Inv h' p before after kept = record {
    keyed = changed-keyed;
    named = changed-named;
    indexed = λ j q e.
        ground
          (arith, c j, here, get-remove q p pids, i.indexed j q, i.indexed k p (rw here before));
    owned = λ j q e.
        ground (arith, c j, here, get-remove q p pids, i.owned j q, i.indexed k p (rw here before));
    live = λ q j e. ground (arith, get-remove q p pids, kept q, i.live q j);
  }

module _ {m : Map ℕ Service} {next : ℕ} {pids : Map ℕ ℕ} {h : History} (i : Inv m next pids h) where
  -- A service with no pid is dropped.
  pub drop-Inv :
      (k : ℕ) (s : Service) (m' : Map ℕ Service)
      → get k m ≡ some s
      → pid s ≡ none
      → Changed k none m m'
      → Inv m' next pids h
  drop-Inv k s m' here idle c = record {
    keyed = λ j t e. ground (arith, c j, i.keyed j t);
    named = λ j l t u e f n. ground (arith, c j, c l, i.named j l t u);
    indexed = λ j p e. ground (arith, c j, i.indexed j p);
    owned = λ j p e. ground (arith, c j, here, i.owned j p);
    live = i.live;
  }

  -- A stopped service under the next id and a new name.
  pub add-Inv :
      (s : Service) (m' : Map ℕ Service)
      → s.id ≡ next
      → pid s ≡ none
      → ((j : ℕ) (t : Service) → get j m ≡ some t → t.name ≢ s.name)
      → Changed next (some s) m m'
      → Inv m' (suc next) pids h
  add-Inv s m' new_id idle new_name c = record {
    keyed = λ j t e. ground (arith, c j, i.keyed j t);
    named = λ j l t u e f n. ground (arith, c j, c l, i.named j l t u, new_name j t, new_name l u);
    indexed = λ j p e. ground (arith, c j, i.indexed j p);
    owned = λ j p e. elim (Option-cases (get j m)) [
      | inl q ↦ ground (arith, q, i.owned j p e)
      | inr (t, q) ↦ ground (arith, c j, q, i.keyed j t q, i.owned j p e)
    ];
    live = i.live;
  }

  -- An id is used up.
  pub grow-Inv : Inv m (suc next) pids h
  grow-Inv = record {
    keyed = λ j t e. ground (arith, i.keyed j t e);
    named = i.named;
    indexed = i.indexed;
    owned = i.owned;
    live = i.live;
  }

  -- Only the history grows.
  pub history-Inv : (h' : History) → Keeps h h' → Inv m next pids h'
  history-Inv h' kept = record {
    keyed = i.keyed;
    named = i.named;
    indexed = i.indexed;
    owned = i.owned;
    live = λ p j e. kept p (i.live p j e);
  }

-- A pid that has left the registry.
pub forget-Inv :
    {m : Map ℕ Service} {next : ℕ} {pids : Map ℕ ℕ} {h : History} (p : ℕ) (h' : History)
    → Inv m next pids h
    → get p pids ≡ none
    → ((q : ℕ) → q ≢ p → is_child q h ≡ true → is_child q h' ≡ true)
    → Inv m next pids h'
forget-Inv p h' i gone kept = record {
  keyed = i.keyed;
  named = i.named;
  indexed = i.indexed;
  owned = i.owned;
  live = λ q j e. ground (arith, kept q, i.live q j e);
}
