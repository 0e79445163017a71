-- ===== src/Reload/NewService.antt =====
-- A new service in a reload: a new id, a new name and a pid of its own.
use svlopp.Prelude.{
  ℕ, suc, ◌+◌, ◌^◌, ltb, ◌≡◌, ◌≢◌, refl, true, false, Option, none, some, arith, nat_eq, list_eq,
  Text, if_cases, inl, inr, subst, nat_beq_iff, sym, ap, ◌∙◌, Result, ok, err,
}
use svlopp.Prelude.Maps.{Map, get, insert, get-insert, insert-Distinct}
use svlopp.Os.{Os, SigSet, History, ForkIsFresh, Keeps, is_child}
use mathlib.Core.Path.{subst₂}
use svlopp.Service.Types.{running, stopped}
use svlopp.Service.Config.{ServiceConfig}
use svlopp.Service.Methods.{Service, ServiceIdGen, pid, new, nextval}
use svlopp.Service.Created.{new-fields, new-state}
use svlopp.Service.Process.{Outcome}
use svlopp.Service.Process.Life.{Goes, start_service-Goes}
use svlopp.Service.Process.Outcomes.{Started, start_service-Started}
use svlopp.Prelude.Maps.Loop.{Changed}
use svlopp.Lifecycle
use svlopp.Lifecycle.{Steps, Steps-trans, Passes, unused, live, create, here, Follows}
use svlopp.Lifecycle.Changes.{Inv-AreGiven, Follows-refl}
use svlopp.Lifecycle.Registry.{grown-Follows, spent-Follows}
use svlopp.Service.Types.{never_started}
use svlopp.Registry.Defs.{ServiceRegistry, insert_service, register_started}
use svlopp.Registry.Invariant.{IsConsistent, Inv, add-Inv, start-Inv, grow-Inv, history-Inv}
use svlopp.Reload.{Reloaded, insert_started, start_new, add_new}
use svlopp.Reload.Names.{IsFree, entry_name}

-- The state after a step of the second loop; `name` is the only new name, and ids follow their
-- lives.
pub record Adds (name : Text) (next : ℕ) (m : Map ℕ Service) (h : History) (out : Reloaded)
    : Type 0 where
  pub consistent : IsConsistent out.1 out.2 out.3
  pub names :
      (j : ℕ) (x : Text)
      → x ≢ name
      → entry_name (get j out.1.services_map) ≡ some x
      → entry_name (get j m) ≡ some x
  pub stages : Follows next m h out.2 out.1.services_map out.3

-- A started service that is inserted under the next id, its pid registered.
inserted-Inv :
    (m : Map ℕ Service) (next : ℕ) (pids : Map ℕ ℕ) (s : Service) (p : ℕ) (h h' : History)
    → Inv m next pids h
    → s.id ≡ next
    → IsFree s.name m
    → pid s ≡ none
    → is_child p h ≡ false
    → is_child p h' ≡ true
    → Keeps h h'
    → Inv (insert next (record s { state = running p }) m) (suc next) (insert p next pids) h'
inserted-Inv m next pids s p h h' v i free idle new_pid born kept =
    start-Inv next s (record s { state = running p }) _
      (add-Inv v s (insert next s m) i idle (λ j t e q. free j (ap entry_name e ∙ ap some q))
        (λ j. get-insert j next s m))
      (ground (arith, get-insert next next s m, nat_beq_iff next next)) refl refl
      (λ j.
        ground (arith, get-insert j next s m, get-insert j next (record s { state = running p }) m))
      h' p idle refl new_pid born kept

module _ (name : Text) (next : ℕ) (registry : ServiceRegistry) where
  inserted-Adds :
      (s : Service) (p : ℕ) (h h' : History)
      → IsConsistent registry next h
      → IsFree name registry.services_map
      → s.id ≡ next
      → s.name ≡ name
      → pid s ≡ none
      → is_child p h ≡ false
      → is_child p h' ≡ true
      → Keeps h h'
      → Steps unused h (live (running p)) h'
      → Passes h h'
      → Adds name next registry.services_map h
          (insert_started next (ok tt, record s { state = running p }, h') registry (next + 1))
  unfolding insert_started insert_service register_started
  inserted-Adds s p h h' c free i n idle new_pid born kept steps pass = record {
    consistent = record {
      distinct = insert-Distinct s.id _ registry.services_map c.distinct;
      inv =
          subst₂
            (λ k l.
              Inv (insert k (record s { state = running p }) registry.services_map) l
                (insert p next registry.pids_map) h')
            (sym i) (omega arith)
            (inserted-Inv registry.services_map next registry.pids_map s p h h' c.inv i
              (subst (λ x. IsFree x registry.services_map) (sym n) free) idle new_pid born kept);
    };
    names = λ j x ne e.
        ground (arith, get-insert j s.id (record s { state = running p }) registry.services_map);
    stages =
        grown-Follows next (some (record s { state = running p })) registry.services_map _
          (Inv-AreGiven c.inv)
          (subst
            (λ k.
              Changed k (some (record s { state = running p })) registry.services_map
                (insert s.id (record s { state = running p }) registry.services_map))
            i (λ j. get-insert j s.id (record s { state = running p }) registry.services_map))
          steps pass;
  }

  grown-Adds :
      (r : Result (Unit {0})) (h h' : History)
      → IsConsistent registry next h
      → Keeps h h'
      → Passes h h'
      → Adds name next registry.services_map h (r, registry, next + 1, h')
  grown-Adds r h h' c kept pass = record {
    consistent = record {
      distinct = c.distinct;
      inv =
          subst (λ l. Inv registry.services_map l registry.pids_map h') (omega arith)
            (grow-Inv (history-Inv c.inv h' kept));
    };
    names = λ j x ne e. e;
    stages = spent-Follows next registry.services_map (Inv-AreGiven c.inv) pass;
  }

  insert_started-Adds :
      (s : Service) (h : History) (out : Outcome)
      → IsConsistent registry next h
      → IsFree name registry.services_map
      → s.id ≡ next
      → s.name ≡ name
      → pid s ≡ none
      → Started s h out
      → s.state ≡ stopped never_started
      → Goes s h out
      → Adds name next registry.services_map h (insert_started next out registry (next + 1))
  unfolding insert_started
  insert_started-Adds s h (r, s', h') c free i n idle (inl (p, e, f, new_pid, born, kept)) at_first
        (steps, pass) =
      subst₂
        (λ x t.
          Adds name next registry.services_map h
            (insert_started next (x, t, h') registry (next + 1)))
        (sym e) (sym f)
        (inserted-Adds s p h h' c free i n idle new_pid born kept
          (Steps-trans
            (subst (λ x. Steps unused h (live x) h) (sym at_first) (Lifecycle.next here create))
            (subst (λ t. Steps (live s.state) h (live t.state) h') f
              (steps never_started at_first)))
          pass)
  insert_started-Adds s h (r, s', h') c free i n idle (inr (x, e, f, kept)) at_first (steps, pass) =
      subst
        (λ x.
          Adds name next registry.services_map h
            (insert_started next (x, s', h') registry (next + 1)))
        (sym e) (grown-Adds (err x) h h' c kept pass)

  module _ (os : Os) (fresh : ForkIsFresh os) (sigset : SigSet) (cfg : ServiceConfig) (h : History)
      (c : IsConsistent registry next h) (free : IsFree name registry.services_map) where
    start_new-Adds :
        (r : Result Service)
        → new next name cfg ≡ r
        → Adds name next registry.services_map h (start_new os sigset next r registry (next + 1) h)
    unfolding start_new
    start_new-Adds (err x) e = grown-Adds (err x) h h c (λ q a. a) (λ a. here)
    start_new-Adds (ok s) e =
        let (i, n, idle) = new-fields next name cfg s e in
        insert_started-Adds s h _ c free i n idle (start_service-Started os fresh s sigset h)
          (new-state next name cfg s e) (start_service-Goes os s sigset h)

    pub add_new-Adds :
        Adds name next registry.services_map h
          (add_new os sigset name cfg (nextval next) registry h)
    unfolding add_new nextval
    add_new-Adds =
        if_cases
          (λ (t : Option ℕ × ServiceIdGen).
            Adds name next registry.services_map h (add_new os sigset name cfg t registry h))
          (ltb (next + 1) (2 ^ 64)) _ _ (λ _. start_new-Adds (new next name cfg) refl)
          (λ _. record {
            consistent = c;
            names = λ j x ne e. e;
            stages = Follows-refl next registry.services_map;
          })
