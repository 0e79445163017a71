-- ===== src/Lifecycle/Registry.antt =====
-- Starting, stopping and replacing a service of the registry follow its life; so does a new id.
use svlopp.Prelude.{
  ℕ, ◌+◌, ◌≡◌, sym, ap, ap₂, ◌∙◌, subst, true, false, ◌==◌, ltb, Option, none, some, nat_eq, arith,
  Bool-cases, Option-cases, inl, inr, nat_beq_iff, if◌then◌else◌,
}
use mathlib.Core.Path.{subst₂}
use svlopp.Prelude.Maps.{Map, get, get-insert}
use svlopp.Prelude.Maps.Loop.{Changed}
use svlopp.Os.{Os, SigSet, History}
use svlopp.Service.Types.{stopped, ServiceStopReason}
use svlopp.Service.Methods.{Service}
use svlopp.Service.Process.{start_service, stop_service}
use svlopp.Registry.Defs.{ServiceRegistry, service, put_service, start_registered, stop_registered}
use svlopp.Service.Process.Life.{start_service-Goes, stop_service-Stops}
use svlopp.Lifecycle
use svlopp.Lifecycle.{
  spend, unused, live, Steps, Steps-trans, Passes, removed, here, stage, stage_of, Follows,
}
use svlopp.Lifecycle.Changes.{AreGiven, after, stage_of-after, changed-Follows}

module _ (n k : ℕ) (svc s : Service) (registry : ServiceRegistry)
    (given : AreGiven n registry.services_map) (entry : service k registry ≡ some svc)
    (same : s.state ≡ svc.state) where
  pub put_service-Follows :
      {h : History} → Follows n registry.services_map h n (put_service k s registry).services_map h
  put_service-Follows {h} =
      changed-Follows n k svc (some s) registry.services_map _ entry (given k svc entry)
        (λ j. get-insert j k s registry.services_map)
        (subst (λ x. Steps (live svc.state) h (live x) h) (sym same) here) (λ a. here)

  pub start_registered-Follows :
      (os : Os) (id : ℕ) (sigset : SigSet) (h : History) (r : ServiceStopReason)
      → svc.state ≡ stopped r
      → let out = start_registered os k id s sigset registry h in
        Follows n registry.services_map h n out.1.services_map out.2
  unfolding start_registered
  start_registered-Follows os id sigset h r e =
      let out = start_service os s sigset h in
      let (steps, pass) = start_service-Goes os s sigset h in
      changed-Follows n k svc _ registry.services_map _ entry (given k svc entry)
        (λ j. get-insert j k _ registry.services_map)
        (subst (λ x. Steps (live x) h (live out.1.state) out.2) same (steps r (same ∙ e))) pass

  pub stop_registered-Follows :
      (os : Os) (h : History)
      → let out = stop_registered os k s registry h in
        Follows n registry.services_map h n out.1.services_map out.2
  unfolding stop_registered
  stop_registered-Follows os h =
      let out = stop_service os s h in
      let (steps, pass) = stop_service-Stops os s h in
      changed-Follows n k svc _ registry.services_map _ entry (given k svc entry)
        (λ j. get-insert j k _ registry.services_map)
        (subst (λ x. Steps (live x) h (live out.1.state) out.2) same steps) pass

-- The next id is given, to a service or to none.
pub grown-Follows :
    {h h' : History} (n : ℕ) (o : Option Service) (m m' : Map ℕ Service)
    → AreGiven n m
    → Changed n o m m'
    → Steps unused h (after o) h'
    → Passes h h'
    → Follows n m h (n + 1) m' h'
grown-Follows {h} {h'} n o m m' given c steps pass j = elim (Bool-cases (n == j)) [
  | inl p ↦
      let before : get j m ≡ none = elim (Option-cases (get j m)) [
        | inl q ↦ q
        | inr (s, q) ↦
            let same : n ≡ j = (nat_beq_iff n j).0 p in absurd (omega (arith, given j s q))
      ] in
      let then_is : get j m' ≡ o = c j ∙ ap (λ b. if b then o else get j m) p in
      let was : ltb j n ≡ false = ground (arith, p) in
      let is : ltb j (n + 1) ≡ true = ground (arith, p) in
      subst₂ (λ a b. Steps a h b h') (sym (ap₂ stage_of before was))
        (sym (ap₂ stage_of then_is is ∙ stage_of-after o)) steps
  | inr p ↦
      let then_is : get j m' ≡ get j m = c j ∙ ap (λ b. if b then o else get j m) p in
      let same : ltb j (n + 1) ≡ ltb j n = ground (arith, p) in
      subst (λ x. Steps (stage n m j) h x h') (sym (ap₂ stage_of then_is same)) (pass (stage n m j))
]

-- The next id is given, and no service gets it.
pub spent-Follows :
    {h h' : History} (n : ℕ) (m : Map ℕ Service)
    → AreGiven n m
    → Passes h h'
    → Follows n m h (n + 1) m h'
spent-Follows n m given pass =
    grown-Follows n none m m given
      (λ j. elim (Option-cases (get j m)) [
        | inl q ↦ ground (arith, nat_beq_iff n j)
        | inr (s, q) ↦ ground (arith, nat_beq_iff n j, given j s q)
      ])
      (Steps-trans (Lifecycle.next here spend) (pass removed)) pass
