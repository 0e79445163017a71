-- ===== src/Lifecycle/Changes.antt =====
-- Changes of one service that follow the specification.
use svlopp.Prelude.{
  ℕ, ◌<◌, ◌≡◌, refl, sym, ap, ap₂, ◌∙◌, subst, true, ◌==◌, ltb, Option, none, some, nat_eq, arith,
  Bool-cases, inl, inr, nat_beq_iff, if◌then◌else◌,
}
use mathlib.Core.Path.{subst₂}
use svlopp.Prelude.Maps.{Map, get}
use svlopp.Prelude.Maps.Loop.{Changed}
use svlopp.Os.{History}
use svlopp.Service.Methods.{Service}
use svlopp.Registry.Invariant.{Inv}
use svlopp.Lifecycle.{
  Stage, live, removed, Steps, here, Steps-trans, Passes, stage, stage_of, Follows,
}

pub Follows-trans :
    {h h' h'' : History} (n n' n'' : ℕ) (m m' m'' : Map ℕ Service)
    → Follows n m h n' m' h'
    → Follows n' m' h' n'' m'' h''
    → Follows n m h n'' m'' h''
Follows-trans n n' n'' m m' m'' f g k = Steps-trans (f k) (g k)

-- All ids of the map were given.
abbrev pub AreGiven : ℕ → Map ℕ Service → Type 0
AreGiven n m = (k : ℕ) (s : Service) → get k m ≡ some s → k < n

-- The loop's statement: what it started from, and that the ids were given.
abbrev pub IsOnCourse : ℕ → Map ℕ Service → History → Map ℕ Service → History → Type 0
IsOnCourse n m0 h0 m h = AreGiven n m × Follows n m0 h0 n m h

-- The stage that an entry of the map leaves.
abbrev pub after : Option Service → Stage
after none = removed
after (some s) = live s.state

ltb-true : (k n : ℕ) → k < n → ltb k n ≡ true
ltb-true k n l = ground arith

pub stage_of-after : (o : Option Service) → stage_of o true ≡ after o
stage_of-after none = refl
stage_of-after (some s) = refl

module _ (n k : ℕ) (s : Service) (o : Option Service) (m m' : Map ℕ Service)
    (entry : get k m ≡ some s) (given : k < n) (c : Changed k o m m') where
  pub changed-Follows :
      {h h' : History} → Steps (live s.state) h (after o) h' → Passes h h' → Follows n m h n m' h'
  changed-Follows {h} {h'} steps pass j = elim (Bool-cases (k == j)) [
    | inl p ↦
        let same : k ≡ j = (nat_beq_iff k j).0 p in
        let before : get j m ≡ some s = subst (λ i. get i m ≡ some s) same entry in
        let then_is : get j m' ≡ o = c j ∙ ap (λ b. if b then o else get j m) p in
        subst₂ (λ a b. Steps a h b h') (sym (ap (λ x. stage_of x (ltb j n)) before))
          (sym (
            ap₂ stage_of then_is (ltb-true j n (subst (λ i. i < n) same given)) ∙ stage_of-after o))
          steps
    | inr p ↦
        let then_is : get j m' ≡ get j m = c j ∙ ap (λ b. if b then o else get j m) p in
        subst (λ x. Steps (stage n m j) h (stage_of x (ltb j n)) h') (sym then_is)
          (pass (stage n m j))
  ]

  changed-AreGiven : AreGiven n m → AreGiven n m'
  changed-AreGiven a j t e = ground (arith, c j, a j t, nat_beq_iff k j)

-- A turn of a loop over the map.
pub loop_turn-IsOnCourse :
    {h0 h h' : History} (n k : ℕ) (s : Service) (o : Option Service) (m0 m m' : Map ℕ Service)
    → IsOnCourse n m0 h0 m h
    → get k m ≡ some s
    → Changed k o m m'
    → Steps (live s.state) h (after o) h'
    → Passes h h'
    → IsOnCourse n m0 h0 m' h'
loop_turn-IsOnCourse n k s o m0 m m' (given, f) entry c steps pass = (
  changed-AreGiven n k s o m m' entry (given k s entry) c given,
  Follows-trans n n n m0 m m' f (changed-Follows n k s o m m' entry (given k s entry) c steps pass),
)

pub Inv-AreGiven :
    {m : Map ℕ Service} {n : ℕ} {pids : Map ℕ ℕ} {h : History} → Inv m n pids h → AreGiven n m
Inv-AreGiven i k s e = (i.keyed k s e).1

-- Calls at which the registry stays as it is.
pub Passes-Follows :
    {h h' : History} (n : ℕ) (m : Map ℕ Service) → Passes h h' → Follows n m h n m h'
Passes-Follows n m pass k = pass (stage n m k)

pub Follows-refl : {h : History} (n : ℕ) (m : Map ℕ Service) → Follows n m h n m h
Follows-refl n m k = here
