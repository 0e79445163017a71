-- ===== src/Sys/Rule.antt =====
-- The rule of a sequence of calls: what holds where each goes on, and where it fails.
use svlopp.Prelude.{◌≡◌, refl, ok, err, Result, ◌∷◌, Error}
use svlopp.Sys.{Kernel, Sys, SysCall, Trace, ℤ, and_sys, libc_call, rustix_call}

abbrev pub After :
    {A : Type 0} → (A → Trace → Type 0) → (Trace → Type 0) → Result A × Trace → Type 0
After Q E (ok a, h) = Q a h
After Q E (err e, h) = E h

pub and_sys-After :
    {A B : Type 0} (Q : A → Trace → Type 0) (R : B → Trace → Type 0) (E : Trace → Type 0)
    (out : Result A × Trace) (next : A → Sys B)
    → After Q E out
    → ((a : A) (h : Trace) → Q a h → After R E (next a h))
    → After R E (and_sys out next)
unfolding and_sys
and_sys-After Q R E (ok a, h) next q f = f a h q
and_sys-After Q R E (err e, h) next q f = q

module _ (kernel : Kernel) (call : SysCall) (Q : ℤ → Trace → Type 0) (E : Trace → Type 0)
    (h : Trace) (done : (v : ℤ) → Q v ((call, ok v) ∷ h))
    (failed : (e : Error) → E ((call, err e) ∷ h)) where
  recorded : (r : Result ℤ) → After Q E (r, (call, r) ∷ h)
  recorded (ok v) = done v
  recorded (err e) = failed e

  pub libc_call-After : After Q E (libc_call kernel call h)
  unfolding libc_call
  libc_call-After = recorded _

  pub rustix_call-After : After Q E (rustix_call kernel call h)
  unfolding rustix_call
  rustix_call-After = recorded _

pub After-map :
    {A : Type 0} (Q R : A → Trace → Type 0) (E : Trace → Type 0) (out : Result A × Trace)
    → After Q E out
    → ((a : A) (h : Trace) → Q a h → R a h)
    → After R E out
After-map Q R E (ok a, h) q f = f a h q
After-map Q R E (err e, h) q f = q

-- The calls made are those of the sequence.
pub After-made :
    {A : Type 0} (Q : A → Trace → Type 0) (E : Trace → Type 0) (out : Result A × Trace)
    → After Q E out
    → After (λ a h. Q a h × (h ≡ out.1)) E out
After-made Q E (ok a, h) q = (q, refl)
After-made Q E (err e, h) q = q
