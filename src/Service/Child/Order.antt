-- ===== src/Service/Child/Order.antt =====
-- When the program of a service starts, everything before it has been done.
use svlopp.Prelude.{
  ◌≡◌, refl, sym, subst, ap, ap₂, none, some, Text, ◌⊎◌, inl, inr, Option, List, [], ◌∷◌, Result,
  ok, err, Error, Bool-cases, nat_eq,
}
use mathlib.Core.Path.{subst₂}
use svlopp.Os.{SigSet}
use svlopp.Sys.{Kernel, SysCall, Trace, Fd, ℤ, execvp, execvpe}
use svlopp.Service.Methods.{Service}
use svlopp.Service.Child.{Child, became, left, exec_call, c_array, first, child_exec}
use svlopp.Service.Child.Plan.{Step, call_of, make, make-recorded, plan, follow, child_exec-plan}

-- The calls were made in order after those of `h`, nothing else was called, and none failed.
abbrev pub AreDone : List Step → Trace → Trace → Type 0
AreDone [] h h' = h' ≡ h
AreDone (step ∷ steps) h h' = (v : ℤ) × AreDone steps ((call_of step, ok v) ∷ h) h'

-- The last call of the trace failed.
abbrev pub LastFailed : Trace → Type 0
LastFailed h = (call : SysCall) × (e : Error) × (before : Trace) × (h ≡ (call, err e) ∷ before)

-- The strings, and a null pointer behind the last.
abbrev pub terminated : List Text → List (Option Text)
terminated [] = none ∷ []
terminated (s ∷ strings) = some s ∷ terminated strings

-- The program that the arguments name, looked for in `PATH`: with them, and with the environment
-- where there is one, in which case it gets no other.
abbrev pub program_of : List Text → Option (List Text) → SysCall
program_of [] none = execvp none (none ∷ [])
program_of [] (some env) = execvpe none (none ∷ []) (terminated env)
program_of (name ∷ args) none = execvp (some name) (some name ∷ terminated args)
program_of (name ∷ args) (some env) =
    execvpe (some name) (some name ∷ terminated args) (terminated env)

c_array-terminated : (strings : List Text) → c_array strings ≡ terminated strings
c_array-terminated [] = refl
c_array-terminated (s ∷ strings) =
    ap (λ (ps : List (Option Text)). some s ∷ ps) (c_array-terminated strings)

exec_program :
    (argv : List Text) (envp : Option (List Text))
    → (elim envp [
      | none ↦ execvp (first (c_array argv)) (c_array argv)
      | some env ↦ execvpe (first (c_array argv)) (c_array argv) (c_array env)
    ])
      ≡ program_of argv envp
exec_program [] none = refl
exec_program [] (some env) = ap (execvpe none (none ∷ [])) (c_array-terminated env)
exec_program (name ∷ args) none =
    ap (λ (ps : List (Option Text)). execvp (some name) (some name ∷ ps)) (c_array-terminated args)
exec_program (name ∷ args) (some env) =
    ap₂ (λ (ps e : List (Option Text)). execvpe (some name) (some name ∷ ps) e)
      (c_array-terminated args) (c_array-terminated env)

exec_call-program : (svc : Service) → exec_call svc ≡ program_of svc.argv svc.envp
unfolding exec_call
exec_call-program svc = exec_program svc.argv svc.envp

-- The program that was started is the service's, with every step of the plan done; code 127 says
-- that only the program did not start, and code 111 that a step failed.
abbrev pub IsPlanned : List Step → SysCall → Trace → Child → Type 0
IsPlanned steps program h (became call, h') = (call ≡ program) × AreDone steps h h'
IsPlanned steps program h (left code, h') =
    ((code ≡ 127) × AreDone steps h h') ⊎ ((code ≡ 111) × LastFailed h')

module _ (kernel : Kernel) (program : SysCall) where
  IsPlanned-cons :
      (step : Step) (steps : List Step) (v : ℤ) (h : Trace) (out : Child)
      → IsPlanned steps program ((call_of step, ok v) ∷ h) out
      → IsPlanned (step ∷ steps) program h out
  IsPlanned-cons step steps v h (became call, h') (e, d) = (e, (v, d))
  IsPlanned-cons step steps v h (left code, h') (inl (e, d)) = inl (e, (v, d))
  IsPlanned-cons step steps v h (left code, h') (inr f) = inr f

  after_call :
      (step : Step) (steps : List Step) (h h' : Trace) (r : Result ℤ)
      → h' ≡ (call_of step, r) ∷ h
      → IsPlanned steps program h' (follow kernel steps program h')
      → IsPlanned
          (step ∷ steps)
          program
          h
          (elim r [ ok _ ↦ follow kernel steps program h' | err _ ↦ (left 111, h') ])
  after_call step steps h h' (ok v) e p =
      IsPlanned-cons step steps v h _
        (subst (λ t. IsPlanned steps program t (follow kernel steps program h')) e p)
  after_call step steps h h' (err x) e p = inr (refl, (call_of step, x, h, e))

  follow-IsPlanned :
      (steps : List Step) (h : Trace) → IsPlanned steps program h (follow kernel steps program h)
  follow-IsPlanned [] h = elim (Bool-cases (kernel.replaces h program)) [
    | inl e ↦ rw e (refl, refl)
    | inr e ↦ rw e (inl (refl, refl))
  ]
  follow-IsPlanned (step ∷ steps) h =
      let (r, h') = make kernel step h in
      after_call step steps h h' r (make-recorded kernel step h) (follow-IsPlanned steps h')

-- If the child becomes a program, it is the one that the first argument of the service names, with
-- all its arguments and, where the service has an environment, with that alone, each array ended
-- by a null pointer, and exactly the calls of the plan were made before, in order, each with
-- success; if it leaves with 127 they were made with success too, and otherwise it leaves with 111
-- right after a call that failed.
pub child_exec-IsPlanned :
    (kernel : Kernel) (svc : Service) (sigset : SigSet) (devnull_fd : Fd) (log_fd : Option Fd)
    (h : Trace)
    → IsPlanned
        (plan svc sigset devnull_fd log_fd)
        (program_of svc.argv svc.envp)
        h
        (child_exec kernel svc sigset devnull_fd log_fd h)
child_exec-IsPlanned kernel svc sigset devnull_fd log_fd h =
    let steps = plan svc sigset devnull_fd log_fd in
    subst₂ (λ program out. IsPlanned steps program h out) (exec_call-program svc)
      (sym (child_exec-plan kernel svc sigset devnull_fd log_fd h))
      (follow-IsPlanned kernel (exec_call svc) steps h)
