-- ===== src/Supervisor/Clients.antt =====
-- A client of the supervisor, as README describes it: it reads the status file, finds the id of a
-- service by its name, and writes a frame with that id to the control FIFO.
use svlopp.Prelude.{
  ℕ, ◌==◌, nat_eq, list_eq, list_beq_iff, Bool-cases, inl, inr, ap, ◌≡◌, arith, Option, none, some,
  List, [], ◌∷◌, Text, ok, subst, if◌then◌else◌,
}
use svlopp.Prelude.Maps.{Map, get}
use svlopp.Prelude.Maps.Loop.{AllValues}
use svlopp.Os.{Os, SigSet, History}
use svlopp.Control.{ControlOp, command, bytes_read, read_control_command}
use svlopp.Control.Frames.{frame, read_control_command-frame}
use svlopp.Service.Methods.{Service}
use svlopp.Service.Display.{format_status}
use svlopp.Service.Display.Reader.{StatusLine, read_status}
use svlopp.Service.Display.Reader.RoundTrip.{IsOneWord, status_lines, read_status-format_status}
use svlopp.Registry.Defs.{ServiceRegistry, service}
use svlopp.Registry.Invariant.{IsConsistent}
use svlopp.Reload.Unchanged.{AllEntries, get-AllEntries}
use svlopp.Supervisor.State.{Supervisor, continues}
use svlopp.Supervisor.InSync.{last_status, IsInSync}
use svlopp.Supervisor.Startup.{startup}
use svlopp.Supervisor.Startup.Invariant.{startup-IsValid}
use svlopp.Supervisor.Invariant.{IsLawful, IsValid, EndsValid}
use svlopp.Supervisor.Events.{rounds}
use svlopp.Reload.Ids.{IsU64}
use svlopp.Supervisor.Startup.Ids.{startup-IsU64}
use svlopp.Supervisor.Events.Ids.{EndsU64, rounds-IsU64}
use svlopp.Supervisor.Events.InSync.{EndsInSync, rounds-EndsInSync}
use svlopp.Supervisor.Events.Invariant.{rounds-EndsValid}

resolve : Text → List StatusLine → Option ℕ
resolve name [] = none
resolve name (l ∷ ls) = let rest = resolve name ls in if l.name == name then some l.id else rest

frame_for : ControlOp → Option ℕ → Option (List ℕ)
frame_for op none = none
frame_for op (some k) = some (frame (record { service_id = k; op = op }))

resolve_in : Text → Option (List StatusLine) → Option ℕ
unfolding resolve
resolve_in name none = none
resolve_in name (some ls) = resolve name ls

-- What a client writes to ask for `op` on the service of a name, for the status file's text.
unfoldable pub request : ControlOp → Text → Text → Option (List ℕ)
unfolding frame_for resolve_in
request op name text = frame_for op (resolve_in name (read_status text))

-- The name belongs to the service of one id only.
abbrev IsOf : Text → ℕ → ℕ → Service → Type 0
IsOf name k j t = t.name ≡ name → t.id ≡ k

resolve-status_lines :
    (m : Map ℕ Service) (k : ℕ) (s : Service)
    → AllEntries (IsOf s.name k) m
    → get k m ≡ some s
    → resolve s.name (status_lines m) ≡ some k
unfolding resolve get
resolve-status_lines [] k s a e = ground arith
resolve-status_lines ((j, t) ∷ m) k s (h, a) e = elim (Bool-cases (t.name == s.name)) [
  | inl p ↦ rw p (ap some (h ((list_beq_iff t.name s.name).0 p)))
  | inr p ↦ rw p (resolve-status_lines m k s a (ground (arith, e, list_beq_iff t.name s.name)))
]

resolve-registry :
    (registry : ServiceRegistry) (next : ℕ) (h : History) (k : ℕ) (s : Service)
    → IsConsistent registry next h
    → service k registry ≡ some s
    → resolve s.name (status_lines registry.services_map) ≡ some k
resolve-registry registry next h k s c e =
    resolve-status_lines registry.services_map k s
      (get-AllEntries (IsOf s.name k) registry.services_map c.distinct
        (λ j t f n. ground (arith, c.inv.named j k t s f e n, c.inv.keyed j t f)))
      e

-- On a lawful operating system, after a startup that succeeds and any number of rounds of the loop
-- that go on, where no name has a space or a newline in it, a client that reads the status file
-- and looks a service up by its name makes a frame that read_control_command decodes as its
-- operation on exactly that service.
pub request-read :
    (os : Os)
    → IsLawful os
    → (sigset : SigSet) (h : History) (begin sv : Supervisor) (fuel n : ℕ) (op : ControlOp) (k : ℕ)
      (s : Service)
    → startup os sigset h ≡ ok begin
    → rounds os sigset fuel n begin ≡ continues sv
    → AllValues IsOneWord sv.registry.services_map
    → service k sv.registry ≡ some s
    → (text : Text) × (bytes : List ℕ) × (last_status sv.history ≡ some text)
      × (request op s.name text ≡ some bytes)
      × (read_control_command (bytes_read bytes) ≡ command (record { service_id = k; op = op }))
unfolding request
request-read os laws sigset h begin sv fuel n op k s e r w f =
    let sync : IsInSync sv = subst EndsInSync r (rounds-EndsInSync os sigset h begin fuel n e) in
    let small : IsU64 sv.id_gen =
      subst EndsU64 r (rounds-IsU64 os sigset fuel n begin (startup-IsU64 os sigset h begin e)) in
    let valid : IsValid sv =
      subst EndsValid r
        (rounds-EndsValid os laws sigset fuel n begin (startup-IsValid os laws sigset h begin e)) in
    (
      format_status sv.registry,
      frame (record { service_id = k; op = op }),
      sync,
      rw (
        read_status-format_status sv.registry w,
        resolve-registry sv.registry sv.id_gen sv.history k s valid f,
      ),
      read_control_command-frame (record { service_id = k; op = op })
          (omega (arith, valid.inv.keyed k s f)),
    )
