-- ===== src/Supervisor/InSync.antt =====
-- The status file and the registry: what was last handed to `write_status_file`.
use svlopp.Prelude.{◌≡◌, refl, Option, none, some, [], ◌∷◌, Text}
use svlopp.Os.{History, status_written}
use svlopp.Service.Display.{format_status}
use svlopp.Supervisor.State.{Supervisor, flush_status_file}

-- The content that was last written.
abbrev pub last_status : History → Option Text
last_status [] = none
last_status (status_written t ∷ h) = some t
last_status (_ ∷ h) = last_status h

abbrev pub IsInSync : Supervisor → Type 0
IsInSync sv = last_status sv.history ≡ some (format_status sv.registry)

pub flush-IsInSync : (sv : Supervisor) → IsInSync (flush_status_file sv)
unfolding flush_status_file
flush-IsInSync sv = refl
