-- ===== src/Examples/Published.antt =====
-- A run whose requests show in the status file.
use svlopp.Prelude.{
  some, list_beq, ℕ, arith, List, ◌∷◌, ◌≡◌, refl, [], Text, codes, list_eq, nat_eq, ok,
}
use svlopp.Prelude.Maps.{get, insert}
use svlopp.Os.{Os}
use svlopp.Control.{read_control_command, restart, command, bytes_read}
use svlopp.ControlOps.{apply_control_op}
use svlopp.Service.Config.{to_signal}
use svlopp.Service.Process.{stop_service}
use svlopp.Service.Display.{format_status}
use svlopp.Registry.Defs.{stop_registered}
use svlopp.Prelude.Maps.Loop.{AllValues}
use svlopp.Supervisor.InSync.{last_status}
use svlopp.Supervisor.State.{Supervisor, Flow, continues}
use svlopp.Supervisor.Startup.{startup}
use svlopp.Supervisor.Events.{rounds, round, on_events, on_event, on_pfd}
use svlopp.Supervisor.Events.InSync.{EndsInSync, rounds-EndsInSync}
use svlopp.Examples.Machine.{Script, machine, machine-IsLawful}
use svlopp.Service.Types.{killed}
use svlopp.Service.Display.Reader.{
  read_reason, ended, stops, split, read_lines, read_line, read_state, read_status,
}
use svlopp.Service.Display.Decimal.{read_decimal}
use svlopp.Service.Display.Reader.RoundTrip.{IsOneWord, status_lines, read_status-format_status}
use svlopp.Supervisor.Clients.{request, request-read}
use svlopp.Registry.Defs.{service}
use svlopp.Examples.Runs.{script, boot, db, two_services-Distinct}

-- In each round the control descriptor is ready, with a request to restart service 0.
abbrev asking : Script
asking = record script { events = 3 ∷ [] }

abbrev asked : Os
asked = machine asking

asked-startup : startup asked [] [] ≡ ok boot
unfolding boot startup
asked-startup = refl

rounds-EndsInSync_example : EndsInSync (rounds asked [] 3 1 boot)
rounds-EndsInSync_example = rounds-EndsInSync asked [] [] boot 3 1 asked-startup

abbrev of_flow : Flow → Supervisor
of_flow (continues sv) = sv
of_flow _ = boot

-- After one round: service 0 is stopping, to be restarted.
after : Supervisor
unfolding boot rounds round on_events on_event on_pfd read_control_command apply_control_op
    stop_service to_signal get insert stop_registered
after = of_flow (rounds asked [] 3 1 boot)

rounds-after : rounds asked [] 3 1 boot ≡ continues after
unfolding after
rounds-after = refl

after_text : format_status after.registry ≡ codes "web 0 stopping 1\ndb 1 running 2\n"
unfolding after format_status
after_text = refl

after-IsOneWord : AllValues IsOneWord after.registry.services_map
unfolding after
after-IsOneWord = ground arith

read_status-format_status_example :
    read_status (format_status after.registry) ≡ some (status_lines after.registry.services_map)
read_status-format_status_example = read_status-format_status after.registry after-IsOneWord

read_after :
    read_status (codes "web 0 stopping 1\ndb 1 stopped killed(15)\n")
    ≡ some (
        record { name = codes "web"; id = 0; shown = stops 1 }
        ∷ record { name = codes "db"; id = 1; shown = ended (killed 15) }
        ∷ [])
unfolding read_status list_beq read_lines split read_line read_decimal read_state read_reason
read_after = refl

after_db : service 1 after.registry ≡ some db
unfolding after get
after_db = refl

request-read_example :
    (text : Text) × (bytes : List ℕ) × (last_status after.history ≡ some text)
    × (request restart (codes "db") text ≡ some bytes)
    × (read_control_command (bytes_read bytes) ≡ command (record { service_id = 1; op = restart }))
request-read_example =
    request-read asked (machine-IsLawful asking two_services-Distinct) [] [] boot after 3 1 restart
      1 db asked-startup rounds-after after-IsOneWord after_db
