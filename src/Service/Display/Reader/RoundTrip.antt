-- ===== src/Service/Display/Reader/RoundTrip.antt =====
-- What `format_status` writes is read back, line by line.
use svlopp.Prelude.{
  ℕ, ◌≡◌, refl, arith, true, none, some, List, [], ◌∷◌, ◌++◌, nat_eq, list_eq, list_beq, Text,
  codes, All-append,
}
use svlopp.Prelude.Maps.{Map}
use svlopp.Prelude.Maps.Loop.{AllValues}
use mathlib.Core.List.{append_assoc}
use svlopp.Service.Types.{ServiceState, stopped, running, stopping}
use svlopp.Service.Methods.{Service}
use svlopp.Registry.Defs.{ServiceRegistry}
use svlopp.Service.Display.{
  decimal, stop_reason_text, state_text, format_status_line, format_lines, format_status,
}
use svlopp.Service.Display.Decimal.{read_decimal-decimal}
use svlopp.Service.Display.Reader.{
  Shown, ended, runs, stops, StatusLine, split, read_state, read_line, read_lines, read_status,
}
use svlopp.Service.Display.Reader.Pieces.{Avoids, split-word, split-last}
use svlopp.Service.Display.Reader.Words.{
  is_word, is_word-Avoids, decimal-is_word, stop_reason_text-is_word,
}
use svlopp.Service.Display.Reader.Reasons.{read_reason-stop_reason_text}

-- The two words of a state.
abbrev state_word : ServiceState → Text
state_word (stopped r) = codes "stopped"
state_word (running p) = codes "running"
state_word (stopping p _) = codes "stopping"

abbrev detail : ServiceState → Text
detail (stopped r) = stop_reason_text r
detail (running p) = decimal p
detail (stopping p _) = decimal p

-- What the file says of a state: the deadline of a stop is not in it.
abbrev pub shown : ServiceState → Shown
shown (stopped r) = ended r
shown (running p) = runs p
shown (stopping p _) = stops p

abbrev pub status_line : Service → StatusLine
status_line svc = record { name = svc.name; id = svc.id; shown = shown svc.state }

-- A name that is one word on one line.
abbrev pub IsOneWord : Service → Type 0
IsOneWord svc = Avoids b' ' svc.name × Avoids 10 svc.name

read_state-state_text : (s : ServiceState) → read_state (state_word s) (detail s) ≡ some (shown s)
unfolding read_state list_beq
read_state-state_text (stopped r) = rw (read_reason-stop_reason_text r)
read_state-state_text (running p) = rw (read_decimal-decimal p)
read_state-state_text (stopping p d) = rw (read_decimal-decimal p)

detail-is_word : (s : ServiceState) → is_word (detail s) ≡ true
detail-is_word (stopped r) = stop_reason_text-is_word r
detail-is_word (running p) = decimal-is_word p
detail-is_word (stopping p d) = decimal-is_word p

state_text-words : (s : ServiceState) → state_text s ≡ state_word s ++ b' ' ∷ detail s
unfolding state_text
state_text-words (stopped r) = refl
state_text-words (running p) = refl
state_text-words (stopping p d) = refl

state_word-is_word : (s : ServiceState) → is_word (state_word s) ≡ true
state_word-is_word (stopped r) = refl
state_word-is_word (running p) = refl
state_word-is_word (stopping p d) = refl

split-format_status_line :
    (svc : Service)
    → Avoids b' ' svc.name
    → split b' ' (format_status_line svc)
      ≡ svc.name ∷ decimal svc.id ∷ state_word svc.state ∷ detail svc.state ∷ []
unfolding format_status_line
split-format_status_line svc a =
    rw
      (
        append_assoc svc.name (b' ' ∷ decimal svc.id) (b' ' ∷ state_text svc.state),
        split-word b' ' svc.name (decimal svc.id ++ b' ' ∷ state_text svc.state) a,
        split-word b' ' (decimal svc.id) (state_text svc.state)
            (is_word-Avoids b' ' _ (omega arith) (decimal-is_word svc.id)),
        state_text-words svc.state,
        split-word b' ' (state_word svc.state) (detail svc.state)
            (is_word-Avoids b' ' _ (omega arith) (state_word-is_word svc.state)),
        split-last b' ' (detail svc.state)
            (is_word-Avoids b' ' _ (omega arith) (detail-is_word svc.state)),
      )
      refl

read_line-format_status_line :
    (svc : Service)
    → Avoids b' ' svc.name
    → read_line (split b' ' (format_status_line svc)) ≡ some (status_line svc)
unfolding read_line
read_line-format_status_line svc a =
    rw
      (split-format_status_line svc a, read_decimal-decimal svc.id, read_state-state_text svc.state)

space-ne-newline : ¬ (◌≡◌ {A = ℕ} b' ' 10)
space-ne-newline e = absurd (omega arith)

-- No line ends early.
format_status_line-Avoids :
    (svc : Service) → Avoids 10 svc.name → Avoids 10 (format_status_line svc)
unfolding format_status_line
format_status_line-Avoids svc a =
    All-append _ (svc.name ++ b' ' ∷ decimal svc.id) (b' ' ∷ state_text svc.state)
      (All-append _ svc.name (b' ' ∷ decimal svc.id) a
        (space-ne-newline, is_word-Avoids 10 _ (omega arith) (decimal-is_word svc.id)))
      (
        space-ne-newline,
        rw (state_text-words svc.state) (
            All-append _ (state_word svc.state) _
              (is_word-Avoids 10 _ (omega arith) (state_word-is_word svc.state))
              (space-ne-newline, is_word-Avoids 10 _ (omega arith) (detail-is_word svc.state))),
      )

read_line-blank : read_line (split b' ' []) ≡ none
unfolding read_line split
read_line-blank = refl

read_lines-cons :
    (line : Text) (lines : List Text) (l : StatusLine) (ls : List StatusLine)
    → read_line (split b' ' line) ≡ some l
    → read_lines lines ≡ some ls
    → read_lines (line ∷ lines) ≡ some (l ∷ ls)
unfolding read_lines
read_lines-cons [] lines l ls p q = absurd (cc (read_line-blank))
read_lines-cons (c ∷ cs) lines l ls p q = rw (p, q)

abbrev pub status_lines : Map ℕ Service → List StatusLine
status_lines [] = []
status_lines ((k, svc) ∷ m) = status_line svc ∷ status_lines m

read_lines-format_lines :
    (m : Map ℕ Service)
    → AllValues IsOneWord m
    → read_lines (split 10 (format_lines m)) ≡ some (status_lines m)
unfolding format_lines read_lines split
read_lines-format_lines [] v = refl
read_lines-format_lines ((k, svc) ∷ m) ((a, b), v) =
    rw (split-word 10 (format_status_line svc) (format_lines m) (format_status_line-Avoids svc b)) (
      read_lines-cons (format_status_line svc) (split 10 (format_lines m)) _ _
        (read_line-format_status_line svc a) (read_lines-format_lines m v))

-- Where no name has a space or a newline in it, the status text is read back by a reader that
-- splits it into lines and words, as each service's name, its id and its state with the pid, or
-- with the stop reason and its number.
pub read_status-format_status :
    (registry : ServiceRegistry)
    → AllValues IsOneWord registry.services_map
    → read_status (format_status registry) ≡ some (status_lines registry.services_map)
unfolding read_status format_status
read_status-format_status registry v = read_lines-format_lines registry.services_map v
