-- ===== src/Service/Display/Reader.antt =====
-- A reader of the status file in the form that README gives: a line for each service, four words
-- on a line. It is written from that description alone.
pub mod Pieces
pub mod Words
pub mod Reasons
pub mod RoundTrip
use svlopp.Prelude.{
  ℕ, ◌==◌, nat_eq, list_eq, Option, none, some, List, [], ◌∷◌, if◌then◌else◌, Text, codes,
}
use mathlib.Core.Option
use svlopp.Service.Types.{
  ExitReason, exited, signaled, ServiceStopReason, never_started, supervisor_terminated, success,
  error, crashed, killed,
}
use svlopp.Service.Display.Decimal.{read_decimal}

-- What a line says of a service's state.
pub data Shown : Type 0 where
  ended : ServiceStopReason → Shown
  runs stops : ℕ → Shown

pub record StatusLine : Type 0 where
  pub name : Text
  pub id : ℕ
  pub shown : Shown

abbrev cons_first : ℕ → List Text → List Text
cons_first c [] = (c ∷ []) ∷ []
cons_first c (w ∷ ws) = (c ∷ w) ∷ ws

-- The pieces of a text between the places of a character.
unfoldable pub split : ℕ → Text → List Text
split c [] = [] ∷ []
split c (x ∷ xs) = let rest = split c xs in if x == c then [] ∷ rest else cons_first x rest

abbrev head_text : List Text → Text
head_text [] = []
head_text (w ∷ ws) = w

-- The number before a closing parenthesis.
read_argument : Text → Option ℕ
read_argument t = read_decimal (head_text (split b')' t))

exit_reason_of : Text → Option ℕ → Option ExitReason
exit_reason_of w n =
    if w == codes "exited"
    then Option.map exited n
    else if w == codes "signaled"
    then Option.map signaled n
    else none

plain_reason : Text → Option ServiceStopReason
plain_reason w =
    if w == codes "never_started"
    then some never_started
    else if w == codes "success"
    then some success
    else none

reason_with : Text → Option ℕ → Option ServiceStopReason
reason_with w n =
    if w == codes "error"
    then Option.map error n
    else if w == codes "crashed"
    then Option.map crashed n
    else if w == codes "killed"
    then Option.map killed n
    else none

reason_of : List Text → Option ServiceStopReason
unfolding plain_reason reason_with exit_reason_of read_argument
reason_of (w ∷ []) = plain_reason w
reason_of (w ∷ n ∷ []) = reason_with w (read_argument n)
reason_of (w ∷ r ∷ n ∷ []) =
    if w == codes "supervisor_terminated"
    then Option.map supervisor_terminated (exit_reason_of r (read_argument n))
    else none
reason_of _ = none

unfoldable pub read_reason : Text → Option ServiceStopReason
unfolding reason_of
read_reason t = reason_of (split b'(' t)

unfoldable pub read_state : Text → Text → Option Shown
read_state state detail =
    if state == codes "running"
    then Option.map runs (read_decimal detail)
    else if state == codes "stopping"
    then Option.map stops (read_decimal detail)
    else if state == codes "stopped"
    then Option.map ended (read_reason detail)
    else none

line_of : Text → Option ℕ → Option Shown → Option StatusLine
line_of name (some id) (some shown) = some (record { name = name; id = id; shown = shown })
line_of name _ _ = none

unfoldable pub read_line : List Text → Option StatusLine
unfolding line_of
read_line (name ∷ id ∷ state ∷ detail ∷ []) =
    line_of name (read_decimal id) (read_state state detail)
read_line _ = none

and_lines : Option StatusLine → Option (List StatusLine) → Option (List StatusLine)
and_lines (some l) (some ls) = some (l ∷ ls)
and_lines _ _ = none

-- Empty lines are skipped.
unfoldable pub read_lines : List Text → Option (List StatusLine)
unfolding and_lines
read_lines [] = some []
read_lines ([] ∷ lines) = read_lines lines
read_lines ((c ∷ cs) ∷ lines) = and_lines (read_line (split b' ' (c ∷ cs))) (read_lines lines)

unfoldable pub read_status : Text → Option (List StatusLine)
read_status t = read_lines (split 10 t)
