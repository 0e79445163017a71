-- ===== src/Service/Display/Reader/Reasons.antt =====
-- The reasons and the states that are written are read back.
use svlopp.Prelude.{
  ℕ, ◌≡◌, refl, false, some, [], ◌∷◌, ◌++◌, Text, All-append, arith, nat_eq, list_eq, list_beq,
}
use mathlib.Core.List.{append_assoc}
use svlopp.Service.Types.{
  exited, signaled, ServiceStopReason, never_started, supervisor_terminated, success, error,
  crashed, killed,
}
use svlopp.Service.Display.{decimal, stop_reason_text}
use svlopp.Service.Display.Decimal.{is_digit, read_decimal-decimal, decimal-IsDigits}
use svlopp.Service.Display.Reader.{split, read_argument, read_reason}
use svlopp.Service.Display.Reader.Pieces.{Avoids, split-word, split-last, digits-Avoids}

decimal-Avoids : (c n : ℕ) → is_digit c ≡ false → Avoids c (decimal n)
decimal-Avoids c n d = digits-Avoids c (decimal n) d (decimal-IsDigits n)

read_argument-decimal : (n : ℕ) (rest : Text) → read_argument (decimal n ++ b')' ∷ rest) ≡ some n
unfolding read_argument
read_argument-decimal n rest =
    rw (split-word b')' (decimal n) rest (decimal-Avoids _ n refl)) (read_decimal-decimal n)

-- A number, and what closes it, are one piece.
split-argument :
    (n : ℕ) (rest : Text)
    → Avoids b'(' rest
    → split b'(' (decimal n ++ rest) ≡ (decimal n ++ rest) ∷ []
split-argument n rest a =
    split-last b'(' _ (All-append _ (decimal n) rest (decimal-Avoids _ n refl) a)

close-Avoids : Avoids b'(' (b')' ∷ [])
close-Avoids = (λ e. absurd (omega arith), tt)

close_close-Avoids : Avoids b'(' (b')' ∷ b')' ∷ [])
close_close-Avoids = (λ e. absurd (omega arith), close-Avoids)

pub read_reason-stop_reason_text :
    (r : ServiceStopReason) → read_reason (stop_reason_text r) ≡ some r
unfolding read_reason split stop_reason_text list_beq
read_reason-stop_reason_text never_started = refl
read_reason-stop_reason_text success = refl
read_reason-stop_reason_text (error n) =
    rw (split-argument n (b')' ∷ []) close-Avoids, read_argument-decimal n [])
read_reason-stop_reason_text (crashed n) =
    rw (split-argument n (b')' ∷ []) close-Avoids, read_argument-decimal n [])
read_reason-stop_reason_text (killed n) =
    rw (split-argument n (b')' ∷ []) close-Avoids, read_argument-decimal n [])
read_reason-stop_reason_text (supervisor_terminated (exited n)) = rw (
  append_assoc (decimal n) (b')' ∷ []) (b')' ∷ []),
  split-argument n (b')' ∷ b')' ∷ []) close_close-Avoids,
  read_argument-decimal n (b')' ∷ []),
)
read_reason-stop_reason_text (supervisor_terminated (signaled n)) = rw (
  append_assoc (decimal n) (b')' ∷ []) (b')' ∷ []),
  split-argument n (b')' ∷ b')' ∷ []) close_close-Avoids,
  read_argument-decimal n (b')' ∷ []),
)
