-- ===== src/Service/Display/Reader/Words.antt =====
-- The numbers and reasons that are written are single words.
use svlopp.Prelude.{
  ℕ, ◌≤◌, ◌≡◌, refl, subst, arith, Bool, true, [], ◌∷◌, ◌++◌, ◌&&◌, ltb, nat_eq, list_eq, Text,
}
use mathlib.Core.List.{append_assoc, append-nil}
use svlopp.Service.Types.{
  exited, signaled, ServiceStopReason, never_started, supervisor_terminated, success, error,
  crashed, killed,
}
use svlopp.Service.Display.{decimal, stop_reason_text}
use svlopp.Service.Display.Decimal.{IsDigits, decimal-IsDigits}
use svlopp.Service.Display.Reader.Pieces.{Avoids}

-- All characters above the space.
abbrev pub is_word : Text → Bool
is_word [] = true
is_word (c ∷ cs) = ltb 32 c && is_word cs

pub is_word-Avoids : (c : ℕ) (t : Text) → c ≤ 32 → is_word t ≡ true → Avoids c t
is_word-Avoids c [] l w = tt
is_word-Avoids c (x ∷ t) l w = (ground arith, is_word-Avoids c t l (ground arith))

is_word-digits : (t rest : Text) → IsDigits t → is_word rest ≡ true → is_word (t ++ rest) ≡ true
is_word-digits [] rest d w = w
is_word-digits (c ∷ t) rest (d, ds) w = ground (arith, is_word-digits t rest ds w)

is_word-decimal : (n : ℕ) (rest : Text) → is_word rest ≡ true → is_word (decimal n ++ rest) ≡ true
is_word-decimal n rest = is_word-digits (decimal n) rest (decimal-IsDigits n)

pub decimal-is_word : (n : ℕ) → is_word (decimal n) ≡ true
decimal-is_word n =
    subst (λ t. is_word t ≡ true) (append-nil (decimal n)) (is_word-decimal n [] refl)

pub stop_reason_text-is_word : (r : ServiceStopReason) → is_word (stop_reason_text r) ≡ true
unfolding stop_reason_text
stop_reason_text-is_word never_started = refl
stop_reason_text-is_word success = refl
stop_reason_text-is_word (error n) = is_word-decimal n _ refl
stop_reason_text-is_word (crashed n) = is_word-decimal n _ refl
stop_reason_text-is_word (killed n) = is_word-decimal n _ refl
stop_reason_text-is_word (supervisor_terminated (exited n)) =
    rw (append_assoc (decimal n) (b')' ∷ []) (b')' ∷ [])) (is_word-decimal n _ refl)
stop_reason_text-is_word (supervisor_terminated (signaled n)) =
    rw (append_assoc (decimal n) (b')' ∷ []) (b')' ∷ [])) (is_word-decimal n _ refl)
