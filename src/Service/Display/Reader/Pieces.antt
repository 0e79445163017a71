-- ===== src/Service/Display/Reader/Pieces.antt =====
-- A text that is split at a character, word by word.
use svlopp.Prelude.{ℕ, ◌≡◌, ◌≢◌, refl, false, [], ◌∷◌, ◌++◌, Text, All, All-imp, arith, nat_eq}
use svlopp.Service.Display.Decimal.{is_digit, IsDigits}
use svlopp.Service.Display.Reader.{split, cons_first}

abbrev pub Avoids : ℕ → Text → Type 0
Avoids c = All (λ x. x ≢ c)

split-cons : (c x : ℕ) (xs : Text) → x ≢ c → split c (x ∷ xs) ≡ cons_first x (split c xs)
unfolding split
split-cons c x xs n = ground arith

split-sep : (c : ℕ) (xs : Text) → split c (c ∷ xs) ≡ [] ∷ split c xs
unfolding split
split-sep c xs = ground arith

split-nil : (c : ℕ) → split c [] ≡ [] ∷ []
unfolding split
split-nil c = refl

pub split-word : (c : ℕ) (w rest : Text) → Avoids c w → split c (w ++ c ∷ rest) ≡ w ∷ split c rest
split-word c [] rest a = split-sep c rest
split-word c (x ∷ w) rest (n, a) = rw (split-cons c x (w ++ c ∷ rest) n, split-word c w rest a)

pub split-last : (c : ℕ) (w : Text) → Avoids c w → split c w ≡ w ∷ []
split-last c [] a = split-nil c
split-last c (x ∷ w) (n, a) = rw (split-cons c x w n, split-last c w a)

pub digits-Avoids : (c : ℕ) (t : Text) → is_digit c ≡ false → IsDigits t → Avoids c t
digits-Avoids c t n = All-imp _ _ (λ x d e. ground arith) t
