-- ===== src/Prelude/Results.antt =====
-- `io::Result`, with the panics of `expect` beside the errors.
use Prim.Native.Nat.{ℕ}
use svlopp.Prelude.Lists.{Text}

-- The errors that the program's own code makes or passes on; `errno` is the operating system's.
pub data Error : Type 0 where
  errno : ℕ → Error
  bad_config : Text → Error
  nul_byte id_overflow panic : Error

pub data Result {ℓ} (A : Type ℓ) : Type ℓ where
  ok : A → Result A
  err : Error → Result A

infixl 5 ◌>>=◌ ◌>>◌
abbrev pub ◌>>=◌ {ℓ κ} : {A : Type ℓ} {B : Type κ} → Result A → (A → Result B) → Result B
ok a >>= f = f a
err e >>= f = err e

abbrev pub ◌>>◌ {ℓ κ} : {A : Type ℓ} {B : Type κ} → Result A → Result B → Result B
m >> k = m >>= λ _. k
