-- ===== src/Service/Paths.antt =====
-- `==` of two `PathBuf`s (`std::path`), which the derived `==` of `ServiceConfig` compares the paths
-- with: by their components.
use svlopp.Prelude.{ℕ, Bool, List, [], ◌∷◌, ◌==◌, ◌||◌, nat_eq, list_eq, Text, codes, if◌then◌else◌}

-- The first piece of a path with one more character before it.
prepend : ℕ → List Text → List Text
prepend c [] = (c ∷ []) ∷ []
prepend c (piece ∷ pieces) = (c ∷ piece) ∷ pieces

-- What stands between the separators.
unfoldable pub pieces : Text → List Text
unfolding prepend
pieces [] = [] ∷ []
pieces (c ∷ s) = let rest = pieces s in if c == b'/' then [] ∷ rest else prepend c rest

-- An empty piece (a repeated or a trailing separator) and a `.` are no components.
names : List Text → List Text
names [] = []
names (piece ∷ pieces) =
    let rest = names pieces in if (piece == []) || (piece == codes ".") then rest else piece ∷ rest

-- A separator at the beginning is the root, and a `.` there is kept.
from_pieces : List Text → List Text
unfolding names
from_pieces [] = []
from_pieces ([] ∷ []) = []
from_pieces ([] ∷ piece ∷ pieces) = codes "/" ∷ names (piece ∷ pieces)
from_pieces ((c ∷ s) ∷ pieces) =
    if (c ∷ s) == codes "." then codes "." ∷ names pieces else names ((c ∷ s) ∷ pieces)

-- `Path::components`, each as a text.
unfoldable pub components : Text → List Text
unfolding pieces from_pieces
components path = from_pieces (pieces path)

unfoldable pub path_beq : Text → Text → Bool
unfolding components
path_beq a b = components a == components b
