-- ===== src/Cstr/Terminated.antt =====
-- What the string routines promise is said of terminated strings: text without a zero byte, then a
-- zero, then whatever the object still holds.
use hsunix.Base.{ℕ, ◌+◌, ◌≡◌, ◌≢◌, List, [], ◌∷◌, ◌++◌, arith, length, some}
use hsunix.Cstr.{kstrlen, kstrlen_from}

-- No byte of the text is c.
abbrev pub Lacks : ℕ → List ℕ → Type 0
Lacks c [] = Unit
Lacks c (b ∷ s) = (b ≢ c) × Lacks c s

abbrev pub cstr : List ℕ → List ℕ → List ℕ
cstr s rest = s ++ (0 ∷ rest)

kstrlen_from-cstr :
    (s rest : List ℕ) (i : ℕ) → Lacks 0 s → kstrlen_from (cstr s rest) i ≡ some (i + length s)
unfolding kstrlen_from
kstrlen_from-cstr [] rest i h = ground arith
kstrlen_from-cstr (c ∷ s) rest i h = ground (arith, kstrlen_from-cstr s rest (i + 1))

-- On a terminated string `kstrlen` returns the length of the text before the terminator.
pub kstrlen-cstr : (s rest : List ℕ) → Lacks 0 s → kstrlen (cstr s rest) ≡ some (length s)
unfolding kstrlen
kstrlen-cstr s rest h = ground (arith, kstrlen_from-cstr s rest 0)
