-- ===== src/Cstr/Text.antt =====
-- Comparison and copying of terminated strings (kernel/lib/string.c).
use hsunix.Base.{
  ltb, ℕ, ◌+◌, ◌≤◌, ◌≡◌, ◌≢◌, ◌↔◌, refl, List, [], ◌∷◌, ◌++◌, none, some, arith, length, take, drop,
  if◌then◌else◌, Bool,
}
use hsunix.Base.Int.{pos}
use native.Mathlib.Numerals.{add-one}
use hsunix.Cstr.{kstrcmp, kstrncmp, kstrcpy, kstrcat, kstrdup}
use hsunix.Cstr.Terminated.{Lacks, cstr, kstrlen-cstr}

-- `kstrcmp` on two terminated strings returns a number, and it is 0 exactly when the texts agree.
pub kstrcmp-eq_iff :
    (s t r u : List ℕ)
    → Lacks 0 s
    → Lacks 0 t
    → (kstrcmp (cstr s r) (cstr t u) ≢ none)
      × ((kstrcmp (cstr s r) (cstr t u) ≡ some (pos 0)) ↔ (s ≡ t))
unfolding kstrcmp
kstrcmp-eq_iff [] [] r u h k = ground arith
kstrcmp-eq_iff [] (b ∷ t) r u h k = ground arith
kstrcmp-eq_iff (a ∷ s) [] r u h k = ground arith
kstrcmp-eq_iff (a ∷ s) (b ∷ t) r u h k = ground (arith, kstrcmp-eq_iff s t r u)

-- `kstrncmp` with the length of the first text is 0 exactly when that text begins the second.
pub kstrncmp-prefix_iff :
    (s t r u : List ℕ)
    → Lacks 0 s
    → Lacks 0 t
    → (kstrncmp (cstr s r) (cstr t u) (length s) ≢ none)
      × ((kstrncmp (cstr s r) (cstr t u) (length s) ≡ some (pos 0)) ↔ (take (length s) t ≡ s))
unfolding kstrncmp
kstrncmp-prefix_iff [] [] r u h k = ground arith
kstrncmp-prefix_iff [] (b ∷ t) r u h k = ground arith
kstrncmp-prefix_iff (a ∷ s) [] r u h k = ground arith
kstrncmp-prefix_iff (a ∷ s) (b ∷ t) r u h k = ground (arith, kstrncmp-prefix_iff s t r u)

drop-add_one : (x : ℕ) (xs : List ℕ) (n : ℕ) → drop (n + 1) (x ∷ xs) ≡ drop n xs
drop-add_one x xs n = rw add-one

take-cstr : (s r : List ℕ) → take (length s + 1) (cstr s r) ≡ cstr s []
take-cstr [] r = refl
take-cstr (c ∷ s) r = ground (arith, take-cstr s r)

-- `kstrcpy` writes the text and its terminator and leaves the rest of the destination; with no room
-- for the terminator it writes past the end.
pub kstrcpy-cstr :
    (dest s r : List ℕ)
    → Lacks 0 s
    → kstrcpy dest (cstr s r)
      ≡ (if ltb (length s) (length dest) then some (cstr s (drop (length s + 1) dest)) else none)
unfolding kstrcpy
kstrcpy-cstr [] s r h = ground arith
kstrcpy-cstr (d ∷ dest) [] r h = ground arith
kstrcpy-cstr (d ∷ dest) (c ∷ s) r h =
    ground (arith, kstrcpy-cstr dest s r, drop-add_one d dest (length s))

-- `kstrcat` puts the second text behind the first, terminator included, where there is room.
pub kstrcat-cstr :
    (s t r u : List ℕ)
    → Lacks 0 s
    → Lacks 0 t
    → length t ≤ length r
    → kstrcat (cstr s r) (cstr t u) ≡ some (cstr (s ++ t) (drop (length t) r))
unfolding kstrcat
kstrcat-cstr [] t r u h k l = ground (arith, kstrcpy-cstr (0 ∷ r) t u, drop-add_one 0 r (length t))
kstrcat-cstr (c ∷ s) t r u h k l = ground (arith, kstrcat-cstr s t r u)

-- Where memory is left `kstrdup` returns a copy of the text with its terminator, and else a null
-- pointer.
pub kstrdup-cstr :
    (memory : Bool) (s r : List ℕ)
    → Lacks 0 s
    → kstrdup memory (cstr s r) ≡ some (if memory then some (cstr s []) else none)
unfolding kstrdup
kstrdup-cstr memory s r h = ground (arith, kstrlen-cstr s r h, take-cstr s r)
