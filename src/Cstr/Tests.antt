-- ===== src/Cstr/Tests.antt =====
-- The routines of kernel/lib/string.c on small inputs.
use hsunix.Base.{ℕ, ◌≡◌, refl, List, [], ◌∷◌, some, none}
use hsunix.Base.Int.{negsuc}
use hsunix.Cstr.{Memory, kmemmove, kmemcpy, kstrlen, kstrcmp}
use hsunix.Cstr.Terminated.{cstr}

-- Address a holds the byte a.
abbrev counting : Memory
counting a = a

-- "ab", "abc", "a/b/c"
abbrev ab : List ℕ
ab = b'a' ∷ b'b' ∷ []

abbrev abc : List ℕ
abc = b'a' ∷ b'b' ∷ b'c' ∷ []

overlap_up : kmemmove counting 3 1 4 6 ≡ 4
unfolding kmemmove
overlap_up = refl

overlap_down : kmemcpy counting 1 3 4 4 ≡ 6
unfolding kmemcpy
overlap_down = refl

compare_text : kstrcmp (cstr ab []) (cstr abc []) ≡ some (negsuc 98)
unfolding kstrcmp
compare_text = refl

unterminated : kstrlen ab ≡ none
unfolding kstrlen
unterminated = refl
