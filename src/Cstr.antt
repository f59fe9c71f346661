-- ===== src/Cstr.antt =====
-- kernel/lib/string.c: the kernel's memory and string routines.
-- The memory routines work on the flat memory, from addresses to bytes, since their two regions may
-- overlap. A string argument is the bytes from the pointer to the end of its object, each below
-- 256, and a read or write past that end is a fault, `none`. A pointer that a routine returns is
-- its offset from the argument.
pub mod Move
pub mod Terminated
pub mod Text
pub mod Search
mod Tests
use hsunix.Base.{
  ℕ, zero, suc, ◌+◌, ◌%◌, List, [], ◌∷◌, Option, none, some, Bool, true, false, ltb, leb, ◌==◌,
  ◌||◌, ◌&&◌, if◌then◌else◌, get_or, take,
}
use hsunix.Base.Int.{ℤ, pos, sub_ℕ}
use mathlib.Core.Option

abbrev pub Memory : Type 0
Memory = ℕ → ℕ

abbrev pub store : Memory → ℕ → ℕ → Memory
store m a v b = if a == b then v else m b

-- `kmemset`
pub kmemset : Memory → ℕ → ℕ → ℕ → Memory
kmemset m s c zero = m
kmemset m s c (suc n) = kmemset (store m s (c % 256)) (s + 1) c n

-- `while (n--) *tmp++ = *s++;`
pub copy_up : Memory → ℕ → ℕ → ℕ → Memory
copy_up m dst src zero = m
copy_up m dst src (suc n) = copy_up (store m dst (m src)) (dst + 1) (src + 1) n

-- The copy from the last byte to the first.
pub copy_down : Memory → ℕ → ℕ → ℕ → Memory
copy_down m dst src zero = m
copy_down m dst src (suc n) = copy_down (store m (dst + n) (m (src + n))) dst src n

-- `kmemmove`
pub kmemmove : Memory → ℕ → ℕ → ℕ → Memory
unfolding copy_up copy_down
kmemmove m dst src n =
    if ltb src dst && ltb dst (src + n) then copy_down m dst src n else copy_up m dst src n

-- `kmemcpy`
pub kmemcpy : Memory → ℕ → ℕ → ℕ → Memory
unfolding copy_up copy_down
kmemcpy m dst src n =
    if leb dst src || ltb (src + n) dst then copy_up m dst src n else copy_down m dst src n

kstrlen_from : List ℕ → ℕ → Option ℕ
kstrlen_from [] i = none
kstrlen_from (c ∷ st) i = let rest = kstrlen_from st (i + 1) in if c == 0 then some i else rest

-- `kstrlen`
unfoldable pub kstrlen : List ℕ → Option ℕ
unfolding kstrlen_from
kstrlen st = kstrlen_from st 0

-- `kstrcpy`, for two objects: the new content of the destination.
unfoldable pub kstrcpy : List ℕ → List ℕ → Option (List ℕ)
kstrcpy [] src = none
kstrcpy (d ∷ dest) [] = none
kstrcpy (d ∷ dest) (c ∷ src) =
    let rest = kstrcpy dest src in if c == 0 then some (0 ∷ dest) else Option.map (λ s. c ∷ s) rest

-- `kstrcmp`: the difference of the first bytes that decide.
unfoldable pub kstrcmp : List ℕ → List ℕ → Option ℤ
kstrcmp [] p2 = none
kstrcmp (c1 ∷ p1) [] = none
kstrcmp (c1 ∷ p1) (c2 ∷ p2) =
    let rest = kstrcmp p1 p2 in
    if c1 == 0 then some (sub_ℕ c1 c2) else if c1 == c2 then rest else some (sub_ℕ c1 c2)

-- `kstrncmp`; with no byte left to compare nothing is read.
unfoldable pub kstrncmp : List ℕ → List ℕ → ℕ → Option ℤ
kstrncmp p q zero = some (pos 0)
kstrncmp [] q (suc n) = none
kstrncmp (a ∷ p) [] (suc n) = none
kstrncmp (a ∷ p) (b ∷ q) (suc n) =
    let rest = kstrncmp p q n in
    if a == 0 then some (sub_ℕ a b) else if a == b then rest else some (sub_ℕ a b)

-- `kstrdup`: `memory` says whether `kalloc` finds room. The copy, or a null pointer.
unfoldable pub kstrdup : Bool → List ℕ → Option (Option (List ℕ))
unfolding kstrlen
kstrdup memory s = Option.map (λ len. if memory then some (take (len + 1) s) else none) (kstrlen s)

-- `kstrcat`: the new content of the destination.
unfoldable pub kstrcat : List ℕ → List ℕ → Option (List ℕ)
kstrcat [] src = none
kstrcat (d ∷ dest) src =
    let rest = kstrcat dest src in
    if d == 0 then kstrcpy (d ∷ dest) src else Option.map (λ s. d ∷ s) rest

kstrchr_from : List ℕ → ℕ → ℕ → Option (Option ℕ)
kstrchr_from [] chr i = none
kstrchr_from (c ∷ str) chr i =
    let rest = kstrchr_from str chr (i + 1) in
    if c == 0 || c == chr then some (if c == chr then some i else none) else rest

-- `kstrchr`: the first place of `chr`, or a null pointer.
pub kstrchr : List ℕ → ℕ → Option (Option ℕ)
unfolding kstrchr_from
kstrchr str chr = kstrchr_from str chr 0

-- `while (--str != start && *str != (char)ch);` from the offset k on.
back_to : List ℕ → ℕ → ℕ → ℕ
back_to str ch zero = 0
back_to str ch (suc k) =
    let rest = back_to str ch k in if get_or str (suc k) 0 == ch then suc k else rest

-- `kstrrchr`: the last place of `ch`, or a null pointer. The first loop runs to the terminator.
unfoldable pub kstrrchr : List ℕ → ℕ → Option (Option ℕ)
unfolding back_to
kstrrchr str ch =
    Option.map (λ len. let k = back_to str ch len in if get_or str k 0 == ch then some k else none)
      (kstrlen str)
