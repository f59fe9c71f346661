-- ===== src/PathName/Last.antt =====
-- `path_getlast` of kernel/fs/virtual_fs/fs_path.c: the last name of a path and its directory.
use hsunix.Base.{
  ℕ, ◌+◌, ◌≡◌, List, drop, take, ◌∷◌, [], ◌++◌, length, some, ap, arith, refl, append_assoc,
  if◌then◌else◌, ◌==◌,
}
use hsunix.PathName.{slash, path_getlast, text_of}
use hsunix.Cstr.Terminated.{Lacks, cstr}
use native.Mathlib.Numerals.{add-one}
use hsunix.Cstr.Search.{kstrrchr-last, kstrrchr-absent}

text_of-cstr : (s r : List ℕ) → Lacks 0 s → text_of (cstr s r) ≡ s
unfolding text_of
text_of-cstr [] r h = refl
text_of-cstr (c ∷ s) r h = ground (arith, text_of-cstr s r)

take-append : (xs ys : List ℕ) → take (length xs) (xs ++ ys) ≡ xs
take-append [] ys = refl
take-append (x ∷ xs) ys = ap (λ l. x ∷ l) (take-append xs ys)

drop-append : (xs ys : List ℕ) (y : ℕ) → drop (length xs + 1) (xs ++ (y ∷ ys)) ≡ ys
drop-append [] ys y = refl
drop-append (x ∷ xs) ys y = rw add-one (rw add-one at (drop-append xs ys y))

-- The directory text for what stands before the last slash.
abbrev pub parent_of : List ℕ → List ℕ
parent_of [] = slash ∷ []
parent_of (x ∷ d) = x ∷ d

parent-take :
    (d t : List ℕ) → (if length d == 0 then slash ∷ [] else take (length d) (d ++ t)) ≡ parent_of d
parent-take [] t = refl
parent-take (x ∷ d) t = ground (arith, take-append (x ∷ d) t)

Lacks-behind : (d n : List ℕ) → Lacks 0 (d ++ (slash ∷ n)) → Lacks 0 n
Lacks-behind [] n h = h.1
Lacks-behind (x ∷ d) n h = Lacks-behind d n h.1

-- `path_getlast` splits a path at its last slash: the name is what follows, and the parent is what
-- stands before, or "/" if that is empty. For a path with no slash the parent is "/" and the name is
-- the whole path.
pub path_getlast-split :
    (dir n r : List ℕ)
    → Lacks 0 (dir ++ (slash ∷ n))
    → Lacks slash n
    → (path_getlast (cstr (dir ++ (slash ∷ n)) r) ≡ some (parent_of dir, n))
      × (path_getlast (cstr n r) ≡ some (slash ∷ [], n))
unfolding path_getlast
path_getlast-split dir n r h k = (
  rw (kstrrchr-last dir n r slash (ground arith) h k, path_getlast)
      (ground (
        arith,
        parent-take dir (slash ∷ (cstr n r)),
        append_assoc dir (slash ∷ n) (0 ∷ r),
        drop-append dir (cstr n r) slash,
        text_of-cstr n r (Lacks-behind dir n h),
      )),
  rw (kstrrchr-absent n r slash (ground arith) (Lacks-behind dir n h) k, path_getlast)
      (ap (λ t. some (slash ∷ [], t)) (text_of-cstr n r (Lacks-behind dir n h))),
)

pub text_of-append : (s r : List ℕ) → Lacks 0 s → text_of (s ++ r) ≡ s ++ text_of r
unfolding text_of
text_of-append [] r h = refl
text_of-append (x ∷ s) r h = ground (arith, text_of-append s r)

pub text_of-zero : (r : List ℕ) → text_of (0 ∷ r) ≡ []
unfolding text_of
text_of-zero r = refl
