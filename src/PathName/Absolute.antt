-- ===== src/PathName/Absolute.antt =====
-- What `path_parser`, `path_setcwd` and `path_fsdev` (kernel/fs/virtual_fs/fs_path.c) promise.
use hsunix.Base.{
  ℕ, zero, suc, ◌+◌, ◌≡◌, ◌≢◌, List, [], ◌∷◌, ◌++◌, Option, none, some, Bool, true, false, arith,
  refl, ap, length, take, drop, replicate, set, ◌<◌, length-replicate, if◌then◌else◌, append_assoc,
  ◌==◌,
}
use hsunix.Base.Int.{pos}
use hsunix.Cstr.Terminated.{Lacks, cstr, kstrlen-cstr}
use hsunix.Cstr.Text.{kstrcpy-cstr, kstrcat-cstr, kstrcmp-eq_iff, kstrncmp-prefix_iff, kstrdup-cstr}
use hsunix.PathName.{slash, path_formater, kstrcpy, kstrcat}
use hsunix.PathName.Compose.{join_paths, path_parser, path_setcwd, path_fsdev, choose}
use hsunix.Cstr.{kstrcat, kstrcpy}

drop-all : (n : ℕ) → drop n (replicate {A = ℕ} n 0) ≡ []
drop-all zero = refl
drop-all (suc n) = drop-all n

drop-replicate : (m n : ℕ) → drop m (replicate {A = ℕ} (m + n) 0) ≡ replicate n 0
drop-replicate zero n = ap (λ k. replicate k 0) (omega arith)
drop-replicate (suc m) n =
    let e : suc m + n ≡ suc (m + n) = omega arith in rw e (drop-replicate m n)

set-append : (xs ys : List ℕ) (y v : ℕ) → set (xs ++ (y ∷ ys)) (length xs) v ≡ xs ++ (v ∷ ys)
set-append [] ys y v = refl
set-append (x ∷ xs) ys y v = ap (λ l. x ∷ l) (set-append xs ys y v)

Lacks-append : (c : ℕ) (s t : List ℕ) → Lacks c s → Lacks c t → Lacks c (s ++ t)
Lacks-append c [] t h k = k
Lacks-append c (x ∷ s) t h k = (h.0, Lacks-append c s t h.1 k)

kstrcpy-fits :
    (dest s r : List ℕ)
    → Lacks 0 s
    → length s < length dest
    → kstrcpy dest (cstr s r) ≡ some (cstr s (drop (length s + 1) dest))
kstrcpy-fits dest s r h l = ground (arith, kstrcpy-cstr dest s r h)

-- What `kstrcpy` leaves in the zeroed buffer, and the write of the slash over the terminator.
first_half :
    (d r : List ℕ) (n : ℕ)
    → Lacks 0 d
    → kstrcpy (replicate (length d + n + 2) 0) (cstr d r) ≡ some (cstr d (replicate (suc n) 0))
first_half d r n h =
    let size : length d + n + 2 ≡ length d + 1 + suc n = omega arith in
    rw (
      size,
      kstrcpy-fits (replicate (length d + 1 + suc n) 0) d r h
          (omega (arith, length-replicate {0} {A = ℕ} (length d + 1 + suc n) 0)),
      drop-replicate (length d + 1) (suc n),
    )

slash_over :
    (d : List ℕ) (n : ℕ)
    → set (cstr d (replicate (suc n) 0)) (length d) slash ≡ cstr (d ++ (slash ∷ [])) (replicate n 0)
slash_over d n =
    rw (set-append d (replicate (suc n) 0) 0 slash, append_assoc d (slash ∷ []) (0 ∷ replicate n 0))

second_half :
    (d f u : List ℕ)
    → Lacks 0 d
    → Lacks 0 f
    → kstrcat (cstr (d ++ (slash ∷ [])) (replicate (length f) 0)) (cstr f u)
      ≡ some (cstr (d ++ (slash ∷ f)) [])
second_half d f u h k = rw (
  kstrcat-cstr (d ++ (slash ∷ [])) f (replicate (length f) 0) u
      (Lacks-append 0 d (slash ∷ []) h (ground arith)) k
      (omega (arith, length-replicate {0} {A = ℕ} (length f) 0)),
  append_assoc d (slash ∷ []) f,
  drop-all (length f),
)

-- The buffer holds exactly the joined path and its terminator.
join_paths-cstr :
    (d f r u : List ℕ)
    → Lacks 0 d
    → Lacks 0 f
    → join_paths (cstr d r) (cstr f u) ≡ some (cstr (d ++ (slash ∷ f)) [])
unfolding join_paths
join_paths-cstr d f r u h k = rw (kstrlen-cstr d r h) (
    rw (kstrlen-cstr f u k)
      (rw (first_half d r (length f) h) (rw (slash_over d (length f)) (second_half d f u h k))))

-- With memory left, `path_parser` on a path that does not begin with a slash normalises the
-- directory, a slash and the path; on one that does it normalises the path alone, whatever the
-- directory. The directory is the argument, or the working directory where that is null. With no
-- memory left the result is a null pointer.
pub path_parser-joins :
    (memory : Bool) (directory cwd : Option (List ℕ)) (d r f u : List ℕ) (c before : ℕ)
    → choose directory cwd ≡ some (cstr d r)
    → Lacks 0 d
    → Lacks 0 (c ∷ f)
    → path_parser memory cwd directory (some (cstr (c ∷ f) u)) before ≡ (
        if memory
        then path_formater
            (if c == slash then cstr (c ∷ f) [] else cstr (d ++ (slash ∷ c ∷ f)) [])
            before
        else some none)
unfolding path_parser
path_parser-joins true directory cwd d r f u c before e h k =
    ground (arith, e, kstrdup-cstr true (c ∷ f) u k, join_paths-cstr d (c ∷ f) r u h k)
path_parser-joins false directory cwd d r f u c before e h k =
    ground (arith, e, kstrdup-cstr false (c ∷ f) u k, join_paths-cstr d (c ∷ f) r u h k)

-- Where memory is left and `path_parser` gives a path, `path_setcwd` makes it the working directory
-- and returns 0, also where the two are the same and nothing is written.
pub path_setcwd-moves :
    (memory : Bool) (w t : List ℕ) (path : List ℕ) (before after : ℕ)
    → Lacks 0 w
    → Lacks 0 t
    → path_parser memory (some (cstr w [])) none (some path) before ≡ some (some (t, after))
    → path_setcwd memory true (cstr w []) (some path) before ≡ some (pos 0, cstr t [])
unfolding path_setcwd
path_setcwd-moves memory w t path before after h k e =
    rw (e, path_setcwd) (ground (arith, kstrcmp-eq_iff w t [] [] h k))

-- Where `path_parser` gives a null pointer, for lack of memory or for a path that leads above the
-- root, `path_setcwd` reads through that pointer.
pub path_setcwd-null :
    (memory memory' : Bool) (cwd path : List ℕ) (before : ℕ)
    → path_parser memory (some cwd) none (some path) before ≡ some none
    → path_setcwd memory memory' cwd (some path) before ≡ none
unfolding path_setcwd
path_setcwd-null memory memory' cwd path before e = rw (e, path_setcwd)

take-append : (xs ys : List ℕ) → take (length xs) (xs ++ ys) ≡ xs
take-append [] ys = refl
take-append (x ∷ xs) ys = ap (λ l. x ∷ l) (take-append xs ys)

drop-append : (xs ys : List ℕ) → drop (length xs) (xs ++ ys) ≡ ys
drop-append [] ys = refl
drop-append (x ∷ xs) ys = drop-append xs ys

Lacks-after : (m p : List ℕ) → Lacks 0 (m ++ p) → Lacks 0 p
Lacks-after [] p h = h
Lacks-after (x ∷ m) p h = Lacks-after m p h.1

-- `path_fsdev` on a path that begins with the mount path returns a copy of what follows, or "/" if
-- nothing does; with no memory left a null pointer.
pub path_fsdev-strips :
    (memory : Bool) (m p r u : List ℕ)
    → Lacks 0 m
    → Lacks 0 (m ++ p)
    → path_fsdev memory (cstr m r) (cstr (m ++ p) u)
      ≡ some (if memory then some (cstr (if length p == 0 then slash ∷ [] else p) []) else none)
unfolding path_fsdev
path_fsdev-strips memory m [] r u h k =
    rw
      (
        kstrlen-cstr m r h,
        (kstrncmp-prefix_iff m (m ++ []) r u h k).1.1 (take-append m []),
        append_assoc m [] (0 ∷ u),
        drop-append m (0 ∷ u),
      )
      (kstrdup-cstr memory (slash ∷ []) [] (ground arith))
path_fsdev-strips memory m (c ∷ p) r u h k =
    rw
      (
        kstrlen-cstr m r h,
        (kstrncmp-prefix_iff m (m ++ (c ∷ p)) r u h k).1.1 (take-append m (c ∷ p)),
        append_assoc m (c ∷ p) (0 ∷ u),
        drop-append m (cstr (c ∷ p) u),
      )
      (ground
        (arith, kstrdup-cstr memory (c ∷ p) u (Lacks-after m (c ∷ p) k), Lacks-after m (c ∷ p) k))

-- On a path that does not begin with the mount path `path_fsdev` returns a null pointer.
pub path_fsdev-outside :
    (memory : Bool) (m t r u : List ℕ)
    → Lacks 0 m
    → Lacks 0 t
    → take (length m) t ≢ m
    → path_fsdev memory (cstr m r) (cstr t u) ≡ some none
unfolding path_fsdev
path_fsdev-outside memory m t r u h k n =
    rw (kstrlen-cstr m r h) (ground (arith, kstrncmp-prefix_iff m t r u h k))
