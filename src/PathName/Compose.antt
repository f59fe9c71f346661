-- ===== src/PathName/Compose.antt =====
-- The callers of `path_formater` in kernel/fs/virtual_fs/fs_path.c: absolute paths, the working
-- directory, and paths inside a mounted file system. `memory` says whether `kalloc` finds room.
use hsunix.Base.{
  ℕ, zero, suc, ◌+◌, List, [], ◌∷◌, Option, none, some, Bool, true, false, ◌==◌, if◌then◌else◌,
  replicate, set, drop,
}
use hsunix.Base.Int.{ℤ, pos, negsuc}
use hsunix.Base.Maybe.{◌>>=◌}
use hsunix.Cstr.{kstrlen, kstrcpy, kstrcat, kstrcmp, kstrncmp, kstrdup}
use hsunix.Cstr.Terminated.{cstr}
use hsunix.PathName.{slash, path_formater}

-- The buffer that `path_parser` fills for a relative path: zeroed by `kalloc`, then the directory,
-- a slash over its terminator, and the path.
unfoldable pub join_paths : List ℕ → List ℕ → Option (List ℕ)
join_paths directory filepath = do
  m ← kstrlen directory
  n ← kstrlen filepath
  path ← kstrcpy (replicate (m + n + 2) 0) directory
  kstrcat (set path m slash) filepath

-- `path_parser`: the outer option is a read past an object's end, the inner one the null pointer;
-- a result stands with the byte in front of its buffer, as for `path_formater`.
abbrev pub choose : Option (List ℕ) → Option (List ℕ) → Option (List ℕ)
choose none cwd = cwd
choose (some d) cwd = some d

relative : Bool → Option (List ℕ) → List ℕ → ℕ → Option (Option (List ℕ × ℕ))
unfolding join_paths
relative memory none filepath before = some none
relative false (some d) filepath before = some none
relative true (some d) filepath before = join_paths d filepath >>= λ path. path_formater path before

absolute_copy : Bool → List ℕ → ℕ → Option (Option (List ℕ × ℕ))
absolute_copy memory filepath before = kstrdup memory filepath >>= λ copy. elim copy [
  | none ↦ some none
  | some path ↦ path_formater path before
]

unfoldable pub path_parser :
    Bool → Option (List ℕ) → Option (List ℕ) → Option (List ℕ) → ℕ → Option (Option (List ℕ × ℕ))
unfolding relative absolute_copy
path_parser memory cwd directory none before = some none
path_parser memory cwd directory (some []) before = none
path_parser memory cwd directory (some (c ∷ filepath)) before =
    if c == slash
    then absolute_copy memory (c ∷ filepath) before
    else relative memory (choose directory cwd) (c ∷ filepath) before

is_zero : ℤ → Bool
is_zero (pos zero) = true
is_zero (pos (suc n)) = false
is_zero (negsuc n) = false

-- `path_setcwd`: the result and the process's working directory. Comparing with a null `ap_path` is
-- a fault.
change_to : Bool → List ℕ → Option (List ℕ × ℕ) → Option (ℤ × List ℕ)
unfolding is_zero
change_to memory cwd none = none
change_to memory cwd (some (t, before)) = kstrcmp cwd (cstr t []) >>= λ d.
    if is_zero d
    then some (pos 0, cwd)
    else if memory
    then some (pos 0, cstr t [])
    else some (negsuc 0, cwd)

unfoldable pub path_setcwd :
    (memory memory' : Bool) → List ℕ → Option (List ℕ) → ℕ → Option (ℤ × List ℕ)
unfolding change_to
path_setcwd memory memory' cwd none before = some (negsuc 0, cwd)
path_setcwd memory memory' cwd (some path) before =
    path_parser memory (some cwd) none (some path) before >>= change_to memory' cwd

-- `path_fsdev`, for the mount path of a file system.
inside : Bool → List ℕ → Option (Option (List ℕ))
inside memory [] = none
inside memory (c ∷ ap_path) =
    if c == 0 then kstrdup memory (slash ∷ 0 ∷ []) else kstrdup memory (c ∷ ap_path)

unfoldable pub path_fsdev : Bool → List ℕ → List ℕ → Option (Option (List ℕ))
unfolding is_zero inside
path_fsdev memory fs_path path = do
  len ← kstrlen fs_path
  d ← kstrncmp fs_path path len
  if is_zero d then inside memory (drop len path) else some none
