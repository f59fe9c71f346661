-- ===== src/PathName.antt =====
-- kernel/fs/virtual_fs/fs_path.c: splitting, normalising and composing path names.
-- A path is the bytes from its pointer to the end of its object, as in Cstr; `none` is a read past
-- that end. A buffer that a function fills is returned. `kalloc` is taken to find room.
pub mod Scan
pub mod Walk
pub mod First
pub mod Left
pub mod Last
pub mod Format
pub mod Compose
pub mod Escape
pub mod Absolute
mod Tests
use hsunix.Base.{
  ℕ, zero, suc, ◌+◌, ◌-◌, List, [], ◌∷◌, ◌++◌, Option, none, some, Bool, true, false, ◌==◌, ◌||◌,
  ◌&&◌, if◌then◌else◌, take, drop, length,
}
use hsunix.Cstr.{kstrlen, kstrcpy, kstrcat, kstrcmp, kstrncmp, kstrrchr, kstrdup}
use mathlib.Core.Option
use mathlib.Core.List.{reverse}

-- '/' and '.'
abbrev pub slash : ℕ
slash = 47

abbrev pub dot : ℕ
dot = 46

-- `while(*ptr == '/') ptr++;`
pub skip_slashes : List ℕ → Option (List ℕ)
skip_slashes [] = none
skip_slashes (c ∷ ptr) = let rest = skip_slashes ptr in if c == slash then rest else some (c ∷ ptr)

-- `while(*ptr != '/' && *ptr) *name++ = *ptr++;`: the bytes copied, and where `ptr` stops.
pub copy_name : List ℕ → Option (List ℕ × List ℕ)
copy_name [] = none
copy_name (c ∷ ptr) =
    let rest = Option.map (λ (r : List ℕ × List ℕ). (c ∷ r.0, r.1)) (copy_name ptr) in
    if c == slash || c == 0 then some ([], c ∷ ptr) else rest

-- `path_getfirst`: the text written to `name` before its terminator, and the rest of the path.
pub path_getfirst : List ℕ → Option (List ℕ × List ℕ)
path_getfirst path = elim (skip_slashes path) [ none ↦ none | some ptr ↦ copy_name ptr ]

-- The bytes up to the first zero: what `kstrcpy` copies from a terminated string.
pub text_of : List ℕ → List ℕ
text_of [] = []
text_of (c ∷ s) = if c == 0 then [] else c ∷ text_of s

-- `path_getlast` with both buffers: the texts written to `parentPath` and to `name`.
pub path_getlast : List ℕ → Option (List ℕ × List ℕ)
path_getlast path = elim (kstrrchr path slash) [
  | none ↦ none
  | some none ↦ some (slash ∷ [], text_of path)
  | some (some at) ↦
      some (if at == 0 then slash ∷ [] else take at path, text_of (drop (at + 1) path))
]

-- What `path_formater` finds at `src`: a "." to skip, a ".." to go up by, or bytes to copy.
pub data Lead : Type 0 where
  skip : List ℕ → Lead
  up : List ℕ → Lead
  copy : List ℕ → Lead

-- The bytes after "..".
pub after_dots : List ℕ → Option Lead
after_dots [] = none
after_dots (e ∷ src) =
    if e == 0
    then some (up (e ∷ src))
    else if e == slash
    then Option.map up (skip_slashes src)
    else some (copy (dot ∷ dot ∷ e ∷ src))

-- The bytes after ".".
pub after_dot : List ℕ → Option Lead
unfolding after_dots
after_dot [] = none
after_dot (d ∷ src) =
    if d == 0
    then some (copy (d ∷ src))
    else if d == slash
    then Option.map skip (skip_slashes src)
    else if d == dot
    then after_dots src
    else some (copy (dot ∷ d ∷ src))

pub lead : List ℕ → Option Lead
unfolding after_dot
lead [] = none
lead (c ∷ src) = if c == dot then after_dot src else some (copy (c ∷ src))

-- `*dst++ = c` for each byte. What has been written stands in reverse, the byte before `dst` first.
pub push_all : List ℕ → List ℕ → List ℕ
push_all [] out = out
push_all (c ∷ w) out = push_all w (c ∷ out)

-- `while (dst0 < dst && dst[-1] != '/') dst--;`
pub drop_name : List ℕ → List ℕ
drop_name [] = []
drop_name (c ∷ out) = if c == slash then c ∷ out else drop_name out

-- How one round of the `while (1)` of `path_formater` ends: at its head again, at `return NULL`, or
-- after the terminator.
pub data Round : Type 0 where
  again : List ℕ → List ℕ → Round
  above_root : Round
  done : List ℕ → Round

-- The copy of one name, and of one slash for the run of slashes behind it.
pub copy_round : List ℕ → List ℕ → Option Round
unfolding push_all
copy_round src out = elim (copy_name src) [
  | none ↦ none
  | some (w, rest) ↦ elim rest [
    | [] ↦ none
    | e ∷ t ↦
        if e == slash
        then Option.map (λ s. again s (slash ∷ push_all w out)) (skip_slashes t)
        else some (done (push_all w out))
  ]
]

-- `up_one`
pub up_round : List ℕ → List ℕ → Round
unfolding drop_name
up_round src [] = above_root
up_round src (c ∷ out) = again src (drop_name out)

pub round : List ℕ → List ℕ → Option Round
unfolding lead copy_round up_round
round src out = elim (lead src) [
  | none ↦ none
  | some l ↦ elim l [
    | skip s ↦ some (again s out)
    | up s ↦ some (up_round s out)
    | copy s ↦ copy_round s out
  ]
]

-- The rounds, on fuel; the inner option is the null pointer.
pub rounds : ℕ → List ℕ → List ℕ → Option (Option (List ℕ))
rounds zero src out = none
rounds (suc f) src out = elim (round src out) [
  | none ↦ none
  | some r ↦ elim r [ again s o ↦ rounds f s o | above_root ↦ some none | done o ↦ some (some o) ]
]

-- `dst--; if ((dst != path) && (*dst == '/')) *dst = '\0';`: with nothing written `dst` leaves the
-- buffer, and the byte in front of it is read, and cleared if it is a slash.
pub trim : List ℕ → List ℕ
trim [] = []
trim (c ∷ []) = c ∷ []
trim (c ∷ d ∷ out) = if c == slash then d ∷ out else c ∷ d ∷ out

pub byte_before : List ℕ → ℕ → ℕ
byte_before [] b = if b == slash then 0 else b
byte_before (c ∷ out) b = b

-- "final check fullpath is not empty"
pub or_root : List ℕ → List ℕ
or_root [] = slash ∷ []
or_root (c ∷ s) = c ∷ s

-- `path_formater`, for the byte in front of the buffer: the text left in the buffer and that byte,
-- or the null pointer (the buffer is then freed). Each round takes at least a byte of the path.
pub path_formater : List ℕ → ℕ → Option (Option (List ℕ × ℕ))
unfolding round rounds trim byte_before or_root
path_formater path before =
    Option.map (Option.map (λ out. (or_root (reverse (trim out)), byte_before out before)))
      (rounds (length path) path [])
