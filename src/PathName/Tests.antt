-- ===== src/PathName/Tests.antt =====
-- The functions of kernel/fs/virtual_fs/fs_path.c on small paths.
use hsunix.Base.{ℕ, ◌≡◌, refl, List, [], ◌∷◌, ◌++◌, some, none, arith, true}
use hsunix.Cstr.{kstrlen, kstrdup}
use hsunix.Cstr.Terminated.{cstr}
use hsunix.PathName.{slash, dot, path_formater, skip_slashes, copy_name, push_all, drop_name}
use hsunix.PathName.Scan.{IsName}
use hsunix.PathName.Walk.{Comp, current, parent, name, walk, shown}
use hsunix.PathName.Format.{absolute, path_formater-walk}
use hsunix.PathName.Compose.{path_parser}

abbrev usr : List ℕ
usr = b'u' ∷ b's' ∷ b'r' ∷ []

abbrev bin : List ℕ
bin = b'b' ∷ b'i' ∷ b'n' ∷ []

usr-IsName : IsName usr
usr-IsName = ground arith

bin-IsName : IsName bin
bin-IsName = ground arith

-- "//usr/./bin/../bin": the components and the extra slashes.
abbrev deep : List (Comp × ℕ)
deep = (name usr, 0) ∷ (current, 2) ∷ (name bin, 0) ∷ (parent, 1) ∷ []

format_deep :
    path_formater (absolute 1 deep (some (name bin)) []) 7
    ≡ some (some (slash ∷ usr ++ (slash ∷ bin), 7))
unfolding path_formater skip_slashes copy_name push_all drop_name
format_deep = refl

format_empty : path_formater (0 ∷ []) slash ≡ some (some (slash ∷ [], 0))
unfolding path_formater copy_name push_all
format_empty = refl

path_formater-walk_example :
    path_formater (absolute 1 deep (some (name bin)) []) 7
    ≡ some (some (slash ∷ usr ++ (slash ∷ bin), 7))
unfolding shown walk
path_formater-walk_example =
    path_formater-walk 1 deep (some (name bin)) [] (usr ∷ []) (bin ∷ usr ∷ []) 7 (ground arith)
      (ground arith) refl refl

setcwd_path :
    path_parser true (some (cstr usr [])) none (some (cstr (slash ∷ bin) [])) 7
    ≡ some (some (slash ∷ bin, 7))
unfolding path_parser path_formater skip_slashes copy_name push_all kstrdup kstrlen
setcwd_path = refl

-- "/../.." as a new working directory.
setcwd_above :
    path_parser true
      (some (cstr usr []))
      none
      (some (cstr (slash ∷ dot ∷ dot ∷ slash ∷ dot ∷ dot ∷ []) []))
      7
    ≡ some none
unfolding path_parser path_formater skip_slashes copy_name push_all kstrdup kstrlen
setcwd_above = refl
