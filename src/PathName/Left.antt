-- ===== src/PathName/Left.antt =====
-- What the byte scanners of kernel/fs/virtual_fs/fs_path.c leave of a path.
use hsunix.Base.{
  ℕ, Option, List, some, ◌≢◌, suc, length, ◌≤◌, ◌∷◌, arith, ◌+◌, ◌≡◌, Bool-cases, ◌==◌, none, inl,
  ◌||◌, false, inr, [],
}
use hsunix.PathName.{skip_slashes, copy_name, slash}
use hsunix.PathName.Scan.{Begins}
use mathlib.Core.Option

-- What is left of a path of n bytes after its slashes.
abbrev pub IsLeft : ℕ → Option (List ℕ) → Type 0
IsLeft n none = Unit
IsLeft n (some ptr) = (length ptr ≤ n) × Begins ptr

IsLeft-suc : (n : ℕ) (o : Option (List ℕ)) → IsLeft n o → IsLeft (suc n) o
IsLeft-suc n none h = tt
IsLeft-suc n (some ptr) h = (omega (arith, h.0), h.1)

pub skip_slashes-IsLeft : (path : List ℕ) → IsLeft (length path) (skip_slashes path)
unfolding skip_slashes
skip_slashes-IsLeft [] = tt
skip_slashes-IsLeft (c ∷ ptr) = elim (Bool-cases (c == slash)) [
  | inl e ↦ rw e (IsLeft-suc (length ptr) (skip_slashes ptr) (skip_slashes-IsLeft ptr))
  | inr e ↦ rw e (omega arith, ground (arith, e))
]

abbrev IsCopied : ℕ → Option (List ℕ × List ℕ) → Type 0
IsCopied n none = Unit
IsCopied n (some (str, rest)) = length str + length rest ≡ n

IsCopied-map :
    (c n : ℕ) (o : Option (List ℕ × List ℕ))
    → IsCopied n o
    → IsCopied (suc n) (Option.map (λ (r : List ℕ × List ℕ). (c ∷ r.0, r.1)) o)
IsCopied-map c n none h = tt
IsCopied-map c n (some (str, rest)) h = omega (arith, h)

copy_name-IsCopied : (path : List ℕ) → IsCopied (length path) (copy_name path)
unfolding copy_name
copy_name-IsCopied [] = tt
copy_name-IsCopied (c ∷ ptr) = elim (Bool-cases (c == slash || c == 0)) [
  | inl e ↦ rw e (omega arith)
  | inr e ↦ rw e (IsCopied-map c (length ptr) (copy_name ptr) (copy_name-IsCopied ptr))
]

abbrev pub RestWithin : ℕ → Option (List ℕ × List ℕ) → Type 0
RestWithin n none = Unit
RestWithin n (some (str, rest)) = length rest ≤ n

RestWithin-map :
    (c n : ℕ) (o : Option (List ℕ × List ℕ))
    → IsCopied n o
    → RestWithin n (Option.map (λ (r : List ℕ × List ℕ). (c ∷ r.0, r.1)) o)
RestWithin-map c n none h = tt
RestWithin-map c n (some (str, rest)) h = omega (arith, h)

-- A byte of a name is copied.
pub copy_name-RestWithin :
    (x : ℕ) (p : List ℕ) → x ≢ slash → x ≢ 0 → RestWithin (length p) (copy_name (x ∷ p))
unfolding copy_name
copy_name-RestWithin x p h k =
    let e : (x == slash || x == 0) ≡ false = ground (arith, h, k) in
    rw e (RestWithin-map x (length p) (copy_name p) (copy_name-IsCopied p))
