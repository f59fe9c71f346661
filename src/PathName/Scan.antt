-- ===== src/PathName/Scan.antt =====
-- The byte scanners of kernel/fs/virtual_fs/fs_path.c on names, runs of slashes and terminators.
use hsunix.Base.{ℕ, zero, suc, ◌≡◌, ◌≢◌, ◌⊎◌, refl, List, [], ◌∷◌, ◌++◌, some, arith, replicate}
use hsunix.Cstr.Terminated.{Lacks}
use hsunix.PathName.{slash, dot, skip_slashes, copy_name, lead, skip, up, copy}

-- A name between slashes: at least one byte, none of them a slash or a zero.
pub record IsName (c : List ℕ) : Type 0 where
  pub nonempty : c ≢ []
  pub no_slash : Lacks slash c
  pub no_zero : Lacks 0 c

-- What follows a run of slashes.
abbrev pub Begins : List ℕ → Type 0
Begins [] = ⊥
Begins (x ∷ t) = x ≢ slash

pub skip_slashes-run :
    (k : ℕ) (t : List ℕ) → Begins t → skip_slashes (replicate k slash ++ t) ≡ some t
unfolding skip_slashes
skip_slashes-run zero [] h = absurd h
skip_slashes-run zero (x ∷ t) h = ground arith
skip_slashes-run (suc k) t h = ground (arith, skip_slashes-run k t h)

pub copy_name-name :
    (c t : List ℕ) (e : ℕ)
    → Lacks slash c
    → Lacks 0 c
    → (e ≡ slash) ⊎ (e ≡ 0)
    → copy_name (c ++ (e ∷ t)) ≡ some (c, e ∷ t)
unfolding copy_name
copy_name-name [] t e h k l = ground arith
copy_name-name (x ∷ c) t e h k l = ground (arith, copy_name-name c t e)

-- A name other than "." and ".." is copied.
pub lead-name :
    (c t : List ℕ) (e : ℕ)
    → IsName c
    → c ≢ dot ∷ []
    → c ≢ dot ∷ dot ∷ []
    → (e ≡ slash) ⊎ (e ≡ 0)
    → lead (c ++ (e ∷ t)) ≡ some (copy (c ++ (e ∷ t)))
unfolding lead
lead-name [] t e h n m l = absurd (h.nonempty refl)
lead-name (x ∷ []) t e h n m l = ground arith
lead-name (x ∷ y ∷ []) t e h n m l = ground arith
lead-name (x ∷ y ∷ z ∷ c) t e h n m l = ground arith

pub lead-dot :
    (k : ℕ) (t : List ℕ) → Begins t → lead (dot ∷ slash ∷ replicate k slash ++ t) ≡ some (skip t)
unfolding lead
lead-dot k t h = ground (arith, skip_slashes-run k t h)

pub lead-dots :
    (k : ℕ) (t : List ℕ)
    → Begins t
    → lead (dot ∷ dot ∷ slash ∷ replicate k slash ++ t) ≡ some (up t)
unfolding lead
lead-dots k t h = ground (arith, skip_slashes-run k t h)
