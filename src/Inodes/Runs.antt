-- ===== src/Inodes/Runs.antt =====
-- Runs of bytes put into a block of kernel/fs/disk_fs/dfs_inode.c.
use hsunix.Base.{
  ℕ, zero, suc, ◌+◌, ◌-◌, ◌≡◌, ◌<◌, ◌≤◌, arith, List, [], ◌∷◌, leb, ltb, ◌&&◌, if◌then◌else◌,
  get_or, set, take, drop, length, refl, length-set,
}
use hsunix.Blocks.Bits.{get_or-set}
use hsunix.Inodes.{put_run}

pub length-put_run : (s d : List ℕ) (i : ℕ) → length (put_run d i s) ≡ length d
length-put_run [] d i = refl
length-put_run (x ∷ s) d i = ground (arith, length-put_run s (set d i x) (i + 1), length-set d i x)

pub get_or-put_run :
    (s d : List ℕ) (i j : ℕ)
    → i + length s ≤ length d
    → get_or (put_run d i s) j 0
      ≡ (if leb i j && ltb j (i + length s) then get_or s (j - i) 0 else get_or d j 0)
get_or-put_run [] d i j h = ground arith
get_or-put_run (x ∷ s) d i j h = ground (
  arith,
  get_or-put_run s (set d i x) (i + 1) j,
  length-set d i x,
  get_or-set d i j x,
  get_or-later,
)
  where
    get_or-later : i < j → get_or (x ∷ s) (j - i) 0 ≡ get_or s (j - (i + 1)) 0
    get_or-later l = let e : j - i ≡ suc (j - (i + 1)) = omega (arith, l) in rw e refl

pub get_or-take : (m j : ℕ) (s : List ℕ) → j < m → get_or (take m s) j 0 ≡ get_or s j 0
get_or-take zero j s h = absurd (omega (arith, h))
get_or-take (suc m) j [] h = refl
get_or-take (suc m) zero (x ∷ s) h = refl
get_or-take (suc m) (suc j) (x ∷ s) h = get_or-take m j s (omega (arith, h))

pub get_or-drop : (m j : ℕ) (s : List ℕ) → get_or (drop m s) j 0 ≡ get_or s (m + j) 0
get_or-drop zero j s = let e : 0 + j ≡ j = omega arith in rw e refl
get_or-drop (suc m) j [] = refl
get_or-drop (suc m) j (x ∷ s) =
    let e : suc m + j ≡ suc (m + j) = omega arith in rw e (get_or-drop m j s)

pub put_run-suc : (s d : List ℕ) (i x : ℕ) → put_run (x ∷ d) (suc i) s ≡ x ∷ put_run d i s
put_run-suc [] d i x = refl
put_run-suc (b ∷ s) d i x =
    let e : suc i + 1 ≡ suc (i + 1) = omega arith in rw e (put_run-suc s (set d i b) (i + 1) x)

pub put_run-next : (s d : List ℕ) (b x : ℕ) → put_run (x ∷ d) 0 (b ∷ s) ≡ b ∷ put_run d 0 s
put_run-next s d b x = put_run-suc s d 0 b
