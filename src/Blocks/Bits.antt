-- ===== src/Blocks/Bits.antt =====
-- The bits of a block of the bitmap of kernel/fs/disk_fs/dfs_priv.c.
use hsunix.Base.{
  ℕ, zero, suc, ◌+◌, ◌-◌, ◌/◌, ◌%◌, ◌^◌, ◌≡◌, ◌<◌, ◌≤◌, arith, List, [], ◌∷◌, none, some, Bool,
  true, false, ◌==◌, if◌then◌else◌, get_or, set, Bool-cases, inl, inr, refl, length,
}
use native.Mathlib.Nat.{pow-suc}
use hsunix.Blocks.{Sb, bblock, bit_of, set_bit, first_clear, bit_at}

-- What the bitmap says of a block.
abbrev pub is_used : Sb → (ℕ → List ℕ) → ℕ → Bool
is_used sb disk b = bit_of (disk (bblock b sb)) (b % 8192)

-- Adding the power of a clear bit sets it, and no other.
add_bit :
    (x k j : ℕ) → bit_at x k ≡ false → bit_at (x + 2 ^ k) j ≡ (if j == k then true else bit_at x j)
unfolding bit_at
add_bit x zero zero h = ground (arith, h)
add_bit x zero (suc j) h = let e : (x + 1) / 2 ≡ x / 2 = ground (arith, h) in rw e (ground arith)
add_bit x (suc k) zero h = ground (arith, pow-suc 2 k)
add_bit x (suc k) (suc j) h =
    let e : (x + 2 ^ suc k) / 2 ≡ x / 2 + 2 ^ k = omega (arith, pow-suc 2 k) in
    rw e (ground (arith, add_bit (x / 2) k j h))

-- Taking the power of a set bit away clears it, and no other.
pub sub_bit :
    (x k j : ℕ)
    → bit_at x k ≡ true
    → (2 ^ k ≤ x) × (bit_at (x - 2 ^ k) j ≡ (if j == k then false else bit_at x j))
unfolding bit_at
sub_bit x zero zero h = ground (arith, h)
sub_bit x zero (suc j) h =
    let e : (x - 1) / 2 ≡ x / 2 = ground (arith, h) in (ground (arith, h), rw e (ground arith))
sub_bit x (suc k) zero h = let low = (sub_bit (x / 2) k 0 h).0 in ground (arith, pow-suc 2 k, low)
sub_bit x (suc k) (suc j) h =
    let (low, rest) = sub_bit (x / 2) k j h in
    let e : (x - 2 ^ suc k) / 2 ≡ x / 2 - 2 ^ k = omega (arith, pow-suc 2 k, low) in
    (omega (arith, pow-suc 2 k, low), rw e (ground (arith, rest)))

pub get_or-set :
    (d : List ℕ) (i j v : ℕ)
    → i < length d
    → get_or (set d i v) j 0 ≡ (if j == i then v else get_or d j 0)
get_or-set [] i j v h = elim h [ ]
get_or-set (x ∷ d) zero zero v h = refl
get_or-set (x ∷ d) zero (suc j) v h = ground arith
get_or-set (x ∷ d) (suc i) zero v h = ground arith
get_or-set (x ∷ d) (suc i) (suc j) v h = ground (arith, get_or-set d i j v (omega (arith, h)))

-- The first clear bit.
pub first_clear-none :
    (n bi : ℕ) (d : List ℕ) → first_clear n bi d ≡ none → (k : ℕ) → k < n → bit_of d (bi + k) ≡ true
unfolding first_clear
first_clear-none zero bi d h k l = absurd (omega (arith, l))
first_clear-none (suc n) bi d h zero l = ground (arith, h)
first_clear-none (suc n) bi d h (suc k) l =
    let rest : first_clear n (bi + 1) d ≡ none = ground (arith, h) in
    let at : bi + 1 + k ≡ bi + suc k = omega arith in
    rw at at (first_clear-none n (bi + 1) d rest k (omega (arith, l)))

pub first_clear-some :
    (n bi b : ℕ) (d : List ℕ)
    → first_clear n bi d ≡ some b
    → (bi ≤ b)
      × (b < bi + n)
      × (bit_of d b ≡ false)
      × ((k : ℕ) → bi ≤ k → k < b → bit_of d k ≡ true)
unfolding first_clear
first_clear-some zero bi b d h = absurd (cc)
first_clear-some (suc n) bi b d h = elim (Bool-cases (bit_of d bi)) [
  | inl busy ↦
      let rest : first_clear n (bi + 1) d ≡ some b = ground (arith, h, busy) in
      let (l, u, c, all) = first_clear-some n (bi + 1) b d rest in
      (omega (arith, l), omega (arith, u), c, λ k p q. ground (arith, all k, busy, p, q))
  | inr clear ↦
      let here : bi ≡ b = ground (arith, h, clear) in
      (
        omega (arith, here),
        omega (arith, here),
        rw here at clear,
        λ k p q. absurd (omega (arith, here, p, q)),
      )
]

-- A bit that is set or cleared changes no other.
pub set_bit-bit_of :
    (d : List ℕ) (i j : ℕ)
    → i / 8 < length d
    → bit_of d i ≡ false
    → bit_of (set_bit d i) j ≡ (if j == i then true else bit_of d j)
set_bit-bit_of d i j l h = ground (
  arith,
  get_or-set d (i / 8) (j / 8) (get_or d (i / 8) 0 + 2 ^ (i % 8)) l,
  add_bit (get_or d (i / 8) 0) (i % 8) (j % 8) h,
)
