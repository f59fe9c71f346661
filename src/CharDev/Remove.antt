-- ===== src/CharDev/Remove.antt =====
-- Taking a region out again in kernel/drv/char_dev.c.
use hsunix.Base.{
  ℕ, List, ◌∷◌, ◌<◌, ◌≡◌, ◌++◌, false, some, [], ◌⊎◌, inr, refl, arith, Bool-cases, inl, suc, ◌≢◌,
  Option,
}
use hsunix.CharDev.{Region, is_region, Chardevs, major_to_hash_index, unregister_region, put_chain}
use hsunix.CharDev.Order.{Covers, HasRegion}

-- The search behind the first region.
abbrev pub AllOther : ℕ → ℕ → ℕ → List Region → Type 0
AllOther ma b ct [] = Unit
AllOther ma b ct (c ∷ cs) = (is_region ma b ct c ≡ false) × AllOther ma b ct cs

other_numbers :
    (cd c : Region)
    → 0 < cd.minorct
    → (Covers cd c → ⊥)
    → is_region cd.major cd.baseminor cd.minorct c ≡ false
other_numbers cd c h free = elim (Bool-cases (is_region cd.major cd.baseminor cd.minorct c)) [
  | inl same ↦ absurd (free (ground (arith, h, same)))
  | inr other ↦ other
]

-- Regions that do not cover the first number of cd have other numbers.
others :
    (cd : Region) (before after : List Region)
    → 0 < cd.minorct
    → ((c : Region) → HasRegion c (before ++ after) → Covers cd c → ⊥)
    → AllOther cd.major cd.baseminor cd.minorct before
others cd [] after h free = tt
others cd (c ∷ before) after h free = (
  other_numbers cd c h (free c (inl refl)),
  others cd before after h (λ d has w. free d (inr has) w),
)

-- The chain of a region in a table of chains.
abbrev pub own_chain : ℕ → Chardevs → List Region
own_chain major m = m (major_to_hash_index major)

abbrev pub region_of : ℕ → ℕ → ℕ → ℕ → Region
region_of k b ct name = record { major = suc k; baseminor = b; minorct = ct; name = name; cdev = 0 }

-- What a table with a region put in holds after the region is unregistered.
module _ (k b ct name : ℕ) (m : Chardevs) (out : List Region) where
  abbrev pub index : ℕ
  index = major_to_hash_index (suc k)

  abbrev pub after_both : Option Region × Chardevs
  after_both = unregister_region (suc k) b ct (put_chain index out m)

-- What unregistering a region leaves, from the table m' that registering it made of m.
abbrev pub Undone : ℕ → ℕ → ℕ → Chardevs → Region → Chardevs → Type 0
Undone k b ct m cd m' =
    ((unregister_region (suc k) b ct m').0 ≡ some cd)
    × ((j : ℕ) → j ≢ major_to_hash_index (suc k) → (unregister_region (suc k) b ct m').1 j ≡ m j)
    × ((own_chain (suc k) (unregister_region (suc k) b ct m').1 ≡ own_chain (suc k) m)
        ⊎ ((own_chain (suc k) m' ≡ cd ∷ own_chain (suc k) m)
            × (own_chain (suc k) (unregister_region (suc k) b ct m').1 ≡ [])))
