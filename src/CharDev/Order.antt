-- ===== src/CharDev/Order.antt =====
-- The chains of kernel/drv/char_dev.c are in order, and what their insertion refuses.
use hsunix.Base.{
  List, ◌<◌, ◌∷◌, arith, Option, ◌++◌, ◌≡◌, ◌≤◌, [], some, ◌⊎◌, inl, none, inr, ◌+◌, refl, ap,
  Bool-cases, ltb, leb, sym, ◌^◌, ◌%◌,
}
use hsunix.CharDev.{Region, insert_region}
use mathlib.Core.Option

abbrev pub HasRegion : Region → List Region → Type 0
HasRegion c [] = ⊥
HasRegion c (d ∷ ds) = (d ≡ c) ⊎ HasRegion c ds

-- The first number of cd belongs to c.
abbrev pub Covers : Region → Region → Type 0
Covers cd c =
    (c.major ≡ cd.major) × (c.baseminor ≤ cd.baseminor) × (cd.baseminor < c.baseminor + c.minorct)

-- Every region of a chain ends within the 32-bit numbers.
abbrev pub Fits : List Region → Type 0
Fits [] = Unit
Fits (c ∷ cs) = (c.baseminor + c.minorct < 2 ^ 32) × Fits cs

-- By the major number, then by the first minor number.
abbrev pub Le : Region → Region → Type 0
Le c d = (c.major < d.major) ⊎ ((c.major ≡ d.major) × (c.baseminor ≤ d.baseminor))

abbrev pub AllBehind : Region → List Region → Type 0
AllBehind c [] = Unit
AllBehind c (d ∷ ds) = Le c d × AllBehind c ds

abbrev pub IsSorted : List Region → Type 0
IsSorted [] = Unit
IsSorted (c ∷ cs) = AllBehind c cs × IsSorted cs

-- How the insertion ends: refused for a region that covers the first number, or put between the
-- regions in front and those behind, with no region that covers it.
abbrev pub Registered : Region → List Region → Option (List Region) → Type 0
Registered cd chain none = (c : Region) × HasRegion c chain × Covers cd c
Registered cd chain (some out) =
    (before : List Region) × (after : List Region) × (chain ≡ before ++ after)
    × (out ≡ before ++ (cd ∷ after))
    × IsSorted out
    × ((c : Region) → HasRegion c chain → Covers cd c → ⊥)

Le_trans : (c d e : Region) → Le c d → Le d e → Le c e
Le_trans c d e h k = ground (arith, h, k)

AllBehind-weaken : (c d : Region) (ds : List Region) → Le c d → AllBehind d ds → AllBehind c ds
AllBehind-weaken c d [] h k = tt
AllBehind-weaken c d (e ∷ ds) h k = (Le_trans c d e h k.0, AllBehind-weaken c d ds h k.1)

AllBehind-insert :
    (c cd : Region) (before after : List Region)
    → Le c cd
    → AllBehind c (before ++ after)
    → AllBehind c (before ++ (cd ∷ after))
AllBehind-insert c cd [] after h k = (h, k)
AllBehind-insert c cd (d ∷ before) after h k = (k.0, AllBehind-insert c cd before after h k.1)

AllBehind-HasRegion : (d c : Region) (ds : List Region) → AllBehind d ds → HasRegion c ds → Le d c
AllBehind-HasRegion d c [] k h = absurd h
AllBehind-HasRegion d c (e ∷ ds) k (inl h) = ap_Le h
  where
    ap_Le : e ≡ c → Le d c
    ap_Le h = ground (arith, k.0, ap (λ t. t.major) h, ap (λ t. t.baseminor) h)
AllBehind-HasRegion d c (e ∷ ds) k (inr h) = AllBehind-HasRegion d c ds k.1 h

-- A region covers a number only where it does not begin above it.
clear-above :
    (cd c : Region)
    → (cd.major < c.major) ⊎ ((cd.major ≡ c.major) × (cd.baseminor < c.baseminor))
    → Covers cd c
    → ⊥
clear-above cd c above w = ground (arith, above, w)

-- No region behind one that begins above the number covers it.
clear-behind :
    (cd d : Region) (ds : List Region) (c : Region)
    → (cd.major < d.major) ⊎ ((cd.major ≡ d.major) × (cd.baseminor < d.baseminor))
    → AllBehind d ds
    → HasRegion c (d ∷ ds)
    → Covers cd c
    → ⊥
clear-behind cd d ds c above k (inl e) w =
    ground (arith, above, w, ap (λ t. t.major) e, ap (λ t. t.baseminor) e)
clear-behind cd d ds c above k (inr h) w = ground (arith, above, w, AllBehind-HasRegion d c ds k h)

Covers-same : (cd c d : Region) → c ≡ d → Covers cd d → Covers cd c
Covers-same cd c d e w =
    ground (arith, w, ap (λ t. t.major) e, ap (λ t. t.baseminor) e, ap (λ t. t.minorct) e)

still_clear :
    (cd curr : Region) (next : List Region)
    → (Covers cd curr → ⊥)
    → ((c : Region) → HasRegion c next → Covers cd c → ⊥)
    → (c : Region) → HasRegion c (curr ∷ next)
    → Covers cd c
    → ⊥
still_clear cd curr next clear free c (inl e) w = clear (Covers-same cd curr c e w)
still_clear cd curr next clear free c (inr h) w = free c h w

-- The insertion goes on behind a region that ends below the number.
passed :
    (cd curr : Region) (next : List Region) (r : Option (List Region))
    → Le curr cd
    → (Covers cd curr → ⊥)
    → IsSorted (curr ∷ next)
    → Registered cd next r
    → Registered cd (curr ∷ next) (Option.map (λ l. curr ∷ l) r)
passed cd curr next none le clear sorted (c, has, covers) = (c, inr has, covers)
passed cd curr next (some out) le clear sorted (before, after, split, shape, in_order, free) =
    let behind : AllBehind curr (before ++ after) = rw (sym split) sorted.0 in
    let behind_out : AllBehind curr out =
      rw shape (AllBehind-insert curr cd before after le behind) in
    (
      curr ∷ before,
      after,
      ap (λ l. curr ∷ l) split,
      ap (λ l. curr ∷ l) shape,
      (behind_out, in_order),
      λ c has w. still_clear cd curr next clear free c has w,
    )

stopped :
    (cd curr : Region) (next : List Region)
    → (cd.major < curr.major) ⊎ ((cd.major ≡ curr.major) × (cd.baseminor < curr.baseminor))
    → IsSorted (curr ∷ next)
    → Registered cd (curr ∷ next) (some (cd ∷ curr ∷ next))
stopped cd curr next above sorted = (
  [],
  curr ∷ next,
  refl,
  refl,
  ((ground (arith, above), AllBehind-weaken cd curr next (ground (arith, above)) sorted.0), sorted),
  λ c has w. clear-behind cd curr next c above sorted.0 has w,
)

-- The insertion of a region into a chain in order, whose regions all end within the 32-bit numbers, so
-- that the end which the code computes does not wrap: it is refused exactly where a region of the chain
-- covers its first number, and else the chain with the region at its place is in order again. Where
-- the region ends is not looked at: it may reach into the one behind.
pub insert_region_lem :
    (cd : Region) (chain : List Region)
    → IsSorted chain
    → Fits chain
    → Registered cd chain (insert_region cd chain)
unfolding insert_region
insert_region_lem cd [] h k = ([], [], refl, refl, (tt, tt), λ c has w. has)
insert_region_lem cd (curr ∷ next) h k =
    let end : (curr.baseminor + curr.minorct) % 2 ^ 32 ≡ curr.baseminor + curr.minorct =
      omega (arith, k.0) in
    let go_on = λ (le : Le curr cd) (clear : Covers cd curr → ⊥).
      passed cd curr next (insert_region cd next) le clear h (insert_region_lem cd next h.1 k.1) in
    elim (Bool-cases (ltb curr.major cd.major)) [
      | inl lower ↦
          rw (lower, insert_region) (go_on (ground (arith, lower)) (λ w. ground (arith, lower, w)))
      | inr a ↦ elim (Bool-cases (ltb cd.major curr.major)) [
        | inl higher ↦ rw a (rw higher (stopped cd curr next (ground (arith, higher)) h))
        | inr b ↦ elim (Bool-cases (leb (curr.baseminor + curr.minorct) cd.baseminor)) [
          | inl ends ↦ rw a (
              rw b (
                rw end
                  (rw ends (go_on (ground (arith, a, b, ends)) (λ w. ground (arith, ends, w))))))
          | inr c ↦ elim (Bool-cases (ltb cd.baseminor curr.baseminor)) [
            | inl begins ↦ rw a (
                rw b (
                  rw end
                    (rw c (rw begins (stopped cd curr next (ground (arith, a, b, begins)) h)))))
            | inr d ↦
                rw a (rw b (rw end (rw c (rw d (curr, inl refl, ground (arith, a, b, c, d))))))
          ]
        ]
      ]
    ]
