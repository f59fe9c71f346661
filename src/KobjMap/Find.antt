-- ===== src/KobjMap/Find.antt =====
-- What is mapped in kernel/drv/kobj_map.c is found again.
use hsunix.Base.{
  ℕ, List, ◌<◌, Option, arith, ◌+◌, ◌∷◌, ◌≤◌, Bool-cases, ◌≡◌, true, false, ltb, ◌^◌, inl, [], some,
  refl, suc, inr, ◌-◌, ◌∙◌, zero, leb, ◌%◌, if◌then◌else◌, ◌/◌, ◌≢◌, suc-cases,
}
use hsunix.KobjMap.{
  insert_probe, kobj_lookup, insert_times, lookup_probe, major_num, kobj_map, Probe, ProbeMap,
  is_outside, last_of, lock_fails,
}

-- The chain of a map has no narrower probe for the number than a given one.
abbrev pub NoneNarrower : ℕ → ℕ → List Probe → Type 0
NoneNarrower dev range [] = Unit
NoneNarrower dev range (q ∷ qs) =
    ((q.range < range) → is_outside dev q ≡ true) × NoneNarrower dev range qs

lookup_probe-outside :
    (dev range : ℕ) (p : Probe) (ps : List Probe)
    → is_outside dev p ≡ true
    → lookup_probe dev range (p ∷ ps) ≡ lookup_probe dev range ps
unfolding lookup_probe
lookup_probe-outside dev range p ps h = rw (h, lookup_probe) refl

lookup_probe-here :
    (dev range : ℕ) (p : Probe) (ps : List Probe) (probe : ℕ → ℕ → Option ℕ)
    → is_outside dev p ≡ false
    → last_of p.range < range
    → lock_fails p ≡ false
    → p.probe ≡ some probe
    → lookup_probe dev range (p ∷ ps) ≡ probe dev (dev - p.dev)
unfolding lookup_probe
lookup_probe-here dev range p ps probe h l lock g =
    let narrower : leb range (last_of p.range) ≡ false = ground (arith, l) in
    rw (h, lookup_probe) (rw narrower (rw lock (rw g refl)))

-- A probe that is put into a chain without a narrower one for the number is the one that is found.
lookup_probe-insert_probe :
    (dev range : ℕ) (p : Probe) (chain : List Probe) (probe : ℕ → ℕ → Option ℕ)
    → is_outside dev p ≡ false
    → last_of p.range < range
    → lock_fails p ≡ false
    → p.probe ≡ some probe
    → NoneNarrower dev p.range chain
    → lookup_probe dev range (insert_probe p chain) ≡ probe dev (dev - p.dev)
unfolding insert_probe
lookup_probe-insert_probe dev range p [] probe h l lock g n =
    lookup_probe-here dev range p [] probe h l lock g
lookup_probe-insert_probe dev range p (q ∷ qs) probe h l lock g n =
    elim (Bool-cases (ltb q.range p.range)) [
      | inl smaller ↦
          rw (smaller, insert_probe)
            (lookup_probe-outside dev range q (insert_probe p qs) (n.0 (ground (arith, smaller)))
              ∙ lookup_probe-insert_probe dev range p qs probe h l lock g n.1)
      | inr larger ↦
          rw (larger, insert_probe) (lookup_probe-here dev range p (q ∷ qs) probe h l lock g)
    ]

NoneNarrower-insert :
    (dev : ℕ) (p : Probe) (chain : List Probe)
    → NoneNarrower dev p.range chain
    → NoneNarrower dev p.range (insert_probe p chain)
unfolding insert_probe
NoneNarrower-insert dev p [] n = (λ h. absurd (omega (arith, h)), tt)
NoneNarrower-insert dev p (q ∷ qs) n = elim (Bool-cases (ltb q.range p.range)) [
  | inl smaller ↦ rw (smaller, insert_probe) (n.0, NoneNarrower-insert dev p qs n.1)
  | inr larger ↦ rw (larger, insert_probe) (λ h. absurd (omega (arith, h)), n)
]

lookup_probe-insert_times :
    (k dev range : ℕ) (p : Probe) (chain : List Probe) (probe : ℕ → ℕ → Option ℕ)
    → is_outside dev p ≡ false
    → last_of p.range < range
    → lock_fails p ≡ false
    → p.probe ≡ some probe
    → NoneNarrower dev p.range chain
    → lookup_probe dev range (insert_times (suc k) p chain) ≡ probe dev (dev - p.dev)
unfolding insert_times
lookup_probe-insert_times zero dev range p chain probe h l lock g n =
    lookup_probe-insert_probe dev range p chain probe h l lock g n
lookup_probe-insert_times (suc k) dev range p chain probe h l lock g n =
    lookup_probe-insert_times k dev range p (insert_probe p chain) probe h l lock g
      (NoneNarrower-insert dev p chain n)

clipped_positive : (n : ℕ) → (if ltb 255 (n + 1) then 255 else n + 1) ≢ 0
clipped_positive n e = ground (arith, e)

major_num-positive :
    (dev range : ℕ) → 0 < range → dev + range ≤ 2 ^ 32 → (k : ℕ) × (major_num dev range ≡ suc k)
unfolding major_num
major_num-positive dev range h l =
    let end : (dev + range + 2 ^ 64 - 1) % 2 ^ 64 ≡ dev + range - 1 = omega (arith, h, l) in
    let majors : ((dev + range - 1) / 2 ^ 20 % 2 ^ 32 + 2 ^ 32 - dev / 2 ^ 20 + 1) % 2 ^ 32
        ≡ (dev + range - 1) / 2 ^ 20 - dev / 2 ^ 20 + 1 =
      omega (arith, h, l) in
    suc-cases (major_num dev range) (
      rw (end, major_num)
        (rw majors (λ e. clipped_positive ((dev + range - 1) / 2 ^ 20 - dev / 2 ^ 20) e)))

-- After `kobj_map` of a range of one to 0xffff numbers that ends within 2^32, with a function and with
-- no `lock` or one that does not fail, a lookup of any number in the range calls its function with the
-- number and its place in the range, where the first probe of the map does not hold the number and no
-- narrower range that is mapped does.
pub kobj_lookup-kobj_map :
    (p : Probe) (domain : ProbeMap) (dev : ℕ) (probe : ℕ → ℕ → Option ℕ)
    → lock_fails p ≡ false
    → p.probe ≡ some probe
    → 0 < p.range
    → p.range ≤ 0xffff
    → p.dev + p.range ≤ 2 ^ 32
    → p.dev ≤ dev
    → dev < p.dev + p.range
    → is_outside dev domain.base ≡ true
    → NoneNarrower dev p.range domain.chain
    → kobj_lookup (kobj_map true p domain).1 dev ≡ probe dev (dev - p.dev)
unfolding kobj_lookup kobj_map
kobj_lookup-kobj_map p domain dev probe lock g h small fits lo hi base n =
    let (k, e) = major_num-positive p.dev p.range h fits in
    let inside : is_outside dev p ≡ false = ground (arith, h, fits, lo, hi) in
    lookup_probe-outside dev 0xffff domain.base
      (insert_times (major_num p.dev p.range) p domain.chain) base
    ∙ rw e (
        lookup_probe-insert_times k dev 0xffff p domain.chain probe inside (omega (arith, h, small))
          lock g n)
