-- ===== src/Blocks/Bitmap.antt =====
-- `dbmap_alloc` of kernel/fs/disk_fs/dfs_priv.c on the bitmap.
use hsunix.Base.{
  ℕ, zero, suc, ◌+◌, ◌-◌, ◌*◌, ◌/◌, ◌%◌, ◌≡◌, ◌<◌, ◌≤◌, arith, List, Option, none, some, true,
  false, min, replicate, Bool-cases, inl, inr, refl, ap, ◌⊎◌, ◌∙◌, ap₂, Option-cases, ltb,
}
use hsunix.DiskCache.{Buf, Cache, bsize}
use hsunix.DiskCache.Sound.{stored}
use hsunix.DiskCache.Lent.{IsReady, IsReady-stored}
use hsunix.Blocks.Borrow.{free-ready}
use hsunix.Blocks.{Sb, bblock, bit_of, set_bit, dblk_zero, first_clear, alloc_from, dbmap_alloc}
use hsunix.Blocks.Borrow.{borrow-ready, give_back-ready}
use hsunix.Blocks.Bits.{is_used, first_clear-none, first_clear-some}

-- How `dbmap_alloc` ends: with 0, each block being in use, or with the lowest block that is not.
abbrev pub Granted : Sb → Cache → Option (ℕ × Cache) → Type 0
Granted sb c none = ⊥
Granted sb c (some (b, c')) =
    ((b ≡ 0) × (c' ≡ c) × ((k : ℕ) → k < sb.size → is_used sb c.disk k ≡ true))
    ⊎ ((b < sb.size)
        × (is_used sb c.disk b ≡ false)
        × ((k : ℕ) → k < b → is_used sb c.disk k ≡ true)
        × (c'
            ≡ stored b (replicate bsize 0)
                (stored (bblock b sb) (set_bit (c.disk (bblock b sb)) (b % 8192)) c)))

module _ (a : ℕ) (bs : List Buf) where
  dblk_zero-ready :
      (n : ℕ) (c : Cache) → IsReady a bs c → dblk_zero n c ≡ stored n (replicate bsize 0) c
  unfolding dblk_zero
  dblk_zero-ready n c q =
      rw (borrow-ready n a bs c q, dblk_zero) (give_back-ready n a bs c q (replicate bsize 0))

  module _ (sb : Sb) (c : Cache) (q : IsReady a bs c) where
    -- The buffers after block b was taken.
    abbrev pub taken : ℕ → Cache
    taken b =
        stored b (replicate bsize 0)
          (stored (bblock b sb) (set_bit (c.disk (bblock b sb)) (b % 8192)) c)

    abbrev pub search : ℕ → Option ℕ
    search m = first_clear (min 8192 (sb.size - m * 8192)) 0 (c.disk (bblock (m * 8192) sb))

    alloc_from-pass :
        (n m : ℕ)
        → search m ≡ none
        → alloc_from (suc n) sb (m * 8192) c ≡ alloc_from n sb (m * 8192 + 8192) c
    unfolding alloc_from
    alloc_from-pass n m h =
        let at = bblock (m * 8192) sb in
        rw (borrow-ready at a bs c q, alloc_from)
          (rw h (ap (alloc_from n sb (m * 8192 + 8192)) (free-ready at a bs c q)))

    pub alloc_from-take :
        (n m bi : ℕ)
        → search m ≡ some bi
        → bi < 8192
        → alloc_from (suc n) sb (m * 8192) c ≡ some (m * 8192 + bi, taken (m * 8192 + bi))
    unfolding alloc_from
    alloc_from-take n m bi h l =
        let at = bblock (m * 8192) sb in
        let b : ℕ = m * 8192 + bi in
        let marked : Cache = stored at (set_bit (c.disk at) bi) c in
        let same : at ≡ bblock b sb = omega (arith, l) in
        let entry : bi ≡ b % 8192 = omega (arith, l) in
        rw (borrow-ready at a bs c q, alloc_from)
          (rw h (
            ap (λ d. some (b, dblk_zero b d)) (give_back-ready at a bs c q (set_bit (c.disk at) bi))
            ∙ ap (λ d. some (b, d))
                (dblk_zero-ready b marked (IsReady-stored at a bs c (set_bit (c.disk at) bi) q))
            ∙ ap₂
                (λ x y. some (b, stored b (replicate bsize 0) (stored x (set_bit (c.disk x) y) c)))
                same entry))

    -- What a block of the bitmap says of its blocks.
    used_bit :
        (m bi : ℕ)
        → bi < 8192
        → is_used sb c.disk (m * 8192 + bi) ≡ bit_of (c.disk (bblock (m * 8192) sb)) bi
    used_bit m bi l =
        let at : bblock (m * 8192 + bi) sb ≡ bblock (m * 8192) sb = omega (arith, l) in
        let entry : (m * 8192 + bi) % 8192 ≡ bi = omega (arith, l) in
        ap₂ (λ n i. bit_of (c.disk n) i) at entry

    -- The blocks of one bitmap block that were found in use.
    passed :
        (m : ℕ)
        → search m ≡ none
        → (bi : ℕ) → bi < 8192
        → m * 8192 + bi < sb.size
        → is_used sb c.disk (m * 8192 + bi) ≡ true
    passed m h bi l s =
        let d = c.disk (bblock (m * 8192) sb) in
        let one = first_clear-none (min 8192 (sb.size - m * 8192)) 0 d h bi (omega (arith, l, s)) in
        let at : 0 + bi ≡ bi = omega arith in used_bit m bi l ∙ rw at at one

    -- A block before bi of the bitmap block m, or of one before it.
    split_at :
        (m bi : ℕ)
        → ((k : ℕ) → k < m * 8192 → k < sb.size → is_used sb c.disk k ≡ true)
        → ((k : ℕ) → k < bi → m * 8192 + k < sb.size → is_used sb c.disk (m * 8192 + k) ≡ true)
        → (k : ℕ) → k < m * 8192 + bi
        → k < sb.size
        → is_used sb c.disk k ≡ true
    split_at m bi seen more k l s = elim (Bool-cases (ltb k (m * 8192))) [
      | inl low ↦ seen k (ground (arith, low)) s
      | inr high ↦
          let from : m * 8192 ≤ k = ground (arith, high) in
          let sum : m * 8192 + (k - m * 8192) ≡ k = omega (arith, from) in
          rw sum at (more (k - m * 8192) (omega (arith, from, l)) (omega (arith, from, s)))
    ]

    found :
        (m bi : ℕ)
        → search m ≡ some bi
        → ((k : ℕ) → k < m * 8192 → k < sb.size → is_used sb c.disk k ≡ true)
        → (bi < 8192)
          × (m * 8192 + bi < sb.size)
          × (is_used sb c.disk (m * 8192 + bi) ≡ false)
          × ((k : ℕ) → k < m * 8192 + bi → is_used sb c.disk k ≡ true)
    found m bi h seen =
        let (l, u, bit, all) =
          first_clear-some (min 8192 (sb.size - m * 8192)) 0 bi (c.disk (bblock (m * 8192) sb)) h in
        let small : bi < 8192 = omega (arith, u) in
        let more = λ (k : ℕ) (p : k < bi) (s : m * 8192 + k < sb.size).
          used_bit m k (omega (arith, p, small)) ∙ all k (omega arith) p in
        let top : m * 8192 + bi < sb.size = omega (arith, u) in
        (
          small,
          top,
          used_bit m bi small ∙ bit,
          λ k p. split_at m bi seen more k p (omega (arith, p, top)),
        )

    alloc_from_lem :
        (n m : ℕ)
        → sb.size ≤ (m + n) * 8192
        → ((k : ℕ) → k < m * 8192 → k < sb.size → is_used sb c.disk k ≡ true)
        → Granted sb c (alloc_from n sb (m * 8192) c)
    unfolding alloc_from
    alloc_from_lem zero m enough seen = inl (refl, refl, λ k l. seen k (omega (arith, l, enough)) l)
    alloc_from_lem (suc n) m enough seen = elim (Option-cases (search m)) [
      | inl pass ↦
          let next : m * 8192 + 8192 ≡ suc m * 8192 = omega arith in
          rw (alloc_from-pass n m pass) (
            rw next (
              alloc_from_lem n (suc m) (omega (arith, enough))
                (λ k l s. split_at m 8192 seen (passed m pass) k (omega (arith, l)) s)))
      | inr (bi, h) ↦
          let (small, l, clear, before) = found m bi h seen in
          rw (alloc_from-take n m bi h small) (inr (l, clear, before, refl))
    ]

-- For sound buffers, the first idle one blank and of no block: `dbmap_alloc` takes the lowest block that
-- the bitmap has free, marks it and clears it on the disk and in the buffers of the two blocks, if
-- others have them, and no other block changes; with all blocks in use it returns 0 and changes
-- nothing. (Sound means that the buffers in use, each with fewer than 2^31 users, are of different
-- blocks and numbers, valid, and hold what the disk holds.)
pub dbmap_alloc_lem :
    (a : ℕ) (bs : List Buf) (sb : Sb) (c : Cache) → IsReady a bs c → Granted sb c (dbmap_alloc sb c)
unfolding dbmap_alloc
dbmap_alloc_lem a bs sb c q =
    alloc_from_lem a bs sb c q ((sb.size + 8191) / 8192) 0 (omega arith)
      (λ k l. absurd (omega (arith, l)))
