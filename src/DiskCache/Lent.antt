-- ===== src/DiskCache/Lent.antt =====
-- A buffer of kernel/fs/disk_fs/dfs_iobuf.c that a caller takes, whether another user has it or not, may
-- change and write, and gives back.
use hsunix.Base.{
  ℕ, ◌+◌, ◌%◌, ◌^◌, ◌<◌, ◌≡◌, arith, List, [], ◌∷◌, Option, none, some, true, false, ◌==◌, ◌⊎◌, inl,
  inr, refl, Bool-cases, Option-cases, ap, ap₂, sym, ◌∙◌,
}
use hsunix.DiskCache.{
  Buf, Cache, buf_at, change_at, dbuf_alloc, dbuf_flush, dbuf_free, buf_of, use_block, blank,
  io_write, load,
}
use hsunix.DiskCache.Pool.{holds, buf_of-holds}
use hsunix.DiskCache.Held.{
  stands, IsFree, dbuf_free-holding, holding, change_at-holding, dbuf_flush-holding,
  dbuf_alloc-holding, buf_at-holding,
}
use hsunix.DiskCache.Sound.{
  IsSound, IsSound-more, IsSound-refill, IsSound-use, buf_at-append, buf_at-use, buf_of-refill,
  buf_of-refill-none, change_at-use, fill-use, more_used, refill, refill-none, stands-refill,
  stored,
}

-- What serves block n: the buffer of the block that is in use, or buffer a, blank and in front of the
-- idle ones.
abbrev pub Serves : ℕ → ℕ → ℕ → List Buf → Cache → Type 0
Serves top n a bs c =
    IsSound top c.disk c.cached × (((b : Buf) × (buf_of n c.cached ≡ some b)) ⊎ IsFree n a bs c)

-- The number of the buffer that serves block n, and the buffers when it is taken.
abbrev number_or : ℕ → Option Buf → ℕ
number_or a none = a
number_or a (some b) = b.at

abbrev served : ℕ → ℕ → List Buf → Cache → Option Buf → Cache
served n a bs c none = holding n a bs (c.disk n) c
served n a bs c (some b) = record c { cached = use_block c.disk n c.cached }

abbrev pub lent_at : ℕ → ℕ → Cache → ℕ
lent_at n a c = number_or a (buf_of n c.cached)

abbrev pub lent : ℕ → ℕ → List Buf → Cache → Cache
lent n a bs c = served n a bs c (buf_of n c.cached)

module _ (n a : ℕ) (bs : List Buf) (c : Cache) where
  abbrev again : Cache
  again = record c { cached = use_block c.disk n c.cached }

  at_hit : (b : Buf) → buf_of n c.cached ≡ some b → lent_at n a c ≡ b.at
  at_hit b e = ap (number_or a) e

  at_miss : buf_of n c.cached ≡ none → lent_at n a c ≡ a
  at_miss e = ap (number_or a) e

  lent_hit : (b : Buf) → buf_of n c.cached ≡ some b → lent n a bs c ≡ again
  lent_hit b e = ap (served n a bs c) e

  lent_miss : buf_of n c.cached ≡ none → lent n a bs c ≡ holding n a bs (c.disk n) c
  lent_miss e = ap (served n a bs c) e

module _ (top : ℕ) (small : top < 2 ^ 32) (n a : ℕ) (bs : List Buf) (c : Cache)
    (q : Serves top n a bs c) where
  alloc_hit : (b : Buf) → buf_of n c.cached ≡ some b → dbuf_alloc n c ≡ (some b.at, again n a bs c)
  unfolding dbuf_alloc
  alloc_hit b hit = rw (hit, dbuf_alloc) refl

  pub dbuf_alloc-lent : dbuf_alloc n c ≡ (some (lent_at n a c), lent n a bs c)
  dbuf_alloc-lent = elim q.1 [
    | inl (b, hit) ↦
        alloc_hit b hit
        ∙ sym (ap₂ (λ x y. (some x, y)) (at_hit n a bs c b hit) (lent_hit n a bs c b hit))
    | inr free ↦
        dbuf_alloc-holding n a bs c free
        ∙ sym (ap₂ (λ x y. (some x, y)) (at_miss n a bs c free.0) (lent_miss n a bs c free.0))
  ]

  pub buf_at-lent :
      (b : Buf) × (buf_at (lent_at n a c) (lent n a bs c).cached ≡ some b) × (b.bytes ≡ c.disk n)
  buf_at-lent = elim q.1 [
    | inl (b, hit) ↦
        let (there, bytes, block, used) = buf_at-use top small n c.disk c.disk c.cached b q.0 hit in
        (
          more_used b,
          ap₂ (λ x y. buf_at x y.cached) (at_hit n a bs c b hit) (lent_hit n a bs c b hit) ∙ there,
          bytes,
        )
    | inr free ↦ (
      record { at = a; bytes = c.disk n; ref = 1; blknum = n; valid = true },
      ap₂ (λ x y. buf_at x y.cached) (at_miss n a bs c free.0) (lent_miss n a bs c free.0)
          ∙ buf_at-holding n a bs (c.disk n) c,
      refl,
    )
  ]

  free_used :
      (b : Buf)
      → buf_of n c.cached ≡ some b
      → buf_at b.at (use_block c.disk n c.cached) ≡ some (more_used b)
      → 0 < b.ref
      → dbuf_free b.at (record c { cached = use_block c.disk n c.cached }) ≡ c
  unfolding dbuf_free
  free_used b hit there used =
      let two : (b.ref + 1 == 0) ≡ false = ground arith in
      let last : (b.ref + 1 == 1) ≡ false = ground (arith, used) in
      rw (there, dbuf_free)
        (rw two (
          rw last (
            ap (λ l. record c { cached = l })
              (change_at-use top small n c.disk c.disk c.cached b q.0 hit))))

  pub dbuf_free-lent : dbuf_free (lent_at n a c) (lent n a bs c) ≡ c
  dbuf_free-lent = elim q.1 [
    | inl (b, hit) ↦
        let (there, bytes, block, used) = buf_at-use top small n c.disk c.disk c.cached b q.0 hit in
        ap₂ dbuf_free (at_hit n a bs c b hit) (lent_hit n a bs c b hit) ∙ free_used b hit there used
    | inr free ↦
        ap₂ dbuf_free (at_miss n a bs c free.0) (lent_miss n a bs c free.0)
        ∙ dbuf_free-holding n a bs c free (c.disk n)
  ]

  pub Serves-stored : (e : List ℕ) → Serves top n a bs (stored n e c)
  Serves-stored e = (
    IsSound-refill top n e c.disk c.cached q.0,
    elim q.1 [
      | inl (b, hit) ↦ inl (record b { bytes = e }, buf_of-refill n e c.cached b hit)
      | inr free ↦
          inr
            (buf_of-refill-none n e c.cached free.0, free.1, stands-refill n a e c.cached ∙ free.2)
    ],
  )

  pub lent_at-stored : (e : List ℕ) → lent_at n a (stored n e c) ≡ lent_at n a c
  lent_at-stored e = elim q.1 [
    | inl (b, hit) ↦
        at_hit n a bs (stored n e c) (record b { bytes = e }) (buf_of-refill n e c.cached b hit)
        ∙ sym (at_hit n a bs c b hit)
    | inr free ↦
        at_miss n a bs (stored n e c) (buf_of-refill-none n e c.cached free.0)
        ∙ sym (at_miss n a bs c free.0)
  ]

  miss_stored :
      (e : List ℕ)
      → buf_of n c.cached ≡ none
      → holding n a bs e (record c { disk = io_write n e c.disk })
        ≡ holding n a bs (io_write n e c.disk n) (stored n e c)
  miss_stored e miss =
      let same : io_write n e c.disk n ≡ e = ground arith in
      rw (same, refill-none n e c.cached miss) refl

  fill_used :
      (e : List ℕ) (b : Buf)
      → buf_of n c.cached ≡ some b
      → dbuf_flush b.at (record c {
        cached = change_at b.at (λ x. record x { bytes = e }) (use_block c.disk n c.cached);
      })
        ≡ record c {
          disk = io_write n e c.disk;
          cached = use_block (io_write n e c.disk) n (refill n e c.cached);
        }
  unfolding dbuf_flush
  fill_used e b hit =
      let new = io_write n e c.disk in
      let filled = refill n e c.cached in
      let (there, bytes, block, used) =
        buf_at-use top small n new new filled (record b { bytes = e })
          (IsSound-refill top n e c.disk c.cached q.0) (buf_of-refill n e c.cached b hit) in
      ap (λ l. dbuf_flush b.at (record c { cached = l }))
        (fill-use top small n c.disk c.disk new e c.cached b q.0 hit)
      ∙ rw
          (
            buf_at-append b.at (use_block new n filled) c.idle (more_used (record b { bytes = e }))
                there,
            dbuf_flush,
          )
          (rw block refl)

  -- New bytes for a buffer, and its writing.
  abbrev write_buf : ℕ → List ℕ → Cache → Cache
  write_buf p e x =
      dbuf_flush p (record x { cached = change_at p (λ b. record b { bytes = e }) x.cached })

  -- It is as if the buffer were taken after the bytes were stored.
  pub dbuf_flush-lent :
      (e : List ℕ) → write_buf (lent_at n a c) e (lent n a bs c) ≡ lent n a bs (stored n e c)
  dbuf_flush-lent e = elim q.1 [
    | inl (b, hit) ↦
        ap₂ (λ x y. write_buf x e y) (at_hit n a bs c b hit) (lent_hit n a bs c b hit)
        ∙ fill_used e b hit
        ∙ sym (
            lent_hit n a bs (stored n e c) (record b { bytes = e })
              (buf_of-refill n e c.cached b hit))
    | inr free ↦
        ap₂ (λ x y. write_buf x e y) (at_miss n a bs c free.0) (lent_miss n a bs c free.0)
        ∙ ap (λ l. dbuf_flush a (record (holding n a bs (c.disk n) c) { cached = l }))
            (change_at-holding n a bs (c.disk n) e c)
        ∙ dbuf_flush-holding n a bs e c
        ∙ miss_stored e free.0
        ∙ sym (lent_miss n a bs (stored n e c) (buf_of-refill-none n e c.cached free.0))
  ]

  lent_found :
      (x : Cache)
      → lent n a bs c ≡ x
      → IsSound (top + 1) x.disk x.cached
      → (b : Buf) × (buf_of n x.cached ≡ some b)
      → IsSound (top + 1) (lent n a bs c).disk (lent n a bs c).cached
        × ((b : Buf) × (buf_of n (lent n a bs c).cached ≡ some b))
  lent_found x e sound found = rw e (sound, found)

  use-found :
      (l : List Buf) (b : Buf)
      → buf_of n l ≡ some b
      → (d : Buf) × (buf_of n (use_block c.disk n l) ≡ some d)
  unfolding buf_of use_block
  use-found [] b h = absurd (cc)
  use-found (x ∷ l) b h = elim (Bool-cases (x.blknum == n)) [
    | inl hit ↦ (load c.disk (record x { ref = (x.ref + 1) % 2 ^ 32 }), ground (arith, hit))
    | inr miss ↦
        let (d, e) = use-found l b (ground (arith, miss, h)) in (d, ground (arith, miss, e))
  ]

  -- The buffers while one is taken, and the buffer of the block.
  lent-IsSound :
      0 < top
      → IsSound (top + 1) (lent n a bs c).disk (lent n a bs c).cached
        × ((b : Buf) × (buf_of n (lent n a bs c).cached ≡ some b))
  unfolding buf_of
  lent-IsSound some_users = elim q.1 [
    | inl (b, hit) ↦
        lent_found (again n a bs c) (lent_hit n a bs c b hit)
          (IsSound-use top small n c.disk c.disk c.cached q.0) (use-found c.cached b hit)
    | inr free ↦
        let head : Buf = record { at = a; bytes = c.disk n; ref = 1; blknum = n; valid = true } in
        lent_found (holding n a bs (c.disk n) c) (lent_miss n a bs c free.0)
          (
            buf_of-holds n c.cached free.0,
            free.2,
            omega arith,
            omega (arith, some_users),
            refl,
            refl,
            IsSound-more top c.disk c.cached q.0,
          )
          (head, ground arith)
  ]

-- The buffers are sound and buffer a, blank and of no block, is the first of the idle ones.
abbrev pub IsReady : ℕ → List Buf → Cache → Type 0
IsReady a bs c =
    IsSound (2 ^ 31) c.disk c.cached × (c.idle ≡ blank a ∷ bs) × (stands a c.cached ≡ false)

-- Such buffers serve every block.
pub IsReady-Serves :
    (n a : ℕ) (bs : List Buf) (c : Cache) → IsReady a bs c → Serves (2 ^ 31) n a bs c
IsReady-Serves n a bs c q = elim (Option-cases (buf_of n c.cached)) [
  | inl miss ↦ (q.0, inr (miss, q.1, q.2))
  | inr (b, hit) ↦ (q.0, inl (b, hit))
]

pub IsReady-stored :
    (n a : ℕ) (bs : List Buf) (c : Cache) (e : List ℕ)
    → IsReady a bs c
    → IsReady a bs (stored n e c)
IsReady-stored n a bs c e q =
    (IsSound-refill (2 ^ 31) n e c.disk c.cached q.0, q.1, stands-refill n a e c.cached ∙ q.2)

pub lent-disk : (n a : ℕ) (bs : List Buf) (c : Cache) → (lent n a bs c).disk ≡ c.disk
lent-disk n a bs c = elim (Option-cases (buf_of n c.cached)) [
  | inl miss ↦ ap (λ x. x.disk) (lent_miss n a bs c miss)
  | inr (b, hit) ↦ ap (λ x. x.disk) (lent_hit n a bs c b hit)
]

buf_of-found_holds : (n : ℕ) (bs : List Buf) (b : Buf) → buf_of n bs ≡ some b → holds n bs ≡ true
unfolding buf_of
buf_of-found_holds n [] b h = absurd (cc)
buf_of-found_holds n (x ∷ bs) b h = ground (arith, h, buf_of-found_holds n bs b)

-- Buffers of which one was taken are sound, with a user more, and one of them is of the block.
pub IsReady-lent :
    (n a : ℕ) (bs : List Buf) (c : Cache)
    → IsReady a bs c
    → IsSound (2 ^ 31 + 1) (lent n a bs c).disk (lent n a bs c).cached
      × (holds n (lent n a bs c).cached ≡ true)
IsReady-lent n a bs c q =
    let (sound, (b, hit)) =
      lent-IsSound (2 ^ 31) (omega arith) n a bs c (IsReady-Serves n a bs c q) (omega arith) in
    (sound, buf_of-found_holds n (lent n a bs c).cached b hit)

-- A block whose buffer was taken can be taken again.
pub IsReady-again :
    (n a : ℕ) (bs : List Buf) (c : Cache)
    → IsReady a bs c
    → Serves (2 ^ 31 + 1) n a bs (lent n a bs c)
IsReady-again n a bs c q =
    let (sound, found) =
      lent-IsSound (2 ^ 31) (omega arith) n a bs c (IsReady-Serves n a bs c q) (omega arith) in
    (sound, inl found)
