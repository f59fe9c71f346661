-- ===== src/DiskPaths/SuperBlock.antt =====
-- The super block of kernel/fs/disk_fs/dfs_priv.c.
use hsunix.Base.{ℕ, List, length, ◌≡◌, some, none, ap, sym, ◌∙◌, arith, ap₂}
use hsunix.DiskPaths.{dsb_get, dsb_put, put_words, words_at}
use hsunix.DiskCache.{Buf, Cache, bsize}
use hsunix.DiskCache.Sound.{stored}
use hsunix.DiskCache.Lent.{IsReady, IsReady-stored}
use hsunix.Inodes.Codec.{AllWords, words_at-put_words}
use hsunix.Inodes.{put_words, words_at}
use hsunix.Blocks.Borrow.{borrow-ready, give_back-ready}
use hsunix.Blocks.Borrow.{free-ready}

-- What `dsb_put` writes, `dsb_get` reads after a restart, whatever the memory held that it gets: for
-- eight words below 2 ^ 32 the words come back, and the read leaves the buffers and the disk as the
-- write did. The buffers are sound before (those in use are of different blocks and numbers, valid, and
-- hold what the disk holds, with fewer than 2^31 users each), and the first idle one is blank and of no
-- block.
pub dsb_get-dsb_put :
    (a : ℕ) (bs : List Buf) (words raw : List ℕ) (c : Cache)
    → IsReady a bs c
    → length (c.disk 1) ≡ bsize
    → length words ≡ 8
    → AllWords words
    → (c' : Cache) × (dsb_put (some words) c ≡ some c')
      × (dsb_get (some raw) none c' ≡ (some words, some words, c'))
unfolding dsb_get dsb_put
dsb_get-dsb_put a bs words raw c q full eight fits =
    let d = put_words (c.disk 1) 0 words in
    let c' : Cache = stored 1 d c in
    let q' : IsReady a bs c' = IsReady-stored 1 a bs c d q in
    let back : words_at 8 d 0 ≡ words =
      ap (λ n. words_at n d 0) (sym eight)
      ∙ words_at-put_words words (c.disk 1) 0 (omega (arith, full, eight)) fits in
    (
      c',
      rw (borrow-ready 1 a bs c q, dsb_put) (ap some (give_back-ready 1 a bs c q d)),
      rw (borrow-ready 1 a bs c' q', dsb_get)
          (ap₂ (λ w x. (some w, some w, x)) back (free-ready 1 a bs c' q')),
    )
