-- ===== src/Blocks/Borrow.antt =====
-- A block that dfs_priv.c takes a buffer for, changes and gives back, whether another user has it or
-- not.
use hsunix.Base.{ℕ, ◌≡◌, ◌<◌, ◌^◌, List, some, ap, ◌∙◌, sym, arith}
use hsunix.DiskCache.{Buf, Cache, dbuf_flush, dbuf_free}
use hsunix.DiskCache.Sound.{stored}
use hsunix.DiskCache.Lent.{
  Serves, lent, lent_at, dbuf_alloc-lent, buf_at-lent, dbuf_free-lent, Serves-stored,
  lent_at-stored, dbuf_flush-lent, IsReady, IsReady-Serves,
}
use hsunix.Blocks.{borrow, give_back, bytes_of, put_bytes}

module _ (top : ℕ) (small : top < 2 ^ 32) (n a : ℕ) (bs : List Buf) (c : Cache)
    (q : Serves top n a bs c) where
  bytes_of-lent : bytes_of (lent_at n a c) (lent n a bs c) ≡ c.disk n
  unfolding bytes_of
  bytes_of-lent =
      let (b, there, bytes) = buf_at-lent top small n a bs c q in rw (there, bytes_of) bytes

  pub borrow-lent : borrow n c ≡ some (lent_at n a c, c.disk n, lent n a bs c)
  unfolding borrow
  borrow-lent =
      let taken = dbuf_alloc-lent top small n a bs c q in
      rw (taken, borrow)
        (ap (λ x. some (lent_at n a c, bytes_of (lent_at n a c) x, x)) (ap (λ r. r.1) taken)
          ∙ ap (λ d. some (lent_at n a c, d, lent n a bs c)) bytes_of-lent)

  -- A buffer that is changed and flushed, and not given back.
  pub flush-lent :
      (e : List ℕ)
      → dbuf_flush (lent_at n a c) (put_bytes (lent_at n a c) e (lent n a bs c))
        ≡ lent n a bs (stored n e c)
  unfolding put_bytes
  flush-lent e = dbuf_flush-lent top small n a bs c q e

  -- The disk has the new bytes, and so have the buffers that were in use; all else is as it was.
  give_back-lent : (e : List ℕ) → give_back (lent_at n a c) e (lent n a bs c) ≡ stored n e c
  unfolding give_back
  give_back-lent e =
      ap (dbuf_free (lent_at n a c)) (flush-lent e)
      ∙ ap (λ p. dbuf_free p (lent n a bs (stored n e c)))
          (sym (lent_at-stored top small n a bs c q e))
      ∙ dbuf_free-lent top small n a bs (stored n e c) (Serves-stored top small n a bs c q e)

-- The same with an idle buffer.
module _ (n a : ℕ) (bs : List Buf) (c : Cache) (q : IsReady a bs c) where
  pub borrow-ready : borrow n c ≡ some (lent_at n a c, c.disk n, lent n a bs c)
  borrow-ready = borrow-lent (2 ^ 31) (omega arith) n a bs c (IsReady-Serves n a bs c q)

  pub free-ready : dbuf_free (lent_at n a c) (lent n a bs c) ≡ c
  free-ready = dbuf_free-lent (2 ^ 31) (omega arith) n a bs c (IsReady-Serves n a bs c q)

  pub flush-ready :
      (e : List ℕ)
      → dbuf_flush (lent_at n a c) (put_bytes (lent_at n a c) e (lent n a bs c))
        ≡ lent n a bs (stored n e c)
  flush-ready e = flush-lent (2 ^ 31) (omega arith) n a bs c (IsReady-Serves n a bs c q) e

  pub give_back-ready : (e : List ℕ) → give_back (lent_at n a c) e (lent n a bs c) ≡ stored n e c
  give_back-ready e = give_back-lent (2 ^ 31) (omega arith) n a bs c (IsReady-Serves n a bs c q) e
