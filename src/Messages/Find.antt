-- ===== src/Messages/Find.antt =====
-- Which queue `k_msgget` of kernel/src/msg.c returns.
use hsunix.Base.{
  ℕ, ◌≡◌, arith, List, [], ◌∷◌, ◌++◌, Option, none, some, true, false, refl, if◌then◌else◌, ◌+◌,
  ◌%◌, ◌^◌,
}
use hsunix.Base.Int.{ℤ, pos, negsuc}
use hsunix.Messages.{Queue, Ipc, k_msgget, look, eq_ℤ, has_flag, ipc_creat, ipc_excl}

abbrev pub NoKey : ℤ → List Queue → Type 0
NoKey key [] = Unit
NoKey key (q ∷ qs) = (eq_ℤ q.key key ≡ false) × NoKey key qs

look-none :
    (key : ℤ) (last : Option Queue) (qs : List Queue) → NoKey key qs → (look key last qs).0 ≡ false
unfolding look
look-none key last [] h = refl
look-none key last (q ∷ qs) h = rw h.0 (look-none key (some q) qs h.1)

look-last :
    (key : ℤ) (last : Option Queue) (qs : List Queue) (q : Queue)
    → NoKey key (qs ++ (q ∷ []))
    → look key last (qs ++ (q ∷ [])) ≡ (false, some q)
unfolding look
look-last key last [] q h = rw h.0 refl
look-last key last (p ∷ qs) q h = rw h.0 (look-last key (some p) qs q h.1)

eq_ℤ-refl : (k : ℤ) → eq_ℤ k k ≡ true
eq_ℤ-refl (pos n) = ground arith
eq_ℤ-refl (negsuc n) = ground arith

-- A new key with the flag for creation gives the next identifier; the same key then gives the same
-- identifier again, or -1 to a caller who asks for a new queue.
pub k_msgget-creates :
    (key : ℤ) (flg flg' at : ℕ) (room : Option ℕ) (i : Ipc)
    → NoKey key i.queues
    → has_flag flg ipc_creat ≡ true
    → (i' : Ipc) × (k_msgget key flg (some at) i ≡ some (pos i.token, i'))
      × (k_msgget key flg' room i'
          ≡ some (if has_flag flg' ipc_excl then negsuc 0 else pos i.token, i'))
unfolding k_msgget
k_msgget-creates key flg flg' at room i h c =
    let new : Queue = record {
      at = at;
      key = key;
      id = i.token;
      flag = flg;
      num = pos 0;
      msgs = [];
    } in
    let i' : Ipc = record i { queues = new ∷ i.queues; token = (i.token + 1) % 2 ^ 32 } in
    let found : look key none (new ∷ i.queues) ≡ (true, some new) =
      unfold look in rw (eq_ℤ-refl key) refl in
    (i', ground (arith, c, look-none key none i.queues h), ground (arith, found))

-- A key that no queue has, without the flag for creation, gives the identifier of the queue at the
-- end of the list, the one created first, though its key is another.
pub k_msgget-unknown :
    (key : ℤ) (flg : ℕ) (room : Option ℕ) (i : Ipc) (qs : List Queue) (q : Queue)
    → i.queues ≡ qs ++ (q ∷ [])
    → NoKey key i.queues
    → has_flag flg ipc_creat ≡ false
    → k_msgget key flg room i ≡ some (pos q.id, i)
unfolding k_msgget
k_msgget-unknown key flg room i qs q e h c =
    let found : look key none i.queues ≡ (false, some q) =
      rw e (look-last key none qs q (rw e at h)) in
    rw (found, c) refl
