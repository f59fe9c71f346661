-- ===== src/PageTable/Copy/In.antt =====
-- `uvm_copyin` of kernel/arch/vm.c, byte by byte.
use hsunix.Base.{
  suc-cases, ℕ, ◌+◌, ◌-◌, ◌/◌, ◌%◌, ◌≡◌, ◌≢◌, ◌<◌, ◌≤◌, ◌⊎◌, arith, some, true, false, ltb, leb,
  ◌&&◌, if◌then◌else◌, inl, inr, Bool-cases, suc, refl, ◌∙◌, zero, ap,
}
use hsunix.Cstr.{Memory, kmemmove}
use hsunix.Cstr.Move.{moved, kmemmove-moved}
use hsunix.PageTable.{Vm, is_user, pte2pa, max_va, pg_round_down, pos}
use hsunix.PageTable.Space.{lookup, lookup-ptes}
use hsunix.PageTable.Ranges.{kvm_pageaddr}
use hsunix.PageTable.Copy.{copy_in, chunk, uvm_copyin}
use hsunix.Kmem.{pg_size}
use hsunix.PageTable.Ranges.Peek.{kvm_pageaddr_lem, lookup-page}
use hsunix.Base.Int.{pos}

-- The memory after `len` bytes from the virtual address src on were copied to dst, where the pages
-- are those of `page`.
abbrev pub picked : (ℕ → ℕ) → Memory → ℕ → ℕ → ℕ → ℕ → ℕ
picked page m dst src len a =
    if leb dst a && ltb a (dst + len)
    then m (page ((src + (a - dst)) / 4096) + (src + (a - dst)) % 4096)
    else m a

-- The user may reach `len` bytes from src on, in the pages of `page`, none of which meets the
-- `size` bytes from dst on.
abbrev pub Reachable : ℕ → Vm → (ℕ → ℕ) → ℕ → ℕ → ℕ → ℕ → Type 0
Reachable root v page src len dst size =
    (k : ℕ)
    → k < len
    → (e : ℕ) × (lookup root v (src + k) ≡ some e)
      × (is_user e ≡ true)
      × (page ((src + k) / 4096) ≡ pte2pa e)
      × (pte2pa e ≢ 0)
      × ((pte2pa e + 4096 ≤ dst) ⊎ (dst + size ≤ pte2pa e))

module _ (page : ℕ → ℕ) (m m₁ : Memory) (dst src len n : ℕ) (fits : src % 4096 + n ≤ 4096)
    (short : n ≤ len) (first : (a : ℕ) → m₁ a ≡ moved m dst (page (src / 4096) + src % 4096) n a)
    (apart : (k : ℕ)
      → k < len
      → (page ((src + k) / 4096) + 4096 ≤ dst) ⊎ (dst + len ≤ page ((src + k) / 4096))) where
  -- A byte of the first piece, and one behind it.
  split_first :
      (k : ℕ)
      → k < n
      → page (src / 4096) + src % 4096 + k ≡ page ((src + k) / 4096) + (src + k) % 4096
  split_first k h =
      let q : (src + k) / 4096 ≡ src / 4096 = omega (arith, h, fits) in
      rw q (omega (arith, h, fits))

  split_later :
      (k : ℕ)
      → k < len
      → m₁ (page ((src + k) / 4096) + (src + k) % 4096)
        ≡ m (page ((src + k) / 4096) + (src + k) % 4096)
  split_later k h =
      let small : (src + k) % 4096 < 4096 = omega arith in
      ground (arith, first (page ((src + k) / 4096) + (src + k) % 4096), apart k h, small, short)

  split_address : (a : ℕ) → dst + n ≤ a → src + n + (a - (dst + n)) ≡ src + (a - dst)
  split_address a h = omega (arith, h)

  picked-split :
      (a : ℕ) → picked page m₁ (dst + n) (src + n) (len - n) a ≡ picked page m dst src len a
  picked-split a = elim (Bool-cases (leb (dst + n) a && ltb a (dst + len))) [
    | inl behind ↦
        let e = split_address a (ground (arith, behind)) in
        let inside : (leb (dst + n) a && ltb a (dst + n + (len - n))) ≡ true =
          ground (arith, behind, short) in
        let within : (leb dst a && ltb a (dst + len)) ≡ true = ground (arith, behind, short) in
        rw (inside, within, e) (split_later (a - dst) (ground (arith, behind)))
    | inr other ↦
        let outside : (leb (dst + n) a && ltb a (dst + n + (len - n))) ≡ false =
          ground (arith, other, short) in
        rw outside (ground (arith, first a, split_first (a - dst), other, short))
  ]

-- One round.
module _ (page : ℕ → ℕ) (f root dst src l ret : ℕ) (v : Vm) (small : src + suc l ≤ max_va)
    (reach : Reachable root v page src (suc l) dst (suc l)) where
  abbrev piece : ℕ
  piece = chunk src (suc l)

  abbrev after : Vm
  after = record v { bytes = kmemmove v.bytes dst (page (src / 4096) + src % 4096) piece }

  piece-bounds :
      (piece ≤ suc l)
      × (0 < piece)
      × (src % 4096 + piece ≤ 4096)
      × ((suc l - piece ≡ 0) ⊎ (pg_round_down src + pg_size ≡ src + piece))
  piece-bounds = (omega arith, omega arith, omega arith, ground arith)

  here :
      (kvm_pageaddr root (pg_round_down src) v ≡ some (page (src / 4096))) × (page (src / 4096) ≢ 0)
  here =
      let (e, r, u, q, z, d) = reach 0 (omega arith) in
      let says = (kvm_pageaddr_lem root (pg_round_down src) v (omega (arith, small))).0 e in
      let found : lookup root v (pg_round_down src) ≡ some e =
        ground (arith, lookup-page root src v, r) in
      (ground (arith, says found, u, q), ground (arith, q, z))

  copy_in-next :
      copy_in (suc f) root dst src (suc l) ret v
      ≡ copy_in f root
          (dst + piece)
          (pg_round_down src + pg_size)
          (suc l - piece)
          (ret + piece)
          after
  unfolding copy_in
  copy_in-next =
      let (p, q) = suc-cases (page (src / 4096)) here.1 in
      let called : kvm_pageaddr root (pg_round_down src) v ≡ some (suc p) = here.0 ∙ ap some q in
      let from : suc p + (src - pg_round_down src) ≡ page (src / 4096) + src % 4096 =
        omega (arith, q) in
      rw (called, copy_in)
        (ap
          (λ b.
            copy_in f root (dst + piece) (pg_round_down src + pg_size) (suc l - piece) (ret + piece)
              (record v { bytes = kmemmove v.bytes dst b piece }))
          from)

  still : (va : ℕ) → lookup root after va ≡ lookup root v va
  still va = lookup-ptes root va v after (λ a. refl)

  reach-apart :
      (k : ℕ)
      → k < suc l
      → (page ((src + k) / 4096) + 4096 ≤ dst) ⊎ (dst + suc l ≤ page ((src + k) / 4096))
  reach-apart k h = let (e, r, u, q, z, d) = reach k h in rw q d

  reach-next :
      Reachable root after page
        (pg_round_down src + pg_size)
        (suc l - piece)
        (dst + piece)
        (suc l - piece)
  reach-next k h =
      let far : pg_round_down src + pg_size + k ≡ src + (piece + k) =
        ground (arith, piece-bounds, h) in
      let (e, r, u, q, z, d) = reach (piece + k) (omega (arith, h)) in
      (e, rw far (still (src + (piece + k)) ∙ r), u, rw far q, z, ground (arith, d, h))

  picked-next :
      (a : ℕ)
      → picked page after.bytes (dst + piece) (pg_round_down src + pg_size) (suc l - piece) a
        ≡ picked page v.bytes dst src (suc l) a
  picked-next a =
      let split =
        picked-split page v.bytes after.bytes dst src (suc l) piece piece-bounds.2 piece-bounds.0
          (λ b. kmemmove-moved v.bytes dst (page (src / 4096) + src % 4096) piece b) reach-apart
          a in
      elim piece-bounds.3 [ inl z ↦ ground (arith, split, z) | inr e ↦ rw e split ]

  bound-next : pg_round_down src + pg_size + (suc l - piece) ≤ max_va
  bound-next = elim piece-bounds.3 [
    | inl z ↦ omega (arith, z, small)
    | inr e ↦ omega (arith, e, small, piece-bounds.0)
  ]

  run-next :
      (m : Memory)
      → copy_in f root
          (dst + piece)
          (pg_round_down src + pg_size)
          (suc l - piece)
          (ret + piece)
          after
        ≡ some (pos (ret + piece + (suc l - piece)), record after { bytes = m })
      → copy_in (suc f) root dst src (suc l) ret v
        ≡ some (pos (ret + suc l), record v { bytes = m })
  run-next m e =
      let total : ret + piece + (suc l - piece) ≡ ret + suc l = omega (arith, piece-bounds.0) in
      copy_in-next ∙ e ∙ ap (λ n. some (pos n, record v { bytes = m })) total

-- A copy that can reach its bytes.
copy_in_lem :
    (page : ℕ → ℕ) (f root dst src len ret : ℕ) (v : Vm)
    → len < f
    → src + len ≤ max_va
    → Reachable root v page src len dst len
    → (m : Memory) × (copy_in f root dst src len ret v
        ≡ some (pos (ret + len), record v { bytes = m }))
      × ((a : ℕ) → m a ≡ picked page v.bytes dst src len a)
unfolding copy_in
copy_in_lem page zero root dst src len ret v h b r = absurd (omega (arith, h))
copy_in_lem page (suc f) root dst src zero ret v h b r = (v.bytes, ground arith, λ a. ground arith)
copy_in_lem page (suc f) root dst src (suc l) ret v h b r =
    let w = after page f root dst src l ret v b r in
    let n = piece page f root dst src l ret v b r in
    let ends = piece-bounds page f root dst src l ret v b r in
    let (m, run, all) =
      copy_in_lem page f root (dst + n) (pg_round_down src + pg_size) (suc l - n) (ret + n) w
        (omega (arith, ends.0, ends.1, h)) (bound-next page f root dst src l ret v b r)
        (reach-next page f root dst src l ret v b r) in
    (
      m,
      run-next page f root dst src l ret v b r m run,
      λ a. all a ∙ picked-next page f root dst src l ret v b r a,
    )

-- Fewer than 2 ^ 31 bytes of user memory below `MAXVA` whose pages the user may reach, none of which
-- is the kernel's buffer, are all copied: `uvm_copyin` returns their number, the buffer holds at each
-- place the byte that the page of its virtual address held, however many pages the range touches, and
-- no other byte of memory changes.
pub uvm_copyin_lem :
    (page : ℕ → ℕ) (root dst src len : ℕ) (v : Vm)
    → len < 0x80000000
    → src + len ≤ max_va
    → Reachable root v page src len dst len
    → (m : Memory) × (uvm_copyin root dst src len v ≡ some (pos len, record v { bytes = m }))
      × ((a : ℕ) → m a ≡ picked page v.bytes dst src len a)
unfolding uvm_copyin
uvm_copyin_lem page root dst src len v small b r =
    let (m, run, all) = copy_in_lem page (suc len) root dst src len 0 v (omega arith) b r in
    let count : 0 + len ≡ len = omega arith in
    (m, run ∙ ap (λ n. some (pos n, record v { bytes = m })) count, all)
