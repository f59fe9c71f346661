-- ===== src/PageTable/Copy/Out.antt =====
-- `uvm_copyout` of kernel/arch/vm.c.
use hsunix.Base.{
  suc-cases, ℕ, zero, suc, ◌+◌, ◌-◌, ◌/◌, ◌%◌, ◌≡◌, ◌≢◌, ◌<◌, ◌≤◌, arith, some, true, false, ap,
  ◌∙◌, refl,
}
use hsunix.Base.Int.{pos, negsuc}
use hsunix.Cstr.{Memory, kmemmove}
use hsunix.Cstr.Move.{moved, kmemmove-moved}
use hsunix.Kmem.{pg_size}
use hsunix.PageTable.{Vm, is_user, pte2pa, max_va, pg_round_down}
use hsunix.PageTable.Space.{lookup, lookup-ptes}
use hsunix.PageTable.Ranges.Peek.{kvm_pageaddr_lem, lookup-page}
use hsunix.PageTable.Ranges.{kvm_pageaddr}
use hsunix.PageTable.Copy.{chunk, copy_out, uvm_copyout}

-- The round for an address that the user may reach.
module _ (f root dst src l e : ℕ) (v : Vm) (small : dst < max_va)
    (there : lookup root v dst ≡ some e) (user : is_user e ≡ true) (whole : pte2pa e ≢ 0) where
  abbrev piece : ℕ
  piece = chunk dst (suc l)

  abbrev after : Vm
  after = record v { bytes = kmemmove v.bytes (pte2pa e + dst % 4096) src piece }

  called : kvm_pageaddr root (pg_round_down dst) v ≡ some (pte2pa e)
  called =
      let says = (kvm_pageaddr_lem root (pg_round_down dst) v (omega (arith, small))).0 e in
      ground (arith, says (lookup-page root dst v ∙ there), user)

  copy_out-next :
      copy_out (suc f) root dst src (suc l) v
      ≡ copy_out f root
          ((dst + (pg_round_down dst + pg_size)) % 0x10000000000000000)
          (src + piece)
          (suc l - piece)
          after
  unfolding copy_out
  copy_out-next =
      let (p, q) = suc-cases (pte2pa e) whole in
      let found : kvm_pageaddr root (pg_round_down dst) v ≡ some (suc p) = called ∙ ap some q in
      let to : suc p + (dst - pg_round_down dst) ≡ pte2pa e + dst % 4096 = omega (arith, q) in
      rw (found, copy_out)
        (ap
          (λ b.
            copy_out f root ((dst + (pg_round_down dst + pg_size)) % 0x10000000000000000)
              (src + piece) (suc l - piece) (record v { bytes = kmemmove v.bytes b src piece }))
          to)

copy_out-done : (f root dst src : ℕ) (v : Vm) → copy_out (suc f) root dst src 0 v ≡ some (pos 0, v)
unfolding copy_out
copy_out-done f root dst src v = refl

-- A copy to one page of user memory, below `MAXVA` and open to the user, returns 0 and puts the bytes
-- at their places in the page, as they were before the call, and no others.
pub uvm_copyout_lem :
    (root dst src len e : ℕ) (v : Vm)
    → dst < max_va
    → dst % 4096 + len ≤ 4096
    → lookup root v dst ≡ some e
    → is_user e ≡ true
    → pte2pa e ≢ 0
    → (m : Memory) × (uvm_copyout root dst src len v ≡ some (pos 0, record v { bytes = m }))
      × ((a : ℕ) → m a ≡ moved v.bytes (pte2pa e + dst % 4096) src len a)
unfolding uvm_copyout
uvm_copyout_lem root dst src zero e v s h t u z =
    (v.bytes, copy_out-done 0 root dst src v, λ a. ground arith)
uvm_copyout_lem root dst src (suc l) e v s h t u z =
    let all : chunk dst (suc l) ≡ suc l = omega (arith, h) in
    let none_left : suc l - chunk dst (suc l) ≡ 0 = omega (arith, h) in
    (
      kmemmove v.bytes (pte2pa e + dst % 4096) src (suc l),
      copy_out-next (suc l) root dst src l e v s t u z
          ∙ rw none_left (
              ap
                (λ n.
                  some (pos 0, record v { bytes = kmemmove v.bytes (pte2pa e + dst % 4096) src n }))
                all),
      λ a. kmemmove-moved v.bytes (pte2pa e + dst % 4096) src (suc l) a,
    )

copy_out-refused :
    (f root dst src l : ℕ) (v : Vm)
    → kvm_pageaddr root (pg_round_down dst) v ≡ some 0
    → copy_out (suc f) root dst src (suc l) v ≡ some (negsuc 0, v)
unfolding copy_out
copy_out-refused f root dst src l v d = rw (d, copy_out) refl

-- The address that the second round of `uvm_copyout` takes for the next page.
abbrev pub strays_to : ℕ → ℕ
strays_to dst = dst + (pg_round_down dst + pg_size)

-- A copy that crosses the end of a page goes on at another page than the next, for every address
-- from the second page on: where the user may not reach that other page, the call fails with -1 after
-- the first page's bytes, whatever the next page allows.
pub uvm_copyout-stray :
    (root dst src len e e' : ℕ) (v : Vm)
    → pg_size ≤ dst
    → strays_to dst < max_va
    → 4096 < dst % 4096 + len
    → lookup root v dst ≡ some e
    → is_user e ≡ true
    → pte2pa e ≢ 0
    → lookup root v (strays_to dst) ≡ some e'
    → is_user e' ≡ false
    → (strays_to dst / 4096 ≢ dst / 4096 + 1)
      × (uvm_copyout root dst src len v
          ≡ some (
            negsuc 0,
            record v { bytes = kmemmove v.bytes (pte2pa e + dst % 4096) src (4096 - dst % 4096) },
          ))
unfolding uvm_copyout
uvm_copyout-stray root dst src zero e e' v b s h t u z t' u' = absurd (omega (arith, h))
uvm_copyout-stray root dst src (suc l) e e' v b s h t u z t' u' =
    let small : dst < max_va = omega (arith, s) in
    let first : chunk dst (suc l) ≡ 4096 - dst % 4096 = omega (arith, h) in
    let w : Vm = after (suc l) root dst src l e v small t u z in
    let next : strays_to dst % 0x10000000000000000 ≡ strays_to dst = omega (arith, s) in
    let (k, more) = suc-cases (suc l - chunk dst (suc l)) (omega (arith, h)) in
    let says = (kvm_pageaddr_lem root (pg_round_down (strays_to dst)) w (omega (arith, s))).0 e' in
    let page : lookup root w (pg_round_down (strays_to dst)) ≡ some e' =
      lookup-page root (strays_to dst) w ∙ lookup-ptes root (strays_to dst) v w (λ a. refl) ∙ t' in
    let shut : kvm_pageaddr root (pg_round_down (strays_to dst)) w ≡ some 0 =
      ground (arith, says page, u') in
    (
      omega (arith, b),
      copy_out-next (suc l) root dst src l e v small t u z
          ∙ ap
              (λ a. copy_out (suc l) root a (src + chunk dst (suc l)) (suc l - chunk dst (suc l)) w)
              next
          ∙ ap (λ n. copy_out (suc l) root (strays_to dst) (src + chunk dst (suc l)) n w) more
          ∙ copy_out-refused l root (strays_to dst) (src + chunk dst (suc l)) k w shut
          ∙ ap
              (λ n.
                some
                  (negsuc 0, record v { bytes = kmemmove v.bytes (pte2pa e + dst % 4096) src n }))
              first,
    )
