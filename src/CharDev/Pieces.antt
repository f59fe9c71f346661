-- ===== src/CharDev/Pieces.antt =====
-- The pieces of a range of device numbers in kernel/drv/char_dev.c, one for each major number.
use hsunix.Base.{
  ℕ, Option, Bool, ◌≤◌, some, ◌+◌, ltb, ◌<◌, ◌*◌, ◌≡◌, none, true, ◌^◌, false, ◌-◌, ◌/◌, ◌%◌, suc,
  refl, arith, Bool-cases, inr, inl, Option-cases, ◌∙◌, zero,
}
use hsunix.CharDev.{
  Chardevs, register_chrdev_region, unregister_pieces, next_piece, register_pieces, ℤ, Region,
  unregister_region, register_region, major_of, minor_of,
}
use hsunix.Base.Int.{ℤ, pos, negsuc}

-- A piece below the last major number is not empty and ends in the range.
next_piece-grows :
    (n max : ℕ) → n < max → max ≤ 4095 * 2 ^ 20 → (n < next_piece n max) × (next_piece n max ≤ max)
unfolding next_piece
next_piece-grows n max h l =
    let bound : (n / 2 ^ 20 + 1) * 2 ^ 20 % 2 ^ 32 + 0 ≡ (n / 2 ^ 20 + 1) * 2 ^ 20 =
      omega (arith, h, l) in
    let more : n < (n / 2 ^ 20 + 1) * 2 ^ 20 = omega arith in ground (arith, h, bound, more)

unregister_pieces-done :
    (f n max : ℕ) (m : Chardevs) → ltb n max ≡ false → unregister_pieces (suc f) n max m ≡ some m
unfolding unregister_pieces
unregister_pieces-done f n max m e = rw (e, unregister_pieces) refl

unregister_pieces-step :
    (f n max : ℕ) (m : Chardevs)
    → ltb n max ≡ true
    → unregister_pieces (suc f) n max m
      ≡ unregister_pieces f
          (next_piece n max)
          max
          (unregister_region (major_of n) (minor_of n) (next_piece n max - n) m).1
unfolding unregister_pieces
unregister_pieces-step f n max m e = rw (e, unregister_pieces) refl

unregister_pieces-ends :
    (f n max : ℕ) (m : Chardevs)
    → max ≤ 4095 * 2 ^ 20
    → max - n < f
    → (m' : Chardevs) × (unregister_pieces f n max m ≡ some m')
unregister_pieces-ends zero n max m l h = absurd (omega (arith, h))
unregister_pieces-ends (suc f) n max m l h = elim (Bool-cases (ltb n max)) [
  | inr end ↦ (m, unregister_pieces-done f n max m end)
  | inl more ↦
      let (grows, inside) = next_piece-grows n max (ground (arith, more)) l in
      let m₁ = (unregister_region (major_of n) (minor_of n) (next_piece n max - n) m).1 in
      let (m', e) =
        unregister_pieces-ends f (next_piece n max) max m₁ l (omega (arith, grows, inside, h)) in
      (m', unregister_pieces-step f n max m more ∙ e)
]

-- How the loop of `register_chrdev_region` ends: through, or with an error at a number of the range.
abbrev PiecesEnd : ℕ → Option (Option ℕ × Chardevs) → Type 0
PiecesEnd max none = ⊥
PiecesEnd max (some (none, m)) = Unit
PiecesEnd max (some (some n, m)) = n ≤ max

register_pieces-done :
    (f : ℕ) (room : ℕ → Bool) (name n max : ℕ) (m : Chardevs)
    → ltb n max ≡ false
    → register_pieces (suc f) room name n max m ≡ some (none, m)
unfolding register_pieces
register_pieces-done f room name n max m e = rw (e, register_pieces) refl

module _ (f : ℕ) (room : ℕ → Bool) (name n max : ℕ) (m : Chardevs) (more : ltb n max ≡ true) where
  abbrev piece : Option Region × Chardevs
  piece = register_region (room n) (major_of n) (minor_of n) (next_piece n max - n) name m

  register_pieces-stop :
      piece.0 ≡ none → register_pieces (suc f) room name n max m ≡ some (some n, piece.1)
  unfolding register_pieces
  register_pieces-stop e = rw (more, register_pieces) (rw e refl)

  register_pieces-step :
      (cd : Region)
      → piece.0 ≡ some cd
      → register_pieces (suc f) room name n max m
        ≡ register_pieces f room name (next_piece n max) max piece.1
  unfolding register_pieces
  register_pieces-step cd e = rw (more, register_pieces) (rw e refl)

register_pieces-ends :
    (f : ℕ) (room : ℕ → Bool) (name n max : ℕ) (m : Chardevs)
    → max ≤ 4095 * 2 ^ 20
    → max - n < f
    → PiecesEnd max (register_pieces f room name n max m)
register_pieces-ends zero room name n max m l h = absurd (omega (arith, h))
register_pieces-ends (suc f) room name n max m l h = elim (Bool-cases (ltb n max)) [
  | inr end ↦ rw (register_pieces-done f room name n max m end) tt
  | inl more ↦ elim (Option-cases ((piece f room name n max m more).0)) [
    | inl refused ↦
        rw (register_pieces-stop f room name n max m more refused) (ground (arith, more))
    | inr (cd, taken) ↦
        let (grows, inside) = next_piece-grows n max (ground (arith, more)) l in
        rw (register_pieces-step f room name n max m more cd taken) (
          register_pieces-ends f room name (next_piece n max) max (piece f room name n max m more).1
            l (omega (arith, grows, inside, h)))
  ]
]

-- The result of a call that comes back, which is 0 or -1.
abbrev pub Returns : Option (ℤ × Chardevs) → Type 0
Returns none = ⊥
Returns (some (pos k, m)) = k ≡ 0
Returns (some (negsuc k, m)) = k ≡ 0

register_end :
    (f : ℕ) (room : ℕ → Bool) (from count name : ℕ) (m : Chardevs)
    (r : Option (Option ℕ × Chardevs))
    → from + count ≤ 4095 * 2 ^ 20
    → count < f
    → register_pieces f room name from ((from + count) % 2 ^ 32) m ≡ r
    → PiecesEnd (from + count) r
    → Returns (register_chrdev_region f room from count name m)
unfolding register_chrdev_region
register_end f room from count name m none l h e end = absurd end
register_end f room from count name m (some (none, m₁)) l h e end =
    rw (e, register_chrdev_region) refl
register_end f room from count name m (some (some n, m₁)) l h e end =
    let (m₂, undone) =
      unregister_pieces-ends f from n m₁ (omega (arith, l, end)) (omega (arith, h, end)) in
    rw (e, register_chrdev_region) (rw undone refl)

-- `register_chrdev_region` comes back, with 0 or -1, for a range that ends below the last major number,
-- whether memory is left or not: as many rounds as it has numbers and one more are enough for both
-- loops, since each piece holds a number at least.
pub register_chrdev_region-ends :
    (room : ℕ → Bool) (from count name : ℕ) (m : Chardevs)
    → from + count ≤ 4095 * 2 ^ 20
    → Returns (register_chrdev_region (suc count) room from count name m)
register_chrdev_region-ends room from count name m l =
    let whole : (from + count) % 2 ^ 32 ≡ from + count = omega (arith, l) in
    register_end (suc count) room from count name m
      (register_pieces (suc count) room name from ((from + count) % 2 ^ 32) m) l (omega arith) refl
      (rw whole (register_pieces-ends (suc count) room name from (from + count) m l (omega arith)))
