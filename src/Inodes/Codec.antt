-- ===== src/Inodes/Codec.antt =====
-- The bytes of an inode in its block, for kernel/fs/disk_fs/dfs_inode.c.
use hsunix.Base.{
  sym, ℕ, zero, suc, ◌+◌, ◌*◌, ◌/◌, ◌%◌, ◌^◌, ◌≡◌, ◌<◌, ◌≤◌, ◌⊎◌, arith, List, [], ◌∷◌, get_or, set,
  length, refl, ap, ap₂, ◌∙◌, length-set, inl,
}
use hsunix.Blocks.{Inode, ndirect, word_at, put_word}
use hsunix.Blocks.Bits.{get_or-set}
use hsunix.Inodes.{half_at, put_half, words_at, put_words, inode_at, put_inode}

-- The list d' has the length of d, and its entries outside of [lo, hi).
abbrev pub Keeps : ℕ → ℕ → List ℕ → List ℕ → Type 0
Keeps lo hi d d' =
    (length d' ≡ length d) × ((j : ℕ) → (j < lo) ⊎ (hi ≤ j) → get_or d' j 0 ≡ get_or d j 0)

set-Keeps : (d : List ℕ) (i v : ℕ) → i < length d → Keeps i (i + 1) d (set d i v)
set-Keeps d i v h = (length-set d i v, λ j o. ground (arith, get_or-set d i j v h, o))

Keeps-then :
    (lo mid hi : ℕ) (d e f : List ℕ)
    → lo ≤ mid
    → mid ≤ hi
    → Keeps lo mid d e
    → Keeps mid hi e f
    → Keeps lo hi d f
Keeps-then lo mid hi d e f p q a b = (b.0 ∙ a.0, λ j o. ground (arith, a.1 j, b.1 j, o))

set-here : (d : List ℕ) (i v : ℕ) → i < length d → get_or (set d i v) i 0 ≡ v
set-here d i v h = ground (arith, get_or-set d i i v h)

half_at-put_half :
    (d : List ℕ) (i w : ℕ)
    → i + 2 ≤ length d
    → w < 65536
    → (half_at (put_half d i w) i ≡ w) × Keeps i (i + 2) d (put_half d i w)
half_at-put_half d i w h l =
    let e : List ℕ = set d i (w % 256) in
    let a = set-Keeps d i (w % 256) (omega (arith, h)) in
    let b = set-Keeps e (i + 1) (w / 256 % 256) (omega (arith, h, a.0)) in
    let two : i + 1 + 1 ≡ i + 2 = omega arith in
    (
      omega (
        arith,
        l,
        set-here d i (w % 256) (omega (arith, h)),
        b.1 i (inl (omega arith)),
        set-here e (i + 1) (w / 256 % 256) (omega (arith, h, a.0)),
      ),
      Keeps-then i (i + 1) (i + 2) d e (put_half d i w) (omega arith) (omega arith) a (rw two at b),
    )

word_at-put_word :
    (d : List ℕ) (i w : ℕ)
    → i + 4 ≤ length d
    → w < 2 ^ 32
    → (word_at (put_word d i w) i ≡ w) × Keeps i (i + 4) d (put_word d i w)
word_at-put_word d i w h l =
    let two : i + 1 + 1 ≡ i + 2 = omega arith in
    let three : i + 2 + 1 ≡ i + 3 = omega arith in
    let four : i + 3 + 1 ≡ i + 4 = omega arith in
    let d₁ : List ℕ = set d i (w % 256) in
    let d₂ : List ℕ = set d₁ (i + 1) (w / 256 % 256) in
    let d₃ : List ℕ = set d₂ (i + 2) (w / 65536 % 256) in
    let a = set-Keeps d i (w % 256) (omega (arith, h)) in
    let b = set-Keeps d₁ (i + 1) (w / 256 % 256) (omega (arith, h, a.0)) in
    let c = set-Keeps d₂ (i + 2) (w / 65536 % 256) (omega (arith, h, a.0, b.0)) in
    let e = set-Keeps d₃ (i + 3) (w / 16777216 % 256) (omega (arith, h, a.0, b.0, c.0)) in
    let ab = Keeps-then i (i + 1) (i + 2) d d₁ d₂ (omega arith) (omega arith) a (rw two at b) in
    let abc = Keeps-then i (i + 2) (i + 3) d d₂ d₃ (omega arith) (omega arith) ab (rw three at c) in
    (
      omega (
        arith,
        l,
        set-here d i (w % 256) (omega (arith, h)),
        set-here d₁ (i + 1) (w / 256 % 256) (omega (arith, h, a.0)),
        set-here d₂ (i + 2) (w / 65536 % 256) (omega (arith, h, a.0, b.0)),
        set-here d₃ (i + 3) (w / 16777216 % 256) (omega (arith, h, a.0, b.0, c.0)),
        b.1 i (inl (omega arith)),
        c.1 i (inl (omega arith)),
        e.1 i (inl (omega arith)),
        c.1 (i + 1) (inl (omega arith)),
        e.1 (i + 1) (inl (omega arith)),
        e.1 (i + 2) (inl (omega arith)),
      ),
      Keeps-then i (i + 3) (i + 4) d d₃ (put_word d i w) (omega arith) (omega arith) abc
          (rw four at e),
    )

-- Words below 2 ^ 32.
abbrev pub AllWords : List ℕ → Type 0
AllWords [] = Unit
AllWords (w ∷ ws) = (w < 2 ^ 32) × AllWords ws

put_words-Keeps :
    (ws d : List ℕ) (i : ℕ)
    → i + 4 * length ws ≤ length d
    → AllWords ws
    → Keeps i (i + 4 * length ws) d (put_words d i ws)
put_words-Keeps [] d i h all = (refl, λ j o. refl)
put_words-Keeps (w ∷ ws) d i h all =
    let one = (word_at-put_word d i w (omega (arith, h)) all.0).1 in
    let rest = put_words-Keeps ws (put_word d i w) (i + 4) (omega (arith, h, one.0)) all.1 in
    let top : i + 4 + 4 * length ws ≡ i + 4 * suc (length ws) = omega arith in
    Keeps-then i (i + 4) (i + 4 * suc (length ws)) d (put_word d i w)
      (put_words (put_word d i w) (i + 4) ws) (omega arith) (omega arith) one (rw top at rest)

-- A read is the same where its bytes are.
word_at-cong :
    (d e : List ℕ) (i : ℕ)
    → ((j : ℕ) → i ≤ j → j < i + 4 → get_or d j 0 ≡ get_or e j 0)
    → word_at d i ≡ word_at e i
word_at-cong d e i h = omega (
  arith,
  h i (omega arith) (omega arith),
  h (i + 1) (omega arith) (omega arith),
  h (i + 2) (omega arith) (omega arith),
  h (i + 3) (omega arith) (omega arith),
)

half_at-cong :
    (d e : List ℕ) (i : ℕ)
    → ((j : ℕ) → i ≤ j → j < i + 2 → get_or d j 0 ≡ get_or e j 0)
    → half_at d i ≡ half_at e i
half_at-cong d e i h =
    omega (arith, h i (omega arith) (omega arith), h (i + 1) (omega arith) (omega arith))

words_at-cong :
    (n : ℕ) (d e : List ℕ) (i : ℕ)
    → ((j : ℕ) → i ≤ j → j < i + 4 * n → get_or d j 0 ≡ get_or e j 0)
    → words_at n d i ≡ words_at n e i
words_at-cong zero d e i h = refl
words_at-cong (suc n) d e i h =
    ap₂ (λ w ws. w ∷ ws) (word_at-cong d e i (λ j p q. h j p (omega (arith, q))))
      (words_at-cong n d e (i + 4) (λ j p q. h j (omega (arith, p)) (omega (arith, q))))

pub words_at-put_words :
    (ws d : List ℕ) (i : ℕ)
    → i + 4 * length ws ≤ length d
    → AllWords ws
    → words_at (length ws) (put_words d i ws) i ≡ ws
words_at-put_words [] d i h all = refl
words_at-put_words (w ∷ ws) d i h all =
    let (value, one) = word_at-put_word d i w (omega (arith, h)) all.0 in
    let e : List ℕ = put_word d i w in
    let rest = put_words-Keeps ws e (i + 4) (omega (arith, h, one.0)) all.1 in
    ap₂ (λ x xs. x ∷ xs)
      (word_at-cong (put_words e (i + 4) ws) e i (λ j p q. rest.1 j (inl q)) ∙ value)
      (words_at-put_words ws e (i + 4) (omega (arith, h, one.0)) all.1)

-- An inode that fits its fields.
pub record IsInode (n : Inode) : Type 0 where
  pub halves : (n.kind < 65536) × (n.major < 65536) × (n.minor < 65536) × (n.inum < 65536)
  pub sizes : (n.size < 2 ^ 32) × (n.ex_addr < 2 ^ 32)
  pub twelve : length n.addrs ≡ ndirect
  pub words : AllWords n.addrs

-- The bytes of an inode are read as the inode that was put there.
pub inode_at-put_inode :
    (d : List ℕ) (i : ℕ) (n : Inode)
    → i + 64 ≤ length d
    → IsInode n
    → inode_at (put_inode d i n) i ≡ n
inode_at-put_inode d i n h w =
    let d₁ : List ℕ = put_half d i n.kind in
    let d₂ : List ℕ = put_half d₁ (i + 2) n.major in
    let d₃ : List ℕ = put_half d₂ (i + 4) n.minor in
    let d₄ : List ℕ = put_half d₃ (i + 6) n.inum in
    let d₅ : List ℕ = put_word d₄ (i + 8) n.size in
    let d₆ : List ℕ = put_words d₅ (i + 12) n.addrs in
    let a₁ = half_at-put_half d i n.kind (omega (arith, h)) w.halves.0 in
    let a₂ = half_at-put_half d₁ (i + 2) n.major (omega (arith, h, a₁.1.0)) w.halves.1 in
    let l₂ : length d₂ ≡ length d = a₂.1.0 ∙ a₁.1.0 in
    let a₃ = half_at-put_half d₂ (i + 4) n.minor (omega (arith, h, l₂)) w.halves.2 in
    let l₃ : length d₃ ≡ length d = a₃.1.0 ∙ l₂ in
    let a₄ = half_at-put_half d₃ (i + 6) n.inum (omega (arith, h, l₃)) w.halves.3 in
    let l₄ : length d₄ ≡ length d = a₄.1.0 ∙ l₃ in
    let a₅ = word_at-put_word d₄ (i + 8) n.size (omega (arith, h, l₄)) w.sizes.0 in
    let l₅ : length d₅ ≡ length d = a₅.1.0 ∙ l₄ in
    let room : i + 12 + 4 * length n.addrs ≤ length d₅ = omega (arith, h, l₅, w.twelve) in
    let a₆ = put_words-Keeps n.addrs d₅ (i + 12) room w.words in
    let l₆ : length d₆ ≡ length d = a₆.0 ∙ l₅ in
    let a₇ = word_at-put_word d₆ (i + 60) n.ex_addr (omega (arith, h, l₆)) w.sizes.1 in
    let d₇ : List ℕ = put_word d₆ (i + 60) n.ex_addr in
    let f₆ = λ (j : ℕ) (p : j < i + 60). a₇.1.1 j (inl p) in
    let f₅ = λ (j : ℕ) (p : j < i + 12). f₆ j (omega (arith, p)) ∙ a₆.1 j (inl p) in
    let f₄ = λ (j : ℕ) (p : j < i + 8). f₅ j (omega (arith, p)) ∙ a₅.1.1 j (inl p) in
    let f₃ = λ (j : ℕ) (p : j < i + 6). f₄ j (omega (arith, p)) ∙ a₄.1.1 j (inl p) in
    let f₂ = λ (j : ℕ) (p : j < i + 4). f₃ j (omega (arith, p)) ∙ a₃.1.1 j (inl p) in
    let f₁ = λ (j : ℕ) (p : j < i + 2). f₂ j (omega (arith, p)) ∙ a₂.1.1 j (inl p) in
    let e_kind = half_at-cong d₇ d₁ i (λ j p q. f₁ j q) ∙ a₁.0 in
    let e_major = half_at-cong d₇ d₂ (i + 2) (λ j p q. f₂ j (omega (arith, q))) ∙ a₂.0 in
    let e_minor = half_at-cong d₇ d₃ (i + 4) (λ j p q. f₃ j (omega (arith, q))) ∙ a₃.0 in
    let e_inum = half_at-cong d₇ d₄ (i + 6) (λ j p q. f₄ j (omega (arith, q))) ∙ a₄.0 in
    let e_size = word_at-cong d₇ d₅ (i + 8) (λ j p q. f₅ j (omega (arith, q))) ∙ a₅.0 in
    let e_addrs =
      words_at-cong ndirect d₇ d₆ (i + 12) (λ j p q. f₆ j (omega (arith, q)))
      ∙ ap (λ k. words_at k d₆ (i + 12)) (sym w.twelve)
      ∙ words_at-put_words n.addrs d₅ (i + 12) room w.words in
    λ t. record {
      kind = e_kind t;
      major = e_major t;
      minor = e_minor t;
      inum = e_inum t;
      size = e_size t;
      addrs = e_addrs t;
      ex_addr = a₇.0 t;
    }
