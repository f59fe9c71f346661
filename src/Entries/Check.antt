-- ===== src/Entries/Check.antt =====
-- The search for a name in a directory of kernel/fs/disk_fs/dfs_dirent.c.
use hsunix.Base.{
  ℕ, List, length, ◌≡◌, Option, ◌*◌, drop, suc, ◌≤◌, some, [], ap, ◌<◌, ◌∷◌, false, zero, arith,
  true, ◌^◌, refl, none, ◌%◌, ◌+◌, ltb, Bool-cases, min, ◌-◌, inr, inl, Bool, if◌then◌else◌, sym,
  ◌∙◌, append-nil, ◌⊎◌, ◌==◌, ◌/◌, ◌≢◌,
}
use hsunix.Blocks.{Inode, Sb}
use hsunix.DiskCache.{Cache, Buf}
use hsunix.Inodes.Content.{file_bytes, IsWhole, dinode_read_lem}
use hsunix.Entries.{
  has_name, inum_of, name_of, read_entry, scan_entries, dinode_read, find_entry, ℤ, disk_dir,
  ddir_check,
}
use hsunix.DiskCache.Lent.{IsReady}
use hsunix.Inodes.{dinode_read}
use hsunix.Cstr.Terminated.{cstr, Lacks}
use mathlib.Core.Path.{subst}
use hsunix.Entries.Names.{IsNamed, IsWithin, Decided, has_name-Decided}
use hsunix.Base.Int.{ℤ, negsuc, pos}

length-file_bytes :
    (disk : ℕ → List ℕ) (n : Inode) (off l : ℕ) → length (file_bytes disk n off l) ≡ l
length-file_bytes disk n off zero = refl
length-file_bytes disk n off (suc l) = ap suc (length-file_bytes disk n (suc off) l)

drop-all : (k : ℕ) (d : List ℕ) → length d ≡ k → drop k d ≡ []
drop-all zero [] h = refl
drop-all zero (x ∷ d) h = absurd (omega (arith, h))
drop-all (suc k) [] h = refl
drop-all (suc k) (x ∷ d) h = drop-all k d (omega (arith, h))

-- Entry i of a directory.
abbrev pub entry_of : (ℕ → List ℕ) → Inode → ℕ → List ℕ
entry_of disk n i = file_bytes disk n (16 * i) 16

module _ (c : Cache) (n : Inode) (name : List ℕ) where
  -- How a search from entry i on ends: in the comparison with an entry whose name has no end, without
  -- a match, or with the first match and its bytes.
  abbrev pub ScanEnd : ℕ → Option (Option ℕ × List ℕ × Inode × Cache) → Type 0
  ScanEnd i none =
      (j : ℕ) × (i ≤ j) × (16 * j < n.size) × (has_name name (entry_of c.disk n j) ≡ none)
  ScanEnd i (some (none, d, n', c')) =
      (n' ≡ n)
      × (c' ≡ c)
      × ((j : ℕ) → i ≤ j → 16 * j < n.size → has_name name (entry_of c.disk n j) ≡ some false)
  ScanEnd i (some (some off, d, n', c')) =
      (j : ℕ) × (off ≡ 16 * j)
      × (16 * j < n.size)
      × (d ≡ entry_of c.disk n j)
      × (n' ≡ n)
      × (c' ≡ c)
      × (has_name name (entry_of c.disk n j) ≡ some true)
      × ((k : ℕ) → i ≤ k → k < j → has_name name (entry_of c.disk n k) ≡ some false)

  eq-or-after : (i j : ℕ) → i ≤ j → (i ≡ j) ⊎ (suc i ≤ j)
  eq-or-after i j h = elim (Bool-cases (i == j)) [
    | inl same ↦ inl (ground (arith, same))
    | inr other ↦ inr (ground (arith, other, h))
  ]

  earlier :
      (i : ℕ) (r : Option (Option ℕ × List ℕ × Inode × Cache))
      → has_name name (entry_of c.disk n i) ≡ some false
      → ScanEnd (suc i) r
      → ScanEnd i r
  earlier i none h (j, l, s, e) = (j, omega (arith, l), s, e)
  earlier i (some (none, d, n', c')) h (p, q, w) = (
    p,
    q,
    λ j l s. elim (eq-or-after i j l) [
      | inl e ↦ ap (λ t. has_name name (entry_of c.disk n t)) (sym e) ∙ h
      | inr a ↦ w j a s
    ],
  )
  earlier i (some (some off, d, n', c')) h (j, o, s, b, p, q, t, w) = (
    j,
    o,
    s,
    b,
    p,
    q,
    t,
    λ k l m. elim (eq-or-after i k l) [
      | inl e ↦ ap (λ t. has_name name (entry_of c.disk n t)) (sym e) ∙ h
      | inr a ↦ w k a m
    ],
  )

  module _ (a : ℕ) (bs : List Buf) (sb : Sb) (q : IsReady a bs c) (whole : IsWhole c.disk n)
      (small : n.size < 2 ^ 31) (even : n.size % 16 ≡ 0) where
    read_entry-entry_of :
        (i : ℕ) (dir : List ℕ)
        → 16 * i < n.size
        → length dir ≡ 16
        → read_entry sb n (16 * i) dir c ≡ some (true, entry_of c.disk n i, n, c)
    unfolding read_entry
    read_entry-entry_of i dir h k =
        let fits : ltb (16 * i + 16) (2 ^ 32) ≡ true = ground (arith, h, small) in
        let full : min 16 (n.size - 16 * i) ≡ 16 = omega (arith, h, even) in
        let shown : (if ltb (16 * i + 16) (2 ^ 32)
              then file_bytes c.disk n (16 * i) (min 16 (n.size - 16 * i))
              else [])
            ≡ entry_of c.disk n i =
          rw (fits, full) refl in
        let read : dinode_read sb n (16 * i) 16 c ≡ some (entry_of c.disk n i, n, c) =
          dinode_read_lem a bs sb n c (16 * i) 16 q whole (omega (arith, h, small)) (omega arith)
          ∙ ap (λ t. some (t, n, c)) shown in
        rw (read, read_entry)
          (rw (length-file_bytes c.disk n (16 * i) 16, drop-all 16 dir k)
            (rw (append-nil (entry_of c.disk n i)) refl))

    scan_entries-found :
        (f i : ℕ) (dir : List ℕ)
        → has_name name (entry_of c.disk n i) ≡ some true
        → 16 * i < n.size
        → length dir ≡ 16
        → scan_entries (suc f) sb n name (16 * i) dir c
          ≡ some (some (16 * i), entry_of c.disk n i, n, c)
    unfolding scan_entries
    scan_entries-found f i dir e h k =
        let more : ltb (16 * i) n.size ≡ true = ground (arith, h) in
        rw (more, scan_entries) (rw (read_entry-entry_of i dir h k) (rw e refl))

    scan_entries-stuck :
        (f i : ℕ) (dir : List ℕ)
        → has_name name (entry_of c.disk n i) ≡ none
        → 16 * i < n.size
        → length dir ≡ 16
        → scan_entries (suc f) sb n name (16 * i) dir c ≡ none
    unfolding scan_entries
    scan_entries-stuck f i dir e h k =
        let more : ltb (16 * i) n.size ≡ true = ground (arith, h) in
        rw (more, scan_entries) (rw (read_entry-entry_of i dir h k) (rw e refl))

    scan_entries-next :
        (f i : ℕ) (dir : List ℕ)
        → has_name name (entry_of c.disk n i) ≡ some false
        → 16 * i < n.size
        → length dir ≡ 16
        → scan_entries (suc f) sb n name (16 * i) dir c
          ≡ scan_entries f sb n name (16 * suc i) (entry_of c.disk n i) c
    unfolding scan_entries
    scan_entries-next f i dir e h k =
        let more : ltb (16 * i) n.size ≡ true = ground (arith, h) in
        let next : 16 * i + 16 ≡ 16 * suc i = omega arith in
        rw (more, scan_entries) (rw (read_entry-entry_of i dir h k) (rw e (rw next refl)))

    scan_entries-end :
        (f i : ℕ) (dir : List ℕ)
        → ltb (16 * i) n.size ≡ false
        → scan_entries (suc f) sb n name (16 * i) dir c ≡ some (none, dir, n, c)
    unfolding scan_entries
    scan_entries-end f i dir e = rw (e, scan_entries) refl

    scan_entries-more :
        (f i : ℕ) (dir : List ℕ) (r : Option Bool)
        → has_name name (entry_of c.disk n i) ≡ r
        → 16 * i < n.size
        → length dir ≡ 16
        → ScanEnd (suc i) (scan_entries f sb n name (16 * suc i) (entry_of c.disk n i) c)
        → ScanEnd i (scan_entries (suc f) sb n name (16 * i) dir c)
    scan_entries-more f i dir none e h k rest =
        rw (scan_entries-stuck f i dir e h k) (i, omega arith, h, e)
    scan_entries-more f i dir (some true) e h k rest =
        rw (scan_entries-found f i dir e h k)
          (i, refl, h, refl, refl, refl, e, λ j l m. absurd (omega (arith, l, m)))
    scan_entries-more f i dir (some false) e h k rest =
        rw (scan_entries-next f i dir e h k)
          (earlier i (scan_entries f sb n name (16 * suc i) (entry_of c.disk n i) c) e rest)

    scan_lem :
        (f i : ℕ) (dir : List ℕ)
        → 16 * i ≤ n.size
        → n.size < 16 * (f + i)
        → length dir ≡ 16
        → ScanEnd i (scan_entries f sb n name (16 * i) dir c)
    scan_lem zero i dir l h k = absurd (omega (arith, l, h))
    scan_lem (suc f) i dir l h k = elim (Bool-cases (ltb (16 * i) n.size)) [
      | inr end ↦
          rw (scan_entries-end f i dir end)
            (refl, refl, λ j m s. absurd (ground (arith, end, m, s)))
      | inl more ↦
          let here : 16 * i < n.size = ground (arith, more) in
          scan_entries-more f i dir (has_name name (entry_of c.disk n i)) refl here k (
            scan_lem f (suc i) (entry_of c.disk n i) (omega (arith, here, even)) (omega (arith, h))
              (length-file_bytes c.disk n (16 * i) 16))
    ]

    find_entry_lem :
        (dir : List ℕ)
        → n.kind ≡ disk_dir
        → length dir ≡ 16
        → ScanEnd 0 (find_entry sb n name dir c)
    unfolding find_entry
    find_entry_lem dir d k =
        let is_dir : (n.kind == 1) ≡ true = ground (arith, d) in
        rw (is_dir, find_entry)
          (scan_lem (suc (suc (n.size / 16))) 0 dir (omega arith) (omega arith) k)

-- How `ddir_check` for a text ends in a directory: the comparison leaves a used entry whose whole name
-- field, without an end, begins the text; or -1, no entry being used with the text for its name; or
-- the offset of the first entry that is.
abbrev pub CheckEnd : Cache → Inode → List ℕ → Option (ℤ × Inode × Cache) → Type 0
CheckEnd c n t none =
    (j : ℕ) × (16 * j < n.size)
    × (inum_of (entry_of c.disk n j) ≢ 0)
    × IsWithin t (name_of (entry_of c.disk n j))
CheckEnd c n t (some (negsuc k, n', c')) =
    (k ≡ 0)
    × (n' ≡ n)
    × (c' ≡ c)
    × ((j : ℕ) → 16 * j < n.size → IsNamed t (entry_of c.disk n j) → ⊥)
CheckEnd c n t (some (pos off, n', c')) =
    (j : ℕ) × (off ≡ 16 * j)
    × (16 * j < n.size)
    × (n' ≡ n)
    × (c' ≡ c)
    × IsNamed t (entry_of c.disk n j)
    × ((k : ℕ) → k < j → IsNamed t (entry_of c.disk n k) → ⊥)

module _ (t r : List ℕ) (lacks : Lacks 0 t) (n : Inode) (c : Cache) where
  decided :
      (j : ℕ) (v : Option Bool)
      → has_name (cstr t r) (entry_of c.disk n j) ≡ v
      → Decided t (entry_of c.disk n j) v
  decided j v e =
      subst (Decided t (entry_of c.disk n j)) e (has_name-Decided t r (entry_of c.disk n j) lacks)

  check-ends :
      (raw : List ℕ) (sb : Sb) (o : Option (Option ℕ × List ℕ × Inode × Cache))
      → find_entry sb n (cstr t r) raw c ≡ o
      → ScanEnd c n (cstr t r) 0 o
      → CheckEnd c n t (ddir_check raw sb n (cstr t r) c)
  unfolding ddir_check
  check-ends raw sb none e (j, l, s, w) =
      rw (e, ddir_check) (let (used, within) = decided j none w in (j, s, used, within))
  check-ends raw sb (some (none, d, n', c')) e (p, q, w) =
      rw (e, ddir_check) (refl, p, q, λ j s. decided j (some false) (w j (omega arith) s))
  check-ends raw sb (some (some off, d, n', c')) e (j, o, s, b, p, q, w, before) =
      rw (e, ddir_check)
        (
          j,
          o,
          s,
          p,
          q,
          decided j (some true) w,
          λ k l. decided k (some false) (before k (omega arith) l),
        )

-- `ddir_check` of a terminated text in a directory that is a whole number of entries long, smaller than
-- 2^31 bytes, and whose blocks are on the disk looks at the entries in their order and ends at the
-- first that is used and has the text for its name, whose offset it returns; with -1 where there is
-- none; and the comparison leaves the entry only where a used name field without an end begins the
-- text. Neither the node nor the buffers nor the disk change. The buffers are sound (those in use are
-- of different blocks and numbers, valid, and hold what the disk holds, with fewer than 2^31 users
-- each), and the first idle one is blank and of no block.
pub ddir_check_lem :
    (a : ℕ) (bs : List Buf) (sb : Sb) (n : Inode) (c : Cache) (raw t r : List ℕ)
    → IsReady a bs c
    → IsWhole c.disk n
    → Lacks 0 t
    → n.size < 2 ^ 31
    → n.size % 16 ≡ 0
    → n.kind ≡ disk_dir
    → length raw ≡ 16
    → CheckEnd c n t (ddir_check raw sb n (cstr t r) c)
ddir_check_lem a bs sb n c raw t r q whole lacks small even d k =
    check-ends t r lacks n c raw sb (find_entry sb n (cstr t r) raw c) refl
      (find_entry_lem c n (cstr t r) a bs sb q whole small even raw d k)
