-- ===== src/DiskPaths/Names.antt =====
-- The names that kernel/fs/disk_fs/dfs_priv.c takes out of a path.
use hsunix.Base.{
  ℕ, List, if◌then◌else◌, length, ltb, take, ◌≤◌, ◌≡◌, suc, ◌++◌, drop, Bool-cases, ◌∷◌, inl, arith,
  zero, [], leb, inr, false, ◌∙◌, ap, length-append, append_assoc, refl, append-nil, true,
  length-take, replicate, some, ◌==◌, Option, none,
}
use hsunix.PathName.{text_of, slash, skip_slashes}
use hsunix.DiskPaths.{
  put_name, put_run, dinode_parent, disk_path_getfirst, walk_from, walk_rounds, walk_round, at_end,
  Room, Sb, Disk, disk_dir, at_root, skip_slashes, NodeRef, stop, returned, result_of,
}
use hsunix.Cstr.Terminated.{Lacks}
use hsunix.PathName.Scan.{IsName, Begins, skip_slashes-run, copy_name-name}
use hsunix.Inodes.{put_run}
use hsunix.Inodes.Runs.{put_run-next}
use hsunix.PathName.Last.{text_of-append, text_of-zero}
use hsunix.PathName.First.{Begins-name}
use hsunix.Blocks.{Sb}
use hsunix.Entries.{disk_dir}

put_run-front : (s d : List ℕ) → length s ≤ length d → put_run d 0 s ≡ s ++ drop (length s) d
put_run-front [] d h = refl
put_run-front (b ∷ s) [] h = absurd (omega (arith, h))
put_run-front (b ∷ s) (x ∷ d) h =
    put_run-next s d b x ∙ ap (λ l. b ∷ l) (put_run-front s d (omega (arith, h)))

Lacks-take : (n : ℕ) (c : List ℕ) → Lacks 0 c → Lacks 0 (take n c)
Lacks-take zero c h = tt
Lacks-take (suc n) [] h = tt
Lacks-take (suc n) (x ∷ c) h = (h.0, Lacks-take n c h.1)

-- The text that is in the buffer for a name afterwards.
abbrev pub name_text : List ℕ → List ℕ → List ℕ
name_text c raw = if ltb (length c) 14 then c else take 14 c ++ text_of (drop 14 raw)

put_name_lem :
    (c raw : List ℕ) → Lacks 0 c → 14 ≤ length raw → text_of (put_name c raw) ≡ name_text c raw
unfolding put_name
put_name_lem c raw h l = elim (Bool-cases (ltb (length c) 14)) [
  | inl short ↦
      let e : leb 14 (length c) ≡ false = ground (arith, short) in
      let n : length (c ++ (0 ∷ [])) ≡ suc (length c) = length-append c (0 ∷ []) ∙ omega arith in
      let rest = drop (length (c ++ (0 ∷ []))) raw in
      rw (short, e)
        (ap text_of (
            put_run-front (c ++ (0 ∷ [])) raw (ground (arith, n, short, l))
            ∙ append_assoc c (0 ∷ []) rest)
          ∙ text_of-append c (0 ∷ rest) h
          ∙ ap (λ t. c ++ t) (text_of-zero rest)
          ∙ append-nil c)
  | inr long ↦
      let e : leb 14 (length c) ≡ true = ground (arith, long) in
      let n : length (take 14 c) ≡ 14 = ground (arith, length-take 14 c, long) in
      rw (long, e)
        (ap text_of (put_run-front (take 14 c) raw (omega (arith, n, l)))
          ∙ ap (λ k. text_of (take 14 c ++ drop k raw)) n
          ∙ text_of-append (take 14 c) (drop 14 raw) (Lacks-take 14 c h))
]

-- `disk_path_getfirst` on a name between runs of slashes returns the path behind them, and the buffer,
-- of 14 bytes at least, then holds the name where it has fewer than 14 bytes. Of a longer name it holds
-- the first 14 bytes, which the code does not terminate: what the buffer held behind them follows.
pub disk_path_getfirst_lem :
    (k j : ℕ) (c t raw : List ℕ)
    → IsName c
    → Begins t
    → 14 ≤ length raw
    → (name : List ℕ) × (disk_path_getfirst
          (replicate k slash ++ (c ++ (slash ∷ (replicate j slash ++ t))))
          raw
        ≡ some (some t, name))
      × (text_of name ≡ name_text c raw)
unfolding disk_path_getfirst
disk_path_getfirst_lem k j [] t raw h b l = absurd (h.nonempty refl)
disk_path_getfirst_lem k j (zero ∷ c) t raw h b l = absurd (h.no_zero.0 refl)
disk_path_getfirst_lem k j (suc x ∷ c) t raw h b l =
    let rest = slash ∷ (replicate j slash ++ t) in
    (
      put_name (suc x ∷ c) raw,
      rw
          (
            skip_slashes-run k ((suc x ∷ c) ++ rest) (Begins-name (suc x ∷ c) rest h),
            disk_path_getfirst,
          )
          (rw
            (copy_name-name (suc x ∷ c) (replicate j slash ++ t) slash h.no_slash h.no_zero
              (inl refl))
            (rw (skip_slashes-run (suc j) t b) refl)),
      put_name_lem (suc x ∷ c) raw h.no_zero l,
    )

module _ (rooms : ℕ → Room) (sb : Sb) (s : Disk) where
  walk_from-name :
      (x : ℕ) (path ptr name : List ℕ)
      → skip_slashes path ≡ some (suc x ∷ ptr)
      → walk_from true rooms sb path name s
        ≡ walk_rounds (suc (length path)) true rooms 0 sb at_root none path name s
  unfolding walk_from
  walk_from-name x path ptr name e = rw (e, walk_from) refl

  walk_rounds-stop :
      (f : ℕ) (r : Option NodeRef) (path name name₁ : List ℕ)
      → walk_round true (rooms 0) sb at_root none path name s ≡ some (stop r name₁ s)
      → walk_rounds (suc f) true rooms 0 sb at_root none path name s ≡ returned r name₁ s
  unfolding walk_rounds
  walk_rounds-stop f r path name name₁ e = rw (e, walk_rounds) refl

  walk_round-last :
      (path name name₁ r : List ℕ)
      → disk_path_getfirst path name ≡ some (some (0 ∷ r), name₁)
      → s.root.kind ≡ disk_dir
      → walk_round true (rooms 0) sb at_root none path name s ≡ some (stop (some at_root) name₁ s)
  unfolding walk_round at_end
  walk_round-last path name name₁ r e d =
      let dir : (s.root.kind == disk_dir) ≡ true = ground (arith, d) in
      rw (e, walk_round) (rw dir refl)

-- On the path of an object in the root, `dinode_parent` returns `root_node`, when that is a directory,
-- with the name in the buffer as `disk_path_getfirst` puts it there, and changes nothing.
pub dinode_parent-top :
    (k j : ℕ) (c r raw : List ℕ) (rooms : ℕ → Room) (sb : Sb) (s : Disk)
    → IsName c
    → 14 ≤ length raw
    → s.root.kind ≡ disk_dir
    → (name : List ℕ) × (dinode_parent rooms sb
          (replicate k slash ++ (c ++ (slash ∷ (replicate j slash ++ (0 ∷ r)))))
          raw
          s
        ≡ some (some at_root, name, s))
      × (text_of name ≡ name_text c raw)
unfolding dinode_parent
dinode_parent-top k j [] r raw rooms sb s h l d = absurd (h.nonempty refl)
dinode_parent-top k j (zero ∷ c) r raw rooms sb s h l d = absurd (h.no_zero.0 refl)
dinode_parent-top k j (suc x ∷ c) r raw rooms sb s h l d =
    let rest = slash ∷ (replicate j slash ++ (0 ∷ r)) in
    let path = replicate k slash ++ ((suc x ∷ c) ++ rest) in
    let (name, e, text) =
      disk_path_getfirst_lem k j (suc x ∷ c) (0 ∷ r) raw h (λ z. (omega (arith, z))) l in
    (
      name,
      ap result_of (
          walk_from-name rooms sb s x path (c ++ rest) raw
            (skip_slashes-run k ((suc x ∷ c) ++ rest) (Begins-name (suc x ∷ c) rest h))
          ∙ walk_rounds-stop rooms sb s (length path) (some at_root) path raw name
              (walk_round-last rooms sb s path raw name r e d)),
      text,
    )
