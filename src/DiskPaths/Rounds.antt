-- ===== src/DiskPaths/Rounds.antt =====
-- The rounds of the walks of kernel/fs/disk_fs/dfs_inode.c are bounded by the path.
use hsunix.Base.{
  ℕ, Option, List, some, length, ◌≡◌, suc, ◌<◌, ◌∷◌, none, Bool, refl, arith, ◌≤◌, Bool-cases, [],
  zero, ◌==◌, inr, inl, ◌≢◌, ◌+◌,
}
use hsunix.DiskPaths.{
  Room, disk_path_getfirst, WalkStep, skip_slashes, Sb, copy_name, NodeRef, stop, walk_round,
  into_entry, go, Disk, put_name, next_node, node_of, disk_dir, at_end, walk_rounds, own,
  unfinished, walk_from, at_root,
}
use hsunix.PathName.{skip_slashes, copy_name}
use hsunix.Blocks.{Sb, Inode}
use hsunix.PathName.Left.{skip_slashes-IsLeft, IsLeft, RestWithin, copy_name-RestWithin}
use hsunix.Entries.{disk_dir}

-- The rest of the path behind a name is shorter.
abbrev IsShorter : ℕ → Option (Option (List ℕ) × List ℕ) → Type 0
IsShorter n none = Unit
IsShorter n (some (none, name)) = Unit
IsShorter n (some (some path, name)) = length path < n

behind_name :
    (n : ℕ) (str rest name : List ℕ) (o : Option (List ℕ))
    → skip_slashes rest ≡ o
    → IsLeft (length rest) o
    → length rest < n
    → IsShorter n (elim o [ none ↦ none | some path₁ ↦ some (some path₁, put_name str name) ])
behind_name n str rest name none e h l = tt
behind_name n str rest name (some ptr) e h l = omega (arith, h.0, l)

after_name :
    (n c : ℕ) (ptr name : List ℕ) (o : Option (List ℕ × List ℕ))
    → copy_name (suc c ∷ ptr) ≡ o
    → RestWithin (length ptr) o
    → length (suc c ∷ ptr) ≤ n
    → (path : List ℕ) → skip_slashes path ≡ some (suc c ∷ ptr)
    → IsShorter n (disk_path_getfirst path name)
unfolding disk_path_getfirst
after_name n c ptr name none e h l path f = rw (f, disk_path_getfirst) (rw e tt)
after_name n c ptr name (some (str, rest)) e h l path f =
    rw (f, disk_path_getfirst)
      (rw e (
        behind_name n str rest name (skip_slashes rest) refl (skip_slashes-IsLeft rest)
          (omega (arith, h, l))))

after_slashes :
    (path name : List ℕ) (o : Option (List ℕ))
    → skip_slashes path ≡ o
    → IsLeft (length path) o
    → IsShorter (length path) (disk_path_getfirst path name)
unfolding disk_path_getfirst
after_slashes path name none e h = rw (e, disk_path_getfirst) tt
after_slashes path name (some []) e h = rw (e, disk_path_getfirst) tt
after_slashes path name (some (zero ∷ ptr)) e h = rw (e, disk_path_getfirst) tt
after_slashes path name (some (suc c ∷ ptr)) e h =
    after_name (length path) c ptr name (copy_name (suc c ∷ ptr)) refl
      (copy_name-RestWithin (suc c) ptr h.1 (λ z. (omega (arith, z)))) h.0 path e

pub disk_path_getfirst-IsShorter :
    (path name : List ℕ) → IsShorter (length path) (disk_path_getfirst path name)
disk_path_getfirst-IsShorter path name =
    after_slashes path name (skip_slashes path) refl (skip_slashes-IsLeft path)

-- A round that goes on has a shorter path.
abbrev GoesOn : ℕ → Option WalkStep → Type 0
GoesOn n none = Unit
GoesOn n (some (stop r name s)) = Unit
GoesOn n (some (go node dir path name s)) = length path < n

module _ (room : Room) (sb : Sb) (node : NodeRef) (dir : Option (List ℕ)) where
  into_entry-GoesOn :
      (n : ℕ) (path name : List ℕ) (s : Disk) (o : Option (Option (Inode × List ℕ) × Disk))
      → next_node room sb node dir name s ≡ o
      → length path < n
      → GoesOn n (into_entry room sb node dir path name s)
  unfolding into_entry
  into_entry-GoesOn n path name s none e l = rw (e, into_entry) tt
  into_entry-GoesOn n path name s (some (none, s₁)) e l = rw (e, into_entry) tt
  into_entry-GoesOn n path name s (some (some (m, d), s₁)) e l = rw (e, into_entry) l

  round_from :
      (parent : Bool) (path name : List ℕ) (s : Disk) (o : Option (Option (List ℕ) × List ℕ))
      → disk_path_getfirst path name ≡ o
      → IsShorter (length path) o
      → GoesOn (length path) (walk_round parent room sb node dir path name s)
  unfolding walk_round
  round_from parent path name s none e h = rw (e, walk_round) tt
  round_from parent path name s (some (none, name₁)) e h = rw (e, walk_round) tt
  round_from parent path name s (some (some path₁, name₁)) e h =
      rw (e, walk_round)
        (elim (Bool-cases ((node_of node s).kind == disk_dir)) [
          | inr b ↦ rw b tt
          | inl b ↦ rw b (elim (Bool-cases (at_end parent path₁ name₁)) [
            | inl b₁ ↦ rw b₁ tt
            | inr b₁ ↦ rw b₁ (
                into_entry-GoesOn (length path) path₁ name₁ s (next_node room sb node dir name₁ s)
                  refl h)
          ])
        ])

  walk_round-GoesOn :
      (parent : Bool) (path name : List ℕ) (s : Disk)
      → GoesOn (length path) (walk_round parent room sb node dir path name s)
  walk_round-GoesOn parent path name s =
      round_from parent path name s (disk_path_getfirst path name) refl
        (disk_path_getfirst-IsShorter path name)

module _ (parent : Bool) (rooms : ℕ → Room) (sb : Sb) where
  -- Two loops with a round each, and the same rest, that ends.
  same_rest :
      (f g i : ℕ) (node : NodeRef) (dir : Option (List ℕ)) (path name : List ℕ) (s : Disk)
      (o : Option WalkStep)
      → walk_round parent (rooms i) sb node dir path name s ≡ o
      → GoesOn (length path) o
      → ((m : Inode) (d path₁ name₁ : List ℕ) (s₁ : Disk)
          → length path₁ < length path
          → (walk_rounds f parent rooms (i + 1) sb (own m) (some d) path₁ name₁ s₁ ≢ unfinished)
            × (walk_rounds f parent rooms (i + 1) sb (own m) (some d) path₁ name₁ s₁
                ≡ walk_rounds g parent rooms (i + 1) sb (own m) (some d) path₁ name₁ s₁))
      → (walk_rounds (suc f) parent rooms i sb node dir path name s ≢ unfinished)
        × (walk_rounds (suc f) parent rooms i sb node dir path name s
            ≡ walk_rounds (suc g) parent rooms i sb node dir path name s)
  unfolding walk_rounds
  same_rest f g i node dir path name s none e h ih = rw (e, walk_rounds) ((λ w. cc), refl)
  same_rest f g i node dir path name s (some (stop r name₁ s₁)) e h ih =
      rw (e, walk_rounds) ((λ w. cc), refl)
  same_rest f g i node dir path name s (some (go m d path₁ name₁ s₁)) e h ih =
      rw (e, walk_rounds) (ih m d path₁ name₁ s₁ h)

  rounds-enough :
      (f g i : ℕ) (node : NodeRef) (dir : Option (List ℕ)) (path name : List ℕ) (s : Disk)
      → length path < f
      → length path < g
      → (walk_rounds f parent rooms i sb node dir path name s ≢ unfinished)
        × (walk_rounds f parent rooms i sb node dir path name s
            ≡ walk_rounds g parent rooms i sb node dir path name s)
  rounds-enough zero g i node dir path name s h k = absurd (omega (arith, h))
  rounds-enough (suc f) zero i node dir path name s h k = absurd (omega (arith, k))
  rounds-enough (suc f) (suc g) i node dir path name s h k =
      same_rest f g i node dir path name s (walk_round parent (rooms i) sb node dir path name s)
        refl (walk_round-GoesOn (rooms i) sb node dir parent path name s)
        (λ m d path₁ name₁ s₁ l.
          rounds-enough f g (i + 1) (own m) (some d) path₁ name₁ s₁ (omega (arith, h, l))
            (omega (arith, k, l)))

  from-enough :
      (path name : List ℕ) (s : Disk) (o : Option (List ℕ))
      → skip_slashes path ≡ o
      → walk_from parent rooms sb path name s ≢ unfinished
  unfolding walk_from
  from-enough path name s none e = rw (e, walk_from) (λ w. cc)
  from-enough path name s (some []) e = rw (e, walk_from) (λ w. cc)
  from-enough path name s (some (zero ∷ ptr)) e = rw (e, walk_from) (λ w. cc)
  from-enough path name s (some (suc c ∷ ptr)) e =
      rw (e, walk_from)
        (rounds-enough (suc (length path)) (suc (length path)) 0 at_root none path name s
          (omega arith) (omega arith)).0

  -- The loop of `dinode_parent` and `dinode_path` has no more rounds than its path has bytes, and one:
  -- with any number of rounds above the length of the path it is not left unfinished, from every node,
  -- and any two such numbers give the same end. So the calls themselves, whose model runs it for one
  -- round more than the path has bytes, never end for want of rounds.
  pub walk_rounds-enough :
      (f g i : ℕ) (node : NodeRef) (dir : Option (List ℕ)) (path name : List ℕ) (s : Disk)
      → length path < f
      → length path < g
      → (walk_rounds f parent rooms i sb node dir path name s ≢ unfinished)
        × (walk_rounds f parent rooms i sb node dir path name s
            ≡ walk_rounds g parent rooms i sb node dir path name s)
        × (walk_from parent rooms sb path name s ≢ unfinished)
  walk_rounds-enough f g i node dir path name s h k =
      let (ends, same) = rounds-enough f g i node dir path name s h k in
      (ends, same, from-enough path name s (skip_slashes path) refl)
