-- ===== src/CharDev.antt =====
-- kernel/drv/char_dev.c: the reservation of ranges of device numbers. `chardevs` is a function from
-- the 255 indices to the chains, each a list. Whether `kalloc` finds room is an argument where it
-- matters.
pub mod Order
pub mod Remove
pub mod Pieces
mod Tests
use hsunix.Base.{
  ℕ, ◌%◌, ◌/◌, Option, List, Bool, if◌then◌else◌, ◌*◌, ◌==◌, none, ltb, ◌+◌, ◌^◌, some, suc, ◌∷◌,
  ◌&&◌, [], false, zero, ◌-◌, leb, true,
}
use hsunix.Base.Int.{ℤ, pos, negsuc}
use mathlib.Core.Option

-- `struct char_device_struct`; `name` and `cdev` are addresses, and the int `minorct` is the 32-bit
-- value that it is where it is added to `baseminor`.
pub record Region : Type 0 where
  pub major : ℕ
  pub baseminor : ℕ
  pub minorct : ℕ
  pub name : ℕ
  pub cdev : ℕ

abbrev pub Chardevs : Type 0
Chardevs = ℕ → List Region

abbrev pub max_probe_hash : ℕ
max_probe_hash = 255

-- `MAJOR`, `MINOR` and `MKDEV`
abbrev pub major_of : ℕ → ℕ
major_of dev = dev / 2 ^ 20

abbrev pub minor_of : ℕ → ℕ
minor_of dev = dev % 2 ^ 20

abbrev pub mkdev : ℕ → ℕ → ℕ
mkdev ma mi = ma * 2 ^ 20 % 2 ^ 32 + mi

-- `major_to_HashIndex`
abbrev pub major_to_hash_index : ℕ → ℕ
major_to_hash_index major = major % max_probe_hash

abbrev pub put_chain : ℕ → List Region → Chardevs → Chardevs
put_chain i chain m j = if i == j then chain else m j

-- "自动分配主设备号": the first empty chain of so many from i on.
pub free_chain : ℕ → ℕ → Chardevs → Option ℕ
free_chain zero i m = none
free_chain (suc n) i m = elim (m i) [ [] ↦ some i | c ∷ cs ↦ free_chain n (i + 1) m ]

-- The walk to the place of a region in its chain, and its insertion there; `none` at the error label.
pub insert_region : Region → List Region → Option (List Region)
insert_region cd [] = some (cd ∷ [])
insert_region cd (curr ∷ next) =
    let rest = Option.map (λ l. curr ∷ l) (insert_region cd next) in
    if ltb curr.major cd.major
    then rest
    else if ltb cd.major curr.major
    then some (cd ∷ curr ∷ next)
    else if leb ((curr.baseminor + curr.minorct) % 2 ^ 32) cd.baseminor
    then rest
    else if ltb cd.baseminor curr.baseminor
    then some (cd ∷ curr ∷ next)
    else none

-- `__register_chrdev_region`: the region, or null, and the chains.
pub add_region : Region → Chardevs → Option Region × Chardevs
add_region cd m = elim (insert_region cd (m (major_to_hash_index cd.major))) [
  | none ↦ (none, m)
  | some chain ↦ (some cd, put_chain (major_to_hash_index cd.major) chain m)
]

pub register_region : Bool → ℕ → ℕ → ℕ → ℕ → Chardevs → Option Region × Chardevs
register_region false major baseminor minorct name m = (none, m)
register_region true zero baseminor minorct name m = elim (free_chain max_probe_hash 0 m) [
  | none ↦ (none, m)
  | some i ↦
      add_region
        (record { major = i; baseminor = baseminor; minorct = minorct; name = name; cdev = 0 }) m
]
register_region true (suc k) baseminor minorct name m =
    add_region
      (record { major = suc k; baseminor = baseminor; minorct = minorct; name = name; cdev = 0 }) m

-- "确认是否找到": the region with these numbers.
abbrev pub is_region : ℕ → ℕ → ℕ → Region → Bool
is_region major baseminor minorct pd =
    pd.major == major && pd.baseminor == baseminor && pd.minorct == minorct

-- The walk of `__unregister_chrdev_region` behind the first region: the one that is found, and the
-- chain without it.
pub unlink_region : ℕ → ℕ → ℕ → List Region → Option Region × List Region
unlink_region major baseminor minorct [] = (none, [])
unlink_region major baseminor minorct (pd ∷ next) =
    let r = unlink_region major baseminor minorct next in
    if is_region major baseminor minorct pd then (some pd, next) else (r.0, pd ∷ r.1)

-- The chain after `__unregister_chrdev_region`; where the first region is found the head becomes null.
pub chain_without : ℕ → ℕ → ℕ → List Region → Option Region × List Region
chain_without major baseminor minorct [] = (none, [])
chain_without major baseminor minorct (pd ∷ next) =
    let r = unlink_region major baseminor minorct next in
    if is_region major baseminor minorct pd then (some pd, []) else (r.0, pd ∷ r.1)

-- `__unregister_chrdev_region`
pub unregister_region : ℕ → ℕ → ℕ → Chardevs → Option Region × Chardevs
unregister_region major baseminor minorct m =
    let i : ℕ = major_to_hash_index major in
    let r = chain_without major baseminor minorct (m i) in (r.0, put_chain i r.1 m)

-- `next`, the end of the piece that begins at n.
pub next_piece : ℕ → ℕ → ℕ
next_piece n max = if ltb max (mkdev (major_of n + 1) 0) then max else mkdev (major_of n + 1) 0

-- The loop of `unregister_chrdev_region` on fuel, also that behind the error label of
-- `register_chrdev_region`.
pub unregister_pieces : ℕ → ℕ → ℕ → Chardevs → Option Chardevs
unregister_pieces zero n max m = none
unregister_pieces (suc f) n max m = elim (ltb n max) [
  | false ↦ some m
  | true ↦
      unregister_pieces f (next_piece n max) max
        (unregister_region (major_of n) (minor_of n) (next_piece n max - n) m).1
]

-- The loop of `register_chrdev_region` on fuel: where it stops for the error, or that it does not.
-- A room for each call.
pub register_pieces : ℕ → (ℕ → Bool) → ℕ → ℕ → ℕ → Chardevs → Option (Option ℕ × Chardevs)
register_pieces zero room name n max m = none
register_pieces (suc f) room name n max m = elim (ltb n max) [
  | false ↦ some (none, m)
  | true ↦
      let r = register_region (room n) (major_of n) (minor_of n) (next_piece n max - n) name m in
      elim (r.0) [
        | none ↦ some (some n, r.1)
        | some cd ↦ register_pieces f room name (next_piece n max) max r.1
      ]
]

-- `register_chrdev_region` on fuel for the pieces: the result and the chains.
pub register_chrdev_region : ℕ → (ℕ → Bool) → ℕ → ℕ → ℕ → Chardevs → Option (ℤ × Chardevs)
register_chrdev_region f room from count name m =
    elim (register_pieces f room name from ((from + count) % 2 ^ 32) m) [
      | none ↦ none
      | some (none, m₁) ↦ some (pos 0, m₁)
      | some (some n, m₁) ↦ elim (unregister_pieces f from n m₁) [
        | none ↦ none
        | some m₂ ↦ some (negsuc 0, m₂)
      ]
    ]

-- `alloc_chrdev_region`: the result and what it puts at `dev`.
pub alloc_chrdev_region : Bool → ℕ → ℕ → ℕ → Chardevs → ℤ × Option ℕ × Chardevs
alloc_chrdev_region room baseminor count name m =
    let r = register_region room 0 baseminor count name m in
    elim r.0 [
      | none ↦ (negsuc 0, none, r.1)
      | some cd ↦ (pos 0, some (mkdev cd.major cd.baseminor), r.1)
    ]

-- `unregister_chrdev_region` on fuel for the pieces.
pub unregister_chrdev_region : ℕ → ℕ → ℕ → Chardevs → Option Chardevs
unregister_chrdev_region f from count m = unregister_pieces f from ((from + count) % 2 ^ 32) m
