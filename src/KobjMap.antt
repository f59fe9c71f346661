-- ===== src/KobjMap.antt =====
-- kernel/drv/kobj_map.c: the map from device numbers to kernel objects. `kobj_map_init` gives all 255
-- heads the same first probe, so that there is one chain, whatever the index: that probe and the list
-- of those behind it. The functions of a probe are values; an object is its address. Whether `kalloc`
-- finds room is an argument.
pub mod Find
mod Tests
use hsunix.Base.{
  ℕ, Bool, List, Option, ◌+◌, some, ltb, ◌∷◌, ◌^◌, suc, none, if◌then◌else◌, ◌||◌, false, [], ◌-◌,
  zero, true, ◌%◌, ◌==◌, leb, ◌/◌, ◌&&◌,
}
use hsunix.Base.Int.{ℤ, negsuc, pos}

-- `struct probe`
pub record Probe : Type 0 where
  pub dev : ℕ
  pub range : ℕ
  pub probe : Option (ℕ → ℕ → Option ℕ)
  pub lock : Option (ℕ → ℤ)

-- `struct kobj_map`
pub record ProbeMap : Type 0 where
  pub base : Probe
  pub chain : List Probe

abbrev pub def_range_value : ℕ
def_range_value = 0xffff

-- `range - 1` of an `unsigned long`.
abbrev pub last_of : ℕ → ℕ
last_of range = (range + 2 ^ 64 - 1) % 2 ^ 64

-- "计算要操作的主设备号数量", at most 255.
pub major_num : ℕ → ℕ → ℕ
major_num dev range =
    let n : ℕ =
      (((dev + range + 2 ^ 64 - 1) % 2 ^ 64 / 2 ^ 20) % 2 ^ 32 + 2 ^ 32 - dev / 2 ^ 20 + 1)
      % 2 ^ 32 in
    if ltb 255 n then 255 else n

-- The place of a probe in the chain: in front of the first whose range is not smaller.
pub insert_probe : Probe → List Probe → List Probe
insert_probe p [] = p ∷ []
insert_probe p (q ∷ qs) = if ltb q.range p.range then q ∷ insert_probe p qs else p ∷ q ∷ qs

pub insert_times : ℕ → Probe → List Probe → List Probe
insert_times zero p chain = chain
insert_times (suc n) p chain = insert_times n p (insert_probe p chain)

-- `kobj_map`
pub kobj_map : Bool → Probe → ProbeMap → ℤ × ProbeMap
kobj_map false p domain = (negsuc 0, domain)
kobj_map true p domain =
    (pos 0, record domain { chain = insert_times (major_num p.dev p.range) p domain.chain })

-- A pass of `kobj_unmap`: the first probe with these numbers goes.
pub remove_probe : ℕ → ℕ → List Probe → List Probe
remove_probe dev range [] = []
remove_probe dev range (q ∷ qs) =
    if q.dev == dev && q.range == range then qs else q ∷ remove_probe dev range qs

pub remove_times : ℕ → ℕ → ℕ → List Probe → List Probe
remove_times zero dev range chain = chain
remove_times (suc n) dev range chain = remove_times n dev range (remove_probe dev range chain)

-- `kobj_unmap`
pub kobj_unmap : ℕ → ℕ → ProbeMap → ProbeMap
kobj_unmap dev range domain = record domain {
  chain = remove_times (major_num dev range) dev range domain.chain;
}

-- "确认遍历到的目标是否为所寻找的对象"
abbrev pub is_outside : ℕ → Probe → Bool
is_outside dev p = ltb dev p.dev || ltb ((p.dev + p.range + 2 ^ 64 - 1) % 2 ^ 64) dev

-- Does the lock of a probe fail?
abbrev pub lock_fails : Probe → Bool
lock_fails p = elim p.lock [
  | none ↦ false
  | some lock ↦ elim (lock p.dev) [ pos n ↦ false | negsuc n ↦ true ]
]

-- The loop of `kobj_lookup`: the object, or null.
pub lookup_probe : ℕ → ℕ → List Probe → Option ℕ
lookup_probe dev range [] = none
lookup_probe dev range (p ∷ ps) =
    let skip = lookup_probe dev range ps in
    let after_lock = lookup_probe dev (last_of p.range) ps in
    if is_outside dev p
    then skip
    else if leb range (last_of p.range)
    then none
    else if lock_fails p
    then after_lock
    else elim p.probe [ none ↦ none | some probe ↦ probe dev (dev - p.dev) ]

-- `kobj_lookup`
pub kobj_lookup : ProbeMap → ℕ → Option ℕ
kobj_lookup domain dev = lookup_probe dev def_range_value (domain.base ∷ domain.chain)

-- `kobj_map_init`, for whether `kalloc` finds room.
pub kobj_map_init : Bool → Option (ℕ → ℕ → Option ℕ) → Option ProbeMap
kobj_map_init room none = none
kobj_map_init false (some base_probe) = none
kobj_map_init true (some base_probe) = some (record {
  base = record { dev = 1; range = def_range_value; probe = some base_probe; lock = none };
  chain = [];
})
