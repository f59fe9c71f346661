-- ===== src/Kobjects.antt =====
-- kernel/src/kobject.c and kernel/lib/kref.c: kernel objects, their sets and their reference counts. An
-- object is its address in a store; a set is the address of the object in it. A list of entries is a
-- list of addresses. `none` is an access to memory that is not an object. A type is known by whether it
-- has a `release`, which for a set gives its memory back; the memory of another object is its owner's.
pub mod Search
pub mod Counts
mod Tests
use hsunix.Base.{
  ℕ, zero, suc, ◌+◌, ◌-◌, ◌%◌, ◌^◌, List, [], ◌∷◌, Option, none, some, Bool, true, false, ◌==◌, ltb,
  if◌then◌else◌, length,
}
use hsunix.Base.Int.{ℤ, pos, negsuc}
use hsunix.Proc.{remove}
use mathlib.Core.Option

-- `struct kobject`, with the list of its set where it is a set; `name` is what the name was set to.
pub record Kobject : Type 0 where
  pub name : Option (List ℕ)
  pub refcount : ℕ
  pub parent : Option ℕ
  pub kset : Option ℕ
  pub releases : Bool
  pub list : List ℕ

-- The objects in memory.
pub record Objects : Type 0 where
  pub objs : ℕ → Option Kobject

abbrev pub put_obj : ℕ → Kobject → Objects → Objects
put_obj a o s = record s { objs = λ b. if a == b then some o else s.objs b }

-- `kref_init` and `kref_get` of the count of an object, and `kref_put` without the call of `release`:
-- the count, and whether `release` is called.
pub kref_init : Kobject → Kobject
kref_init o = record o { refcount = 1 }

pub kref_get : Kobject → Kobject
kref_get o = record o { refcount = (o.refcount + 1) % 2 ^ 32 }

pub kref_put : Kobject → Kobject × Bool
kref_put o =
    if ltb 0 o.refcount
    then (record o { refcount = o.refcount - 1 }, o.refcount - 1 == 0)
    else (o, false)

-- Of an object that is not null: `kobject_get`, and `kobject_get` or `kset_get` of one that may be.
pub kobject_get : ℕ → Objects → Option Objects
kobject_get a s = elim (s.objs a) [ none ↦ none | some o ↦ some (put_obj a (kref_get o) s) ]

pub get_opt : Option ℕ → Objects → Option Objects
get_opt none s = some s
get_opt (some a) s = kobject_get a s

-- `kobject_cleanup` behind the put of the set: the release, which gives the memory back, so that the
-- look at the parent is an access to it, and else the put of the parent.
pub release_obj : (Option ℕ → Objects → Option Objects) → ℕ → Kobject → Objects → Option Objects
release_obj put a o s = if o.releases then none else put o.parent s

-- What `put` does to an object, if there is one.
abbrev pub put_opt : (ℕ → Objects → Option Objects) → Option ℕ → Objects → Option Objects
put_opt put none s = some s
put_opt put (some a) s = put a s

-- `kobject_put` with `kobject_release` and `kobject_cleanup`, on fuel for the depth of the parents and
-- the sets.
pub kobject_put : ℕ → ℕ → Objects → Option Objects
kobject_put zero a s = none
kobject_put (suc f) a s = elim (s.objs a) [
  | none ↦ none
  | some o ↦ elim ((kref_put o).1) [
    | false ↦ some (put_obj a (kref_put o).0 s)
    | true ↦
        elim (put_opt (kobject_put f) o.kset
          (put_obj a (record (kref_put o).0 { name = none }) s)) [
            | none ↦ none
            | some s₁ ↦ release_obj (put_opt (kobject_put f)) a o s₁
          ]
  ]
]

-- `kobject_init`, for whether the type has a release.
pub kobject_init : ℕ → Bool → Objects → Option Objects
kobject_init a releases s = elim (s.objs a) [
  | none ↦ none
  | some o ↦ get_opt o.kset (put_obj a (record (kref_init o) { releases = releases }) s)
]

-- `kobject_setname` and `kobject_rename`, for what `kalloc` and `vsnprintf` make of the name: none
-- where there is no room or the name is too long.
pub kobject_setname : ℕ → Option (List ℕ) → Objects → Option (ℤ × Objects)
kobject_setname a none s = some (negsuc 0, s)
kobject_setname a (some name) s = elim (s.objs a) [
  | none ↦ none
  | some o ↦ some (pos 0, put_obj a (record o { name = some name }) s)
]

pub kobject_rename : ℕ → ℕ → Option (List ℕ) → Objects → Option (ℤ × Objects)
kobject_rename fuel a name s = elim (kobject_get a s) [
  | none ↦ none
  | some s₁ ↦ elim (kobject_setname a name s₁) [
    | none ↦ none
    | some (error, s₂) ↦ elim (kobject_put fuel a s₂) [ none ↦ none | some s₃ ↦ some (error, s₃) ]
  ]
]

-- `list_add_after` to the list of a set and `list_del_init` from it.
pub add_entry : ℕ → ℕ → Objects → Option Objects
add_entry k a s = elim (s.objs k) [
  | none ↦ none
  | some o ↦ some (put_obj k (record o { list = a ∷ o.list }) s)
]

pub del_entry : ℕ → Option ℕ → Objects → Option Objects
del_entry a none s = some s
del_entry a (some k) s = elim (s.objs k) [
  | none ↦ none
  | some o ↦ some (put_obj k (record o { list = remove a o.list }) s)
]

-- "确认该内核对象是否有所属的对象集": the parent, and the list of the set.
pub join_set : ℕ → Option ℕ → Option ℕ → Objects → Option (Option ℕ × Objects)
join_set a parent none s = some (parent, s)
join_set a (some p) (some k) s = elim (add_entry k a s) [
  | none ↦ none
  | some s₁ ↦ some (some p, s₁)
]
join_set a none (some k) s = elim (kobject_get k s) [
  | none ↦ none
  | some s₁ ↦ elim (add_entry k a s₁) [ none ↦ none | some s₂ ↦ some (some k, s₂) ]
]

pub set_parent : ℕ → Option ℕ → Objects → Option (ℤ × Objects)
set_parent a parent s = elim (s.objs a) [
  | none ↦ none
  | some o ↦ some (pos 0, put_obj a (record o { parent = parent }) s)
]

-- `kobject_add`
pub kobject_add : ℕ → Objects → Option (ℤ × Objects)
kobject_add a s = elim (s.objs a) [
  | none ↦ none
  | some o ↦ elim (kobject_get a s) [
    | none ↦ none
    | some s₁ ↦ elim (get_opt o.parent s₁) [
      | none ↦ none
      | some s₂ ↦ elim (join_set a o.parent o.kset s₂) [
        | none ↦ none
        | some (parent, s₃) ↦ set_parent a parent s₃
      ]
    ]
  ]
]

-- `kobject_del`
pub kobject_del : ℕ → ℕ → Objects → Option Objects
kobject_del fuel a s = elim (s.objs a) [
  | none ↦ none
  | some o ↦ elim (del_entry a o.kset s) [ none ↦ none | some s₁ ↦ kobject_put fuel a s₁ ]
]

-- `kobject_register` and `kobject_unregister`, which `kset_unregister` does too.
pub kobject_register : ℕ → Objects → Option (ℤ × Objects)
kobject_register a s = elim (s.objs a) [
  | none ↦ none
  | some o ↦ elim (kobject_init a o.releases s) [ none ↦ none | some s₁ ↦ kobject_add a s₁ ]
]

pub kobject_unregister : ℕ → ℕ → Objects → Option Objects
kobject_unregister fuel a s = elim (kobject_del fuel a s) [
  | none ↦ none
  | some s₁ ↦ kobject_put fuel a s₁
]

-- `kset_init`, which drops the type, and `kset_register`.
pub kset_init : ℕ → Objects → Option Objects
kset_init k s = elim (kobject_init k false s) [
  | none ↦ none
  | some s₁ ↦ elim (s₁.objs k) [
    | none ↦ none
    | some o ↦ some (put_obj k (record o { list = [] }) s₁)
  ]
]

pub kset_register : ℕ → Objects → Option (ℤ × Objects)
kset_register k s = elim (kset_init k s) [ none ↦ none | some s₁ ↦ kobject_add k s₁ ]

-- KOBJ_NAME_LEN, the bytes of the memory for the name of an object.
abbrev pub kobj_name_len : ℕ
kobj_name_len = 32

-- The loop of `kset_find_kobj` over the entries: `kstrcpy` copies the name and returns where to, which
-- is never 0, so `kobj` is the entry that was looked at last. A name that does not fit with its
-- terminator is written past the memory.
pub find_in : List ℕ → Option ℕ → List ℕ → Objects → Option (Option ℕ × Objects)
find_in [] kobj name s = some (kobj, s)
find_in (a ∷ rest) kobj name s = elim (s.objs a) [
  | none ↦ none
  | some o ↦ elim o.name [
    | none ↦ none
    | some old ↦ elim (ltb (length name) kobj_name_len) [
      | false ↦ none
      | true ↦ find_in rest (some a) name (put_obj a (record o { name = some name }) s)
    ]
  ]
]

-- `kset_find_kobj`
pub kset_find_kobj : ℕ → List ℕ → Objects → Option (Option ℕ × Objects)
kset_find_kobj k name s = elim (s.objs k) [ none ↦ none | some o ↦ find_in o.list none name s ]

-- `kset_create`, for the memory that `kalloc` gives with what it holds, and what `kobject_setname`
-- makes of the name: the set, or null. The name that the memory may hold is not given back.
pub kset_create : Option (ℕ × Kobject) → Option (List ℕ) → Option ℕ → Objects → Option ℕ × Objects
kset_create none name parent s = (none, s)
kset_create (some (k, raw)) none parent s = (none, s)
kset_create (some (k, raw)) (some name) parent s = (
  some k,
  put_obj k
      (record raw { name = some name; parent = parent; kset = none; releases = true; list = [] }) s,
)
