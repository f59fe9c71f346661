-- ===== src/Kobjects/Search.antt =====
-- What `kset_find_kobj` of kernel/src/kobject.c finds.
use hsunix.Base.{
  ℕ, List, Option, ◌∷◌, ◌≡◌, [], some, none, ◌∙◌, Bool-cases, ◌==◌, refl, inl, inr, length, ◌<◌,
  ◌||◌, Bool, false, if◌then◌else◌, ap, sym, arith,
}
use hsunix.Kobjects.{kset_find_kobj, Objects, find_in, Kobject, put_obj}

-- Every entry is an object with a name.
abbrev IsNamed : Objects → ℕ → Type 0
IsNamed s a = (o : Kobject) × (old : List ℕ) × (s.objs a ≡ some o) × (o.name ≡ some old)

abbrev pub AreNamed : Objects → List ℕ → Type 0
AreNamed s [] = Unit
AreNamed s (a ∷ rest) = IsNamed s a × AreNamed s rest

IsNamed-put :
    (s : Objects) (a b : ℕ) (o : Kobject) (name : List ℕ)
    → o.name ≡ some name
    → IsNamed s b
    → IsNamed (put_obj a o s) b
IsNamed-put s a b o name e h = elim (Bool-cases (a == b)) [
  | inl same ↦ (o, name, rw same refl, e)
  | inr other ↦ let (p, old, there, named) = h in (p, old, rw other there, named)
]

AreNamed-put :
    (rest : List ℕ) (s : Objects) (a : ℕ) (o : Kobject) (name : List ℕ)
    → o.name ≡ some name
    → AreNamed s rest
    → AreNamed (put_obj a o s) rest
AreNamed-put [] s a o name e h = tt
AreNamed-put (b ∷ rest) s a o name e h =
    (IsNamed-put s a b o name e h.0, AreNamed-put rest s a o name e h.1)

find_in-next :
    (a : ℕ) (rest : List ℕ) (kobj : Option ℕ) (name old : List ℕ) (s : Objects) (o : Kobject)
    → s.objs a ≡ some o
    → o.name ≡ some old
    → length name < 32
    → find_in (a ∷ rest) kobj name s
      ≡ find_in rest (some a) name (put_obj a (record o { name = some name }) s)
unfolding find_in
find_in-next a rest kobj name old s o there named l = ground (arith, there, named, l)

-- The last entry of a list, or what it was before.
abbrev pub last_or : Option ℕ → List ℕ → Option ℕ
last_or kobj [] = kobj
last_or kobj (a ∷ rest) = last_or (some a) rest

abbrev pub is_entry : ℕ → List ℕ → Bool
is_entry b [] = false
is_entry b (a ∷ rest) = (a == b) || is_entry b rest

-- An object, if there is one, under another name.
abbrev pub renamed : List ℕ → Option Kobject → Option Kobject
renamed name none = none
renamed name (some o) = some (record o { name = some name })

-- Every entry has the name, and every other object is what it was.
abbrev pub AllRenamed : List ℕ → List ℕ → Objects → Objects → Type 0
AllRenamed entries name s s' =
    (b : ℕ) → s'.objs b ≡ (if is_entry b entries then renamed name (s.objs b) else s.objs b)

AllRenamed-next :
    (a : ℕ) (rest name : List ℕ) (s s' : Objects) (o : Kobject)
    → s.objs a ≡ some o
    → AllRenamed rest name (put_obj a (record o { name = some name }) s) s'
    → AllRenamed (a ∷ rest) name s s'
AllRenamed-next a rest name s s' o there h b = elim (Bool-cases (a == b)) [
  | inl same ↦
      let it : a ≡ b = ground (arith, same) in
      let known : s.objs b ≡ some o = ap (s.objs) (sym it) ∙ there in
      rw (same, known)
        (elim (Bool-cases (is_entry b rest)) [
          | inl again ↦ h b ∙ rw (same, again) refl
          | inr last ↦ h b ∙ rw (same, last) refl
        ])
  | inr other ↦ h b ∙ rw other refl
]

find_in_lem :
    (entries : List ℕ) (kobj : Option ℕ) (name : List ℕ) (s : Objects)
    → length name < 32
    → AreNamed s entries
    → (s' : Objects) × (find_in entries kobj name s ≡ some (last_or kobj entries, s'))
      × AllRenamed entries name s s'
unfolding find_in
find_in_lem [] kobj name s l h = (s, refl, λ b. refl)
find_in_lem (a ∷ rest) kobj name s l h =
    let (o, old, there, named) = h.0 in
    let s₁ = put_obj a (record o { name = some name }) s in
    let (s', e, all) =
      find_in_lem rest (some a) name s₁ l
        (AreNamed-put rest s a (record o { name = some name }) name refl h.1) in
    (
      s',
      find_in-next a rest kobj name old s o there named l ∙ e,
      AllRenamed-next a rest name s s' o there all,
    )

-- `kset_find_kobj` in a set of objects with names gives the last object of the list, or null where the
-- list is empty, for every name shorter than the 32 bytes that a name has room for: it copies the name
-- where it means to compare it, so every object of the list has the name afterwards. Other objects,
-- and all else of these, are what they were.
pub kset_find_kobj-last :
    (k : ℕ) (name : List ℕ) (s : Objects) (o : Kobject)
    → length name < 32
    → s.objs k ≡ some o
    → AreNamed s o.list
    → (s' : Objects) × (kset_find_kobj k name s ≡ some (last_or none o.list, s'))
      × AllRenamed o.list name s s'
unfolding kset_find_kobj
kset_find_kobj-last k name s o l there h =
    let (s', e, all) = find_in_lem o.list none name s l h in (s', rw (there, kset_find_kobj) e, all)
