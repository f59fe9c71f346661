-- ===== src/Kobjects/Counts.antt =====
-- The reference counts of kernel/lib/kref.c and kernel/src/kobject.c.
use hsunix.Base.{
  ℕ, ◌<◌, ◌≡◌, ◌+◌, some, ◌^◌, suc, false, Bool-cases, ◌%◌, ◌==◌, arith, inl, true, sym, ltb, refl,
  ◌∙◌, ◌-◌, ap, inr,
}
use hsunix.Kobjects.{Objects, kref_put, kobject_get, kobject_put, Kobject, kref_get, put_obj}

-- A count that was raised is lowered to what it was, and is not the last.
kref_put-kref_get :
    (o : Kobject) → 0 < o.refcount → o.refcount + 1 < 2 ^ 32 → kref_put (kref_get o) ≡ (o, false)
unfolding kref_put kref_get
kref_put-kref_get o some_count fits =
    let sum : (o.refcount + 1) % 2 ^ 32 ≡ o.refcount + 1 = ground (arith, fits) in
    let held : ltb 0 (o.refcount + 1) ≡ true = ground arith in
    let back : o.refcount + 1 - 1 ≡ o.refcount = omega arith in
    let more : (o.refcount == 0) ≡ false = ground (arith, some_count) in
    rw sum (rw held (ap (λ c. (record o { refcount = c }, c == 0)) back ∙ ap (λ b. (o, b)) more))

restored :
    (s : Objects) (a : ℕ) (o p : Kobject)
    → s.objs a ≡ some o
    → (b : ℕ) → (put_obj a o (put_obj a p s)).objs b ≡ s.objs b
restored s a o p there b = elim (Bool-cases (a == b)) [
  | inl same ↦ let e : a ≡ b = ground (arith, same) in rw same (sym there ∙ ap s.objs e)
  | inr other ↦ rw other refl
]

-- `kobject_put` undoes `kobject_get`: for an object that is in use, with a count that does not wrap,
-- both come back, on any fuel, and then every object is what it was before.
pub kobject_put-kobject_get :
    (f a : ℕ) (s : Objects) (o : Kobject)
    → s.objs a ≡ some o
    → 0 < o.refcount
    → o.refcount + 1 < 2 ^ 32
    → (s₁ : Objects) × (s₂ : Objects) × (kobject_get a s ≡ some s₁)
      × (kobject_put (suc f) a s₁ ≡ some s₂)
      × ((b : ℕ) → s₂.objs b ≡ s.objs b)
unfolding kobject_get kobject_put
kobject_put-kobject_get f a s o there some_count fits =
    let s₁ = put_obj a (kref_get o) s in
    let s₂ = put_obj a o s₁ in
    let here : s₁.objs a ≡ some (kref_get o) =
      let e : (a == a) ≡ true = ground arith in rw e refl in
    let k = kref_put-kref_get o some_count fits in
    (
      s₁,
      s₂,
      rw (there, kobject_get) refl,
      rw (here, kobject_put) (rw k (ap (λ t. some (put_obj a t.0 s₁)) k)),
      restored s a o (kref_get o) there,
    )
