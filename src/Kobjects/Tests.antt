-- ===== src/Kobjects/Tests.antt =====
-- A set of two objects.
use hsunix.Base.{ℕ, List, some, ◌∷◌, [], ◌≡◌, none, refl, false, arith}
use hsunix.Kobjects.{
  kobject_get, Objects, put_obj, kset_find_kobj, Kobject, kobject_put, kref_get, kref_put,
}
use hsunix.Base.Maybe.{◌>>=◌}
use hsunix.Kobjects.Search.{AllRenamed, kset_find_kobj-last}
use hsunix.Kobjects.Counts.{kobject_put-kobject_get}

abbrev named_obj : ℕ → List ℕ → Kobject
named_obj c list = record {
  name = some (c ∷ []);
  refcount = 1;
  parent = none;
  kset = none;
  releases = false;
  list = list;
}

abbrev three_objects : Objects
three_objects =
    put_obj 1 (named_obj 97 (2 ∷ 3 ∷ []))
      (put_obj 2 (named_obj 98 []) (put_obj 3 (named_obj 99 []) (record { objs = λ a. none })))

kset_find_kobj-last_example :
    (s' : Objects) × (kset_find_kobj 1 (98 ∷ []) three_objects ≡ some (some 3, s'))
    × AllRenamed (2 ∷ 3 ∷ []) (98 ∷ []) three_objects s'
kset_find_kobj-last_example =
    kset_find_kobj-last 1 (98 ∷ []) three_objects (named_obj 97 (2 ∷ 3 ∷ [])) (omega arith) refl
      ((named_obj 98 [], 98 ∷ [], refl, refl), ((named_obj 99 [], 99 ∷ [], refl, refl), tt))

-- A reference that is taken and given back.
get_put :
    (kobject_get 2 three_objects >>= λ s. kobject_put 1 2 s >>= λ s₁. s₁.objs 2)
    ≡ some (named_obj 98 [])
unfolding kobject_get kobject_put kref_get kref_put
get_put = refl

kobject_put-kobject_get_example :
    (s₁ : Objects) × (s₂ : Objects) × (kobject_get 2 three_objects ≡ some s₁)
    × (kobject_put 1 2 s₁ ≡ some s₂)
    × ((b : ℕ) → s₂.objs b ≡ three_objects.objs b)
kobject_put-kobject_get_example =
    kobject_put-kobject_get 0 2 three_objects (named_obj 98 []) refl (omega arith) (omega arith)
