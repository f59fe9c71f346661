-- ===== src/PathName/Format.antt =====
-- `path_formater` of kernel/fs/virtual_fs/fs_path.c normalises a path name.
use hsunix.Base.{
  ℕ, ◌≡◌, refl, List, [], ◌∷◌, ◌++◌, some, arith, replicate, Option, length, ◌<◌, ◌+◌, none, suc,
  ◌≢◌, zero, ◌≤◌, length-append, ◌-◌, ◌∙◌, ap,
}
use hsunix.PathName.{
  slash, round, again, rounds, reverse, trim, push_all, path_formater, copy_name, or_root,
  byte_before,
}
use hsunix.PathName.Scan.{
  IsName, Begins, skip_slashes-run, copy_name-name, lead-name, lead-dot, lead-dots,
}
use hsunix.PathName.Walk.{
  Comp, current, parent, name, spelled, IsComp, walk, spell, AllComps, AllNames, out_of,
  drop_name-push_all, drop_name-out_of, shown, comps, trim-slash, push_all-ne_nil, out_of-ne_nil,
  reverse-push_all, reverse-out_of, trim-name, directory,
}
use hsunix.Cstr.Terminated.{cstr}

-- One component with its slashes takes one round.
round-comp :
    (c : Comp) (k : ℕ) (t : List ℕ) (st st' : List (List ℕ))
    → IsComp c
    → AllNames st
    → Begins t
    → walk st (c ∷ []) ≡ some st'
    → (round (spelled c ++ (slash ∷ (replicate k slash ++ t))) (out_of st)
        ≡ some (again t (out_of st')))
      × AllNames st'
unfolding round walk out_of
round-comp current k t st st' i n b w = ground (arith, lead-dot k t b)
round-comp parent k t [] st' i n b w = cc
round-comp parent k t (d ∷ st) st' i n b w =
    ground
      (arith, lead-dots k t b, drop_name-push_all d (out_of st), drop_name-out_of st, n.0.no_slash)
round-comp (name c) k t st st' i n b w = ground (
  arith,
  lead-name c (replicate k slash ++ t) slash,
  copy_name-name c (replicate k slash ++ t) slash,
  skip_slashes-run k t b,
)

pub Begins-name : (c t : List ℕ) → IsName c → Begins (c ++ t)
Begins-name [] t h = absurd (h.nonempty refl)
Begins-name (x ∷ c) t h = h.no_slash.0

Begins-comp : (c : Comp) (t : List ℕ) → IsComp c → Begins (spelled c ++ t)
Begins-comp current t h = ground arith
Begins-comp parent t h = ground arith
Begins-comp (name c) t h = Begins-name c t h.0

Begins-spell :
    (cs : List (Comp × ℕ)) (tail : List ℕ) → AllComps cs → Begins tail → Begins (spell cs tail)
Begins-spell [] tail h b = b
Begins-spell ((c, k) ∷ cs) tail h b = Begins-comp c _ h.0

walk-cons :
    (c : Comp) (cs : List Comp) (st st' : List (List ℕ))
    → walk st (c ∷ cs) ≡ some st'
    → (st₁ : List (List ℕ)) × (walk st (c ∷ []) ≡ some st₁) × (walk st₁ cs ≡ some st')
unfolding walk
walk-cons current cs st st' h = (st, refl, h)
walk-cons parent cs [] st' h = absurd (cc)
walk-cons parent cs (d ∷ st) st' h = (st, refl, h)
walk-cons (name c) cs st st' h = (c ∷ st, refl, h)

rounds-spell :
    (cs : List (Comp × ℕ)) (tail : List ℕ) (st st' : List (List ℕ)) (f : ℕ)
    → AllComps cs
    → AllNames st
    → Begins tail
    → walk st (comps cs) ≡ some st'
    → (rounds (length cs + f) (spell cs tail) (out_of st) ≡ rounds f tail (out_of st'))
      × AllNames st'
unfolding rounds walk
rounds-spell [] tail st st' f i n b w =
    let e : st ≡ st' = ground arith in let z : 0 + f ≡ f = omega arith in (rw (z, ← e), rw (← e) n)
rounds-spell ((c, k) ∷ cs) tail st st' f i n b w =
    let (st₁, one, rest) = walk-cons c (comps cs) st st' w in
    let (first, n₁) =
      round-comp c k (spell cs tail) st st₁ i.0 n (Begins-spell cs tail i.1 b) one in
    let ih = rounds-spell cs tail st₁ st' f i.1 n₁ b rest in
    let count : suc (length cs) + f ≡ suc (length cs + f) = omega arith in
    (rw (count, first, rounds) ih.0, ih.1)

-- The last component, if no slash follows it.
abbrev pub ending : Option Comp → List ℕ
ending none = []
ending (some c) = spelled c

abbrev pub IsEnding : Option Comp → Type 0
IsEnding none = Unit
IsEnding (some c) = IsComp c

abbrev pub ending_comps : Option Comp → List Comp
ending_comps none = []
ending_comps (some c) = c ∷ []

trim-out_of : (st : List (List ℕ)) → AllNames st → reverse (trim (out_of st)) ≡ shown st
unfolding out_of shown trim
trim-out_of [] n = refl
trim-out_of (c ∷ st) n = rw (
  trim-slash (push_all c (out_of st)) (push_all-ne_nil c (out_of st) (out_of-ne_nil st)),
  reverse-push_all c (out_of st),
  reverse-out_of st,
)

-- The rounds from the last component on.
rounds-ending :
    (last : Option Comp) (r : List ℕ) (st st' : List (List ℕ)) (f : ℕ)
    → IsEnding last
    → AllNames st
    → length (ending last) < f
    → walk st (ending_comps last) ≡ some st'
    → (o : List ℕ) × (rounds f (cstr (ending last) r) (out_of st) ≡ some (some o))
      × (reverse (trim o) ≡ shown st')
      × (o ≢ [])
unfolding rounds round walk copy_name shown out_of
rounds-ending last r st st' zero i n h w = absurd (omega arith)
rounds-ending none r st st' (suc f) i n h w =
    (out_of st, refl, ground (arith, trim-out_of st n), out_of-ne_nil st)
rounds-ending (some current) r st st' (suc f) i n h w =
    (out_of st, refl, ground (arith, trim-out_of st n), out_of-ne_nil st)
rounds-ending (some parent) r st st' (suc zero) i n h w = absurd (omega arith)
rounds-ending (some parent) r [] st' (suc (suc f)) i n h w = absurd (cc)
rounds-ending (some parent) r (d ∷ st) st' (suc (suc f)) i n h w = (
  out_of st,
  ground (arith, drop_name-push_all d (out_of st) n.0.no_slash, drop_name-out_of st),
  ground (arith, trim-out_of st n.1),
  out_of-ne_nil st,
)
rounds-ending (some (name c)) r st st' (suc f) i n h w = (
  push_all c (out_of st),
  ground (arith, lead-name c r 0, copy_name-name c r 0),
  ground (arith, trim-name c (out_of st) i.0, reverse-push_all c (out_of st), reverse-out_of st),
  push_all-ne_nil c (out_of st) (out_of-ne_nil st),
)

length-spell :
    (cs : List (Comp × ℕ)) (tail : List ℕ) → length cs + length tail ≤ length (spell cs tail)
length-spell [] tail = omega arith
length-spell ((c, k) ∷ cs) tail = omega (
  arith,
  length-spell cs tail,
  length-append (spelled c) (slash ∷ (replicate k slash ++ spell cs tail)),
  length-append (replicate k slash) (spell cs tail),
)

Begins-ending : (last : Option Comp) (r : List ℕ) → IsEnding last → Begins (cstr (ending last) r)
Begins-ending none r i = ground arith
Begins-ending (some c) r i = Begins-comp c (0 ∷ r) i

pub round-root :
    (k : ℕ) (t : List ℕ)
    → Begins t
    → round (slash ∷ (replicate k slash ++ t)) [] ≡ some (again t (out_of []))
unfolding round copy_name out_of
round-root k t b = ground (arith, skip_slashes-run k t b)

rounds-root :
    (k n : ℕ) (t : List ℕ)
    → Begins t
    → rounds (suc n) (slash ∷ (replicate k slash ++ t)) [] ≡ rounds n t (out_of [])
unfolding rounds
rounds-root k n t b = rw (round-root k t b, rounds)

append-ne_nil : (xs ys : List ℕ) → xs ≢ [] → xs ++ ys ≢ []
append-ne_nil [] ys h = absurd (h refl)
append-ne_nil (x ∷ xs) ys h = λ e. cc

directory-ne_nil : (st : List (List ℕ)) → directory st ≢ []
unfolding directory
directory-ne_nil [] = λ e. cc
directory-ne_nil (c ∷ st) = append-ne_nil (directory st) (c ++ (slash ∷ [])) (directory-ne_nil st)

shown-ne_nil : (st : List (List ℕ)) → shown st ≢ []
unfolding shown
shown-ne_nil [] = λ e. cc
shown-ne_nil (c ∷ st) = append-ne_nil (directory st) c (directory-ne_nil st)

pub or_root_filled : (s : List ℕ) → s ≢ [] → or_root s ≡ s
unfolding or_root
or_root_filled [] h = absurd (h refl)
or_root_filled (c ∷ s) h = refl

pub byte_before_filled : (o : List ℕ) (b : ℕ) → o ≢ [] → byte_before o b ≡ b
unfolding byte_before
byte_before_filled [] b h = absurd (h refl)
byte_before_filled (c ∷ o) b h = refl

-- The absolute path of some components, with runs of slashes between them.
abbrev pub absolute : ℕ → List (Comp × ℕ) → Option Comp → List ℕ → List ℕ
absolute k cs last r = slash ∷ (replicate k slash ++ spell cs (cstr (ending last) r))

-- An absolute path that never goes up from the root is rewritten to the directories that its
-- components lead to: no ".", no "..", single slashes, none at the end except for the root itself.
-- The byte in front of the buffer is not touched.
pub path_formater-walk :
    (k : ℕ) (cs : List (Comp × ℕ)) (last : Option Comp) (r : List ℕ) (st st' : List (List ℕ))
    (before : ℕ)
    → AllComps cs
    → IsEnding last
    → walk [] (comps cs) ≡ some st
    → walk st (ending_comps last) ≡ some st'
    → path_formater (absolute k cs last r) before ≡ some (some (shown st', before))
unfolding path_formater out_of
path_formater-walk k cs last r st st' before i j w w' =
    let tail = cstr (ending last) r in
    let t = spell cs tail in
    let begins = Begins-spell cs tail i (Begins-ending last r j) in
    let f : ℕ = length (replicate k slash ++ t) - length cs in
    let len : length (replicate k slash ++ t) ≡ length cs + f =
      omega (arith, length-append (replicate k slash) t, length-spell cs tail) in
    let (spelt, names) = rounds-spell cs tail [] st f i tt (Begins-ending last r j) w in
    let (o, ended, text, filled) =
      rounds-ending last r st st' f j names
        (omega (
          arith,
          length-append (replicate k slash) t,
          length-spell cs tail,
          length-append (ending last) (0 ∷ r),
        ))
        w' in
    let n = length (replicate k slash ++ t) in
    let run : rounds (suc n) (absolute k cs last r) [] ≡ some (some o) =
      rounds-root k n t begins ∙ ap (λ m. rounds m t (out_of [])) len ∙ spelt ∙ ended in
    rw
      (run, text, or_root_filled (shown st') (shown-ne_nil st'), byte_before_filled o before filled)
