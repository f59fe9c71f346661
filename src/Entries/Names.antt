-- ===== src/Entries/Names.antt =====
-- The comparison of a text with the name of an entry of kernel/fs/disk_fs/dfs_dirent.c.
use hsunix.Base.{
  ℕ, List, ◌≡◌, Option, suc, some, [], ap₂, ◌∷◌, false, zero, arith, true, refl, none, Bool-cases,
  inr, inl, Bool, sym, ◌==◌, ◌++◌, ◌≢◌,
}
use hsunix.Entries.{has_name, inum_of, name_of, ℤ}
use hsunix.Cstr.Terminated.{cstr, Lacks}
use hsunix.Cstr.{kstrcmp}
use hsunix.Base.Int.{sub_ℕ, sub_ℕ-eq_zero, ℤ, negsuc, pos}

-- A name field holds the text with its terminator, or is all within the text, without an end.
abbrev pub Holds : List ℕ → List ℕ → Type 0
Holds t d = (u : List ℕ) × (d ≡ cstr t u)

abbrev pub IsWithin : List ℕ → List ℕ → Type 0
IsWithin t d = (u : List ℕ) × (t ≡ d ++ u)

-- An entry is used and has the text for its name.
abbrev pub IsNamed : List ℕ → List ℕ → Type 0
IsNamed t e = (inum_of e ≢ 0) × Holds t (name_of e)

-- What a comparison of a text with a field says.
abbrev Compared : List ℕ → List ℕ → Option ℤ → Type 0
Compared t d none = IsWithin t d
Compared t d (some (pos zero)) = Holds t d
Compared t d (some (pos (suc k))) = Holds t d → ⊥
Compared t d (some (negsuc k)) = Holds t d → ⊥

heads : (c x : ℕ) (t d : List ℕ) → c ≢ x → Holds (c ∷ t) (x ∷ d) → ⊥
heads c x t d other (u, e) = ground (arith, other, e)

Compared-same :
    (c x : ℕ) (t d : List ℕ) (o : Option ℤ) → c ≡ x → Compared t d o → Compared (c ∷ t) (x ∷ d) o
Compared-same c x t d none e (u, h) = (u, ap₂ (λ a b. a ∷ b) e h)
Compared-same c x t d (some (pos zero)) e (u, h) = (u, ap₂ (λ a b. a ∷ b) (sym e) h)
Compared-same c x t d (some (pos (suc k))) e h = λ (u, g). h (u, ground (arith, g))
Compared-same c x t d (some (negsuc k)) e h = λ (u, g). h (u, ground (arith, g))

Compared-other :
    (c x : ℕ) (t d : List ℕ) (z : ℤ) → c ≢ x → sub_ℕ c x ≡ z → Compared (c ∷ t) (x ∷ d) (some z)
Compared-other c x t d (pos zero) other e = absurd (other ((sub_ℕ-eq_zero c x).0 e))
Compared-other c x t d (pos (suc k)) other e = λ h. heads c x t d other h
Compared-other c x t d (negsuc k) other e = λ h. heads c x t d other h

no_end : (x : ℕ) (d : List ℕ) → 0 ≢ x → Holds [] (x ∷ d) → ⊥
no_end x d other (u, e) = ground (arith, other, e)

Compared-ended : (x : ℕ) (d : List ℕ) (z : ℤ) → 0 ≢ x → sub_ℕ 0 x ≡ z → Compared [] (x ∷ d) (some z)
Compared-ended x d (pos zero) other e = absurd (other ((sub_ℕ-eq_zero 0 x).0 e))
Compared-ended x d (pos (suc k)) other e = λ h. no_end x d other h
Compared-ended x d (negsuc k) other e = λ h. no_end x d other h

kstrcmp-Compared : (t r d : List ℕ) → Lacks 0 t → Compared t d (kstrcmp (cstr t r) d)
unfolding kstrcmp
kstrcmp-Compared [] r [] h = ([], refl)
kstrcmp-Compared [] r (zero ∷ d) h = (d, refl)
kstrcmp-Compared [] r (suc x ∷ d) h =
    Compared-ended (suc x) d (sub_ℕ 0 (suc x)) (λ e. omega (arith, e)) refl
kstrcmp-Compared (c ∷ t) r [] h = (c ∷ t, refl)
kstrcmp-Compared (c ∷ t) r (x ∷ d) h =
    let goes_on : (c == 0) ≡ false = ground (arith, h.0) in
    elim (Bool-cases (c == x)) [
      | inl same ↦
          rw (goes_on, kstrcmp)
            (rw same (
              Compared-same c x t d (kstrcmp (cstr t r) d) (ground (arith, same))
                (kstrcmp-Compared t r d h.1)))
      | inr other ↦
          rw (goes_on, kstrcmp)
            (rw other (Compared-other c x t d (sub_ℕ c x) (ground (arith, other)) refl))
    ]

-- What `has_name` says of an entry.
abbrev pub Decided : List ℕ → List ℕ → Option Bool → Type 0
Decided t e none = (inum_of e ≢ 0) × IsWithin t (name_of e)
Decided t e (some true) = IsNamed t e
Decided t e (some false) = IsNamed t e → ⊥

module _ (t r e : List ℕ) where
  Decided-by :
      (o : Option ℤ)
      → inum_of e ≢ 0
      → kstrcmp (cstr t r) (name_of e) ≡ o
      → Compared t (name_of e) o
      → Decided t e (has_name (cstr t r) e)
  unfolding has_name
  Decided-by none used k h =
      let there : (inum_of e == 0) ≡ false = ground (arith, used) in
      rw (there, has_name) (rw k (used, h))
  Decided-by (some (pos zero)) used k h =
      let there : (inum_of e == 0) ≡ false = ground (arith, used) in
      rw (there, has_name) (rw k (used, h))
  Decided-by (some (pos (suc d))) used k h =
      let there : (inum_of e == 0) ≡ false = ground (arith, used) in
      rw (there, has_name) (rw k (λ n. h n.1))
  Decided-by (some (negsuc d)) used k h =
      let there : (inum_of e == 0) ≡ false = ground (arith, used) in
      rw (there, has_name) (rw k (λ n. h n.1))

  pub has_name-Decided : Lacks 0 t → Decided t e (has_name (cstr t r) e)
  unfolding has_name
  has_name-Decided lacks = elim (Bool-cases (inum_of e == 0)) [
    | inl unused ↦ rw (unused, has_name) (λ n. n.0 (ground (arith, unused)))
    | inr used ↦
        Decided-by (kstrcmp (cstr t r) (name_of e)) (ground (arith, used)) refl
          (kstrcmp-Compared t r (name_of e) lacks)
  ]
