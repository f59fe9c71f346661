-- ===== src/Cstr/Search.antt =====
-- `kstrchr` and `kstrrchr` of kernel/lib/string.c.
use hsunix.Base.{
  ◌⊎◌, inl, ◌-◌, append_assoc, length-append, ℕ, zero, suc, ◌+◌, ◌≤◌, ◌<◌, ◌≡◌, ◌≢◌, List, [], ◌∷◌,
  ◌++◌, some, none, arith, length, get_or, ◌⊎◌,
}
use hsunix.Cstr.{kstrrchr, kstrchr, kstrchr_from, back_to}
use hsunix.Cstr.Terminated.{Lacks, cstr, kstrlen-cstr}

kstrchr_from-found :
    (a rest : List ℕ) (c i : ℕ)
    → Lacks 0 a
    → Lacks c a
    → kstrchr_from (a ++ (c ∷ rest)) c i ≡ some (some (i + length a))
unfolding kstrchr_from
kstrchr_from-found [] rest c i h k = ground arith
kstrchr_from-found (x ∷ a) rest c i h k = ground (arith, kstrchr_from-found a rest c (i + 1))

kstrchr_from-absent :
    (s rest : List ℕ) (c i : ℕ)
    → c ≢ 0
    → Lacks 0 s
    → Lacks c s
    → kstrchr_from (cstr s rest) c i ≡ some none
unfolding kstrchr_from
kstrchr_from-absent [] rest c i n h k = ground arith
kstrchr_from-absent (x ∷ s) rest c i n h k = ground (arith, kstrchr_from-absent s rest c (i + 1))

-- `kstrchr` returns the first place of the character in the text.
pub kstrchr-first :
    (a rest : List ℕ) (c : ℕ)
    → Lacks 0 a
    → Lacks c a
    → kstrchr (a ++ (c ∷ rest)) c ≡ some (some (length a))
unfolding kstrchr
kstrchr-first a rest c h k = ground (arith, kstrchr_from-found a rest c 0)

-- For a character that the text lacks `kstrchr` returns a null pointer.
pub kstrchr-absent :
    (s rest : List ℕ) (c : ℕ) → c ≢ 0 → Lacks 0 s → Lacks c s → kstrchr (cstr s rest) c ≡ some none
unfolding kstrchr
kstrchr-absent s rest c n h k = kstrchr_from-absent s rest c 0 n h k

get_or-append : (a t : List ℕ) (i : ℕ) → get_or (a ++ t) (length a + i) 0 ≡ get_or t i 0
get_or-append [] t i = ground arith
get_or-append (x ∷ a) t i = ground (arith, get_or-append a t i)

get_or-Lacks :
    (s r : List ℕ) (c i : ℕ) → c ≢ 0 → Lacks c s → i ≤ length s → get_or (cstr s r) i 0 ≢ c
get_or-Lacks [] r c zero n h k = ground arith
get_or-Lacks [] r c (suc i) n h k = absurd (omega arith)
get_or-Lacks (x ∷ s) r c zero n h k = h.0
get_or-Lacks (x ∷ s) r c (suc i) n h k = get_or-Lacks s r c i n h.1 (omega arith)

-- The backward loop stops at the last place at or below k.
back_to-last :
    (str : List ℕ) (ch j k : ℕ)
    → j ≤ k
    → (j ≡ 0) ⊎ (get_or str j 0 ≡ ch)
    → ((i : ℕ) → j < i → i ≤ k → get_or str i 0 ≢ ch)
    → back_to str ch k ≡ j
unfolding back_to
back_to-last str ch j zero h e f = omega arith
back_to-last str ch j (suc k) h e f = ground (
  arith,
  back_to-last str ch j k,
  f (suc k),
  λ (i : ℕ) (p : j < i) (q : i ≤ k). f i p (omega arith),
)

get_or_past :
    (a b r : List ℕ) (c i : ℕ)
    → c ≢ 0
    → Lacks c b
    → length a < i
    → i ≤ length a + suc (length b)
    → get_or (cstr (a ++ (c ∷ b)) r) i 0 ≢ c
get_or_past a b r c i n h k l =
    let j : ℕ = i - length a - 1 in
    let place : i ≡ length a + suc j = omega arith in
    rw (place, append_assoc a (c ∷ b) (0 ∷ r), get_or-append a (c ∷ cstr b r) (suc j))
      (get_or-Lacks b r c j n h (omega arith))

-- `kstrrchr` returns the last place of a character in the text.
pub kstrrchr-last :
    (a b r : List ℕ) (c : ℕ)
    → c ≢ 0
    → Lacks 0 (a ++ (c ∷ b))
    → Lacks c b
    → kstrrchr (cstr (a ++ (c ∷ b)) r) c ≡ some (some (length a))
unfolding kstrrchr
kstrrchr-last a b r c n h k =
    let str : List ℕ = cstr (a ++ (c ∷ b)) r in
    let at : get_or str (length a + 0) 0 ≡ c =
      rw (append_assoc a (c ∷ b) (0 ∷ r), get_or-append a (c ∷ cstr b r) 0) in
    ground (
      arith,
      at,
      kstrlen-cstr (a ++ (c ∷ b)) r h,
      length-append a (c ∷ b),
      back_to-last str c (length a) (length a + suc (length b)) (omega arith) (ground arith)
          (λ i p q. get_or_past a b r c i n k p q),
    )

-- For a character that the text lacks `kstrrchr` returns a null pointer.
pub kstrrchr-absent :
    (s r : List ℕ) (c : ℕ) → c ≢ 0 → Lacks 0 s → Lacks c s → kstrrchr (cstr s r) c ≡ some none
unfolding kstrrchr
kstrrchr-absent s r c n h k = ground (
  arith,
  kstrlen-cstr s r h,
  get_or-Lacks s r c 0 n k,
  back_to-last (cstr s r) c 0 (length s) (omega arith) (inl (omega arith))
      (λ i p q. get_or-Lacks s r c i n k q),
)
