-- ===== src/PathName/Escape.antt =====
-- Going up from the root in `path_formater` (kernel/fs/virtual_fs/fs_path.c).
use hsunix.Base.{ℕ, suc, ◌≡◌, List, ◌≢◌, ◌∷◌, [], some, none, length, arith, refl}
use hsunix.PathName.{slash, dot, path_formater, round, rounds, push_all, done, above_root, again}
use hsunix.PathName.Scan.{IsName, Begins, lead-dots, lead-name, copy_name-name}
use hsunix.Cstr.Terminated.{cstr}
use hsunix.PathName.Walk.{trim-name, out_of, push_all-ne_nil, reverse-push_all}
use hsunix.PathName.Format.{round-root, Begins-name, or_root_filled, byte_before_filled}

round-up : (t : List ℕ) → Begins t → round (dot ∷ dot ∷ slash ∷ t) (slash ∷ []) ≡ some (again t [])
unfolding round
round-up t b = ground (arith, lead-dots 0 t b)

round-above : (t : List ℕ) → Begins t → round (dot ∷ dot ∷ slash ∷ t) [] ≡ some above_root
unfolding round
round-above t b = ground (arith, lead-dots 0 t b)

round-last :
    (n r out : List ℕ)
    → IsName n
    → n ≢ dot ∷ []
    → n ≢ dot ∷ dot ∷ []
    → round (cstr n r) out ≡ some (done (push_all n out))
unfolding round
round-last n r out h d e =
    ground (arith, lead-name n r 0 h d e, copy_name-name n r 0, h.no_slash, h.no_zero)

push_all_name : (c out : List ℕ) → IsName c → push_all c out ≢ []
unfolding push_all
push_all_name [] out h = absurd (h.nonempty refl)
push_all_name (x ∷ c) out h = push_all-ne_nil c (x ∷ out) (λ e. cc)

rounds_escape :
    (n r : List ℕ) (f : ℕ)
    → IsName n
    → n ≢ dot ∷ []
    → n ≢ dot ∷ dot ∷ []
    → rounds (suc (suc (suc f))) (slash ∷ dot ∷ dot ∷ slash ∷ cstr n r) []
      ≡ some (some (push_all n []))
unfolding rounds out_of
rounds_escape n r f h d e =
    rw (round-root 0 (dot ∷ dot ∷ slash ∷ cstr n r) (ground arith), rounds)
      (rw (round-up (cstr n r) (Begins-name n (0 ∷ r) h), rounds)
        (rw (round-last n r [] h d e, rounds)))

-- ".." right behind the root removes the root's own slash: what is left is the name alone, which
-- is no absolute path.
pub path_formater-loses_root :
    (n r : List ℕ) (before : ℕ)
    → IsName n
    → n ≢ dot ∷ []
    → n ≢ dot ∷ dot ∷ []
    → path_formater (slash ∷ dot ∷ dot ∷ slash ∷ cstr n r) before ≡ some (some (n, before))
unfolding path_formater
path_formater-loses_root n r before h d e = rw (
  rounds_escape n r (suc (length (cstr n r))) h d e,
  trim-name n [] h,
  reverse-push_all n [],
  or_root_filled n h.nonempty,
  byte_before_filled (push_all n []) before (push_all_name n [] h),
)

-- Going up once more gives the null pointer.
pub path_formater-above :
    (n r : List ℕ) (before : ℕ)
    → IsName n
    → path_formater (slash ∷ dot ∷ dot ∷ slash ∷ dot ∷ dot ∷ slash ∷ cstr n r) before ≡ some none
unfolding path_formater rounds out_of
path_formater-above n r before h =
    rw (round-root 0 (dot ∷ dot ∷ slash ∷ dot ∷ dot ∷ slash ∷ cstr n r) (ground arith), rounds)
      (rw (round-up (dot ∷ dot ∷ slash ∷ cstr n r) (ground arith), rounds)
        (rw (round-above (cstr n r) (Begins-name n (0 ∷ r) h), rounds)))
