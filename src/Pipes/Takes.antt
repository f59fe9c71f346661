-- ===== src/Pipes/Takes.antt =====
-- What a reader has got, for kernel/src/pipe.c: the first bytes of two runs.
use hsunix.Base.{
  ℕ, List, ◌≡◌, take, length, ◌++◌, ◌∷◌, ap₂, ◌+◌, ap, ◌∙◌, arith, append_assoc, suc, [], refl,
}

pub take-more : (xs ys : List ℕ) (k : ℕ) → take (length xs + k) (xs ++ ys) ≡ xs ++ take k ys
take-more [] ys k = let e : 0 + k ≡ k = omega arith in rw e refl
take-more (x ∷ xs) ys k =
    let e : suc (length xs) + k ≡ suc (length xs + k) = omega arith in
    rw e (ap (λ l. x ∷ l) (take-more xs ys k))

pub take-whole : (xs : List ℕ) → take (length xs) xs ≡ xs
take-whole [] = refl
take-whole (x ∷ xs) = ap (λ l. x ∷ l) (take-whole xs)

pub take-prefix : (xs ys : List ℕ) → take (length xs) (xs ++ ys) ≡ xs
take-prefix [] ys = refl
take-prefix (x ∷ xs) ys = ap (λ l. x ∷ l) (take-prefix xs ys)

pub take-front :
    (xs c d rest : List ℕ) (n : ℕ) → c ≡ xs ++ d → n ≡ length xs → take n (c ++ rest) ≡ xs
take-front xs c d rest n e l =
    ap₂ (λ k t. take k (t ++ rest)) l e
    ∙ ap (take (length xs)) (append_assoc xs d rest)
    ∙ take-prefix xs (d ++ rest)
