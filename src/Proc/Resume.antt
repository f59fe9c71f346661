-- ===== src/Proc/Resume.antt =====
-- `do_resume` of kernel/src/proc.c: exactly the processes that wait for the object become ready.
use hsunix.Base.{
  ℕ, ◌≡◌, arith, List, Bool, ◌∷◌, if◌then◌else◌, [], ◌==◌, false, refl, ◌||◌, true, ◌&&◌, ◌≢◌, not,
}
use hsunix.Proc.{Kernel, Pcb, ready, remove, resume_each, resume_one, do_resume}

-- The processes of a list that wait for obj, and the others, in order.
unfoldable pub waiters : (ℕ → Pcb) → ℕ → List ℕ → List ℕ
waiters m obj [] = []
waiters m obj (p ∷ ps) = if (m p).pend_obj == obj then p ∷ waiters m obj ps else waiters m obj ps

unfoldable pub others : (ℕ → Pcb) → ℕ → List ℕ → List ℕ
others m obj [] = []
others m obj (p ∷ ps) = if (m p).pend_obj == obj then others m obj ps else p ∷ others m obj ps

abbrev pub has : ℕ → List ℕ → Bool
has p [] = false
has p (q ∷ xs) = (q == p) || has p xs

abbrev pub Distinct : List ℕ → Type 0
Distinct [] = Unit
Distinct (p ∷ ps) = (has p ps ≡ false) × Distinct ps

-- Waking changes no `pend_obj`.
pend_obj-resume_one :
    (obj p q : ℕ) (k : Kernel) → ((resume_one obj p k).pcb q).pend_obj ≡ (k.pcb q).pend_obj
pend_obj-resume_one obj p q k = ground arith

waiters_cong :
    (m m' : ℕ → Pcb) (obj : ℕ) (ps : List ℕ)
    → ((q : ℕ) → (m q).pend_obj ≡ (m' q).pend_obj)
    → waiters m obj ps ≡ waiters m' obj ps
unfolding waiters
waiters_cong m m' obj [] h = refl
waiters_cong m m' obj (p ∷ ps) h = ground (arith, h p, waiters_cong m m' obj ps h)

state_after :
    (obj : ℕ) (ps : List ℕ) (k : Kernel) (q : ℕ)
    → ((resume_each obj ps k).pcb q).state
      ≡ (if has q (waiters k.pcb obj ps) then ready else (k.pcb q).state)
unfolding resume_each waiters
state_after obj [] k q = refl
state_after obj (p ∷ ps) k q = ground (
  arith,
  state_after obj ps (resume_one obj p k) q,
  waiters_cong (resume_one obj p k).pcb k.pcb obj ps (λ r. pend_obj-resume_one obj p r k),
)

pub has-remove :
    (q p : ℕ) (xs : List ℕ) → has q (remove p xs) ≡ (if p == q then false else has q xs)
has-remove q p [] = ground arith
has-remove q p (x ∷ xs) = ground (arith, has-remove q p xs)

waiters_step :
    (obj p : ℕ) (ps : List ℕ) (k : Kernel)
    → waiters (resume_one obj p k).pcb obj ps ≡ waiters k.pcb obj ps
waiters_step obj p ps k =
    waiters_cong (resume_one obj p k).pcb k.pcb obj ps (λ r. pend_obj-resume_one obj p r k)

ready_after :
    (obj : ℕ) (ps : List ℕ) (k : Kernel) (q : ℕ)
    → has q (resume_each obj ps k).ready_list ≡ (has q (waiters k.pcb obj ps) || has q k.ready_list)
unfolding resume_each waiters
ready_after obj [] k q = refl
ready_after obj (p ∷ ps) k q = ground (
  arith,
  ready_after obj ps (resume_one obj p k) q,
  waiters_step obj p ps k,
  has-remove q p k.ready_list,
)

pend_after :
    (obj : ℕ) (ps : List ℕ) (k : Kernel) (q : ℕ)
    → has q (resume_each obj ps k).pend_list
      ≡ (has q k.pend_list && not (has q (waiters k.pcb obj ps)))
unfolding resume_each waiters
pend_after obj [] k q = ground arith
pend_after obj (p ∷ ps) k q = ground (
  arith,
  pend_after obj ps (resume_one obj p k) q,
  waiters_step obj p ps k,
  has-remove q p k.pend_list,
)

others-remove :
    (m : ℕ → Pcb) (obj p : ℕ) (xs : List ℕ)
    → (m p).pend_obj ≡ obj
    → others m obj (remove p xs) ≡ others m obj xs
unfolding others
others-remove m obj p [] h = refl
others-remove m obj p (x ∷ xs) h = ground (arith, others-remove m obj p xs h)

others_cong :
    (m m' : ℕ → Pcb) (obj : ℕ) (ps : List ℕ)
    → ((q : ℕ) → (m q).pend_obj ≡ (m' q).pend_obj)
    → others m obj ps ≡ others m' obj ps
unfolding others
others_cong m m' obj [] h = refl
others_cong m m' obj (p ∷ ps) h = ground (arith, h p, others_cong m m' obj ps h)

others_after :
    (obj : ℕ) (ps : List ℕ) (k : Kernel)
    → others k.pcb obj (resume_each obj ps k).pend_list ≡ others k.pcb obj k.pend_list
unfolding resume_each
others_after obj [] k = refl
others_after obj (p ∷ ps) k = ground (
  arith,
  others_after obj ps (resume_one obj p k),
  others_cong (resume_one obj p k).pcb k.pcb obj (resume_each obj ps (resume_one obj p k)).pend_list
      (λ r. pend_obj-resume_one obj p r k),
  others_cong (resume_one obj p k).pcb k.pcb obj (resume_one obj p k).pend_list
      (λ r. pend_obj-resume_one obj p r k),
  others-remove k.pcb obj p k.pend_list,
)

others_all :
    (m : ℕ → Pcb) (obj : ℕ) (xs : List ℕ)
    → ((q : ℕ) → has q xs ≡ true → (m q).pend_obj ≢ obj)
    → others m obj xs ≡ xs
unfolding others
others_all m obj [] h = refl
others_all m obj (x ∷ xs) h = ground (arith, h x, others_all m obj xs (λ q e. h q (ground arith)))

has-waiters :
    (m : ℕ → Pcb) (obj q : ℕ) (xs : List ℕ)
    → has q (waiters m obj xs) ≡ (has q xs && ((m q).pend_obj == obj))
unfolding waiters
has-waiters m obj q [] = refl
has-waiters m obj q (x ∷ xs) = ground (arith, has-waiters m obj q xs)

-- `do_resume` on an object takes off the pending list exactly the processes that wait for it, the
-- others staying in order; each of those becomes ready and stands on the ready list, which loses
-- nobody; and no other process changes its state.
pub do_resume_lem :
    (obj q : ℕ) (k : Kernel)
    → obj ≢ 0
    → let k' = do_resume obj k in
      let woken = has q k.pend_list && ((k.pcb q).pend_obj == obj) in
      (k'.pend_list ≡ others k.pcb obj k.pend_list)
      × ((k'.pcb q).state ≡ (if woken then ready else (k.pcb q).state))
      × (has q k'.ready_list ≡ (woken || has q k.ready_list))
unfolding do_resume
do_resume_lem obj q k h =
    let k' = resume_each obj k.pend_list k in
    let none_left : (r : ℕ) → has r k'.pend_list ≡ true → (k.pcb r).pend_obj ≢ obj =
      λ r e. ground (arith, pend_after obj k.pend_list k r, has-waiters k.pcb obj r k.pend_list) in
    ground (
      arith,
      others_after obj k.pend_list k,
      others_all k.pcb obj k'.pend_list none_left,
      state_after obj k.pend_list k q,
      ready_after obj k.pend_list k q,
      has-waiters k.pcb obj q k.pend_list,
    )
