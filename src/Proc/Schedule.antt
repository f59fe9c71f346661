-- ===== src/Proc/Schedule.antt =====
-- Which process `do_scheduler` of kernel/src/proc.c runs.
use hsunix.Base.{
  ℕ, ◌≡◌, Bool, true, false, arith, ◌&&◌, List, not, ◌∷◌, none, ◌++◌, ◌==◌, some, [], refl,
}
use hsunix.Proc.{Kernel, ready, running, is_state, set_state, pick, do_scheduler, rotate}

-- A process that may be chosen.
abbrev pub can_run : Kernel → ℕ → Bool
can_run k p = is_state (k.pcb p).state ready && not (p == k.current)

abbrev pub NoneCan : Kernel → List ℕ → Type 0
NoneCan k [] = Unit
NoneCan k (p ∷ ps) = (can_run k p ≡ false) × NoneCan k ps

pick-first :
    (k : Kernel) (pre post : List ℕ) (q : ℕ)
    → NoneCan k pre
    → can_run k q ≡ true
    → pick k (pre ++ (q ∷ post)) ≡ some q
unfolding pick
pick-first k [] post q h c = rw c
pick-first k (p ∷ pre) post q h c = rw h.0 (pick-first k pre post q h.1 c)

pick-none : (k : Kernel) (ps : List ℕ) → NoneCan k ps → pick k ps ≡ none
unfolding pick
pick-none k [] h = refl
pick-none k (p ∷ ps) h = rw h.0 (pick-none k ps h.1)

-- `do_scheduler` runs the first process of the ready list that is ready and not on the CPU: it is
-- running and on the CPU when the switch is made. When the switch comes back the idle process has
-- the CPU and the first entry of the ready list goes to its end.
pub do_scheduler-first :
    (switch : Kernel → Kernel) (k : Kernel) (pre post : List ℕ) (q : ℕ)
    → k.ready_list ≡ pre ++ (q ∷ post)
    → NoneCan k pre
    → can_run k q ≡ true
    → do_scheduler switch k ≡ (
        let k₁ : Kernel = switch (record (set_state q running k) { current = q }) in
        record k₁ { current = k₁.idle_pcb; ready_list = rotate k₁.ready_list })
unfolding do_scheduler
do_scheduler-first switch k pre post q e h c = ground (arith, e, pick-first k pre post q h c)

-- With no process to run `do_scheduler` makes no switch and only turns the ready list.
pub do_scheduler-none :
    (switch : Kernel → Kernel) (k : Kernel)
    → NoneCan k k.ready_list
    → do_scheduler switch k ≡ record k { ready_list = rotate k.ready_list }
unfolding do_scheduler
do_scheduler-none switch k h = ground (arith, pick-none k k.ready_list h)
