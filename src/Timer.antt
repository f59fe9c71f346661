-- ===== src/Timer.antt =====
-- kernel/src/timer.c: the software timers, a list in which each entry holds the ticks that it waits
-- after the entry before it. `expires` is a 64-bit count that only falls or moves between entries.
pub mod Deadlines
pub mod Ticks
mod Tests
use hsunix.Base.{ℕ, ◌+◌, ◌-◌, List, [], ◌∷◌, Option, none, some, ltb, ◌==◌, if◌then◌else◌, ◌||◌}
use hsunix.Proc.{Kernel, State, sleeping, set_state, unlink, proc_wakeup}

-- `struct Timer` at the address `at`; `pcb` is the process that it wakes.
pub record Timer : Type 0 where
  pub at : ℕ
  pub expires : ℕ
  pub pcb : ℕ

-- The walk of `timer_add` to the place of the new entry, whose count falls on the way, and the
-- insertion before the entry at which it stops.
pub insert : Timer → List Timer → List Timer
insert t [] = t ∷ []
insert t (p ∷ q) =
    let rest = p ∷ insert (record t { expires = t.expires - p.expires }) q in
    if ltb t.expires p.expires then t ∷ record p { expires = p.expires - t.expires } ∷ q else rest

-- `timer_add`: the new timer (null if `kalloc` fails, as `memory` says), the timers and the kernel.
-- The code stops in `ErrPrint` for a null process or no ticks.
pub timer_add : Option ℕ → ℕ → ℕ → List Timer → Kernel → Option (ℕ × List Timer × Kernel)
unfolding insert
timer_add none pcb expires q k = if pcb == 0 || expires == 0 then none else some (0, q, k)
timer_add (some at) pcb expires q k =
    if pcb == 0 || expires == 0
    then none
    else some (
      at,
      insert (record { at = at; expires = expires; pcb = pcb }) q,
      unlink pcb (set_state pcb sleeping k),
    )

-- The next entry takes over what the deleted one still waited for.
abbrev pub bump : ℕ → List Timer → List Timer
bump e [] = []
bump e (p ∷ q) = record p { expires = p.expires + e } ∷ q

-- `timer_del` of the timer at an address; a timer that is on no list leaves the list alone.
pub timer_del : ℕ → List Timer → List Timer
timer_del at [] = []
timer_del at (t ∷ q) =
    let rest = t ∷ timer_del at q in if t.at == at then bump t.expires q else rest

-- `while(pTimer->expires == 0)` of `timer_run`: the processes that are woken, in order, and the
-- timers that are left. (The update inside the loop is for a count that is not 0: it never runs.)
pub fire : List Timer → List ℕ × List Timer
fire [] = ([], [])
fire (t ∷ q) =
    let rest : List ℕ × List Timer = (t.pcb ∷ (fire q).0, (fire q).1) in
    if t.expires == 0 then rest else ([], t ∷ q)

pub wake_all : List ℕ → Kernel → Kernel
unfolding proc_wakeup
wake_all [] k = k
wake_all (p ∷ ps) k = wake_all ps (proc_wakeup p k)

-- One tick on the list alone: "if (pTimer->expires > 0) pTimer->expires -= 1;" and the loop.
pub tick : List Timer → List ℕ × List Timer
tick [] = ([], [])
tick (t ∷ q) = fire (record t { expires = t.expires - 1 } ∷ q)

-- `timer_run`
pub timer_run : List Timer → Kernel → List Timer × Kernel
unfolding tick wake_all
timer_run q k = ((tick q).1, wake_all (tick q).0 k)
