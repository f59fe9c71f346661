-- ===== src/Timer/Deadlines.antt =====
-- The deadlines that the relative counts of kernel/src/timer.c stand for, and what adding and
-- deleting a timer do to them.
use hsunix.Base.{ℕ, ◌+◌, ◌≡◌, arith, List, ◌∷◌, [], ◌-◌, if◌then◌else◌, ltb, ◌==◌, refl}
use hsunix.Timer.{Timer, insert, timer_del, bump}

-- When a timer fires, counted from now, the timer, and the process that it wakes.
pub record Deadline : Type 0 where
  pub when : ℕ
  pub at : ℕ
  pub pcb : ℕ

abbrev pub deadline : ℕ → Timer → Deadline
deadline w t = record { when = w; at = t.at; pcb = t.pcb }

-- The deadlines of timers behind one that is due at `base`.
abbrev pub due : ℕ → List Timer → List Deadline
due base [] = []
due base (t ∷ q) = deadline (base + t.expires) t ∷ due (base + t.expires) q

-- A list of deadlines with one more, behind all that are not later.
unfoldable pub schedule : Deadline → List Deadline → List Deadline
schedule d [] = d ∷ []
schedule d (c ∷ ds) = if ltb d.when c.when then d ∷ c ∷ ds else c ∷ schedule d ds

due-insert :
    (base : ℕ) (t : Timer) (q : List Timer)
    → due base (insert t q) ≡ schedule (deadline (base + t.expires) t) (due base q)
unfolding insert schedule
due-insert base t [] = refl
due-insert base t (p ∷ q) =
    ground (arith, due-insert (base + p.expires) (record t { expires = t.expires - p.expires }) q)

-- Without the first entry of a timer.
unfoldable pub cancel : ℕ → List Deadline → List Deadline
cancel at [] = []
cancel at (d ∷ ds) = if d.at == at then ds else d ∷ cancel at ds

due-bump : (base e : ℕ) (q : List Timer) → due base (bump e q) ≡ due (base + e) q
due-bump base e [] = refl
due-bump base e (p ∷ q) = ground arith

due-timer_del : (base at : ℕ) (q : List Timer) → due base (timer_del at q) ≡ cancel at (due base q)
unfolding timer_del cancel
due-timer_del base at [] = refl
due-timer_del base at (t ∷ q) =
    ground (arith, due-bump base t.expires q, due-timer_del (base + t.expires) at q)

-- A new timer is due after its own count of ticks, behind the timers due no later, and every other
-- timer stays due when it was.
pub insert-schedule :
    (t : Timer) (q : List Timer) → due 0 (insert t q) ≡ schedule (deadline t.expires t) (due 0 q)
insert-schedule t q = ground (arith, due-insert 0 t q)

-- Deleting a timer takes away its deadline and leaves every other timer due when it was.
pub timer_del-cancel : (at : ℕ) (q : List Timer) → due 0 (timer_del at q) ≡ cancel at (due 0 q)
timer_del-cancel at q = due-timer_del 0 at q
