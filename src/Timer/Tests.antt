-- ===== src/Timer/Tests.antt =====
-- Runs of the claims on kernel/src/timer.c.
use hsunix.Base.{ℕ, ◌≡◌, List, [], ◌∷◌, arith}
use hsunix.Timer.{Timer}
use hsunix.Timer.Deadlines.{due}
use hsunix.Timer.Ticks.{ticks, woken_by, later, IsWaiting, ticks-due}

abbrev timer : ℕ → ℕ → ℕ → Timer
timer a e p = record { at = a; expires = e; pcb = p }

-- Timers due after 3, 3 and 8 ticks.
abbrev three : List Timer
three = timer 100 3 1 ∷ timer 200 0 2 ∷ timer 300 5 3 ∷ []

ticks-due_example :
    ((ticks 4 three).0 ≡ woken_by 4 (due 0 three))
    × (due 0 (ticks 4 three).1 ≡ later 4 (due 0 three))
    × IsWaiting (ticks 4 three).1
ticks-due_example = ticks-due 4 three (omega arith)
