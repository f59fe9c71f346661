-- ===== src/Timer/Ticks.antt =====
-- What the ticks of `timer_run` (kernel/src/timer.c) do to the deadlines.
use hsunix.Base.{
  ℕ, zero, suc, ◌+◌, ◌≡◌, arith, List, ◌<◌, ◌∷◌, [], if◌then◌else◌, ◌-◌, refl, ◌++◌, leb, ap,
}
use hsunix.Timer.{Timer, fire, tick}
use hsunix.Timer.Deadlines.{Deadline, deadline, due}

-- The processes whose deadlines are at most n, and the later deadlines counted from n on.
unfoldable pub woken_by : ℕ → List Deadline → List ℕ
woken_by n [] = []
woken_by n (d ∷ ds) = if leb d.when n then d.pcb ∷ woken_by n ds else woken_by n ds

unfoldable pub later : ℕ → List Deadline → List Deadline
later n [] = []
later n (d ∷ ds) = if leb d.when n then later n ds else record d { when = d.when - n } ∷ later n ds

-- The first timer still has ticks to wait: so it is between ticks.
abbrev pub IsWaiting : List Timer → Type 0
IsWaiting [] = Unit
IsWaiting (t ∷ q) = 0 < t.expires

all_late :
    (n base : ℕ) (q : List Timer)
    → n < base
    → (woken_by n (due base q) ≡ []) × (later n (due base q) ≡ due (base - n) q)
unfolding woken_by later
all_late n base [] h = (refl, refl)
all_late n base (t ∷ q) h = ground (arith, all_late n (base + t.expires) q)

fire-due :
    (q : List Timer)
    → ((fire q).0 ≡ woken_by 1 (due 1 q))
      × (due 0 (fire q).1 ≡ later 1 (due 1 q))
      × IsWaiting (fire q).1
unfolding fire woken_by later
fire-due [] = (refl, refl, tt)
fire-due (t ∷ q) = ground (arith, fire-due q, all_late 1 (1 + t.expires) q)

due-step :
    (t : Timer) (q : List Timer)
    → 0 < t.expires
    → due 1 (record t { expires = t.expires - 1 } ∷ q) ≡ due 0 (t ∷ q)
due-step t q h =
    let e : 1 + (t.expires - 1) ≡ 0 + t.expires = omega arith in ap (λ w. deadline w t ∷ due w q) e

tick-due :
    (q : List Timer)
    → IsWaiting q
    → ((tick q).0 ≡ woken_by 1 (due 0 q))
      × (due 0 (tick q).1 ≡ later 1 (due 0 q))
      × IsWaiting (tick q).1
unfolding tick
tick-due [] h = unfold woken_by later in (refl, refl, tt)
tick-due (t ∷ q) h = rw (← due-step t q h) (fire-due (record t { expires = t.expires - 1 } ∷ q))

-- n ticks one after the other: all that are woken, in order, and the timers that are left.
pub ticks : ℕ → List Timer → List ℕ × List Timer
ticks zero q = ([], q)
ticks (suc n) q = ((tick q).0 ++ (ticks n (tick q).1).0, (ticks n (tick q).1).1)

shift :
    (n a b : ℕ) (q : List Timer)
    → a ≡ b + 1
    → (woken_by (suc n) (due a q) ≡ woken_by n (due b q))
      × (later (suc n) (due a q) ≡ later n (due b q))
unfolding woken_by later
shift n a b [] h = (refl, refl)
shift n a b (t ∷ q) h = ground (arith, shift n (a + t.expires) (b + t.expires) q)

-- One tick and n more are n + 1 ticks, for the deadlines.
split_first :
    (n base : ℕ) (q : List Timer)
    → (woken_by (suc n) (due base q) ≡ woken_by 1 (due base q) ++ woken_by n (later 1 (due base q)))
      × (later (suc n) (due base q) ≡ later n (later 1 (due base q)))
unfolding woken_by later
split_first n base [] = (refl, refl)
split_first n base (t ∷ q) = ground (
  arith,
  split_first n (base + t.expires) q,
  all_late 1 (base + t.expires) q,
  shift n (base + t.expires) (base + t.expires - 1) q,
)

woken_by_zero :
    (q : List Timer) → IsWaiting q → (woken_by 0 (due 0 q) ≡ []) × (later 0 (due 0 q) ≡ due 0 q)
unfolding woken_by later
woken_by_zero [] h = (refl, refl)
woken_by_zero (t ∷ q) h = ground (arith, all_late 0 (0 + t.expires) q)

-- On timers the first of which has ticks to wait, n ticks wake exactly the processes whose deadline
-- is at most n, in the order of the deadlines; every other timer is due n ticks sooner, and again
-- the first has ticks to wait.
pub ticks-due :
    (n : ℕ) (q : List Timer)
    → IsWaiting q
    → ((ticks n q).0 ≡ woken_by n (due 0 q))
      × (due 0 (ticks n q).1 ≡ later n (due 0 q))
      × IsWaiting (ticks n q).1
unfolding ticks
ticks-due zero q h = ground (arith, woken_by_zero q h)
ticks-due (suc n) q h = ground (arith, ticks-due n (tick q).1, tick-due q h, split_first n 0 q)
