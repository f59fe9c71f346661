-- ===== src/Proc/Tests.antt =====
-- Runs of the claims on kernel/src/proc.c and kernel/src/pcb.c.
use hsunix.Base.{ℕ, ◌≡◌, [], ◌∷◌, arith, if◌then◌else◌, ◌==◌, some, refl, ◌+◌}
use hsunix.Proc.{
  Kernel, Pcb, State, ready, running, suspend, exiting, proc_wakeup, suspend_on, pick,
}
use hsunix.Proc.Places.{IsPlaced}
use hsunix.Proc.Steps.{next, here, wake, run, wait, Reach-IsPlaced, dispatch, to_idle}

abbrev proc : State → ℕ → ℕ → ℕ → Pcb
proc s par obj id = record {
  state = s;
  parent = par;
  pend_obj = obj;
  kill_state = 0;
  exit_state = id + 40;
  pid = id;
}

-- Process 1 is idle, 2 init, 3 runs, 4 is ready, 5 waits for the object 77, 6 has exited.
abbrev blocks : ℕ → Pcb
blocks n =
    if n == 3
    then proc running 2 0 3
    else if n == 4
    then proc ready 3 0 4
    else if n == 5
    then proc suspend 3 77 5
    else if n == 6
    then proc exiting 3 0 6
    else proc ready 0 0 n

abbrev busy : Kernel
busy = record {
  pcb = blocks;
  regist_list = 6 ∷ 5 ∷ 4 ∷ 3 ∷ 2 ∷ 1 ∷ [];
  unregist_list = [];
  ready_list = 3 ∷ 4 ∷ 2 ∷ [];
  pend_list = 5 ∷ [];
  current = 3;
  init_pcb = 2;
  idle_pcb = 1;
  pid_token = 7;
}

busy-IsPlaced : IsPlaced busy
busy-IsPlaced = record {
  suspended = λ p. ground arith;
  apart = λ p h. ground arith;
  waiting = λ p h. ground arith;
  on_cpu = refl;
  idling = refl;
}

chosen : pick (to_idle (suspend_on 50 busy)) (4 ∷ 2 ∷ []) ≡ some 4
unfolding pick suspend_on
chosen = refl

-- The process 3 waits for the object 50, the scheduler runs the process 4, which wakes 3.
Reach-IsPlaced_example : IsPlaced (proc_wakeup 3 (dispatch 4 (to_idle (suspend_on 50 busy))))
unfolding suspend_on
Reach-IsPlaced_example = Reach-IsPlaced busy-IsPlaced (
    next
      (next (next here (wait 50 busy (omega arith) (omega arith)))
        (run 4 (to_idle (suspend_on 50 busy)) chosen))
      (wake 3 (dispatch 4 (to_idle (suspend_on 50 busy)))))
