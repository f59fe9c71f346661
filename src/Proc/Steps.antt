-- ===== src/Proc/Steps.antt =====
-- Every sequence of wakings, suspensions, resumptions, yields, exits, kills and dispatches of
-- kernel/src/proc.c.
use hsunix.Base.{ℕ, ◌≡◌, ◌≢◌, true, false, arith, refl, some, List, ◌∷◌, [], ◌∙◌}
use hsunix.Proc.{
  Kernel, State, suspend, ready, is_state, set_state, proc_wakeup, do_exit, do_resume, pick,
  do_yield, running, suspend_on, ℤ,
}
use hsunix.Proc.Life.{do_kill}
use hsunix.Proc.Resume.{has, has-remove}
use hsunix.Base.Int.{ℤ}
use hsunix.Proc.Places.{
  IsPlaced, set_state-IsPlaced, proc_wakeup-IsPlaced, do_resume-IsPlaced, do_exit-IsPlaced,
  do_kill-IsPlaced,
}

-- A ready process gets the CPU.
abbrev pub dispatch : ℕ → Kernel → Kernel
dispatch q k = record (set_state q running k) { current = q }

pick-ready :
    (k : Kernel) (ps : List ℕ) (q : ℕ) → pick k ps ≡ some q → is_state (k.pcb q).state ready ≡ true
unfolding pick
pick-ready k [] q h = cc
pick-ready k (p ∷ ps) q h = ground (arith, pick-ready k ps q)

ready-ne_suspend : (s : State) → is_state s ready ≡ true → is_state s suspend ≡ false
ready-ne_suspend ready h = refl
ready-ne_suspend _ h = ground arith

dispatch-IsPlaced :
    (q : ℕ) (k : Kernel)
    → is_state (k.pcb q).state ready ≡ true
    → IsPlaced k
    → IsPlaced (dispatch q k)
dispatch-IsPlaced q k h v =
    let out : has q k.pend_list ≡ false = v.suspended q ∙ ready-ne_suspend (k.pcb q).state h in
    let w = set_state-IsPlaced q running k refl out v in
    record {
      suspended = w.suspended;
      apart = w.apart;
      waiting = w.waiting;
      on_cpu = out;
      idling = w.idling;
    }

-- The CPU goes back to the scheduler, which runs as the idle process.
abbrev pub to_idle : Kernel → Kernel
to_idle k = record k { current = k.idle_pcb }

to_idle-IsPlaced : (k : Kernel) → IsPlaced k → IsPlaced (to_idle k)
to_idle-IsPlaced k v = record {
  suspended = v.suspended;
  apart = v.apart;
  waiting = v.waiting;
  on_cpu = v.idling;
  idling = v.idling;
}

suspend-IsPlaced :
    (obj : ℕ) (k : Kernel)
    → obj ≢ 0
    → k.current ≢ k.idle_pcb
    → IsPlaced k
    → IsPlaced (to_idle (suspend_on obj k))
unfolding suspend_on
suspend-IsPlaced obj k h i v = record {
  suspended = λ q. ground (arith, v.suspended q, has-remove q k.current k.pend_list);
  apart = λ q.
      ground
        (arith, v.apart q, has-remove q k.current k.pend_list, has-remove q k.current k.ready_list);
  waiting = λ q. ground (arith, v.waiting q, has-remove q k.current k.pend_list);
  on_cpu = ground (arith, v.idling, has-remove k.idle_pcb k.current k.pend_list);
  idling = ground (arith, v.idling, has-remove k.idle_pcb k.current k.pend_list);
}

-- What can happen to the lists, in any order.
pub data Step : Kernel → Kernel → Type 0 where
  wake : (p : ℕ) (k : Kernel) → Step k (proc_wakeup p k)
  resume : (obj : ℕ) (k : Kernel) → Step k (do_resume obj k)
  wait :
      (obj : ℕ) (k : Kernel)
      → obj ≢ 0
      → k.current ≢ k.idle_pcb
      → Step k (to_idle (suspend_on obj k))
  yield : (k : Kernel) → Step k (do_yield to_idle k)
  exit : (code : ℕ) (k : Kernel) {k' : Kernel} → do_exit code k ≡ some k' → Step k (to_idle k')
  kill : (id : ℤ) (k : Kernel) → Step k (do_kill id k).1
  run : (q : ℕ) (k : Kernel) → pick k k.ready_list ≡ some q → Step k (dispatch q k)

pub data Reach (k : Kernel) : Kernel → Type 0 where
  here : Reach k k
  next : {k₁ k₂ : Kernel} → Reach k k₁ → Step k₁ k₂ → Reach k k₂

Step-IsPlaced : {k k' : Kernel} → Step k k' → IsPlaced k → IsPlaced k'
unfolding do_yield
Step-IsPlaced (wake p k) v = proc_wakeup-IsPlaced p k v
Step-IsPlaced (resume obj k) v = do_resume-IsPlaced obj k v
Step-IsPlaced (wait obj k h i) v = suspend-IsPlaced obj k h i v
Step-IsPlaced (yield k) v =
    to_idle-IsPlaced _ (set_state-IsPlaced k.current ready k refl v.on_cpu v)
Step-IsPlaced (exit code k {k'} e) v = to_idle-IsPlaced _ (do_exit-IsPlaced code k k' e v)
Step-IsPlaced (kill id k) v = do_kill-IsPlaced id k v
Step-IsPlaced (run q k h) v = dispatch-IsPlaced q k (pick-ready k k.ready_list q h) v

-- After any sequence of wakings, resumptions, suspensions (of a process other than idle, on a real
-- object), yields, exits, kills and dispatches, still exactly the suspended processes are on the
-- pending list, each with an object to wait for and on no ready list, and neither the process on
-- the CPU nor the idle process is among them.
pub Reach-IsPlaced : {k k' : Kernel} → IsPlaced k → Reach k k' → IsPlaced k'
Reach-IsPlaced v here = v
Reach-IsPlaced v (next r s) = Step-IsPlaced s (Reach-IsPlaced v r)
