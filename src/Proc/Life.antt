-- ===== src/Proc/Life.antt =====
-- kernel/src/pcb.c and the rest of kernel/src/proc.c: control blocks come and go, processes are
-- found by their number, killed, waited for and reaped.
use hsunix.Base.{ℕ, zero, suc, List, [], ◌∷◌, Option, none, some, ◌==◌, ◌&&◌, ◌||◌, if◌then◌else◌}
use hsunix.Base.Int.{ℤ, pos, negsuc}
use hsunix.Proc.{
  Kernel, Pcb, used, exiting, is_state, remove, alter, proc_applypid, proc_wakeup, proc_freechild,
  do_suspend,
}

-- `pcb_free`: the block leaves every list. (`regist` is on one of two lists.)
pub pcb_free : ℕ → Kernel → Kernel
pcb_free p k = record k {
  regist_list = remove p k.regist_list;
  unregist_list = remove p k.unregist_list;
  ready_list = remove p k.ready_list;
  pend_list = remove p k.pend_list;
}

-- `pcb_alloc`, for the address that `kalloc` gives: the block is zeroed, then registered.
pub pcb_alloc : Option ℕ → Kernel → ℕ × Kernel
unfolding proc_applypid
pcb_alloc none k = (0, k)
pcb_alloc (some p) k =
    let (id, k₁) = proc_applypid k in
    (
      p,
      record k₁ {
        pcb =
            alter p
              (λ _. record {
                state = used;
                parent = 0;
                pend_obj = 0;
                kill_state = 0;
                exit_state = 0;
                pid = id;
              })
              k₁.pcb;
        regist_list = p ∷ k₁.regist_list;
      },
    )

-- The loop of `pcb_lookup`, with the last block that it looked at.
unfoldable pub lookup_from : (ℕ → Pcb) → ℕ → ℕ → List ℕ → ℕ
lookup_from m id last [] = last
lookup_from m id last (p ∷ ps) = if (m p).pid == id then p else lookup_from m id p ps

-- `pcb_lookup`: the guard holds for the negative numbers, which are compared as unsigned ones.
unfoldable pub pcb_lookup : ℤ → Kernel → ℕ
unfolding lookup_from
pcb_lookup (negsuc n) k = 0
pcb_lookup (pos id) k = lookup_from k.pcb id 0 k.regist_list

-- The process is marked and moves to the list of the dead.
abbrev pub condemn : ℕ → Kernel → Kernel
condemn p k = record k {
  pcb = alter p (λ b. record b { kill_state = 1 }) k.pcb;
  regist_list = remove p k.regist_list;
  unregist_list = p ∷ remove p k.unregist_list;
}

-- `do_kill`
unfoldable pub do_kill : ℤ → Kernel → ℤ × Kernel
unfolding pcb_lookup proc_wakeup
do_kill id k =
    let p = pcb_lookup id k in
    if p == 0 || is_state (k.pcb p).state exiting
    then (negsuc 0, k)
    else (pos 0, proc_wakeup p (condemn p k))

-- What one pass of `do_wait` over the registered processes finds.
pub data Scan : Type 0 where
  found : ℕ → Scan
  killed : Scan
  nothing : Scan

unfoldable pub scan : ℕ → (ℕ → Pcb) → List ℕ → Scan
scan cur m [] = nothing
scan cur m (p ∷ ps) =
    if (m p).parent == cur && is_state (m p).state exiting
    then found p
    else if (m cur).kill_state == 0
    then scan cur m ps
    else killed

-- `do_wait` of the process `cur`, for as many passes as there is fuel: the result, what is stored
-- through `code`, and the kernel. Between two passes the process is suspended on itself.
unfoldable pub do_wait : (Kernel → Kernel) → ℕ → ℕ → Kernel → Option (ℤ × Option ℕ × Kernel)
unfolding scan do_suspend pcb_free
do_wait switch cur zero k = none
do_wait switch cur (suc fuel) k = elim (scan cur k.pcb k.regist_list) [
  | found p ↦ some (pos (k.pcb p).pid, some (k.pcb p).exit_state, pcb_free p k)
  | killed ↦ some (negsuc 0, none, k)
  | nothing ↦ do_wait switch cur fuel (do_suspend switch cur k)
]

-- `do_defuncter` for the processes that were on the list at the start.
pub reap_each : List ℕ → Kernel → Kernel
unfolding proc_freechild pcb_free
reap_each [] k = k
reap_each (p ∷ ps) k = reap_each ps (pcb_free p (proc_freechild p k))

pub do_defuncter : Kernel → Kernel
unfolding reap_each
do_defuncter k = reap_each k.unregist_list k
