-- ===== src/Proc.antt =====
-- kernel/src/proc.c and the process list of kernel/src/pcb.c: process states, the lists that hold
-- the processes, waking, suspending, resuming, scheduling, exiting, waiting and killing.
-- A `struct ProcCB *` is a number, 0 the null pointer. Page tables, stacks and files belong to
-- other components; what the rest of the system does while a process is switched out is the
-- argument `switch`.
pub mod Life
pub mod Places
pub mod Steps
pub mod Resume
pub mod Family
pub mod Schedule
mod Tests
use hsunix.Base.{
  ℕ, zero, suc, ◌+◌, List, [], ◌∷◌, ◌++◌, Option, none, some, Bool, true, false, ◌==◌, ◌&&◌, ◌||◌,
  not, if◌then◌else◌,
}
use hsunix.Base.Int.{ℤ, pos, negsuc}

-- `enum Procstate`
pub data State : Type 0 where
  idle used suspend sleeping ready running exiting : State

abbrev pub is_state : State → State → Bool
is_state idle idle = true
is_state used used = true
is_state suspend suspend = true
is_state sleeping sleeping = true
is_state ready ready = true
is_state running running = true
is_state exiting exiting = true
is_state _ _ = false

-- The fields of `struct ProcCB` that process management reads.
pub record Pcb : Type 0 where
  pub state : State
  pub parent : ℕ
  pub pend_obj : ℕ
  pub kill_state : ℕ
  pub exit_state : ℕ
  pub pid : ℕ

-- The global lists, front first; `pcb` is the memory of the control blocks and `current` the
-- `proc` of the one CPU.
pub record Kernel : Type 0 where
  pub pcb : ℕ → Pcb
  pub regist_list : List ℕ
  pub unregist_list : List ℕ
  pub ready_list : List ℕ
  pub pend_list : List ℕ
  pub current : ℕ
  pub init_pcb : ℕ
  pub idle_pcb : ℕ
  pub pid_token : ℕ

abbrev pub remove : ℕ → List ℕ → List ℕ
remove p [] = []
remove p (q ∷ xs) = if q == p then remove p xs else q ∷ remove p xs

abbrev pub alter : ℕ → (Pcb → Pcb) → (ℕ → Pcb) → ℕ → Pcb
alter p f m q = if p == q then f (m q) else m q

abbrev pub set_state : ℕ → State → Kernel → Kernel
set_state p s k = record k { pcb = alter p (λ b. record b { state = s }) k.pcb }

-- `list_del_init(&pcb->list)`: the entry is on one of the two lists at most.
abbrev pub unlink : ℕ → Kernel → Kernel
unlink p k = record k { ready_list = remove p k.ready_list; pend_list = remove p k.pend_list }

-- `list_del_init(&pcb->list); list_add(&kReadyList, &pcb->list);`
abbrev pub to_ready : ℕ → Kernel → Kernel
to_ready p k = record k { ready_list = p ∷ remove p k.ready_list; pend_list = remove p k.pend_list }

-- `proc_applypid`
pub proc_applypid : Kernel → ℕ × Kernel
proc_applypid k = (k.pid_token, record k { pid_token = k.pid_token + 1 })

-- `proc_wakeup`
unfoldable pub proc_wakeup : ℕ → Kernel → Kernel
proc_wakeup p k =
    if p == 0 || is_state (k.pcb p).state ready
    then k
    else if p == k.current
    then set_state p ready k
    else to_ready p (set_state p ready k)

-- One round of the loop of `do_resume`.
abbrev pub resume_one : ℕ → ℕ → Kernel → Kernel
resume_one obj p k = if (k.pcb p).pend_obj == obj then to_ready p (set_state p ready k) else k

-- The rounds for the processes that were on the list at the start, `list_for_each_safe`.
pub resume_each : ℕ → List ℕ → Kernel → Kernel
resume_each obj [] k = k
resume_each obj (p ∷ ps) k = resume_each obj ps (resume_one obj p k)

-- `do_resume`
pub do_resume : ℕ → Kernel → Kernel
unfolding resume_each
do_resume obj k = if obj == 0 then k else resume_each obj k.pend_list k

abbrev pub to_init : ℕ → Kernel → Kernel
to_init child k = record k { pcb = alter child (λ b. record b { parent = k.init_pcb }) k.pcb }

abbrev pub adopt_one : ℕ → ℕ → Kernel → Kernel
adopt_one p child k =
    if (k.pcb child).parent == p
    then if is_state (k.pcb child).state exiting
      then do_resume k.init_pcb (to_init child k)
      else to_init child k
    else k

pub adopt_each : ℕ → List ℕ → Kernel → Kernel
adopt_each p [] k = k
adopt_each p (child ∷ cs) k = adopt_each p cs (adopt_one p child k)

-- `proc_freechild`
pub proc_freechild : ℕ → Kernel → Kernel
unfolding adopt_each
proc_freechild p k = adopt_each p k.regist_list k

-- The choice of `do_scheduler`: the first ready process other than the one on the CPU.
pub pick : Kernel → List ℕ → Option ℕ
pick k [] = none
pick k (p ∷ ps) =
    if is_state (k.pcb p).state ready && not (p == k.current) then some p else pick k ps

-- `list_del_init(ptr); list_add_before(&kReadyList, ptr);` for the first entry.
abbrev pub rotate : List ℕ → List ℕ
rotate [] = []
rotate (p ∷ ps) = remove p ps ++ (p ∷ [])

-- `do_scheduler`; `switch` runs the chosen process until the scheduler has the CPU again.
pub do_scheduler : (Kernel → Kernel) → Kernel → Kernel
unfolding pick
do_scheduler switch k = elim k.ready_list [
  | [] ↦ k
  | p ∷ ps ↦ elim (pick k k.ready_list) [
    | none ↦ record k { ready_list = rotate k.ready_list }
    | some q ↦
        let k₁ : Kernel = switch (record (set_state q running k) { current = q }) in
        record k₁ { current = k₁.idle_pcb; ready_list = rotate k₁.ready_list }
  ]
]

-- `do_yield` up to the switch.
pub do_yield : (Kernel → Kernel) → Kernel → Kernel
do_yield switch k = switch (set_state k.current ready k)

-- `do_suspend` up to `do_switch`.
pub suspend_on : ℕ → Kernel → Kernel
suspend_on obj k = record k {
  pcb = alter k.current (λ b. record b { pend_obj = obj; state = suspend }) k.pcb;
  ready_list = remove k.current k.ready_list;
  pend_list = k.current ∷ remove k.current k.pend_list;
}

-- `do_suspend`; the process that was current runs on after the switch.
pub do_suspend : (Kernel → Kernel) → ℕ → Kernel → Kernel
unfolding suspend_on
do_suspend switch obj k =
    if obj == 0
    then k
    else let k₁ : Kernel = switch (suspend_on obj k) in
      record k₁ { pcb = alter k.current (λ b. record b { pend_obj = 0 }) k₁.pcb }

abbrev pub mark_exit : ℕ → ℕ → Kernel → Kernel
mark_exit code p k = record k {
  pcb = alter p (λ b. record b { exit_state = code; state = exiting }) k.pcb;
}

-- `do_exit` of a process other than `init` and `idle`.
pub leave : ℕ → Kernel → Kernel
leave code k =
    let k₁ : Kernel = mark_exit code k.current (proc_freechild k.current k) in
    do_resume (k₁.pcb k.current).parent k₁

-- `do_exit` up to `do_switch`; `init` and `idle` do not come back (`ErrPrint`).
pub do_exit : ℕ → Kernel → Option Kernel
do_exit code k =
    if k.current == k.init_pcb || k.current == k.idle_pcb then none else some (leave code k)
