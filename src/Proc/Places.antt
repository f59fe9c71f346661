-- ===== src/Proc/Places.antt =====
-- Where the processes of kernel/src/proc.c stand: an invariant of the lists and the states, kept by
-- waking, resuming, exiting and killing.
use hsunix.Base.{
  ℕ, ◌≡◌, ◌≢◌, true, false, arith, Bool-cases, ◌==◌, ◌||◌, inl, inr, refl, some, List, ◌∷◌, [],
}
use hsunix.Proc.{
  Kernel, State, suspend, ready, is_state, set_state, to_ready, proc_wakeup, do_exit, do_resume,
  to_init, adopt_each, resume_each, resume_one, adopt_one, exiting, mark_exit, leave, ℤ,
  proc_freechild,
}
use hsunix.Proc.Life.{do_kill, pcb_lookup, condemn}
use hsunix.Proc.Resume.{has, has-remove}
use hsunix.Base.Int.{ℤ}

-- A process is on the pending list exactly if it is suspended, and then on no other list and with
-- an object to wait for; the process on the CPU and the idle process are not suspended.
pub record IsPlaced (k : Kernel) : Type 0 where
  pub suspended : (p : ℕ) → has p k.pend_list ≡ is_state (k.pcb p).state suspend
  pub apart : (p : ℕ) → has p k.pend_list ≡ true → has p k.ready_list ≡ false
  pub waiting : (p : ℕ) → has p k.pend_list ≡ true → (k.pcb p).pend_obj ≢ 0
  pub on_cpu : has k.current k.pend_list ≡ false
  pub idling : has k.idle_pcb k.pend_list ≡ false

pub set_ready-IsPlaced :
    (p : ℕ) (k : Kernel) → IsPlaced k → IsPlaced (to_ready p (set_state p ready k))
set_ready-IsPlaced p k v = record {
  suspended = λ q. ground (arith, v.suspended q, has-remove q p k.pend_list);
  apart = λ q. ground (arith, v.apart q, has-remove q p k.pend_list, has-remove q p k.ready_list);
  waiting = λ q. ground (arith, v.waiting q, has-remove q p k.pend_list);
  on_cpu = ground (arith, v.on_cpu, has-remove k.current p k.pend_list);
  idling = ground (arith, v.idling, has-remove k.idle_pcb p k.pend_list);
}

-- A new state for a process that was not suspended and still is not.
pub set_state-IsPlaced :
    (p : ℕ) (s : State) (k : Kernel)
    → is_state s suspend ≡ false
    → has p k.pend_list ≡ false
    → IsPlaced k
    → IsPlaced (set_state p s k)
set_state-IsPlaced p s k n h v = record {
  suspended = λ q. ground (arith, v.suspended q, n, h);
  apart = v.apart;
  waiting = λ q. ground (arith, v.waiting q);
  on_cpu = v.on_cpu;
  idling = v.idling;
}

pub proc_wakeup-IsPlaced : (p : ℕ) (k : Kernel) → IsPlaced k → IsPlaced (proc_wakeup p k)
unfolding proc_wakeup
proc_wakeup-IsPlaced p k v = elim (Bool-cases (p == 0 || is_state (k.pcb p).state ready)) [
  | inl same ↦ rw same v
  | inr other ↦ rw other (elim (Bool-cases (p == k.current)) [
    | inl self ↦ rw self (set_state-IsPlaced p ready k refl (ground (arith, v.on_cpu)) v)
    | inr else' ↦ rw else' (set_ready-IsPlaced p k v)
  ])
]

pub resume_one-IsPlaced : (obj p : ℕ) (k : Kernel) → IsPlaced k → IsPlaced (resume_one obj p k)
resume_one-IsPlaced obj p k v = elim (Bool-cases ((k.pcb p).pend_obj == obj)) [
  | inl hit ↦ rw hit (set_ready-IsPlaced p k v)
  | inr miss ↦ rw miss v
]

pub resume_each-IsPlaced :
    (obj : ℕ) (ps : List ℕ) (k : Kernel) → IsPlaced k → IsPlaced (resume_each obj ps k)
unfolding resume_each
resume_each-IsPlaced obj [] k v = v
resume_each-IsPlaced obj (p ∷ ps) k v =
    resume_each-IsPlaced obj ps (resume_one obj p k) (resume_one-IsPlaced obj p k v)

pub do_resume-IsPlaced : (obj : ℕ) (k : Kernel) → IsPlaced k → IsPlaced (do_resume obj k)
unfolding do_resume
do_resume-IsPlaced obj k v = elim (Bool-cases (obj == 0)) [
  | inl null ↦ rw null v
  | inr real ↦ rw real (resume_each-IsPlaced obj k.pend_list k v)
]

pub to_init-IsPlaced : (c : ℕ) (k : Kernel) → IsPlaced k → IsPlaced (to_init c k)
to_init-IsPlaced c k v = record {
  suspended = λ q. ground (arith, v.suspended q);
  apart = v.apart;
  waiting = λ q. ground (arith, v.waiting q);
  on_cpu = v.on_cpu;
  idling = v.idling;
}

pub adopt_one-IsPlaced : (p c : ℕ) (k : Kernel) → IsPlaced k → IsPlaced (adopt_one p c k)
adopt_one-IsPlaced p c k v = elim (Bool-cases ((k.pcb c).parent == p)) [
  | inl hit ↦ elim (Bool-cases (is_state (k.pcb c).state exiting)) [
    | inl zombie ↦
        rw (hit, zombie) (do_resume-IsPlaced k.init_pcb (to_init c k) (to_init-IsPlaced c k v))
    | inr live ↦ rw (hit, live) (to_init-IsPlaced c k v)
  ]
  | inr miss ↦ rw miss v
]

pub adopt_each-IsPlaced :
    (p : ℕ) (cs : List ℕ) (k : Kernel) → IsPlaced k → IsPlaced (adopt_each p cs k)
unfolding adopt_each
adopt_each-IsPlaced p [] k v = v
adopt_each-IsPlaced p (c ∷ cs) k v =
    adopt_each-IsPlaced p cs (adopt_one p c k) (adopt_one-IsPlaced p c k v)

-- Resuming and adopting leave the process on the CPU and the idle process where they are.
pub resume_each-cpu :
    (obj : ℕ) (ps : List ℕ) (k : Kernel)
    → ((resume_each obj ps k).current ≡ k.current) × ((resume_each obj ps k).idle_pcb ≡ k.idle_pcb)
unfolding resume_each
resume_each-cpu obj [] k = (refl, refl)
resume_each-cpu obj (p ∷ ps) k = ground (arith, resume_each-cpu obj ps (resume_one obj p k))

pub do_resume-cpu :
    (obj : ℕ) (k : Kernel)
    → ((do_resume obj k).current ≡ k.current) × ((do_resume obj k).idle_pcb ≡ k.idle_pcb)
unfolding do_resume
do_resume-cpu obj k = ground (arith, resume_each-cpu obj k.pend_list k)

pub adopt_each-cpu :
    (p : ℕ) (cs : List ℕ) (k : Kernel)
    → ((adopt_each p cs k).current ≡ k.current) × ((adopt_each p cs k).idle_pcb ≡ k.idle_pcb)
unfolding adopt_each
adopt_each-cpu p [] k = (refl, refl)
adopt_each-cpu p (c ∷ cs) k =
    ground (arith, adopt_each-cpu p cs (adopt_one p c k), do_resume-cpu k.init_pcb (to_init c k))

pub mark_exit-IsPlaced :
    (code p : ℕ) (k : Kernel)
    → has p k.pend_list ≡ false
    → IsPlaced k
    → IsPlaced (mark_exit code p k)
mark_exit-IsPlaced code p k h v = record {
  suspended = λ q. ground (arith, v.suspended q, h);
  apart = v.apart;
  waiting = λ q. ground (arith, v.waiting q);
  on_cpu = v.on_cpu;
  idling = v.idling;
}

pub freechild-IsPlaced : (p : ℕ) (k : Kernel) → IsPlaced k → IsPlaced (proc_freechild p k)
unfolding proc_freechild
freechild-IsPlaced p k v = adopt_each-IsPlaced p k.regist_list k v

pub freechild-cpu : (p : ℕ) (k : Kernel) → (proc_freechild p k).current ≡ k.current
unfolding proc_freechild
freechild-cpu p k = (adopt_each-cpu p k.regist_list k).0

pub leave-IsPlaced : (code : ℕ) (k : Kernel) → IsPlaced k → IsPlaced (leave code k)
unfolding leave
leave-IsPlaced code k v =
    let k₁ = proc_freechild k.current k in
    let v₁ : IsPlaced k₁ = freechild-IsPlaced k.current k v in
    let free : has k.current k₁.pend_list ≡ false =
      ground (arith, v₁.on_cpu, freechild-cpu k.current k) in
    do_resume-IsPlaced _ _ (mark_exit-IsPlaced code k.current k₁ free v₁)

pub do_exit-IsPlaced :
    (code : ℕ) (k k' : Kernel) → do_exit code k ≡ some k' → IsPlaced k → IsPlaced k'
unfolding do_exit
do_exit-IsPlaced code k k' e v =
    let same : k' ≡ leave code k = ground arith in rw same (leave-IsPlaced code k v)

pub condemn-IsPlaced : (p : ℕ) (k : Kernel) → IsPlaced k → IsPlaced (condemn p k)
condemn-IsPlaced p k v = record {
  suspended = λ q. ground (arith, v.suspended q);
  apart = v.apart;
  waiting = λ q. ground (arith, v.waiting q);
  on_cpu = v.on_cpu;
  idling = v.idling;
}

pub do_kill-IsPlaced : (id : ℤ) (k : Kernel) → IsPlaced k → IsPlaced (do_kill id k).1
unfolding do_kill
do_kill-IsPlaced id k v =
    elim (Bool-cases (pcb_lookup id k == 0 || is_state (k.pcb (pcb_lookup id k)).state exiting)) [
      | inl miss ↦ rw miss v
      | inr hit ↦ rw hit (proc_wakeup-IsPlaced _ _ (condemn-IsPlaced (pcb_lookup id k) k v))
    ]
