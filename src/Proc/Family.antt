-- ===== src/Proc/Family.antt =====
-- Parents and children in kernel/src/proc.c: handing orphans to init, waiting for a child, and
-- finding and killing a process by its number.
use hsunix.Base.{
  ℕ, suc, ◌≡◌, ◌≢◌, true, false, arith, some, List, if◌then◌else◌, ◌&&◌, ◌∷◌, ◌==◌, [], Bool-cases,
  refl, inl, inr, ==_iff,
}
use hsunix.Base.Int.{pos}
use hsunix.Proc.{
  Kernel, Pcb, exiting, is_state, proc_freechild, adopt_each, proc_wakeup, resume_each, do_resume,
  resume_one, adopt_one, to_init,
}
use hsunix.Proc.Life.{do_wait, scan, found, pcb_free, pcb_lookup, lookup_from, do_kill, condemn}
use hsunix.Proc.Resume.{has, has-remove}

parent-resume_each :
    (obj : ℕ) (ps : List ℕ) (k : Kernel) (c : ℕ)
    → (((resume_each obj ps k).pcb c).parent ≡ (k.pcb c).parent)
      × ((resume_each obj ps k).init_pcb ≡ k.init_pcb)
unfolding resume_each
parent-resume_each obj [] k c = (refl, refl)
parent-resume_each obj (p ∷ ps) k c =
    ground (arith, parent-resume_each obj ps (resume_one obj p k) c)

parent-do_resume :
    (obj : ℕ) (k : Kernel) (c : ℕ)
    → (((do_resume obj k).pcb c).parent ≡ (k.pcb c).parent)
      × ((do_resume obj k).init_pcb ≡ k.init_pcb)
unfolding do_resume
parent-do_resume obj k c = ground (arith, parent-resume_each obj k.pend_list k c)

parent-adopt_each :
    (p : ℕ) (cs : List ℕ) (k : Kernel) (c : ℕ)
    → (((adopt_each p cs k).pcb c).parent
        ≡ (if has c cs && ((k.pcb c).parent == p) then k.init_pcb else (k.pcb c).parent))
      × ((adopt_each p cs k).init_pcb ≡ k.init_pcb)
unfolding adopt_each
parent-adopt_each p [] k c = (refl, refl)
parent-adopt_each p (d ∷ cs) k c =
    ground (
      arith,
      parent-adopt_each p cs (adopt_one p d k) c,
      parent-do_resume k.init_pcb (to_init d k) c,
    )

-- `proc_freechild` gives every registered child of the process, and no other process, to init.
pub proc_freechild_lem :
    (p : ℕ) (k : Kernel) (c : ℕ)
    → ((proc_freechild p k).pcb c).parent
      ≡ (if has c k.regist_list && ((k.pcb c).parent == p) then k.init_pcb else (k.pcb c).parent)
unfolding proc_freechild
proc_freechild_lem p k c = (parent-adopt_each p k.regist_list k c).0

-- An exited child of cur, on the list of registered processes.
abbrev pub IsZombie : Kernel → ℕ → ℕ → Type 0
IsZombie k cur p =
    (has p k.regist_list ≡ true)
    × ((k.pcb p).parent ≡ cur)
    × (is_state (k.pcb p).state exiting ≡ true)

scan-found :
    (cur : ℕ) (m : ℕ → Pcb) (ps : List ℕ) (c : ℕ)
    → (m cur).kill_state ≡ 0
    → has c ps ≡ true
    → (m c).parent ≡ cur
    → is_state (m c).state exiting ≡ true
    → (p : ℕ) × (scan cur m ps ≡ found p)
      × (has p ps ≡ true)
      × ((m p).parent ≡ cur)
      × (is_state (m p).state exiting ≡ true)
unfolding scan
scan-found cur m [] c a h i j = absurd (cc)
scan-found cur m (q ∷ ps) c a h i j =
    elim (Bool-cases ((m q).parent == cur && is_state (m q).state exiting)) [
      | inl hit ↦ (q, rw hit, ground arith, ground arith, ground arith)
      | inr miss ↦
          let (p, e, b, d, f) = scan-found cur m ps c a (ground arith) i j in
          (p, rw (miss, (==_iff (m cur).kill_state 0).1 a) e, ground arith, d, f)
    ]

-- Where the waiting process has an exited child and has not been killed, `do_wait` returns at its
-- first pass: it gives the number and the exit code of such a child and takes that child off every
-- list.
pub do_wait-reaps :
    (switch : Kernel → Kernel) (cur fuel : ℕ) (k : Kernel) (c : ℕ)
    → (k.pcb cur).kill_state ≡ 0
    → IsZombie k cur c
    → (p : ℕ) × IsZombie k cur p
      × (do_wait switch cur (suc fuel) k
          ≡ some (pos (k.pcb p).pid, some (k.pcb p).exit_state, pcb_free p k))
      × (has p (pcb_free p k).regist_list ≡ false)
      × (has p (pcb_free p k).ready_list ≡ false)
unfolding do_wait
do_wait-reaps switch cur fuel k c a (h, i, j) =
    let (p, e, b, d, f) = scan-found cur k.pcb k.regist_list c a h i j in
    (
      p,
      (b, d, f),
      rw (e, do_wait),
      ground (arith, has-remove p p k.regist_list),
      ground (arith, has-remove p p k.ready_list),
    )

-- The block that `pcb_lookup` last looks at if it finds none.
unfoldable pub oldest : ℕ → List ℕ → ℕ
oldest last [] = last
oldest last (p ∷ ps) = oldest p ps

lookup_from-absent :
    (m : ℕ → Pcb) (id last : ℕ) (ps : List ℕ)
    → ((q : ℕ) → has q ps ≡ true → (m q).pid ≢ id)
    → lookup_from m id last ps ≡ oldest last ps
unfolding lookup_from oldest
lookup_from-absent m id last [] h = refl
lookup_from-absent m id last (p ∷ ps) h =
    ground (arith, h p, lookup_from-absent m id p ps (λ q e. h q (ground arith)))

lookup_from-present :
    (m : ℕ → Pcb) (id last : ℕ) (ps : List ℕ) (q : ℕ)
    → has q ps ≡ true
    → (m q).pid ≡ id
    → (has (lookup_from m id last ps) ps ≡ true) × ((m (lookup_from m id last ps)).pid ≡ id)
unfolding lookup_from
lookup_from-present m id last [] q h e = absurd (cc)
lookup_from-present m id last (p ∷ ps) q h e = ground (arith, lookup_from-present m id p ps q)

-- If some registered process has the number, `pcb_lookup` returns a registered process with it.
pub pcb_lookup-present :
    (id : ℕ) (k : Kernel) (q : ℕ)
    → has q k.regist_list ≡ true
    → (k.pcb q).pid ≡ id
    → (has (pcb_lookup (pos id) k) k.regist_list ≡ true)
      × ((k.pcb (pcb_lookup (pos id) k)).pid ≡ id)
unfolding pcb_lookup
pcb_lookup-present id k q h e = lookup_from-present k.pcb id 0 k.regist_list q h e

-- If no registered process has the number, `pcb_lookup` returns no null pointer but the process at
-- the end of the list, the one registered first; so `do_kill` reports success and condemns that
-- process, unless it is exiting.
pub do_kill-unknown :
    (id : ℕ) (k : Kernel)
    → ((q : ℕ) → has q k.regist_list ≡ true → (k.pcb q).pid ≢ id)
    → oldest 0 k.regist_list ≢ 0
    → is_state (k.pcb (oldest 0 k.regist_list)).state exiting ≡ false
    → do_kill (pos id) k
      ≡ (pos 0, proc_wakeup (oldest 0 k.regist_list) (condemn (oldest 0 k.regist_list) k))
unfolding do_kill
do_kill-unknown id k h n s = ground (arith, lookup_from-absent k.pcb id 0 k.regist_list h)
