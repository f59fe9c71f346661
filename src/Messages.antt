-- ===== src/Messages.antt =====
-- kernel/src/msg.c: the message queues. A queue stands at an address, on which its receivers wait; a
-- message holds the bytes that were copied from the sender, and its size is their number. `kalloc`
-- is taken to find room for messages; for a queue it may give null, which is not tested.
pub mod Receive
pub mod Find
mod Tests
use hsunix.Base.{
  ℕ, zero, suc, ◌+◌, ◌-◌, ◌/◌, ◌%◌, ◌^◌, List, [], ◌∷◌, ◌++◌, Option, none, some, Bool, true, false,
  ltb, leb, ◌==◌, if◌then◌else◌, take, length,
}
use hsunix.Base.Int.{ℤ, pos, negsuc}
use hsunix.Proc.{Kernel, Pcb, alter, do_resume, suspend_on}

-- `msg_data` with its `msg_info`
pub record Msg : Type 0 where
  pub kind : ℤ
  pub text : List ℕ

-- `msg_queue` at the address `at`
pub record Queue : Type 0 where
  pub at : ℕ
  pub key : ℤ
  pub id : ℕ
  pub flag : ℕ
  pub num : ℤ
  pub msgs : List Msg

-- `MsgList`, front first, `msg_idtoken`, and the processes.
pub record Ipc : Type 0 where
  pub queues : List Queue
  pub token : ℕ
  pub kernel : Kernel

abbrev pub eq_ℤ : ℤ → ℤ → Bool
eq_ℤ (pos a) (pos b) = a == b
eq_ℤ (negsuc a) (negsuc b) = a == b
eq_ℤ _ _ = false

-- `x += 1` and `x -= 1`
abbrev pub inc : ℤ → ℤ
inc (pos n) = pos (n + 1)
inc (negsuc n) = if n == 0 then pos 0 else negsuc (n - 1)

abbrev pub dec : ℤ → ℤ
dec (pos n) = if n == 0 then negsuc 0 else pos (n - 1)
dec (negsuc n) = negsuc (n + 1)

-- `msgflg & IPC_CREAT` and `msgflg & IPC_EXCL`: one bit.
abbrev pub has_flag : ℕ → ℕ → Bool
has_flag flg bit = flg / bit % 2 == 1

abbrev pub ipc_creat : ℕ
ipc_creat = 0x1000

abbrev pub ipc_excl : ℕ
ipc_excl = 0x2000

-- The loop of `k_msgget`: whether a queue has the key, and the queue that it looked at last.
pub look : ℤ → Option Queue → List Queue → Bool × Option Queue
look key last [] = (false, last)
look key last (q ∷ qs) = if eq_ℤ q.key key then (true, some q) else look key (some q) qs

-- `queue->id`
abbrev pub id_of : Option Queue → Ipc → Option (ℤ × Ipc)
id_of none i = none
id_of (some q) i = some (pos q.id, i)

abbrev pub create : ℤ → ℕ → Option ℕ → Ipc → Option (ℤ × Ipc)
create key flg none i = none
create key flg (some at) i = some (
  pos i.token,
  record i {
    queues =
        record { at = at; key = key; id = i.token; flag = flg; num = pos 0; msgs = [] } ∷ i.queues;
    token = (i.token + 1) % 2 ^ 32;
  },
)

-- `k_msgget`, for what `kalloc` gives.
pub k_msgget : ℤ → ℕ → Option ℕ → Ipc → Option (ℤ × Ipc)
unfolding look
k_msgget key flg room i =
    if (look key none i.queues).0
    then if has_flag flg ipc_excl then some (negsuc 0, i) else id_of (look key none i.queues).1 i
    else if has_flag flg ipc_creat
    then create key flg room i
    else id_of (look key none i.queues).1 i

-- The first queue with an identifier, and its change.
pub queue_of : ℕ → List Queue → Option Queue
queue_of id [] = none
queue_of id (q ∷ qs) = let rest = queue_of id qs in if q.id == id then some q else rest

pub change_queue : ℕ → (Queue → Queue) → List Queue → List Queue
change_queue id f [] = []
change_queue id f (q ∷ qs) =
    let rest = q ∷ change_queue id f qs in if q.id == id then f q ∷ qs else rest

-- The message goes to the end of the queue.
abbrev pub append : Msg → Queue → Queue
append m q = record q { msgs = q.msgs ++ (m ∷ []); num = inc q.num }

-- `k_msgsnd`
pub k_msgsnd : ℕ → Msg → Ipc → ℤ × Ipc
unfolding queue_of change_queue
k_msgsnd msqid m i = elim (queue_of msqid i.queues) [
  | none ↦ (negsuc 0, i)
  | some q ↦ (
    pos (length m.text),
    record i { queues = change_queue msqid (append m) i.queues; kernel = do_resume q.at i.kernel },
  )
]

-- Whether `k_msgrcv` takes a message: a positive `msgtyp` asks for that type, a negative one for the
-- types up to its absolute value, and 0 for any.
abbrev pub at_most : ℤ → ℕ → Bool
at_most (pos t) n = leb t n
at_most (negsuc t) n = true

pub wanted : ℤ → Msg → Bool
wanted (pos zero) m = true
wanted (pos (suc n)) m = eq_ℤ m.kind (pos (suc n))
wanted (negsuc n) m = at_most m.kind (n + 1)

-- The first wanted message, and the messages without it.
abbrev pub keep : Msg → Option (Msg × List Msg) → Option (Msg × List Msg)
keep m none = none
keep m (some (r, ms)) = some (r, m ∷ ms)

pub pick_msg : ℤ → List Msg → Option (Msg × List Msg)
unfolding wanted
pick_msg typ [] = none
pick_msg typ (m ∷ ms) =
    let rest = keep m (pick_msg typ ms) in if wanted typ m then some (m, ms) else rest

-- What a receiver gets: the length that is returned, the type and the bytes.
pub record Received : Type 0 where
  pub len : ℕ
  pub kind : ℤ
  pub text : List ℕ

abbrev pub receive : ℕ → Msg → Received
receive msgsz m =
    let len = if ltb (length m.text) msgsz then length m.text else msgsz in
    record { len = len; kind = m.kind; text = take len m.text }

-- `queue->num -= 1` and the loop over the messages, which ends with `return -1` if none is wanted.
pub take_msg : ℕ → ℕ → ℤ → Ipc → Option (Option Received × Ipc)
unfolding queue_of change_queue pick_msg
take_msg msqid msgsz typ i = elim (queue_of msqid i.queues) [
  | none ↦ none
  | some q ↦ elim (pick_msg typ q.msgs) [
    | none ↦ some (
      none,
      record i { queues = change_queue msqid (λ q. record q { num = dec q.num }) i.queues },
    )
    | some (m, ms) ↦ some (
      some (receive msgsz m),
      record i {
        queues = change_queue msqid (λ q. record q { num = dec q.num; msgs = ms }) i.queues;
      },
    )
  ]
]

-- `do_suspend` on the queue; `switch` runs the rest of the system until the process goes on.
abbrev pub wait_on : (Ipc → Ipc) → ℕ → Ipc → Ipc
wait_on switch at i =
    let i₁ : Ipc = switch (record i { kernel = suspend_on at i.kernel }) in
    record i₁ {
      kernel = record (i₁.kernel) {
        pcb = alter i.kernel.current (λ b. record b { pend_obj = 0 }) i₁.kernel.pcb;
      };
    }

abbrev pub is_positive : ℤ → Bool
is_positive (pos n) = ltb 0 n
is_positive (negsuc n) = false

-- `k_msgrcv`: what is received, `none` for -1.
pub k_msgrcv : (Ipc → Ipc) → ℕ → ℕ → ℤ → Ipc → Option (Option Received × Ipc)
unfolding take_msg
k_msgrcv switch msqid msgsz typ i = elim (queue_of msqid i.queues) [
  | none ↦ some (none, i)
  | some q ↦
      if is_positive q.num
      then take_msg msqid msgsz typ i
      else take_msg msqid msgsz typ (wait_on switch q.at i)
]
