-- ===== src/Messages/Receive.antt =====
-- What `k_msgsnd` and `k_msgrcv` of kernel/src/msg.c do to a queue.
use hsunix.Base.{
  ℕ, ◌≡◌, ◌≤◌, arith, List, [], ◌∷◌, ◌++◌, none, some, true, false, refl, length, take, Bool-cases,
  ◌==◌, inl, inr, ap, ◌∙◌, append-nil, ◌⊎◌, ◌↔◌, zero, suc, ◌+◌,
}
use hsunix.Base.Int.{ℤ, pos, negsuc}
use hsunix.Messages.{
  Msg, Queue, Ipc, queue_of, change_queue, k_msgsnd, k_msgrcv, take_msg, Received, eq_ℤ, at_most,
  pick_msg, wanted, receive, is_positive, dec, append, do_resume,
}
use hsunix.Proc.{do_resume}

queue_of-change_queue :
    (id : ℕ) (f : Queue → Queue) (qs : List Queue) (q : Queue)
    → ((x : Queue) → (f x).id ≡ x.id)
    → queue_of id qs ≡ some q
    → queue_of id (change_queue id f qs) ≡ some (f q)
unfolding queue_of change_queue
queue_of-change_queue id f [] q k e = absurd (cc)
queue_of-change_queue id f (p ∷ qs) q k e = elim (Bool-cases (p.id == id)) [
  | inl hit ↦ ground (arith, hit, k p, e)
  | inr miss ↦ ground (arith, miss, e, queue_of-change_queue id f qs q k)
]

abbrev pub NoneWanted : ℤ → List Msg → Type 0
NoneWanted typ [] = Unit
NoneWanted typ (m ∷ ms) = (wanted typ m ≡ false) × NoneWanted typ ms

pick_msg-first :
    (typ : ℤ) (pre post : List Msg) (m : Msg)
    → NoneWanted typ pre
    → wanted typ m ≡ true
    → pick_msg typ (pre ++ (m ∷ post)) ≡ some (m, pre ++ post)
unfolding pick_msg
pick_msg-first typ [] post m h w = rw w refl
pick_msg-first typ (d ∷ pre) post m h w = rw (h.0, pick_msg-first typ pre post m h.1 w) refl

pick_msg-none : (typ : ℤ) (ms : List Msg) → NoneWanted typ ms → pick_msg typ ms ≡ none
unfolding pick_msg
pick_msg-none typ [] h = refl
pick_msg-none typ (m ∷ ms) h = rw (h.0, pick_msg-none typ ms h.1) refl

k_msgrcv-picks :
    (switch : Ipc → Ipc) (msqid msgsz : ℕ) (typ : ℤ) (i : Ipc) (q : Queue) (pre post : List Msg)
    (m : Msg)
    → queue_of msqid i.queues ≡ some q
    → is_positive q.num ≡ true
    → q.msgs ≡ pre ++ (m ∷ post)
    → NoneWanted typ pre
    → wanted typ m ≡ true
    → (i' : Ipc) × (k_msgrcv switch msqid msgsz typ i ≡ some (some (receive msgsz m), i'))
      × (queue_of msqid i'.queues ≡ some (record q { num = dec q.num; msgs = pre ++ post }))
      × (i'.kernel ≡ i.kernel)
unfolding k_msgrcv take_msg
k_msgrcv-picks switch msqid msgsz typ i q pre post m e n s h w =
    let f : Queue → Queue = λ q. record q { num = dec q.num; msgs = pre ++ post } in
    let picked : pick_msg typ q.msgs ≡ some (m, pre ++ post) =
      rw s (pick_msg-first typ pre post m h w) in
    let taken : k_msgrcv switch msqid msgsz typ i
        ≡ some (some (receive msgsz m), record i { queues = change_queue msqid f i.queues }) =
      ground (arith, e, n, picked) in
    (
      record i { queues = change_queue msqid f i.queues },
      taken,
      queue_of-change_queue msqid f i.queues q (λ x. refl) e,
      refl,
    )

-- What a type asks for: 0 for every message, a positive one for the messages of that type, and a negative
-- one for those whose type is at most its absolute value.
abbrev pub Asks : ℤ → ℤ → Type 0
Asks (pos zero) kind = Unit
Asks (pos (suc n)) kind = kind ≡ pos (suc n)
Asks (negsuc n) (pos t) = t ≤ suc n
Asks (negsuc n) (negsuc t) = Unit

abbrev pub NoneAsked : ℤ → List Msg → Type 0
NoneAsked typ [] = Unit
NoneAsked typ (m ∷ ms) = (Asks typ m.kind → ⊥) × NoneAsked typ ms

same_ℤ : (a b : ℤ) → a ≡ b → eq_ℤ a b ≡ true
same_ℤ (pos a) (pos b) e = ground (arith, e)
same_ℤ (pos a) (negsuc b) e = absurd (cc)
same_ℤ (negsuc a) (pos b) e = absurd (cc)
same_ℤ (negsuc a) (negsuc b) e = ground (arith, e)

eq_ℤ-true : (a b : ℤ) → eq_ℤ a b ≡ true → a ≡ b
eq_ℤ-true (pos a) (pos b) e = ground (arith, e)
eq_ℤ-true (pos a) (negsuc b) e = absurd (cc)
eq_ℤ-true (negsuc a) (pos b) e = absurd (cc)
eq_ℤ-true (negsuc a) (negsuc b) e = ground (arith, e)

at_most-Asks : (n : ℕ) (kind : ℤ) → (at_most kind (n + 1) ≡ true) ↔ Asks (negsuc n) kind
at_most-Asks n (pos t) = (ground arith, ground arith)
at_most-Asks n (negsuc t) = ((λ e. tt), (λ e. refl))

wanted-Asks : (typ : ℤ) (m : Msg) → (wanted typ m ≡ true) ↔ Asks typ m.kind
unfolding wanted
wanted-Asks (pos zero) m = ((λ e. tt), (λ e. refl))
wanted-Asks (pos (suc n)) m =
    ((λ e. eq_ℤ-true m.kind (pos (suc n)) e), (λ e. same_ℤ m.kind (pos (suc n)) e))
wanted-Asks (negsuc n) m = at_most-Asks n m.kind

NoneAsked-NoneWanted : (typ : ℤ) (ms : List Msg) → NoneAsked typ ms → NoneWanted typ ms
NoneAsked-NoneWanted typ [] h = tt
NoneAsked-NoneWanted typ (m ∷ ms) h = (
  elim (Bool-cases (wanted typ m)) [
    | inl taken ↦ absurd (h.0 ((wanted-Asks typ m).0 taken))
    | inr other ↦ other
  ],
  NoneAsked-NoneWanted typ ms h.1,
)

-- What a receiver with room for msgsz bytes gets of a message: its type, and its first bytes, as many as
-- both the message and the room have.
abbrev pub IsReceived : ℕ → Msg → Received → Type 0
IsReceived msgsz m r =
    (r.kind ≡ m.kind)
    × (r.len ≤ msgsz)
    × (r.len ≤ length m.text)
    × ((r.len ≡ msgsz) ⊎ (r.len ≡ length m.text))
    × (r.text ≡ take r.len m.text)

receive-IsReceived : (msgsz : ℕ) (m : Msg) → IsReceived msgsz m (receive msgsz m)
receive-IsReceived msgsz m = (refl, ground arith, ground arith, ground arith, refl)

-- On a queue with a positive count, `k_msgrcv` takes the first message that the type asks for, gives the
-- receiver its type and its first bytes, as many as both the message and the receiver have, and leaves
-- the other messages in order with the count lowered; it waits for nobody and wakes nobody.
pub k_msgrcv-first :
    (switch : Ipc → Ipc) (msqid msgsz : ℕ) (typ : ℤ) (i : Ipc) (q : Queue) (pre post : List Msg)
    (m : Msg)
    → queue_of msqid i.queues ≡ some q
    → is_positive q.num ≡ true
    → q.msgs ≡ pre ++ (m ∷ post)
    → NoneAsked typ pre
    → Asks typ m.kind
    → (r : Received) × (i' : Ipc) × (k_msgrcv switch msqid msgsz typ i ≡ some (some r, i'))
      × IsReceived msgsz m r
      × (queue_of msqid i'.queues ≡ some (record q { num = dec q.num; msgs = pre ++ post }))
      × (i'.kernel ≡ i.kernel)
k_msgrcv-first switch msqid msgsz typ i q pre post m e n s h w =
    let (i', run, left, kernel) =
      k_msgrcv-picks switch msqid msgsz typ i q pre post m e n s (NoneAsked-NoneWanted typ pre h)
        ((wanted-Asks typ m).1 w) in
    (receive msgsz m, i', run, receive-IsReceived msgsz m, left, kernel)

take-length : (xs : List ℕ) → take (length xs) xs ≡ xs
take-length [] = refl
take-length (x ∷ xs) = ap (λ ys. x ∷ ys) (take-length xs)

receive-whole :
    (msgsz : ℕ) (m : Msg)
    → length m.text ≤ msgsz
    → receive msgsz m ≡ record { len = length m.text; kind = m.kind; text = m.text }
receive-whole msgsz m l = ground (arith, take-length m.text)

-- A message that is sent to a queue without a wanted message comes out as it went in, and the queue
-- is then as it was, if its count was not negative and the receiver has room for all the bytes.
k_msgrcv-k_msgsnd :
    (switch : Ipc → Ipc) (msqid msgsz n : ℕ) (typ : ℤ) (i : Ipc) (q : Queue) (m : Msg)
    → queue_of msqid i.queues ≡ some q
    → q.num ≡ pos n
    → NoneWanted typ q.msgs
    → wanted typ m ≡ true
    → length m.text ≤ msgsz
    → (i' : Ipc) × ((k_msgsnd msqid m i).0 ≡ pos (length m.text))
      × (k_msgrcv switch msqid msgsz typ (k_msgsnd msqid m i).1
          ≡ some (some (record { len = length m.text; kind = m.kind; text = m.text }), i'))
      × (queue_of msqid i'.queues ≡ some q)
unfolding k_msgsnd
k_msgrcv-k_msgsnd switch msqid msgsz n typ i q m e c h w l =
    let i₁ : Ipc = record i {
      queues = change_queue msqid (append m) i.queues;
      kernel = do_resume q.at i.kernel;
    } in
    let sent : k_msgsnd msqid m i ≡ (pos (length m.text), i₁) = ground (arith, e) in
    let (i', r, s, k) =
      k_msgrcv-picks switch msqid msgsz typ i₁ (append m q) q.msgs [] m
        (queue_of-change_queue msqid (append m) i.queues q (λ x. refl) e) (ground (arith, c)) refl h
        w in
    (
      i',
      ap (λ s. s.0) sent,
      ap (λ s. k_msgrcv switch msqid msgsz typ s.1) sent
          ∙ r
          ∙ ap (λ r. some (some r, i')) (receive-whole msgsz m l),
      s ∙ ground (arith, c, append-nil q.msgs),
    )

-- If no message of a queue with a positive count is wanted, `k_msgrcv` fails at once, but it has
-- lowered the count: the queue counts fewer messages than it did and holds the same.
k_msgrcv-miscounts :
    (switch : Ipc → Ipc) (msqid msgsz : ℕ) (typ : ℤ) (i : Ipc) (q : Queue)
    → queue_of msqid i.queues ≡ some q
    → is_positive q.num ≡ true
    → NoneWanted typ q.msgs
    → (i' : Ipc) × (k_msgrcv switch msqid msgsz typ i ≡ some (none, i'))
      × (queue_of msqid i'.queues ≡ some (record q { num = dec q.num }))
unfolding k_msgrcv take_msg
k_msgrcv-miscounts switch msqid msgsz typ i q e n h =
    let f : Queue → Queue = λ q. record q { num = dec q.num } in
    (
      record i { queues = change_queue msqid f i.queues },
      ground (arith, e, n, pick_msg-none typ q.msgs h),
      queue_of-change_queue msqid f i.queues q (λ x. refl) e,
    )
