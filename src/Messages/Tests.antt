-- ===== src/Messages/Tests.antt =====
-- Runs of the claims on kernel/src/msg.c.
use hsunix.Base.{ℕ, ◌≡◌, [], ◌∷◌, some, refl, arith}
use hsunix.Base.Int.{pos, negsuc}
use hsunix.Proc.{Kernel, ready}
use hsunix.Messages.{Msg, Queue, Ipc, queue_of, k_msgrcv, Received, dec}
use hsunix.Messages.Receive.{k_msgrcv-first, IsReceived}

abbrev letter : ℕ → Msg
letter t = record { kind = pos t; text = t ∷ t ∷ [] }

abbrev box : Queue
box = record {
  at = 900;
  key = pos 5;
  id = 3;
  flag = 0;
  num = pos 2;
  msgs = letter 3 ∷ letter 2 ∷ [];
}

abbrev quiet : Kernel
quiet = record {
  pcb = λ p. record {
    state = ready;
    parent = 0;
    pend_obj = 0;
    kill_state = 0;
    exit_state = 0;
    pid = p;
  };
  regist_list = [];
  unregist_list = [];
  ready_list = [];
  pend_list = [];
  current = 1;
  init_pcb = 2;
  idle_pcb = 3;
  pid_token = 4;
}

abbrev ipc : Ipc
ipc = record { queues = box ∷ []; token = 4; kernel = quiet }

box_there : queue_of 3 (box ∷ []) ≡ some box
unfolding queue_of
box_there = refl

-- Of types up to 2.
k_msgrcv-first_example :
    (r : Received) × (i' : Ipc) × (k_msgrcv (λ i. i) 3 1 (negsuc 1) ipc ≡ some (some r, i'))
    × IsReceived 1 (letter 2) r
    × (queue_of 3 i'.queues ≡ some (record box { num = dec (pos 2); msgs = letter 3 ∷ [] }))
    × (i'.kernel ≡ quiet)
k_msgrcv-first_example =
    k_msgrcv-first (λ i. i) 3 1 (negsuc 1) ipc box (letter 3 ∷ []) [] (letter 2) box_there refl refl
      ((λ h. omega (arith, h)), tt) (omega arith)
