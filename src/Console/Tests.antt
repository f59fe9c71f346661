-- ===== src/Console/Tests.antt =====
-- Two characters on a console of four places.
use hsunix.Base.{ℕ, Option, ◌∷◌, arith, List, [], ◌≡◌, some, refl, none}
use hsunix.Ring.Bounds.{IsValid}
use hsunix.Console.{console_w_string, Console, console_r_cmd, ℤ}
use hsunix.Base.Int.{ℤ, pos}
use hsunix.Console.Queue.{typed, console_r_cmd-console_isr}
use hsunix.Ring.Fifo.{contents}

abbrev idle_console : Console
idle_console = record {
  rb = record { buf = 0 ∷ 0 ∷ 0 ∷ 0 ∷ []; base_size = 4; idle_size = 4; r_index = 3; w_index = 3 };
  sent = [];
  calls = [];
}

idle_console-IsValid : IsValid idle_console.rb
idle_console-IsValid = ground arith

console_r_cmd-console_isr_example :
    (s' : Console) × (console_r_cmd (λ i s. s) 2 (typed (104 ∷ 105 ∷ []) idle_console)
      ≡ (pos 0, 104 ∷ 105 ∷ [], s'))
    × (contents s'.rb ≡ [])
console_r_cmd-console_isr_example =
    console_r_cmd-console_isr (104 ∷ 105 ∷ []) (λ i s. s) idle_console idle_console-IsValid refl
      (omega arith, (omega arith, tt)) (omega arith)

-- A text goes to the serial line up to its terminator.
abbrev sent_of : Option (ℤ × Console) → List ℕ
sent_of none = []
sent_of (some (r, s)) = s.sent

sends_text : sent_of (console_w_string (104 ∷ 105 ∷ 0 ∷ 7 ∷ []) idle_console) ≡ 104 ∷ 105 ∷ []
unfolding console_w_string
sends_text = refl
