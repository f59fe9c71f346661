-- ===== src/Console.antt =====
-- kernel/src/console.c: the characters of the console on the ring buffer. What other code does to the
-- console while a process is switched out in `do_suspend` is an argument. A text is the bytes from its
-- pointer to the end of its object; `none` is a read past that end. Lengths are not negative.
pub mod Queue
mod Tests
use hsunix.Base.{
  ℕ, zero, suc, ◌+◌, ◌*◌, ◌/◌, ◌%◌, List, [], ◌∷◌, ◌++◌, Option, none, some, Bool, true, false,
  ◌==◌, if◌then◌else◌, replicate,
}
use hsunix.Base.Int.{ℤ, pos}
use hsunix.Ring.{Ring, init, put_char, get_char, get_state}

-- The calls of `do_resume` and `do_suspend` on the waiting list of the ring.
pub data ConsoleCall : Type 0 where
  resume_ring : ConsoleCall
  suspend_ring : ConsoleCall

-- `consState`, with what was sent to the serial line, and the calls made, the last one first.
pub record Console : Type 0 where
  pub rb : Ring
  pub sent : List ℕ
  pub calls : List ConsoleCall

-- `console_wString`
pub console_w_string : List ℕ → Console → Option (ℤ × Console)
console_w_string [] s = none
console_w_string (zero ∷ x_str) s = some (pos 0, s)
console_w_string (suc c ∷ x_str) s =
    console_w_string x_str (record s { sent = s.sent ++ (suc c ∷ []) })

-- The loop of `console_wCmd` for so many characters more, after i.
pub w_cmd_from : ℕ → ℕ → List ℕ → Console → Option (ℤ × Console)
w_cmd_from i zero x_str s = some (pos i, s)
w_cmd_from i (suc n) [] s = none
w_cmd_from i (suc n) (c ∷ x_str) s =
    w_cmd_from (i + 1) n x_str (record s { sent = s.sent ++ (c ∷ []) })

-- `console_wCmd` and `console_wChar`
pub console_w_cmd : List ℕ → ℕ → Console → Option (ℤ × Console)
console_w_cmd src len s = w_cmd_from 0 len src s

pub console_w_char : ℕ → Console → Console
console_w_char c s = record s { sent = s.sent ++ (c ∷ []) }

-- "当队列为空时，挂起当前进程等待新的数据"
pub await : (Console → Console) → Console → Console
await others s =
    if get_state s.rb == 0 then others (record s { calls = suspend_ring ∷ s.calls }) else s

-- `kRingbuf_getChar(&consState.rb, &ch)`: `ch`, which stays as it is where nothing is stored.
pub next_char : ℕ → Console → ℕ × Console
next_char ch s =
    let r = get_char s.rb in (elim (r.1) [ none ↦ ch | some b ↦ b ], record s { rb = r.2 })

-- The loop of `console_rCmd` for `len` characters more; others run as `others i` in round i. The
-- result, the bytes in `src`, and the console.
pub r_cmd_from : ℕ → (ℕ → Console → Console) → ℕ → ℕ → List ℕ → Console → ℤ × List ℕ × Console
r_cmd_from zero others i ch out s = (pos 0, out, s)
r_cmd_from (suc len) others i ch out s =
    let r = next_char ch (await (others i) s) in
    r_cmd_from len others (i + 1) r.0 (out ++ (r.0 ∷ [])) r.1

-- `console_rCmd`: what is returned is the `len` that is left.
pub console_r_cmd : (ℕ → Console → Console) → ℕ → Console → ℤ × List ℕ × Console
console_r_cmd others len s = r_cmd_from len others 0 0 [] s

-- `console_rChar`, for the bits that `ch`, an `int` whose lowest byte is set, held before.
pub console_r_char : (Console → Console) → ℕ → Console → ℕ × Console
console_r_char others ch s =
    let r = next_char (ch % 256) (await others s) in (ch / 256 * 256 + r.0, r.1)

-- `console_dev_write` and `console_dev_read`
pub console_dev_write : List ℕ → ℕ → Console → Option (ℤ × Console)
console_dev_write buf count s = console_w_cmd buf count s

pub console_dev_read : (ℕ → Console → Console) → ℕ → Console → ℤ × List ℕ × Console
console_dev_read others count s = console_r_cmd others count s

-- `console_isr`
pub console_isr : ℕ → Console → Console
console_isr c s = record s { rb = (put_char s.rb (c % 256)).1; calls = resume_ring ∷ s.calls }

-- `console_bufSize`
abbrev pub console_buf_size : ℕ
console_buf_size = 128

-- The ring of `init_console`, on a buffer of that size.
pub init_console_ring : List ℕ → Option Ring
init_console_ring buf = elim (init buf console_buf_size) [
  | none ↦ none
  | some rb ↦ some (record rb { buf = replicate console_buf_size 0 })
]
