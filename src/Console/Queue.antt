-- ===== src/Console/Queue.antt =====
-- What is typed on the console of kernel/src/console.c is what is read from it.
use hsunix.Base.{
  ℕ, List, ◌≡◌, ◌∷◌, length, ◌<◌, ◌+◌, [], ◌++◌, ◌==◌, ◌≤◌, ◌∙◌, ap, some, sym, false, arith, ◌%◌,
  append-nil, refl, append_assoc, length-append,
}
use hsunix.Console.{
  next_char, Console, await, r_cmd_from, console_isr, console_r_cmd, get_state, Ring, get_char, pos,
}
use hsunix.Ring.Bounds.{IsValid, get_char-IsValid, put_char-IsValid}
use hsunix.Ring.Fifo.{
  contents, dequeue, enqueue, get_char_refines, put_char_refines, base_size-put_char,
}
use hsunix.Ring.{get_state, Ring, get_char}
use hsunix.Ring.State.{states_agree}
use hsunix.Base.Int.{pos}

-- The next character of a ring that is not empty, for any process that reads.
record IsTaken (s : Console) (x : ℕ) (xs : List ℕ) (r : ℕ × Console) : Type 0 where
  byte : r.0 ≡ x
  rest : contents r.1.rb ≡ xs
  valid : IsValid r.1.rb

-- `kRingbuf_getChar` of a ring that is not empty.
get_char-front :
    (rb : Ring) (x : ℕ) (xs : List ℕ)
    → IsValid rb
    → contents rb ≡ x ∷ xs
    → ((get_char rb).0 ≡ 1) × ((get_char rb).1 ≡ some x) × (contents (get_char rb).2 ≡ xs)
unfolding dequeue
get_char-front rb x xs v e =
    let g = get_char_refines rb v ∙ ap dequeue e in
    (ap (λ t. t.0) g, ap (λ t. t.1) g, ap (λ t. t.2) g)

await-ready :
    (others : Console → Console) (s : Console) (x : ℕ) (xs : List ℕ)
    → IsValid s.rb
    → contents s.rb ≡ x ∷ xs
    → await others s ≡ s
unfolding await
await-ready others s x xs v e =
    let one : get_state s.rb ≡ 1 = (states_agree s.rb 0 v).1 ∙ (get_char-front s.rb x xs v e).0 in
    let there : (get_state s.rb == 0) ≡ false = ground (arith, one) in rw there refl

next_char-IsTaken :
    (ch : ℕ) (s : Console) (x : ℕ) (xs : List ℕ)
    → IsValid s.rb
    → contents s.rb ≡ x ∷ xs
    → IsTaken s x xs (next_char ch s)
unfolding next_char
next_char-IsTaken ch s x xs v e =
    let (n, c, rest) = get_char-front s.rb x xs v e in
    record { byte = rw (c, next_char) refl; rest = rest; valid = get_char-IsValid s.rb v }

-- The console after these characters were typed.
abbrev pub typed : List ℕ → Console → Console
typed [] s = s
typed (c ∷ cs) s = typed cs (console_isr c s)

abbrev pub AreBytes : List ℕ → Type 0
AreBytes [] = Unit
AreBytes (c ∷ cs) = (c < 256) × AreBytes cs

-- A character that finds room is put behind the others.
isr_lem :
    (c : ℕ) (s : Console)
    → IsValid s.rb
    → c < 256
    → length (contents s.rb) < s.rb.base_size
    → (contents (console_isr c s).rb ≡ contents s.rb ++ (c ∷ []))
      × IsValid (console_isr c s).rb
      × ((console_isr c s).rb.base_size ≡ s.rb.base_size)
unfolding console_isr enqueue
isr_lem c s v small room =
    let full : (length (contents s.rb) == s.rb.base_size) ≡ false = ground (arith, room) in
    let low : c % 256 ≡ c = ground (arith, small) in
    let g = put_char_refines s.rb (c % 256) v in
    (
      ap (λ t. t.1) g ∙ rw (full, low) refl,
      put_char-IsValid s.rb (c % 256) v,
      base_size-put_char s.rb (c % 256),
    )

pub typed_lem :
    (cs : List ℕ) (s : Console)
    → IsValid s.rb
    → AreBytes cs
    → length (contents s.rb) + length cs ≤ s.rb.base_size
    → (contents (typed cs s).rb ≡ contents s.rb ++ cs) × IsValid (typed cs s).rb
typed_lem [] s v b room = (sym (append-nil (contents s.rb)), v)
typed_lem (c ∷ cs) s v b room =
    let (e, v₁, size) = isr_lem c s v b.0 (omega (arith, room)) in
    let (e₂, v₂) =
      typed_lem cs (console_isr c s) v₁ b.1
        (omega (arith, room, size, ap length e, length-append (contents s.rb) (c ∷ []))) in
    (e₂ ∙ ap (λ t. t ++ cs) e ∙ append_assoc (contents s.rb) (c ∷ []) cs, v₂)

read_from :
    (xs rest : List ℕ) (others : ℕ → Console → Console) (i ch : ℕ) (out : List ℕ) (s : Console)
    → IsValid s.rb
    → contents s.rb ≡ xs ++ rest
    → (s' : Console) × (r_cmd_from (length xs) others i ch out s ≡ (pos 0, out ++ xs, s'))
      × (contents s'.rb ≡ rest)
unfolding r_cmd_from
read_from [] rest others i ch out s v e = (s, ap (λ o. (pos 0, o, s)) (sym (append-nil out)), e)
read_from (x ∷ xs) rest others i ch out s v e =
    let ready = await-ready (others i) s x (xs ++ rest) v e in
    let t = next_char-IsTaken ch s x (xs ++ rest) v e in
    let r = next_char ch s in
    let (s', go, left) =
      read_from xs rest others (i + 1) r.0 (out ++ (r.0 ∷ [])) r.1 t.valid t.rest in
    (
      s',
      rw (ready, r_cmd_from) go
          ∙ ap (λ o. (pos 0, o, s'))
              (append_assoc out (r.0 ∷ []) xs ∙ ap (λ b. out ++ (b ∷ xs)) t.byte),
      left,
    )

-- Characters that `console_isr` gets on an empty console, no more than the ring has places, are what
-- `console_rCmd` of so many characters puts into the buffer, in their order, whatever others do, and the
-- console is empty again. But it returns 0, the number that is left to read, and not the number read.
pub console_r_cmd-console_isr :
    (cs : List ℕ) (others : ℕ → Console → Console) (s : Console)
    → IsValid s.rb
    → contents s.rb ≡ []
    → AreBytes cs
    → length cs ≤ s.rb.base_size
    → (s' : Console) × (console_r_cmd others (length cs) (typed cs s) ≡ (pos 0, cs, s'))
      × (contents s'.rb ≡ [])
unfolding console_r_cmd
console_r_cmd-console_isr cs others s v empty b room =
    let (e, v₁) = typed_lem cs s v b (omega (arith, room, ap length empty)) in
    let all : contents (typed cs s).rb ≡ cs ++ [] =
      e ∙ ap (λ t. t ++ cs) empty ∙ sym (append-nil cs) in
    read_from cs [] others 0 0 [] (typed cs s) v₁ all
