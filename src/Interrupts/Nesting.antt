-- ===== src/Interrupts/Nesting.antt =====
-- Code between `kPortDisableInterrupt` and `kPortEnableInterrupt` of kernel/src/port.c.
use hsunix.Base.{
  ℕ, Bool, ◌≡◌, true, ◌==◌, false, refl, ◌+◌, ltb, ap, arith, ◌∙◌, ◌-◌, sym, Bool-cases, inl, inr,
}
use hsunix.Interrupts.{k_port_disable_interrupt, Cpu, k_port_enable_interrupt}

-- Sections one after the other and within each other.
pub data Sections : Type 0 where
  done : Sections
  section : Sections → Sections → Sections

-- The calls of the sections: the first with those inside it, then the rest.
pub run_sections : Sections → Cpu → Cpu
run_sections done s = s
run_sections (section inside rest) s =
    run_sections rest (k_port_enable_interrupt (run_sections inside (k_port_disable_interrupt s)))

disable-nested :
    (n : ℕ) (o : Bool)
    → k_port_disable_interrupt (record { managed = true; on = o; nest = n })
      ≡ record { managed = true; on = false; nest = n + 1 }
unfolding k_port_disable_interrupt
disable-nested n o = refl

enable-nested :
    (n : ℕ) (o : Bool)
    → o ≡ (n == 0)
    → k_port_enable_interrupt (record { managed = true; on = false; nest = n + 1 })
      ≡ record { managed = true; on = o; nest = n }
unfolding k_port_enable_interrupt
enable-nested n o e =
    let deep : ltb 0 (n + 1) ≡ true = ground arith in
    let less : n + 1 - 1 ≡ n = omega arith in
    elim (Bool-cases (n == 0)) [
      | inl outer ↦
          let none_left : n ≡ 0 = ground (arith, outer) in
          rw (deep, k_port_enable_interrupt) (rw less (rw outer (rw (none_left, e ∙ outer) refl)))
      | inr inner ↦ rw (deep, k_port_enable_interrupt) (rw less (rw inner (rw (e ∙ inner) refl)))
    ]

run_sections-at :
    (b : Sections) (n : ℕ) (o : Bool)
    → o ≡ (n == 0)
    → run_sections b (record { managed = true; on = o; nest = n })
      ≡ record { managed = true; on = o; nest = n }
unfolding run_sections
run_sections-at done n o e = refl
run_sections-at (section inside rest) n o e =
    ap (λ t. run_sections rest (k_port_enable_interrupt (run_sections inside t)))
      (disable-nested n o)
    ∙ ap (λ t. run_sections rest (k_port_enable_interrupt t))
        (run_sections-at inside (n + 1) false (ground arith))
    ∙ ap (run_sections rest) (enable-nested n o e)
    ∙ run_sections-at rest n o e

-- On a processor whose interrupts the system manages, whatever their state, one section or more, each
-- with any sections inside it, leave the nesting count as it was and the interrupts on exactly if the
-- count is 0: as they were, if they are on exactly outside all sections, but on behind a section in a
-- trap handler, which runs with the interrupts off and the count 0. Inside a section, behind any
-- sections that stand in it, the interrupts are off.
pub run_sections-restores :
    (inside rest : Sections) (s : Cpu)
    → s.managed ≡ true
    → (run_sections (section inside rest) s ≡ record s { on = s.nest == 0 })
      × ((run_sections inside (k_port_disable_interrupt s)).on ≡ false)
unfolding run_sections
run_sections-restores inside rest s w =
    let known : s ≡ record { managed = true; on = s.on; nest = s.nest } =
      ap (λ m. record { managed = m; on = s.on; nest = s.nest }) w in
    let off : run_sections inside (k_port_disable_interrupt s)
        ≡ record { managed = true; on = false; nest = s.nest + 1 } =
      ap (λ t. run_sections inside (k_port_disable_interrupt t)) known
      ∙ ap (run_sections inside) (disable-nested s.nest s.on)
      ∙ run_sections-at inside (s.nest + 1) false (ground arith) in
    (
      ap (λ t. run_sections rest (k_port_enable_interrupt t)) off
          ∙ ap (run_sections rest) (enable-nested s.nest (s.nest == 0) refl)
          ∙ run_sections-at rest s.nest (s.nest == 0) refl
          ∙ ap (λ m. record { managed = m; on = s.nest == 0; nest = s.nest }) (sym w),
      ap (λ t. t.on) off,
    )
