-- ===== src/Interrupts/Tests.antt =====
-- Two sections, one with another inside, on a processor with the interrupts off.
use hsunix.Base.{true, ◌≡◌, false, refl}
use hsunix.Interrupts.{Cpu, k_port_disable_interrupt}
use hsunix.Interrupts.Nesting.{run_sections, section, done, run_sections-restores}
use hsunix.PathName.{done}

-- In a trap handler.
abbrev trapped : Cpu
trapped = record { managed = true; on = false; nest = 0 }

run_sections-restores_example :
    (run_sections (section (section done done) (section done done)) trapped
      ≡ record { managed = true; on = true; nest = 0 })
    × ((run_sections (section done done) (k_port_disable_interrupt trapped)).on ≡ false)
run_sections-restores_example =
    run_sections-restores (section done done) (section done done) trapped refl
