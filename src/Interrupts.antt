-- ===== src/Interrupts.antt =====
-- kernel/src/port.c: the nested switching off of interrupts. `on` is the interrupt bit of the
-- processor, which `intr_on` and `intr_off` set.
pub mod Nesting
mod Tests
use hsunix.Base.{ℕ, true, if◌then◌else◌, Bool, not, ltb, false, ◌-◌, ◌+◌, ◌==◌, ◌%◌, ◌^◌}

-- `Os_interrupt`, the interrupt bit and `intrOffNest` of the processor.
pub record Cpu : Type 0 where
  pub managed : Bool
  pub on : Bool
  pub nest : ℕ

-- `k_enable_all_interrupt`
pub k_enable_all_interrupt : Cpu → Cpu
k_enable_all_interrupt s = record s { managed = true; on = true }

-- `kPortDisableInterrupt`
pub k_port_disable_interrupt : Cpu → Cpu
k_port_disable_interrupt s = if not s.managed then s else record s { on = false; nest = s.nest + 1 }

-- `kPortEnableInterrupt`
pub k_port_enable_interrupt : Cpu → Cpu
k_port_enable_interrupt s =
    if not s.managed
    then s
    else if not (ltb 0 s.nest)
    then s
    else if s.nest - 1 == 0
    then record s { on = true; nest = 0 }
    else record s { nest = s.nest - 1 }
