-- ===== src/Interrupt/Tests.antt =====
-- Instances of the theorems on interrupts, and runs.
use kokura.Base.{◌≡◌, refl, some}
use kokura.Interrupt.{InterruptState, highest_priority, first_source, pending_mask}
use kokura.Interrupt.Priority.{lowest_raised, highest_priority-lowest_raised}

-- Timer and joypad are requested, and everything is enabled but the vertical blank.
abbrev two_pending : InterruptState
two_pending = record { ie = 0x1E; iflag = 0x15 }

timer_first : highest_priority two_pending ≡ some (0x04, 0x0050)
unfolding highest_priority first_source pending_mask
timer_first = refl

highest_priority-lowest_raised_example :
    highest_priority two_pending ≡ lowest_raised 5 0 two_pending
highest_priority-lowest_raised_example = highest_priority-lowest_raised two_pending
