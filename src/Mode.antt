-- ===== src/Mode.antt =====
-- The hardware modes of crates/kokura-core/src/types.rs.
pub data HardwareMode : Type 0 where
  dmg : HardwareMode
  cgb : HardwareMode
