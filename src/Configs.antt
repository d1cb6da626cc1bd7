-- ===== src/Configs.antt =====
-- The programs for single devices: code/c/configs.
pub mod Arduino
pub mod DoorControl
