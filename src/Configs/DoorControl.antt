-- ===== src/Configs/DoorControl.antt =====
-- The door control: code/c/configs/Arduino/DoorControl/DoorControl/DoorControl.ino, built without
-- USE_RFID. The children have its parts: the ports that keep a number in the EEPROM, and the
-- housekeeping with the keypad.
pub mod Eeprom
pub mod Housekeeping
mod Tests
