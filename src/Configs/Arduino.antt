-- ===== src/Configs/Arduino.antt =====
-- The Arduino library of OPDI: code/c/configs/ArduinoPDI, with the pins of ArduinOPDI.cpp and the
-- functions of OPDI.cpp that the slave calls.
pub mod Pins
pub mod AnalogPins
pub mod Idle
mod Tests
