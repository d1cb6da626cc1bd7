-- ===== src/Slave.antt =====
-- The slave: code/c/common/opdi_slave_protocol.c with opdi_protocol.c and the sending and
-- receiving half of opdi_message.c, over the functions that a configuration provides.
pub mod Authentication
pub mod State
pub mod Transfer
pub mod Protocol
pub mod Reception
pub mod PortInfo
pub mod PortState
pub mod Negotiation
pub mod Positions
pub mod Extended
pub mod Handler
pub mod Disconnection
pub mod Loop
pub mod Handshake
pub mod Session
mod Encrypted
pub mod Tests
