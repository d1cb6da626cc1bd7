-- ===== src/Master.antt =====
-- code/c/common/master: the master's side of the protocol, in C++. A C++ function that may throw
-- gives an `Outcome`; the texts of the exceptions are left out unless they come from the slave.
pub mod StringTools
pub mod OpdiMessage
pub mod Receiver
pub mod Protocol
pub mod Ports
pub mod Conversation
pub mod Capabilities
pub mod Handshake
use opdi_core.Base.{Bytes, Option}

-- The exceptions that the code throws itself; `poco_timeout` is the one of the POCO library, which is not
-- the code's own `timeout_exception`.
pub data Exception : Type 0 where
  message_exception : Exception
  protocol_exception : Exception
  disconnected_exception : Exception
  timeout_exception : Exception
  port_access_denied : Option Bytes → Exception
  port_error : Option Bytes → Exception
  invalid_argument : Exception
  assertion_violation : Exception
  poco_timeout : Exception
  device_exception : Option Bytes → Exception
  disagreement_exception : Exception
  authentication_exception : Exception
  cancelled_exception : Exception

pub data Outcome {ℓ} (A : Type ℓ) : Type ℓ where
  returned : A → Outcome A
  threw : Exception → Outcome A

infixl 5 ◌>>=◌
abbrev pub ◌>>=◌ {ℓ κ} :
    {A : Type ℓ} {B : Type κ} (first : Outcome A) (next : A → Outcome B) → Outcome B
threw e >>= next = threw e
returned a >>= next = next a
