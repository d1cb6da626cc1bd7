-- ===== src/Slave/State.antt =====
-- The state of a slave, the functions of opdi_config.h that a configuration provides, and the
-- shape of a C function that returns a status.
use opdi_core.Base.{
  ℕ, Bytes, List, [], ◌∷◌, ◌++◌, Option, none, some, ◌==◌, if◌then◌else◌, get_or, drop, length, map,
  ℤ, Result, ok, err,
}
use opdi_core.Constants.{status_ok}
use opdi_core.Port.{Port, Ports, port_message}

-- `OPDIFunctionCode`.
pub data FunctionCode : Type 0 where
  get_config_name set_master_name get_supported_protocols get_encoding set_languages : FunctionCode
  get_extended_deviceinfo get_extended_portinfo get_extended_portstate : FunctionCode
  set_username set_password : FunctionCode

-- What the functions of a configuration can change: the world outside, and the text of
-- `opdi_set_port_message`.
pub record Host (W : Type 0) : Type 0 where
  pub world : W
  pub message : Bytes

-- `opdi_set_port_message`.
unfoldable pub set_port_message : {W : Type 0} → Bytes → Host W → Host W
unfolding port_message
set_port_message text h = record h { message = port_message text }

-- A call: the result, and the host afterwards.
abbrev pub Call : Type 0 → Type 0 → Type 0
Call W A = Host W → A × Host W

-- The state of an analog port: mode, resolution, reference and value.
pub record AnalogState : Type 0 where
  pub mode : Bytes
  pub resolution : Bytes
  pub reference : Bytes
  pub value : ℤ

-- The functions and constants that a configuration and a platform provide. A function with out
-- parameters returns a `Result`, whose error is the status.
pub record Device (W : Type 0) : Type 0 where
  -- `receive(info, &byte, timeout, can_send)` and `send(info, bytes, count)`
  pub receive : ℕ → ℕ → Call W (Result ℕ)
  pub send : Bytes → Call W ℕ
  pub debug_msg : Bytes → ℕ → Call W ℕ
  -- blocks of `block_size` bytes
  pub block_size : ℕ
  pub encrypt_block : Bytes → Call W (Result Bytes)
  pub decrypt_block : Bytes → Call W (Result Bytes)
  -- the byte with which `do { … rand() } while (… == '\n')` ends
  pub padding : Call W ℕ
  pub encryption_method : Bytes
  pub device_flags : ℕ
  -- the bytes of the stack below and in a local message buffer
  pub below_buffer : ℕ
  pub stack_bytes : Bytes
  pub extended_info_length : ℕ
  -- `opdi_slave_callback(code, buffer, data)`: the buffer afterwards
  pub slave_callback : FunctionCode → Option Bytes → ℕ → Call W (Result Bytes)
  pub message_handled : ℕ → List (Option Bytes) → Call W ℕ
  pub get_analog_port_state : Port → Call W (Result AnalogState)
  pub set_analog_port_value : Port → ℤ → Call W ℕ
  pub set_analog_port_mode : Port → Bytes → Call W ℕ
  pub set_analog_port_resolution : Port → Bytes → Call W ℕ
  pub set_analog_port_reference : Port → Bytes → Call W ℕ
  -- mode and line
  pub get_digital_port_state : Port → Call W (Result (Bytes × Bytes))
  pub set_digital_port_line : Port → Option Bytes → Call W ℕ
  pub set_digital_port_mode : Port → Option Bytes → Call W ℕ
  pub get_select_port_state : Port → Call W (Result ℕ)
  pub set_select_port_position : Port → ℕ → Call W ℕ
  pub get_dial_port_state : Port → Call W (Result ℤ)
  pub set_dial_port_position : Port → ℤ → Call W ℕ
  pub get_custom_port_value : Port → ℕ → Call W (Result Bytes)
  pub set_custom_port_value : Port → Bytes → Call W ℕ

-- The static variables of the slave; `msg_parts` and `msg_payload` are those of opdi_protocol.c,
-- with strings for the pointers, and `msg_buf` is the output buffer of opdi_message.c.
pub record Slave (W : Type 0) : Type 0 where
  pub host : Host W
  pub ports : Ports
  pub msg_parts : List (Option Bytes)
  pub msg_payload : Bytes
  pub msg_buf : Bytes
  pub encryption : ℕ
  pub timeout : ℕ
  pub connected : ℕ

-- Two outcomes that are no uint8_t: the bound on the rounds of a loop was met, and the code
-- dereferenced NULL.
abbrev pub out_of_rounds : ℕ
out_of_rounds = 256

abbrev pub null_access : ℕ
null_access = 257

-- A C function with a status.
abbrev pub Action : Type 0 → Type 0
Action W = Slave W → ℕ × Slave W

-- A C function with a status and out parameters.
abbrev pub Fetch : Type 0 → Type 0 → Type 0
Fetch W A = Slave W → Result A × Slave W

-- Strings, and the NULL behind them.
abbrev pub texts : List Bytes → List (Option Bytes)
texts ps = map some ps ++ none ∷ []

module _ {W : Type 0} where
  abbrev pub return : ℕ → Action W
  return r s = (r, s)

  -- `result = m; if (result != OPDI_STATUS_OK) return result; k`.
  infixl 5 ◌>>◌
  abbrev pub ◌>>◌ : Action W → Action W → Action W
  ◌>>◌ m k s = let (r, s') = m s in if r == status_ok then k s' else (r, s')

  -- The same for a function with an out parameter.
  infixl 5 ◌>>=◌
  abbrev pub ◌>>=◌ : {A : Type 0} → Fetch W A → (A → Action W) → Action W
  ◌>>=◌ m k s = let (r, s') = m s in elim r [ ok a ↦ k a s' | err e ↦ (e, s') ]

  -- A call whose status is not looked at.
  infixl 5 ◌then_run◌
  abbrev pub ◌then_run◌ : Action W → Action W → Action W
  ◌then_run◌ m k s = k (m s).1

  abbrev pub change : (Slave W → Slave W) → Action W
  change f s = (status_ok, f s)

  abbrev pub with_slave : (Slave W → Action W) → Action W
  with_slave f s = f s s

  -- Functions of the configuration.
  abbrev pub call : Call W ℕ → Action W
  call f s = let (r, h) = f s.host in (r, record s { host = h })

  abbrev pub fetch : {A : Type 0} → Call W (Result A) → Fetch W A
  fetch f s = let (r, h) = f s.host in (r, record s { host = h })

  abbrev pub pure_result : {A : Type 0} → Result A → Fetch W A
  pure_result r s = (r, s)

  -- Functions of opdi_port.c.
  abbrev pub on_ports : (Ports → ℕ × Ports) → Action W
  on_ports f s = let (r, ps) = f s.ports in (r, record s { ports = ps })

  -- `opdi_msg_parts[0] = …; …; opdi_msg_parts[k] = NULL`; the entries behind stay.
  abbrev pub assign_parts : List (Option Bytes) → Action W
  assign_parts ps = change (λ s. record s { msg_parts = ps ++ drop (length ps) s.msg_parts })

  -- `opdi_msg_parts[i]`.
  abbrev pub part : ℕ → Slave W → Option Bytes
  part i s = get_or s.msg_parts i none
