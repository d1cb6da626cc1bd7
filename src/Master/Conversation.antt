-- ===== src/Master/Conversation.antt =====
-- The requests of a master for its ports and the answers that it expects: the rest of
-- code/c/common/master/opdi_BasicProtocol.cpp but the infos of the ports, and the functions of
-- opdi_DigitalPort.cpp and opdi_SelectPort.cpp that ask the slave.
pub mod DigitalState
pub mod Safety
pub mod Requests
pub mod Calls
mod Tests
use opdi_core.Base.{
  ℕ, zero, suc, ◌+◌, ◌-◌, ◌%◌, Bool, true, false, not, ◌&&◌, Bytes, List, [], ◌∷◌, ◌++◌, length,
  get_or, ltb, ◌==◌, if◌then◌else◌, ℤ, pos, negsuc, ltb_ℤ, eq_ℤ, magnitude, strcmp_eq, Option, none,
  some, to_unsigned,
}
use opdi_core.Constants.{
  message_separator, digital_port_tag, digital_port_state_tag, get_digital_port_state_tag,
  set_digital_port_line_tag, set_digital_port_mode_tag, select_port_tag, get_select_port_label_tag,
  select_port_label_tag, select_port_state_tag, get_select_port_state_tag,
  set_select_port_position_tag, get_port_info_tag,
}
use opdi_core.Platform.{print_nat}
use opdi_core.Master.{Outcome, returned, threw, protocol_exception, invalid_argument, Exception}
use opdi_core.Master.OpdiMessage.{OpdiMessage}
use opdi_core.Master.StringTools.{split, join}
use opdi_core.Master.Protocol.{Connection, send, expect, parse_int, next_channel}
use opdi_core.Master.Ports.{
  DigitalPort, SelectPort, check_mode, set_port_state, set_port_line, check_line, max_position,
  set_port_position, mode_unknown, line_unknown, digital_port, select_port,
}

-- A function that works on a port and on the connection, both of which keep what was done before an exception.
abbrev pub Talk : Type 0 → Type 0 → Type 0
Talk P A = P → Connection → Outcome A × P × Connection

-- The tests of the parts of an answer: their number, the tag and the ID of the port.
unfoldable pub check_answer : List Bytes → ℕ → Bytes → Bytes → Outcome (Unit {0})
unfolding strcmp_eq
check_answer parts count tag id =
    if not (length parts == count)
    then threw protocol_exception
    else (if not (strcmp_eq (get_or parts 0 []) tag)
        then threw protocol_exception
        else (if not (strcmp_eq (get_or parts 1 []) id)
            then threw protocol_exception
            else returned tt))

-- A step that may change a port or throw, and what follows it.
abbrev pub port_then :
    {P : Type 0} → P → Outcome P → (P → Outcome (Unit {0}) × P) → Outcome (Unit {0}) × P
port_then port (threw e) next = (threw e, port)
port_then port (returned changed) next = next changed

-- A test, or the reading of a number, that leaves the port as it is, and what follows it.
abbrev pub read_then :
    {P A : Type 0} → P → Outcome A → (A → Outcome (Unit {0}) × P) → Outcome (Unit {0}) × P
read_then port (threw e) next = (threw e, port)
read_then port (returned a) next = next a

-- `expectDigitalPortState` behind the call of `expect`. The mode is set before the line is parsed.
unfoldable pub take_digital_state :
    Bool → DigitalPort → OpdiMessage → Outcome (Unit {0}) × DigitalPort
unfolding split check_answer parse_int set_port_state set_port_line
take_digital_state own port m =
    let parts = split m.payload message_separator in
    read_then port (check_answer parts 4 digital_port_state_tag port.id) λ checked.
      read_then port (parse_int (get_or parts 2 []) (pos 0) (pos 3)) λ mode.
        port_then port (set_port_state own mode port) λ p1.
          read_then p1 (parse_int (get_or parts 3 []) (pos 0) (pos 1))
            λ line. port_then p1 (set_port_line own line p1) λ p2. (returned tt, p2)

-- `expectSelectPortPosition` behind the call of `expect`.
unfoldable pub take_position : Bool → SelectPort → OpdiMessage → Outcome (Unit {0}) × SelectPort
unfolding split check_answer parse_int set_port_position max_position
take_position own port m =
    let parts = split m.payload message_separator in
    read_then port (check_answer parts 3 select_port_state_tag port.id) λ checked.
      read_then port (parse_int (get_or parts 2 []) (pos 0) (pos (max_position port))) λ position.
        port_then port (set_port_position own (magnitude position) port) λ p1. (returned tt, p1)

-- `expectSelectPortLabel` behind the call of `expect`.
unfoldable pub label_of : SelectPort → OpdiMessage → Outcome Bytes
unfolding split check_answer
label_of port m =
    let parts = split m.payload message_separator in
    elim (check_answer parts 4 select_port_label_tag port.id) [
      | threw e ↦ threw e
      | returned u ↦ returned (get_or parts 3 [])
    ]

-- `send(new OPDIMessage(getSynchronousChannel(), join(SEPARATOR, ...)))`, and `expect` on its channel.
unfoldable pub ask : List Bytes → Connection → Outcome OpdiMessage × Connection
unfolding join send expect next_channel
ask parts c =
    let channel = next_channel c.current_channel in
    let (r, c1) =
      send (record { channel = pos channel; payload = join message_separator parts })
        (record c { current_channel = channel }) in
    elim r [ threw e ↦ (threw e, c1) | returned sent_on ↦ expect sent_on c1 ]

-- A request whose answer changes the port.
abbrev pub ask_for :
    {P : Type 0} → (P → OpdiMessage → Outcome (Unit {0}) × P) → List Bytes → Talk P (Unit {0})
ask_for take parts port c =
    let (r, c1) = ask parts c in
    elim r [ threw e ↦ (threw e, port, c1) | returned m ↦ let (o, p) = take port m in (o, p, c1) ]

module _ (own : Bool) where
  -- `getPortState` of a digital port.
  unfoldable pub get_digital_state : Talk DigitalPort (Unit {0})
  unfolding ask take_digital_state
  get_digital_state port =
      ask_for (take_digital_state own) (get_digital_port_state_tag ∷ port.id ∷ []) port

  -- `OPDI_QUOTE` of the constant of a mode.
  abbrev pub quoted : ℤ → ℕ → Option Bytes
  quoted (pos n) limit = if ltb n limit then some ((b'0' + n) ∷ []) else none
  quoted (negsuc n) limit = none

  unfoldable pub set_port_mode : ℤ → Talk DigitalPort (Unit {0})
  unfolding ask take_digital_state
  set_port_mode mode port c = elim (quoted mode 4) [
    | none ↦ (threw invalid_argument, port, c)
    | some port_mode ↦
        ask_for (take_digital_state own) (set_digital_port_mode_tag ∷ port.id ∷ port_mode ∷ []) port
          c
  ]

  unfoldable pub set_port_line_on_slave : ℤ → Talk DigitalPort (Unit {0})
  unfolding ask take_digital_state
  set_port_line_on_slave line port c = elim (quoted line 2) [
    | none ↦ (threw invalid_argument, port, c)
    | some port_line ↦
        ask_for (take_digital_state own) (set_digital_port_line_tag ∷ port.id ∷ port_line ∷ []) port
          c
  ]

  -- `DigitalPort::setMode`.
  unfoldable pub set_mode : ℤ → Talk DigitalPort (Unit {0})
  unfolding check_mode set_port_mode
  set_mode mode port c = elim (check_mode port mode) [
    | threw e ↦ (threw e, port, c)
    | returned u ↦ set_port_mode mode port c
  ]

  -- `DigitalPort::setLine`.
  unfoldable pub set_line : ℤ → Talk DigitalPort (Unit {0})
  unfolding check_line set_port_line_on_slave
  set_line line port c = elim (check_line port) [
    | threw e ↦ (threw e, port, c)
    | returned u ↦ set_port_line_on_slave line port c
  ]

  -- `DigitalPort::getMode`.
  unfoldable pub get_mode : Talk DigitalPort ℤ
  unfolding get_digital_state
  get_mode port c =
      if eq_ℤ port.mode mode_unknown
      then (let (r, p, c1) = get_digital_state port c in
          elim r [ threw e ↦ (threw e, p, c1) | returned u ↦ (returned p.mode, p, c1) ])
      else (returned port.mode, port, c)

  -- `DigitalPort::getLine`.
  unfoldable pub get_line : Talk DigitalPort ℤ
  unfolding get_digital_state
  get_line port c =
      if eq_ℤ port.line line_unknown
      then (let (r, p, c1) = get_digital_state port c in
          elim r [ threw e ↦ (threw e, p, c1) | returned u ↦ (returned p.line, p, c1) ])
      else (returned port.line, port, c)

  -- `getPortState` of a select port.
  unfoldable pub get_select_state : Talk SelectPort (Unit {0})
  unfolding ask take_position
  get_select_state port =
      ask_for (take_position own) (get_select_port_state_tag ∷ port.id ∷ []) port

  -- `SelectPort::setPosition`, with `BasicProtocol::setPosition`.
  unfoldable pub set_position : ℕ → Talk SelectPort (Unit {0})
  unfolding ask take_position print_nat max_position
  set_position position port c =
      if ltb (max_position port) position
      then (threw invalid_argument, port, c)
      else ask_for (take_position own)
          (set_select_port_position_tag ∷ port.id ∷ print_nat position ∷ []) port c

  -- `SelectPort::getPosition`; the `int16_t` is returned as a `uint16_t`.
  unfoldable pub get_position : Talk SelectPort ℕ
  unfolding get_select_state
  get_position port c =
      if ltb_ℤ port.position (pos 0)
      then (let (r, p, c1) = get_select_state port c in
          elim r [
            | threw e ↦ (threw e, p, c1)
            | returned u ↦ (returned (to_unsigned 16 p.position), p, c1)
          ])
      else (returned (to_unsigned 16 port.position), port, c)

-- `getLabel`.
unfoldable pub get_label : SelectPort → ℕ → Connection → Outcome Bytes × Connection
unfolding ask label_of print_nat
get_label port position c =
    let (r, c1) = ask (get_select_port_label_tag ∷ port.id ∷ print_nat position ∷ []) c in
    elim r [ threw e ↦ (threw e, c1) | returned m ↦ (label_of port m, c1) ]
