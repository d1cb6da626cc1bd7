-- ===== src/Master/Conversation/Safety.antt =====
-- A digital port of the master never has a mode that it cannot have, and no request for such a mode
-- is sent: code/c/common/master/opdi_DigitalPort.cpp with opdi_BasicProtocol.cpp.
use opdi_core.Base.{
  ℕ, ◌≤◌, ◌<◌, ◌/◌, ◌%◌, ◌≡◌, ◌≢◌, ◌∙◌, sym, refl, ap, arith, subst, negsuc, Option, none, some,
  ltb_ℤ, if◌then◌else◌, Bool, true, false, Bytes, List, [], ◌⊎◌, ℤ, pos, get_or,
}
use opdi_core.Constants.{digital_port_state_tag, message_separator}
use opdi_core.Master.{Outcome, returned, threw, Exception}
use opdi_core.Master.OpdiMessage.{OpdiMessage}
use opdi_core.Master.StringTools.{split}
use opdi_core.Master.Protocol.{parse_int, stoi, Connection}
use opdi_core.Master.Ports.{
  DigitalPort, PortDirCaps, check_mode, set_port_state, set_port_line, mode_unknown, mode_output,
  mode_input_floating, mode_input_pullup, mode_input_pulldown, has_pullup, has_pulldown,
}
use opdi_core.Master.Conversation.{
  ask, check_answer, ask_for, take_digital_state, read_then, port_then,
}

-- The modes that a port can have by its directions and flags: unknown; output unless it is an input
-- only; and unless it is an output only, floating input, input with a pullup if bit 0 of the flags is
-- set, and input with a pulldown if bit 1 is.
abbrev pub CanHave : PortDirCaps → ℕ → ℤ → Type 0
CanHave dirs flags mode =
    (mode ≡ mode_unknown)
    ⊎ (((mode ≡ mode_output) × (dirs ≢ PortDirCaps.input))
        ⊎ ((dirs ≢ PortDirCaps.output)
            × ((mode ≡ mode_input_floating)
                ⊎ (((mode ≡ mode_input_pullup) × (flags % 2 ≡ 1))
                    ⊎ ((mode ≡ mode_input_pulldown) × (flags / 2 % 2 ≡ 1))))))

abbrev pub IsAllowed : DigitalPort → Type 0
IsAllowed port = CanHave port.dir_caps port.flags port.mode

accepted :
    (dirs : PortDirCaps) (id name : Bytes) (flags : ℕ) (mode line : ℤ) (n : ℕ)
    → n < 4
    → check_mode
        (record { id = id; name = name; dir_caps = dirs; flags = flags; mode = mode; line = line })
        (pos n)
      ≡ returned tt
    → CanHave dirs flags (pos n)
unfolding check_mode has_pullup has_pulldown
accepted PortDirCaps.unknown id name flags mode line n lt h = ground arith
accepted PortDirCaps.input id name flags mode line n lt h = ground arith
accepted PortDirCaps.output id name flags mode line n lt h = ground arith
accepted PortDirCaps.bidirectional id name flags mode line n lt h = ground arith

-- A mode of the protocol that checkMode accepts is one that the port can have.
check_mode_sound :
    (port : DigitalPort) (n : ℕ)
    → n < 4
    → check_mode port (pos n) ≡ returned tt
    → CanHave port.dir_caps port.flags (pos n)
check_mode_sound port n lt h =
    accepted port.dir_caps port.id port.name port.flags port.mode port.line n lt h

parse_int_range :
    (s : Bytes) (limit : ℕ) (z : ℤ)
    → parse_int s (pos 0) (pos limit) ≡ returned z
    → (n : ℕ) × (n ≤ limit) × (z ≡ pos n)
unfolding parse_int
parse_int_range s limit z h = ranged (stoi s) h
  where
    ranged :
        (o : Option ℤ)
        → (let x : Outcome ℤ = elim o [
          | none ↦ threw opdi_core.Master.protocol_exception
          | some value ↦
              if ltb_ℤ value (pos 0)
              then threw opdi_core.Master.protocol_exception
              else (if ltb_ℤ (pos limit) value
                  then threw opdi_core.Master.protocol_exception
                  else returned value)
        ] in
            x ≡ returned z)
        → (n : ℕ) × (n ≤ limit) × (z ≡ pos n)
    ranged none q = cc
    ranged (some (negsuc v)) q = ground arith
    ranged (some (pos v)) q = (v, ground arith, ground arith)

-- What is left of the port has an allowed mode.
Leaves : Outcome (Unit {0}) × DigitalPort → Type 0
Leaves r = IsAllowed r.1

unchanged_port :
    {A : Type 0} (port : DigitalPort) (o : Outcome A) (next : A → Outcome (Unit {0}) × DigitalPort)
    → IsAllowed port
    → ((a : A) → o ≡ returned a → Leaves (next a))
    → Leaves (read_then port o next)
unfolding Leaves
unchanged_port port (threw e) next h k = h
unchanged_port port (returned a) next h k = k a refl

changed_port :
    (port : DigitalPort) (o : Outcome DigitalPort)
    (next : DigitalPort → Outcome (Unit {0}) × DigitalPort)
    → IsAllowed port
    → ((p : DigitalPort) → o ≡ returned p → Leaves (next p))
    → Leaves (port_then port o next)
unfolding Leaves
changed_port port (threw e) next h k = h
changed_port port (returned p) next h k = k p refl

done : (p : DigitalPort) → IsAllowed p → Leaves (returned tt, p)
unfolding Leaves
done p h = h

same_port : {a b : DigitalPort} → returned a ≡ returned b → a ≡ b
same_port h = cc

set_port_state-IsAllowed :
    (own : Bool) (n : ℕ) (port p : DigitalPort)
    → n < 4
    → set_port_state own (pos n) port ≡ returned p
    → IsAllowed p
unfolding set_port_state
set_port_state-IsAllowed false n port p lt e = cc
set_port_state-IsAllowed true n port p lt e = tested (check_mode port (pos n)) refl e
  where
    tested :
        (o : Outcome (Unit {0}))
        → check_mode port (pos n) ≡ o
        → (let x : Outcome DigitalPort = elim o [
          | threw e ↦ threw opdi_core.Master.protocol_exception
          | returned u ↦ returned (record port { mode = pos n })
        ] in
            x ≡ returned p)
        → IsAllowed p
    tested (threw e) f h = cc
    tested (returned u) f h = subst IsAllowed (same_port h) (check_mode_sound port n lt f)

set_port_line-IsAllowed :
    (own : Bool) (line : ℤ) (port p : DigitalPort)
    → IsAllowed port
    → set_port_line own line port ≡ returned p
    → IsAllowed p
unfolding set_port_line
set_port_line-IsAllowed false line port p h e = cc
set_port_line-IsAllowed true line port p h e = subst IsAllowed (same_port e) h

-- An answer, whatever it is.
take_digital_state-IsAllowed :
    (own : Bool) (port : DigitalPort) (m : OpdiMessage)
    → IsAllowed port
    → Leaves (take_digital_state own port m)
unfolding take_digital_state
take_digital_state-IsAllowed own port m h =
    let parts = split m.payload message_separator in
    let read_line = parse_int (get_or parts 3 []) (pos 0) (pos 1) in
    unchanged_port port (check_answer parts 4 digital_port_state_tag port.id) _ h λ checked c.
      unchanged_port port (parse_int (get_or parts 2 []) (pos 0) (pos 3)) _ h λ mode r.
        changed_port port (set_port_state own mode port)
          (λ p1.
            read_then p1 read_line
              λ line. port_then p1 (set_port_line own line p1) λ p2. (returned tt, p2))
          h
          λ p1 e.
            let (n, most, same) = parse_int_range (get_or parts 2 []) 3 mode r in
            let allowed =
              set_port_state-IsAllowed own n port p1 (omega arith)
                (ap (λ z. set_port_state own z port) (sym same) ∙ e) in
            unchanged_port p1 read_line _ allowed λ line q.
              changed_port p1 (set_port_line own line p1) (λ p2. (returned tt, p2)) allowed
                λ p2 f. done p2 (set_port_line-IsAllowed own line p1 p2 allowed f)

-- A request, whatever the answer to it is.
pub ask_for-IsAllowed :
    (own : Bool) (parts : List Bytes) (port : DigitalPort) (c : Connection)
    → IsAllowed port
    → IsAllowed (ask_for (take_digital_state own) parts port c).1
ask_for-IsAllowed own parts port c h = answered (ask parts c).0 (ask parts c).1
  where
    answered :
        (r : Outcome OpdiMessage) (c1 : Connection)
        → (let x : Outcome (Unit {0}) × DigitalPort × Connection = elim r [
          | threw e ↦ (threw e, port, c1)
          | returned m ↦ ((take_digital_state own port m).0, (take_digital_state own port m).1, c1)
        ] in
            IsAllowed x.1)
    answered (threw e) c1 = h
    answered (returned m) c1 = unfold Leaves in take_digital_state-IsAllowed own port m h
