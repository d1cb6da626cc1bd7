-- ===== src/Master/Conversation/Calls.antt =====
-- Sequences of calls of the functions of a digital port, in code/c/common/master/opdi_DigitalPort.cpp.
use opdi_core.Base.{
  refl, Bool, true, false, Bytes, List, [], ◌∷◌, inl, ℤ, eq_ℤ, if◌then◌else◌, Option, some, none,
}
use opdi_core.Constants.{
  set_digital_port_mode_tag, set_digital_port_line_tag, get_digital_port_state_tag,
}
use opdi_core.Master.{invalid_argument, Outcome, returned, threw, Exception}
use opdi_core.Master.Protocol.{Connection}
use opdi_core.Master.Ports.{
  DigitalPort, check_mode, check_line, line_unknown, mode_unknown, refresh,
}
use opdi_core.Master.Conversation.{
  ask_for, take_digital_state, get_digital_state, set_port_mode, set_port_line_on_slave, set_mode,
  set_line, get_mode, get_line, quoted,
}
use opdi_core.Master.Conversation.Safety.{IsAllowed, ask_for-IsAllowed}

-- A call of a function of the port.
pub data DigitalCall : Type 0 where
  call_get_state : DigitalCall
  call_set_mode : ℤ → DigitalCall
  call_set_line : ℤ → DigitalCall
  call_get_mode : DigitalCall
  call_get_line : DigitalCall
  call_refresh : DigitalCall

-- What is left of the port and of the connection, if the call returns or throws.
abbrev left : {A : Type 0} → Outcome A × DigitalPort × Connection → DigitalPort × Connection
left (o, port, c) = (port, c)

unfoldable pub run_call : Bool → DigitalCall → DigitalPort → Connection → DigitalPort × Connection
unfolding get_digital_state set_mode set_line get_mode get_line refresh
run_call own call_get_state port c = left (get_digital_state own port c)
run_call own (call_set_mode mode) port c = left (set_mode own mode port c)
run_call own (call_set_line line) port c = left (set_line own line port c)
run_call own call_get_mode port c = left (get_mode own port c)
run_call own call_get_line port c = left (get_line own port c)
run_call own call_refresh port c = (refresh port, c)

abbrev pub run_calls : Bool → List DigitalCall → DigitalPort → Connection → DigitalPort × Connection
run_calls own [] port c = (port, c)
run_calls own (call ∷ calls) port c =
    let (p, c1) = run_call own call port c in run_calls own calls p c1

quoted-IsAllowed :
    (own : Bool) (request : Bytes → List Bytes) (e : Exception) (port : DigitalPort)
    (c : Connection)
    → IsAllowed port
    → (o : Option Bytes)
    → (let x : Outcome (Unit {0}) × DigitalPort × Connection = elim o [
      | none ↦ (threw e, port, c)
      | some q ↦ ask_for (take_digital_state own) (request q) port c
    ] in
        IsAllowed x.1)
quoted-IsAllowed own request e port c h none = h
quoted-IsAllowed own request e port c h (some q) = ask_for-IsAllowed own (request q) port c h

-- A request behind a test that may throw.
tested-IsAllowed :
    (port : DigitalPort) (c : Connection) (next : Outcome (Unit {0}) × DigitalPort × Connection)
    → IsAllowed port
    → IsAllowed next.1
    → (o : Outcome (Unit {0}))
    → (let x : Outcome (Unit {0}) × DigitalPort × Connection = elim o [
      | threw e ↦ (threw e, port, c)
      | returned u ↦ next
    ] in
        IsAllowed x.1)
tested-IsAllowed port c next h k (threw e) = h
tested-IsAllowed port c next h k (returned u) = k

-- A cached value, or a request for it.
cached-IsAllowed :
    (port : DigitalPort) (c : Connection) (value : DigitalPort → ℤ)
    (asked : Outcome (Unit {0}) × DigitalPort × Connection)
    → IsAllowed port
    → IsAllowed asked.1
    → (b : Bool)
    → IsAllowed
        (if b
          then (let x : Outcome ℤ × DigitalPort × Connection = elim asked.0 [
            | threw e ↦ (threw e, asked.1, asked.2)
            | returned u ↦ (returned (value asked.1), asked.1, asked.2)
          ] in
              x)
          else (returned (value port), port, c)).1
cached-IsAllowed port c value (threw e, p, c1) h k true = k
cached-IsAllowed port c value (returned u, p, c1) h k true = k
cached-IsAllowed port c value asked h k false = h

run_call-IsAllowed :
    (own : Bool) (call : DigitalCall) (port : DigitalPort) (c : Connection)
    → IsAllowed port
    → IsAllowed (run_call own call port c).0
unfolding run_call
run_call-IsAllowed own call_get_state port c h =
    ask_for-IsAllowed own (get_digital_port_state_tag ∷ port.id ∷ []) port c h
run_call-IsAllowed own (call_set_mode mode) port c h =
    tested-IsAllowed port c (set_port_mode own mode port c) h
      (unfold set_port_mode in
        quoted-IsAllowed own (λ q. set_digital_port_mode_tag ∷ port.id ∷ q ∷ []) invalid_argument
          port c h (quoted own mode 4))
      (check_mode port mode)
run_call-IsAllowed own (call_set_line line) port c h =
    tested-IsAllowed port c (set_port_line_on_slave own line port c) h
      (unfold set_port_line_on_slave in
        quoted-IsAllowed own (λ q. set_digital_port_line_tag ∷ port.id ∷ q ∷ []) invalid_argument
          port c h (quoted own line 2))
      (check_line port)
run_call-IsAllowed own call_get_mode port c h =
    cached-IsAllowed port c (λ p. p.mode) (get_digital_state own port c) h
      (unfold get_digital_state in
        ask_for-IsAllowed own (get_digital_port_state_tag ∷ port.id ∷ []) port c h)
      (eq_ℤ port.mode mode_unknown)
run_call-IsAllowed own call_get_line port c h =
    cached-IsAllowed port c (λ p. p.line) (get_digital_state own port c) h
      (unfold get_digital_state in
        ask_for-IsAllowed own (get_digital_port_state_tag ∷ port.id ∷ []) port c h)
      (eq_ℤ port.line line_unknown)
run_call-IsAllowed own call_refresh port c h = inl refl

-- A digital port of the master keeps a mode that it can have, under every sequence of getPortState,
-- setMode, setLine, getMode, getLine and refresh, whatever the slave answers and whichever of the
-- calls throw, if it has such a mode before: unknown; output unless the port is an input only; and
-- unless it is an output only, floating input, input with a pullup if bit 0 of its flags is set, or
-- input with a pulldown if bit 1 is.
pub run_calls-IsAllowed :
    (own : Bool) (calls : List DigitalCall) (port : DigitalPort) (c : Connection)
    → IsAllowed port
    → IsAllowed (run_calls own calls port c).0
run_calls-IsAllowed own [] port c h = h
run_calls-IsAllowed own (call ∷ calls) port c h =
    run_calls-IsAllowed own calls (run_call own call port c).0 (run_call own call port c).1
      (run_call-IsAllowed own call port c h)
