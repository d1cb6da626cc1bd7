-- ===== src/Slave/Disconnection.antt =====
-- How a disconnect message ends the message loop of code/c/common/opdi_slave_protocol.c.
use opdi_core.Base.{
  ℕ, suc, ◌+◌, ◌<◌, ◌≡◌, refl, ap, ◌∙◌, Bytes, length, Lacks, arith, ok, err, Result,
}
use opdi_core.Constants.{disconnected, disconnect_tag, dir_incoming, can_send, protocol_connected}
use opdi_core.Message.{Message, encode}
use opdi_core.Message.Encode.{frame}
use opdi_core.Slave.State.{Device, Slave, Host, Action, ◌>>◌}
use opdi_core.Slave.Transfer.{debug, get_message}
use opdi_core.Slave.Protocol.{split_message}
use opdi_core.Slave.Reception.{Delivers, get_message-encode}
use opdi_core.Slave.Session.{message_loop, process, control_message, serve}

-- What a master sends to disconnect.
abbrev pub goodbye : Message
goodbye = record { channel = 0; payload = disconnect_tag }

no_nul : Lacks 0 disconnect_tag
no_nul =
    ((λ q. absurd (omega arith)), ((λ q. absurd (omega arith)), ((λ q. absurd (omega arith)), tt)))

process-goodbye :
    {W : Type 0} (d : Device W) (handler : ℕ → Action W) (s : Slave W)
    → (process d handler goodbye s).0 ≡ disconnected
unfolding process control_message split_message opdi_core.Strings.split opdi_core.Base.strcmp_eq
process-goodbye d handler s = refl

-- What a round does with the outcome of `opdi_get_message`.
abbrev received :
    {W : Type 0} → Device W → (ℕ → Action W) → ℕ → ℕ → Result Message × Slave W → ℕ × Slave W
received d handler rounds bytes (r, s1) = elim r [
  | ok m ↦ (process d handler m >> message_loop d rounds bytes handler) s1
  | err e ↦ (e, s1)
]

message_loop_step :
    {W : Type 0} (d : Device W) (handler : ℕ → Action W) (rounds bytes : ℕ) (s s1 : Slave W)
    (m : Message)
    → get_message d bytes can_send s ≡ (ok m, s1)
    → message_loop d (suc rounds) bytes handler s
      ≡ (process d handler m >> message_loop d rounds bytes handler) s1
unfolding message_loop
message_loop_step d handler rounds bytes s s1 m e = ap (received d handler rounds bytes) e

-- A step that fails is the last one.
stop :
    {W : Type 0} (m k : Action W) (s : Slave W)
    → (m s).0 ≡ disconnected
    → ((m >> k) s).0 ≡ disconnected
stop m k s e = rw (e) refl

message_loop-goodbye :
    {W : Type 0} (d : Device W) (handler : ℕ → Action W) (rounds extra : ℕ) (s : Slave W)
    (bytes : Bytes) (h' : Host W)
    → s.encryption ≡ 0
    → length d.stack_bytes ≡ 256
    → encode goodbye ≡ ok bytes
    → Delivers d s.timeout s.host bytes h'
    → (message_loop d (suc rounds) (length bytes + extra) handler s).0 ≡ disconnected
message_loop-goodbye d handler rounds extra s bytes h' plain size e sent =
    let s1 = (debug d (frame goodbye) dir_incoming (record s { host = h' })).1 in
    ap (λ r. r.0)
      (message_loop_step d handler rounds (length bytes + extra) s s1 goodbye (
        get_message-encode d can_send extra s goodbye bytes h' plain size (omega arith)
          (omega arith) (omega arith) no_nul e sent))
    ∙ stop (process d handler goodbye) (message_loop d rounds (length bytes + extra) handler) s1
        (process-goodbye d handler s1)

-- A master that disconnects ends the connection: if encryption is off and the device delivers the
-- disconnect message that encode has written, then the loop of an established connection ends with
-- OPDI_DISCONNECTED and leaves the slave not connected, whatever the handler, the callback and the
-- state are. The local buffer of opdi_get_message has 256 bytes, the bound on the rounds is not 0,
-- and the bound on the bytes is no less than the length of the message.
pub serve-goodbye :
    {W : Type 0} (d : Device W) (callback : ℕ → Host W → Host W) (handler : ℕ → Action W)
    (rounds extra : ℕ) (s : Slave W) (bytes : Bytes) (h' : Host W)
    → s.encryption ≡ 0
    → length d.stack_bytes ≡ 256
    → encode goodbye ≡ ok bytes
    → Delivers d s.timeout (callback protocol_connected s.host) bytes h'
    → ((serve d (suc rounds) (length bytes + extra) callback handler s).0 ≡ disconnected)
      × ((serve d (suc rounds) (length bytes + extra) callback handler s).1.connected ≡ 0)
unfolding serve
serve-goodbye d callback handler rounds extra s bytes h' plain size e sent = (
  message_loop-goodbye d handler rounds extra
      (record s { connected = 1; host = callback protocol_connected s.host }) bytes h' plain size e
      sent,
  refl,
)
