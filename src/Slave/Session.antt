-- ===== src/Slave/Session.antt =====
-- The message loop and the life of a connection: `handle_message_result`, `message_loop`,
-- `opdi_slave_init`, `opdi_slave_start` and the messages that a slave sends of its own accord, in
-- code/c/common/opdi_slave_protocol.c.
use opdi_core.Base.{
  ℕ, zero, suc, ◌+◌, Bool, true, not, Bytes, List, [], ◌∷◌, none, leb, ◌==◌, if◌then◌else◌, Result,
  ok, err, codes,
}
use opdi_core.Constants.{
  status_ok, disconnected, error_parts_overflow, protocol_error, device_error, message_unknown,
  dont_use_encryption, can_send, dir_debug, protocol_start_handshake, protocol_connected,
  protocol_disconnected, max_message_parts, error_tag, disconnect_tag, refresh_tag, reconfigure_tag,
  debug_tag,
}
use opdi_core.Message.{Message}
use opdi_core.Port.{reset_bindings}
use opdi_core.Slave.State.{
  Device, Slave, Host, Action, return, ◌>>◌, ◌>>=◌, ◌then_run◌, change, with_slave, call,
  pure_result, on_ports, assign_parts, texts, part, out_of_rounds, set_port_message,
}
use opdi_core.Slave.Transfer.{get_message, put_message, set_encryption}
use opdi_core.Slave.Protocol.{split_message, tag_is, send_parts, expect_control_message, send_error}
use opdi_core.Slave.PortInfo.{port_of}
use opdi_core.Slave.Handler.{basic_protocol_message, extended_protocol_message}
use opdi_core.Slave.Handshake.{
  read_handshake, negotiate, act_on, reply_handshake, Protocols, select_protocol, exchange_names,
  authenticate_if_required, text_at,
}

module _ {W : Type 0} (d : Device W) where
  unfoldable pub handle_message_result : ℕ → Action W
  handle_message_result result =
      if result == status_ok
      then return result
      else (if result == message_unknown
          then (call (d.debug_msg (codes "Unknown message") dir_debug) then_run return status_ok)
          else (if result == disconnected then return result else send_error d result none none))

  -- A message on the control channel.
  unfoldable pub control_message : Action W
  control_message = with_slave λ s.
      if tag_is disconnect_tag s
      then return disconnected
      else (if tag_is error_tag s
          then return device_error
          else (if tag_is debug_tag s
              then call (d.debug_msg (text_at (part 1 s)) dir_debug)
              else return status_ok))

  unfoldable pub clear_message : Action W
  clear_message = change (λ s. record s { host = set_port_message [] s.host })

  -- A message on another channel goes to the protocol handler.
  unfoldable pub protocol_message : (ℕ → Action W) → ℕ → Action W
  unfolding clear_message handle_message_result
  protocol_message handler channel s =
      let (r, s1) = (clear_message then_run handler channel) s in handle_message_result r s1

  -- `opdi_message_handled`, and what the loop makes of its status.
  unfoldable pub notify_handled : ℕ → Action W
  notify_handled channel s =
      let (r, s1) = call (d.message_handled channel s.msg_parts) s in
      if r == status_ok
      then (r, s1)
      else (if r == disconnected then (r, s1) else send_error d r none none s1)

  -- One round of the loop behind `opdi_get_message`.
  unfoldable pub process : (ℕ → Action W) → Message → Action W
  unfolding control_message protocol_message notify_handled split_message
  process handler m = split_message m.payload true >>= λ count.
      (if m.channel == 0 then control_message else protocol_message handler m.channel)
      >> notify_handled m.channel

  -- `rounds` bounds the messages, and the bytes of each.
  unfoldable pub message_loop : ℕ → ℕ → (ℕ → Action W) → Action W
  unfolding process
  message_loop zero bytes handler s = (out_of_rounds, s)
  message_loop (suc rounds) bytes handler s =
      (get_message d bytes can_send >>= λ m. process handler m >> message_loop rounds bytes handler)
        s

  unfoldable pub slave_init : Action W
  unfolding set_encryption
  slave_init = set_encryption dont_use_encryption

  abbrev pub set_connected : ℕ → Action W
  set_connected c = change (λ s. record s { connected = c })

  -- `protocol_callback`, which does nothing if it is NULL.
  abbrev pub notify : (ℕ → Host W → Host W) → ℕ → Action W
  notify callback phase = change (λ s. record s { host = callback phase s.host })

  -- The loop of an established connection.
  unfoldable pub serve : ℕ → ℕ → (ℕ → Host W → Host W) → (ℕ → Action W) → Action W
  unfolding message_loop
  serve rounds bytes callback handler s =
      let (r, s1) =
        (set_connected 1 >> notify callback protocol_connected >> message_loop rounds bytes handler)
          s in
      (notify callback protocol_disconnected >> set_connected 0 >> return r) s1

  -- The handshake from the reply on.
  unfoldable pub connect : ℕ → ℕ → Protocols W → (ℕ → Host W → Host W) → Bool → Action W
  unfolding reply_handshake select_protocol exchange_names authenticate_if_required serve
  connect rounds bytes protocols callback encrypted =
      reply_handshake d encrypted
      >> (expect_control_message d bytes >>= λ count s.
          if not (count == 3)
          then (protocol_error, s)
          else (pure_result (
                  select_protocol (basic_protocol_message d) (extended_protocol_message d) protocols
                    (text_at (part 0 s)))
                >>= λ handler.
                    exchange_names d
                    >> authenticate_if_required d bytes
                    >> serve rounds bytes callback handler)
              s)

  unfoldable pub slave_start : ℕ → ℕ → Message → Protocols W → (ℕ → Host W → Host W) → Action W
  unfolding read_handshake negotiate act_on connect
  slave_start rounds bytes message protocols callback =
      on_ports reset_bindings
      >> set_connected 0
      >> notify callback protocol_start_handshake
      >> read_handshake d message (λ flags encryptions.
        act_on d (negotiate flags encryptions d.device_flags d.encryption_method)
          (connect rounds bytes protocols callback))

  unfoldable pub slave_connected : Slave W → ℕ
  slave_connected s = s.connected

  unfoldable pub send_debug : Bytes → Action W
  send_debug text = assign_parts (texts (debug_tag ∷ text ∷ [])) >> send_parts d 0

  unfoldable pub reconfigure : Action W
  reconfigure = put_message d (record { channel = 0; payload = reconfigure_tag })

  -- The IDs of the ports up to the NULL; `i` is the index of the next part.
  unfoldable pub refresh_ids : List ℕ → ℕ → Slave W → Result (List Bytes)
  refresh_ids [] i s = ok []
  refresh_ids (a ∷ rest) i s =
      if leb max_message_parts (i + 1)
      then err error_parts_overflow
      else (elim (refresh_ids rest (i + 1) s) [
        | ok ids ↦ ok ((port_of a s).id ∷ ids)
        | err e ↦ err e
      ])

  -- A failed refresh leaves the tag and some IDs in `opdi_msg_parts`, which is not modelled.
  unfoldable pub refresh : List ℕ → Action W
  unfolding refresh_ids
  refresh ports = with_slave λ s. pure_result (refresh_ids ports 1 s) >>= λ ids.
      assign_parts (texts (refresh_tag ∷ ids)) >> send_parts d 0

  unfoldable pub disconnect : Action W
  disconnect =
      put_message d (record { channel = 0; payload = disconnect_tag }) >> return disconnected
