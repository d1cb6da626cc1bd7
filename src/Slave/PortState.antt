-- ===== src/Slave/PortState.antt =====
-- Reading and changing the state of a port: code/c/common/opdi_slave_protocol.c, from
-- `get_analog_port_state` to `unbind_streaming_port`.
use opdi_core.Base.{
  ℕ, zero, suc, ◌%◌, Bool, not, ◌||◌, Bytes, List, [], ◌∷◌, Option, none, some, ◌==◌, if◌then◌else◌,
  ℤ, ◌-ℤ◌, ltb_ℤ, magnitude, wrap_signed, strcmp_eq,
}
use opdi_core.Constants.{
  status_ok, wrong_port_type, too_many_bindings, channel_invalid, position_invalid,
  port_access_denied, port_error, custom_port_value_maxlen, analog_port_state_tag,
  digital_port_state_tag, select_port_label_tag, select_port_state_tag, dial_port_state_tag,
  custom_port_state_tag, porttype_digital, porttype_analog, porttype_select, porttype_dial,
  porttype_custom,
}
use opdi_core.Platform.{
  int32_to_str, int64_to_str, uint16_to_str, str_to_uint16, str_to_int32, str_to_int64,
}
use opdi_core.Port.{bind_port, unbind_port}
use opdi_core.Slave.State.{
  Device, Action, return, ◌>>◌, ◌>>=◌, ◌then_run◌, with_slave, call, fetch, pure_result, on_ports,
  assign_parts, texts,
}
use opdi_core.Slave.Protocol.{
  join_parts, send_payload, send_parts, send_disagreement, send_port_error, send_agreement,
}
use opdi_core.Slave.PortInfo.{port_of, labels_of, dial_of, DialInfo}

-- `if (strcmp(port->type, type)) return OPDI_WRONG_PORT_TYPE`.
abbrev pub require_type : {W : Type 0} → ℕ → Bytes → Action W
require_type a type s =
    (if strcmp_eq (port_of a s).type type then status_ok else wrong_port_type, s)

-- `while (i < pos && labels[i]) i++`: what is left of the labels at the end.
unfoldable pub labels_from : List Bytes → ℕ → List Bytes
labels_from labels zero = labels
labels_from [] (suc n) = []
labels_from (l ∷ labels) (suc n) = labels_from labels n

-- The test of a dial position; `i = pos - min` is an int64_t. A step of 0 is a division fault in
-- the code, and outside the model.
unfoldable pub position_is_invalid : DialInfo → ℤ → Bool
position_is_invalid dpi position =
    let i = wrap_signed 64 (position -ℤ dpi.min) in
    ltb_ℤ position dpi.min
    || (ltb_ℤ dpi.max position || not (magnitude i % magnitude dpi.step == 0))

module _ {W : Type 0} (d : Device W) where
  -- The answers of the five functions `send_…_port_state` to the status of `get_…_port_state`:
  -- an error or a denial of the port is reported to the master and is no error of the protocol.
  unfoldable pub report_state : ℕ → ℕ → Action W → Action W
  report_state channel a get s =
      let (r, s1) = get s in
      if r == port_error
      then (send_port_error d channel (port_of a s1).id (some s1.host.message) none
            then_run return status_ok)
          s1
      else (if r == port_access_denied
          then (send_disagreement d channel port_access_denied (some s1.host.message) none
                then_run return status_ok)
              s1
          else (if r == status_ok then send_payload d channel s1 else (r, s1)))

  unfoldable pub get_analog_port_state : ℕ → Action W
  unfolding join_parts
  get_analog_port_state a = with_slave λ s.
      require_type a porttype_analog
      >> (fetch (d.get_analog_port_state (port_of a s)) >>= λ st.
          assign_parts (
            texts (
              analog_port_state_tag
              ∷ (port_of a s).id
              ∷ st.mode
              ∷ st.reference
              ∷ st.resolution
              ∷ int32_to_str st.value
              ∷ []))
          >> join_parts)

  unfoldable pub send_analog_port_state : ℕ → ℕ → Action W
  unfolding report_state
  send_analog_port_state channel a = report_state channel a (get_analog_port_state a)

  unfoldable pub set_analog_port_value : ℕ → ℕ → Bytes → Action W
  set_analog_port_value channel a value = with_slave λ s.
      pure_result (str_to_int32 value) >>= λ val.
      call (d.set_analog_port_value (port_of a s) val) >> send_analog_port_state channel a

  unfoldable pub set_analog_port_mode : ℕ → ℕ → Bytes → Action W
  set_analog_port_mode channel a mode =
      with_slave
        λ s. call (d.set_analog_port_mode (port_of a s) mode) >> send_analog_port_state channel a

  unfoldable pub set_analog_port_resolution : ℕ → ℕ → Bytes → Action W
  set_analog_port_resolution channel a res =
      with_slave λ s.
        call (d.set_analog_port_resolution (port_of a s) res) >> send_analog_port_state channel a

  unfoldable pub set_analog_port_reference : ℕ → ℕ → Bytes → Action W
  set_analog_port_reference channel a ref =
      with_slave λ s.
        call (d.set_analog_port_reference (port_of a s) ref) >> send_analog_port_state channel a

  unfoldable pub get_digital_port_state : ℕ → Action W
  unfolding join_parts
  get_digital_port_state a = with_slave λ s.
      require_type a porttype_digital
      >> (fetch (d.get_digital_port_state (port_of a s)) >>= λ st.
          assign_parts (texts (digital_port_state_tag ∷ (port_of a s).id ∷ st.0 ∷ st.1 ∷ []))
          >> join_parts)

  unfoldable pub send_digital_port_state : ℕ → ℕ → Action W
  unfolding report_state
  send_digital_port_state channel a = report_state channel a (get_digital_port_state a)

  -- The text may be NULL: the caller does not look.
  unfoldable pub set_digital_port_line : ℕ → ℕ → Option Bytes → Action W
  set_digital_port_line channel a line =
      with_slave
        λ s. call (d.set_digital_port_line (port_of a s) line) >> send_digital_port_state channel a

  unfoldable pub set_digital_port_mode : ℕ → ℕ → Option Bytes → Action W
  set_digital_port_mode channel a mode =
      with_slave
        λ s. call (d.set_digital_port_mode (port_of a s) mode) >> send_digital_port_state channel a

  unfoldable pub send_found_label : ℕ → ℕ → Bytes → List Bytes → Action W
  send_found_label channel a position [] = return position_invalid
  send_found_label channel a position (label ∷ rest) = with_slave λ s.
      assign_parts (texts (select_port_label_tag ∷ (port_of a s).id ∷ position ∷ label ∷ []))
      >> send_parts d channel

  unfoldable pub send_select_port_label : ℕ → ℕ → Bytes → Action W
  unfolding labels_from send_found_label
  send_select_port_label channel a position = with_slave λ s.
      require_type a porttype_select
      >> (pure_result (str_to_uint16 position) >>= λ n.
          send_found_label channel a position (labels_from (labels_of (port_of a s).info) n))

  unfoldable pub get_select_port_state : ℕ → Action W
  unfolding join_parts
  get_select_port_state a = with_slave λ s.
      require_type a porttype_select
      >> (fetch (d.get_select_port_state (port_of a s)) >>= λ n.
          assign_parts (texts (select_port_state_tag ∷ (port_of a s).id ∷ uint16_to_str n ∷ []))
          >> join_parts)

  unfoldable pub send_select_port_state : ℕ → ℕ → Action W
  unfolding report_state
  send_select_port_state channel a = report_state channel a (get_select_port_state a)

  unfoldable pub set_found_position : ℕ → ℕ → ℕ → List Bytes → Action W
  set_found_position channel a n [] = return position_invalid
  set_found_position channel a n (label ∷ rest) =
      with_slave
        λ s. call (d.set_select_port_position (port_of a s) n) >> send_select_port_state channel a

  -- `i` ends at `pos` where `labels[i]` is not NULL.
  unfoldable pub set_select_port_position : ℕ → ℕ → Bytes → Action W
  unfolding labels_from set_found_position
  set_select_port_position channel a position = with_slave λ s.
      require_type a porttype_select
      >> (pure_result (str_to_uint16 position) >>= λ n.
          set_found_position channel a n (labels_from (labels_of (port_of a s).info) n))

  unfoldable pub get_dial_port_state : ℕ → Action W
  unfolding join_parts
  get_dial_port_state a = with_slave λ s.
      require_type a porttype_dial
      >> (fetch (d.get_dial_port_state (port_of a s)) >>= λ position.
          assign_parts (texts (dial_port_state_tag ∷ (port_of a s).id ∷ int64_to_str position ∷ []))
          >> join_parts)

  unfoldable pub send_dial_port_state : ℕ → ℕ → Action W
  unfolding report_state
  send_dial_port_state channel a = report_state channel a (get_dial_port_state a)

  unfoldable pub set_dial_port_position : ℕ → ℕ → Bytes → Action W
  unfolding position_is_invalid
  set_dial_port_position channel a position = with_slave λ s.
      require_type a porttype_dial
      >> (pure_result (str_to_int64 position) >>= λ n.
          if position_is_invalid (dial_of (port_of a s).info) n
          then return position_invalid
          else (call (d.set_dial_port_position (port_of a s) n) >> send_dial_port_state channel a))

  unfoldable pub get_custom_port_value : ℕ → Action W
  unfolding join_parts
  get_custom_port_value a = with_slave λ s.
      require_type a porttype_custom
      >> (fetch (d.get_custom_port_value (port_of a s) custom_port_value_maxlen) >>= λ value.
          assign_parts (texts (custom_port_state_tag ∷ (port_of a s).id ∷ value ∷ []))
          >> join_parts)

  unfoldable pub send_custom_port_state : ℕ → ℕ → Action W
  unfolding report_state
  send_custom_port_state channel a = report_state channel a (get_custom_port_value a)

  unfoldable pub set_custom_port_value : ℕ → ℕ → Bytes → Action W
  set_custom_port_value channel a value = with_slave λ s.
      require_type a porttype_custom
      >> call (d.set_custom_port_value (port_of a s) value)
      >> send_custom_port_state channel a

  unfoldable pub bind_streaming_port : ℕ → ℕ → Bytes → Action W
  bind_streaming_port channel a text s =
      (pure_result (str_to_uint16 text) >>= λ bound_channel.
      if bound_channel == 0 then return channel_invalid else (λ t.
        let (r, t1) = on_ports (bind_port a bound_channel) t in
        if r == too_many_bindings
        then send_disagreement d channel r none none t1
        else (if r == status_ok then send_agreement d channel t1 else (r, t1))))
        s

  unfoldable pub unbind_streaming_port : ℕ → ℕ → Action W
  unbind_streaming_port channel a = on_ports (unbind_port a) >> send_agreement d channel
