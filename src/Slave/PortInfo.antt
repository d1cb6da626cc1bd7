-- ===== src/Slave/PortInfo.antt =====
-- Answers that describe the device and its ports: code/c/common/opdi_slave_protocol.c, from
-- `send_device_caps` to `send_port_info`.
use opdi_core.Base.{
  ℕ, ◌+◌, ◌%◌, Bytes, List, [], ◌∷◌, Option, none, some, leb, if◌then◌else◌, length, map, ℤ, pos,
  strcmp_eq, Result, ok, err,
}
use opdi_core.Constants.{
  status_ok, too_many_ports, porttype_unknown, parts_separator, message_payload_length,
  max_device_ports, basic_device_caps_tag, analog_port_tag, digital_port_tag, select_port_tag,
  dial_port_tag, custom_port_tag, streaming_port_tag, porttype_digital, porttype_analog,
  porttype_select, porttype_dial, porttype_streaming,
}
use opdi_core.Platform.{int32_to_str, int64_to_str, uint16_to_str}
use opdi_core.Strings.{strings_join}
use opdi_core.Port.{Port, PortInfo, select_info, dial_info, streaming_info, port_at, port_list}
use opdi_core.Slave.State.{
  Device, Slave, Action, return, ◌>>◌, ◌>>=◌, with_slave, pure_result, assign_parts, texts,
}
use opdi_core.Slave.Protocol.{send_payload, send_parts}

-- The object of a port in the state, and what its info holds. An info of another kind than the
-- port's type stands for memory that the code would misread; these give defaults there.
abbrev pub port_of : {W : Type 0} → ℕ → Slave W → Port
port_of a s = port_at s.ports.heap a

abbrev pub labels_of : PortInfo → List Bytes
labels_of (select_info labels) = labels
labels_of other = []

pub record DialInfo : Type 0 where
  pub min : ℤ
  pub max : ℤ
  pub step : ℤ

abbrev pub dial_of : PortInfo → DialInfo
dial_of (dial_info min max step) = record { min = min; max = max; step = step }
dial_of other = record { min = pos 0; max = pos 0; step = pos 1 }

abbrev pub driver_of : PortInfo → Bytes
driver_of (streaming_info driver handler channel) = driver
driver_of other = []

-- The IDs of the ports, with the test for more than the array holds. With exactly
-- `max_device_ports` ports the code writes the final NULL behind the array.
unfoldable pub collect_ids : List Port → ℕ → Result (List (Option Bytes))
collect_ids [] count = ok (none ∷ [])
collect_ids (p ∷ ps) count =
    if leb max_device_ports count
    then err too_many_ports
    else (elim (collect_ids ps (count + 1)) [ ok ids ↦ ok (some p.id ∷ ids) | err e ↦ err e ])

unfoldable pub join_into_payload : {W : Type 0} → List (Option Bytes) → Action W
join_into_payload ps s = elim (strings_join ps parts_separator message_payload_length) [
  | err e ↦ (e, s)
  | ok payload ↦ (status_ok, record s { msg_payload = payload })
]

module _ {W : Type 0} (d : Device W) where
  -- The array of parts is a local one here.
  unfoldable pub send_device_caps : ℕ → Action W
  unfolding collect_ids join_into_payload send_payload
  send_device_caps channel = with_slave λ s.
      pure_result (collect_ids (map (port_at s.ports.heap) (port_list s.ports)) 0) >>= λ ids.
      pure_result (strings_join ids b',' message_payload_length) >>= λ csv.
      join_into_payload (texts (basic_device_caps_tag ∷ csv ∷ [])) >> send_payload d channel

  unfoldable pub send_digital_port_info : ℕ → ℕ → Action W
  send_digital_port_info channel a = with_slave λ s.
      let p = port_of a s in
      assign_parts (texts (digital_port_tag ∷ p.id ∷ p.name ∷ p.caps ∷ int32_to_str p.flags ∷ []))
      >> send_parts d channel

  unfoldable pub send_analog_port_info : ℕ → ℕ → Action W
  send_analog_port_info channel a = with_slave λ s.
      let p = port_of a s in
      assign_parts (texts (analog_port_tag ∷ p.id ∷ p.name ∷ p.caps ∷ int32_to_str p.flags ∷ []))
      >> send_parts d channel

  unfoldable pub send_select_port_info : ℕ → ℕ → Action W
  send_select_port_info channel a = with_slave λ s.
      let p = port_of a s in
      let positions = uint16_to_str (length (labels_of p.info) % 65536) in
      assign_parts (texts (select_port_tag ∷ p.id ∷ p.name ∷ positions ∷ int32_to_str p.flags ∷ []))
      >> send_parts d channel

  unfoldable pub send_dial_port_info : ℕ → ℕ → Action W
  send_dial_port_info channel a = with_slave λ s.
      let p = port_of a s in
      let dpi = dial_of p.info in
      assign_parts (
        texts (
          dial_port_tag
          ∷ p.id
          ∷ p.name
          ∷ int64_to_str dpi.min
          ∷ int64_to_str dpi.max
          ∷ int64_to_str dpi.step
          ∷ int32_to_str p.flags
          ∷ []))
      >> send_parts d channel

  unfoldable pub send_custom_port_info : ℕ → ℕ → Action W
  send_custom_port_info channel a = with_slave λ s.
      let p = port_of a s in
      assign_parts (texts (custom_port_tag ∷ p.id ∷ p.name ∷ int32_to_str p.flags ∷ []))
      >> send_parts d channel

  -- The buffer for the flags holds seven characters; longer flags overrun it.
  unfoldable pub send_streaming_port_info : ℕ → ℕ → Action W
  send_streaming_port_info channel a = with_slave λ s.
      let p = port_of a s in
      assign_parts
        (texts (streaming_port_tag ∷ p.id ∷ p.name ∷ driver_of p.info ∷ int32_to_str p.flags ∷ []))
      >> send_parts d channel

  unfoldable pub send_port_info : ℕ → ℕ → Action W
  send_port_info channel a = with_slave λ s.
      let type = (port_of a s).type in
      if strcmp_eq type porttype_digital
      then send_digital_port_info channel a
      else (if strcmp_eq type porttype_analog
          then send_analog_port_info channel a
          else (if strcmp_eq type porttype_select
              then send_select_port_info channel a
              else (if strcmp_eq type porttype_dial
                  then send_dial_port_info channel a
                  else (if strcmp_eq type porttype_streaming
                      then send_streaming_port_info channel a
                      else return porttype_unknown))))
