-- ===== src/Slave/Extended.antt =====
-- The answers of the extended protocol: code/c/common/opdi_slave_protocol.c, from
-- `send_extended_port_info` to `send_all_select_port_labels`. What follows a port's own answer is
-- about the ID that `opdi_msg_parts[1]` holds then.
use opdi_core.Base.{
  ℕ, ◌+◌, ◌%◌, true, false, Bytes, List, [], ◌∷◌, Option, none, some, ◌==◌, if◌then◌else◌, take,
  strcmp_eq,
}
use opdi_core.Constants.{
  status_ok, porttype_unknown, select_port_label_tag, extended_port_info_tag,
  extended_port_state_tag, extended_device_info_tag, group_info_tag, extended_group_info_tag,
  porttype_digital, porttype_analog, porttype_select, porttype_dial, porttype_custom,
}
use opdi_core.Platform.{int32_to_str, uint16_to_str}
use opdi_core.Port.{PortGroup, port_list}
use opdi_core.Slave.State.{
  Device, Action, Fetch, FunctionCode, return, ◌>>◌, ◌>>=◌, with_slave, fetch, assign_parts, texts,
  part, null_access,
}
use opdi_core.Slave.Protocol.{send_parts}
use opdi_core.Slave.PortInfo.{
  port_of, labels_of, send_digital_port_info, send_analog_port_info, send_select_port_info,
  send_dial_port_info, send_custom_port_info,
}
use opdi_core.Slave.PortState.{
  require_type, send_digital_port_state, send_analog_port_state, send_select_port_state,
  send_dial_port_state, send_custom_port_state,
}

module _ {W : Type 0} (d : Device W) where
  unfoldable pub send_extended_port_info : ℕ → Bytes → Bytes → Action W
  send_extended_port_info channel port_id info =
      assign_parts (texts (extended_port_info_tag ∷ port_id ∷ info ∷ [])) >> send_parts d channel

  unfoldable pub send_extended_port_state : ℕ → Bytes → Bytes → Action W
  send_extended_port_state channel port_id state =
      assign_parts (texts (extended_port_state_tag ∷ port_id ∷ state ∷ [])) >> send_parts d channel

  -- `strncpy` of an ID into the buffer, and the callback, which leaves its answer there.
  unfoldable pub ask : FunctionCode → Bytes → Fetch W Bytes
  ask code id =
      fetch (d.slave_callback code (some (take d.extended_info_length id)) d.extended_info_length)

  -- The part of the loop behind a port's own answer; `opdi_msg_parts[1]` may be NULL.
  unfoldable pub extend_info : ℕ → Option Bytes → Action W
  unfolding ask
  extend_info channel none = return null_access
  extend_info channel (some id) =
      ask FunctionCode.get_extended_portinfo id >>= send_extended_port_info channel id

  unfoldable pub extend_state : ℕ → Option Bytes → Action W
  unfolding ask
  extend_state channel none = return null_access
  extend_state channel (some id) =
      ask FunctionCode.get_extended_portstate id >>= send_extended_port_state channel id

  -- Nothing is sent for a streaming port here.
  unfoldable pub describe_port : ℕ → ℕ → Action W
  describe_port channel a = with_slave λ s.
      let type = (port_of a s).type in
      if strcmp_eq type porttype_digital
      then send_digital_port_info d channel a
      else (if strcmp_eq type porttype_analog
          then send_analog_port_info d channel a
          else (if strcmp_eq type porttype_select
              then send_select_port_info d channel a
              else (if strcmp_eq type porttype_dial
                  then send_dial_port_info d channel a
                  else (if strcmp_eq type porttype_custom
                      then send_custom_port_info d channel a
                      else return status_ok))))

  unfoldable pub infos_loop : ℕ → List ℕ → Action W
  unfolding describe_port extend_info
  infos_loop channel [] = return status_ok
  infos_loop channel (a ∷ rest) =
      describe_port channel a
      >> with_slave (λ s. extend_info channel (part 1 s))
      >> infos_loop channel rest

  unfoldable pub send_all_port_infos : ℕ → Action W
  unfolding infos_loop
  send_all_port_infos channel = with_slave λ s. infos_loop channel (port_list s.ports)

  unfoldable pub report_port : ℕ → ℕ → Action W
  report_port channel a = with_slave λ s.
      let type = (port_of a s).type in
      if strcmp_eq type porttype_digital
      then send_digital_port_state d channel a
      else (if strcmp_eq type porttype_analog
          then send_analog_port_state d channel a
          else (if strcmp_eq type porttype_select
              then send_select_port_state d channel a
              else (if strcmp_eq type porttype_dial
                  then send_dial_port_state d channel a
                  else (if strcmp_eq type porttype_custom
                      then send_custom_port_state d channel a
                      else return porttype_unknown))))

  -- An error of a port's own answer only skips its extended state.
  unfoldable pub states_loop : ℕ → List ℕ → Action W
  unfolding report_port extend_state
  states_loop channel [] s = (status_ok, s)
  states_loop channel (a ∷ rest) s =
      let (r, s1) = report_port channel a s in
      (elim (r == status_ok) [
        | true ↦ (extend_state channel (part 1 s1) >> states_loop channel rest) s1
        | false ↦ states_loop channel rest s1
      ])

  unfoldable pub send_all_port_states : ℕ → Action W
  unfolding states_loop
  send_all_port_states channel = with_slave λ s. states_loop channel (port_list s.ports)

  unfoldable pub send_group_info : ℕ → PortGroup → Action W
  send_group_info channel g =
      assign_parts (texts (group_info_tag ∷ g.id ∷ g.label ∷ g.parent ∷ int32_to_str g.flags ∷ []))
      >> send_parts d channel

  unfoldable pub send_extended_group_info : ℕ → PortGroup → Action W
  send_extended_group_info channel g =
      assign_parts (texts (extended_group_info_tag ∷ g.id ∷ g.extended_info ∷ []))
      >> send_parts d channel

  unfoldable pub send_extended_device_info : ℕ → Bytes → Action W
  send_extended_device_info channel info =
      assign_parts (texts (extended_device_info_tag ∷ info ∷ [])) >> send_parts d channel

  unfoldable pub labels_loop : ℕ → Bytes → ℕ → List Bytes → Action W
  labels_loop channel id n [] = return status_ok
  labels_loop channel id n (label ∷ rest) =
      assign_parts (texts (select_port_label_tag ∷ id ∷ uint16_to_str n ∷ label ∷ []))
      >> send_parts d channel
      >> labels_loop channel id ((n + 1) % 65536) rest

  unfoldable pub send_all_select_port_labels : ℕ → ℕ → Action W
  unfolding labels_loop
  send_all_select_port_labels channel a = with_slave λ s.
      require_type a porttype_select
      >> labels_loop channel (port_of a s).id 0 (labels_of (port_of a s).info)
