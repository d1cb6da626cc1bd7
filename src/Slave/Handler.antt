-- ===== src/Slave/Handler.antt =====
-- The message handlers: `basic_protocol_message` and `extended_protocol_message` of
-- code/c/common/opdi_slave_protocol.c.
use opdi_core.Base.{ℕ, Bytes, [], Option, none, some, if◌then◌else◌}
use opdi_core.Constants.{
  protocol_error, port_unknown, group_unknown, message_unknown, get_device_caps_tag,
  get_port_info_tag, get_analog_port_state_tag, set_analog_port_value_tag, set_analog_port_mode_tag,
  set_analog_port_resolution_tag, set_analog_port_reference_tag, get_digital_port_state_tag,
  set_digital_port_line_tag, set_digital_port_mode_tag, get_select_port_label_tag,
  get_select_port_state_tag, set_select_port_position_tag, get_dial_port_state_tag,
  set_dial_port_position_tag, get_custom_port_state_tag, set_custom_port_state_tag,
  bind_streaming_port_tag, unbind_streaming_port_tag, get_all_port_infos_tag,
  get_extended_port_info_tag, get_extended_port_state_tag, get_all_port_states_tag,
  get_extended_device_info_tag, get_group_info_tag, get_extended_group_info_tag,
  get_all_select_port_labels_tag,
}
use opdi_core.Port.{PortGroup, find_port_by_id, find_portgroup_by_id}
use opdi_core.Slave.State.{Device, Action, FunctionCode, return, ◌>>=◌, with_slave, fetch, part}
use opdi_core.Slave.Protocol.{tag_is}
use opdi_core.Slave.PortInfo.{send_device_caps, send_port_info}
use opdi_core.Slave.PortState.{
  send_analog_port_state, set_analog_port_value, set_analog_port_mode, set_analog_port_resolution,
  set_analog_port_reference, send_digital_port_state, set_digital_port_line, set_digital_port_mode,
  send_select_port_label, send_select_port_state, set_select_port_position, send_dial_port_state,
  set_dial_port_position, send_custom_port_state, set_custom_port_value, bind_streaming_port,
  unbind_streaming_port,
}
use opdi_core.Slave.Extended.{
  extend_info, extend_state, send_all_port_infos, send_all_port_states, send_group_info,
  send_extended_group_info, send_extended_device_info, send_all_select_port_labels,
}

-- The port that `opdi_msg_parts[1]` names.
abbrev pub found_port : {W : Type 0} → Option ℕ → (ℕ → Action W) → Action W
found_port none k = return port_unknown
found_port (some a) k = k a

abbrev pub named_port : {W : Type 0} → Option Bytes → (ℕ → Action W) → Action W
named_port none k s = (protocol_error, s)
named_port (some id) k s = found_port (find_port_by_id id s.ports) k s

abbrev pub with_port : {W : Type 0} → (ℕ → Action W) → Action W
with_port k s = named_port (part 1 s) k s

abbrev pub found_group : {W : Type 0} → Option PortGroup → (PortGroup → Action W) → Action W
found_group none k = return group_unknown
found_group (some g) k = k g

abbrev pub named_group : {W : Type 0} → Option Bytes → (PortGroup → Action W) → Action W
named_group none k s = (protocol_error, s)
named_group (some id) k s = found_group (find_portgroup_by_id id s.ports) k s

abbrev pub with_group : {W : Type 0} → (PortGroup → Action W) → Action W
with_group k s = named_group (part 1 s) k s

-- `opdi_msg_parts[2]`, which the message must have.
abbrev pub text_or_error : {W : Type 0} → Option Bytes → (Bytes → Action W) → Action W
text_or_error none k = return protocol_error
text_or_error (some text) k = k text

abbrev pub with_text : {W : Type 0} → (Bytes → Action W) → Action W
with_text k s = text_or_error (part 2 s) k s

module _ {W : Type 0} (d : Device W) where
  unfoldable pub basic_protocol_message : ℕ → Action W
  basic_protocol_message channel = with_slave λ s.
      if tag_is get_device_caps_tag s
      then send_device_caps d channel
      else (if tag_is get_port_info_tag s
          then with_port (λ a. send_port_info d channel a)
          else (if tag_is get_analog_port_state_tag s
              then with_port (λ a. send_analog_port_state d channel a)
              else (if tag_is set_analog_port_value_tag s
                  then with_port (λ a. with_text (λ text. set_analog_port_value d channel a text))
                  else (if tag_is set_analog_port_mode_tag s
                      then with_port
                          (λ a. with_text (λ text. set_analog_port_mode d channel a text))
                      else (if tag_is set_analog_port_resolution_tag s
                          then with_port
                              (λ a. with_text (λ text. set_analog_port_resolution d channel a text))
                          else (if tag_is set_analog_port_reference_tag s
                              then with_port (λ a.
                                with_text (λ text. set_analog_port_reference d channel a text))
                              else (if tag_is get_digital_port_state_tag s
                                  then with_port (λ a. send_digital_port_state d channel a)
                                  else (if tag_is set_digital_port_line_tag s
                                      then with_port (λ a.
                                        with_slave
                                          (λ s. set_digital_port_line d channel a (part 2 s)))
                                      else (if tag_is set_digital_port_mode_tag s
                                          then with_port (λ a.
                                            with_slave
                                              (λ s. set_digital_port_mode d channel a (part 2 s)))
                                          else (if tag_is get_select_port_label_tag s
                                              then with_port (λ a.
                                                with_text
                                                  (λ text. send_select_port_label d channel a text))
                                              else (if tag_is get_select_port_state_tag s
                                                  then with_port
                                                      (λ a. send_select_port_state d channel a)
                                                  else (if tag_is set_select_port_position_tag s
                                                      then with_port (λ a. with_text (λ text.
                                                        set_select_port_position d channel a text))
                                                      else (if tag_is get_dial_port_state_tag s
                                                          then with_port
                                                            (λ a. send_dial_port_state d channel a)
                                                          else (if tag_is set_dial_port_position_tag
                                                            s
                                                            then with_port (λ a. with_text (λ text.
                                                            set_dial_port_position d channel a
                                                            text))
                                                            else (if tag_is
                                                            get_custom_port_state_tag s
                                                            then with_port (λ a.
                                                            send_custom_port_state d channel a)
                                                            else (if tag_is
                                                            set_custom_port_state_tag s
                                                            then with_port (λ a. with_text (λ text.
                                                            set_custom_port_value d channel a text))
                                                            else (if tag_is bind_streaming_port_tag
                                                            s
                                                            then with_port (λ a. with_text (λ text.
                                                            bind_streaming_port d channel a text))
                                                            else (if tag_is
                                                            unbind_streaming_port_tag s
                                                            then with_port
                                                            (λ a. unbind_streaming_port d channel a)
                                                            else return
                                                            message_unknown))))))))))))))))))

  abbrev pub with_id : (Option Bytes → Action W) → Action W
  with_id k s = elim (part 1 s) [ none ↦ (protocol_error, s) | some id ↦ k (some id) s ]

  unfoldable pub extended_protocol_message : ℕ → Action W
  extended_protocol_message channel = with_slave λ s.
      if tag_is get_all_port_infos_tag s
      then send_all_port_infos d channel
      else (if tag_is get_all_port_states_tag s
          then send_all_port_states d channel
          else (if tag_is get_extended_port_info_tag s
              then with_id (extend_info d channel)
              else (if tag_is get_extended_port_state_tag s
                  then with_id (extend_state d channel)
                  else (if tag_is get_group_info_tag s
                      then with_group (send_group_info d channel)
                      else (if tag_is get_extended_group_info_tag s
                          then with_group (send_extended_group_info d channel)
                          else (if tag_is get_extended_device_info_tag s
                              then (fetch (
                                    d.slave_callback FunctionCode.get_extended_deviceinfo (some [])
                                      d.extended_info_length)
                                  >>= send_extended_device_info d channel)
                              else (if tag_is get_all_select_port_labels_tag s
                                  then with_port (λ a. send_all_select_port_labels d channel a)
                                  else basic_protocol_message channel)))))))
