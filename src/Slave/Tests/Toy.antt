-- ===== src/Slave/Tests/Toy.antt =====
-- A slave over a list of incoming bytes, with a dial and a select port.
use opdi_core.Base.{codes, [], ◌∷◌, none, some, pos, ok, err, Bytes, replicate}
use opdi_core.Constants.{porttype_dial, porttype_select}
use opdi_core.Port.{Port, dial_info, select_info}
use opdi_core.Slave.State.{Device, Slave}

abbrev pub toy : Device Bytes
toy = record {
  receive = λ timeout can_send h. elim h.world [
    | [] ↦ (err 9, h)
    | c ∷ s ↦ (ok c, record h { world = s })
  ];
  send = λ bytes h. (0, h);
  debug_msg = λ text direction h. (0, h);
  block_size = 16;
  encrypt_block = λ block h. (ok block, h);
  decrypt_block = λ block h. (ok block, h);
  padding = λ h. (1, h);
  encryption_method = codes "AES";
  device_flags = 0;
  below_buffer = 0;
  stack_bytes = replicate 256 7;
  extended_info_length = 255;
  slave_callback = λ code text value h. (ok [], h);
  message_handled = λ channel parts h. (0, h);
  get_analog_port_state = λ p h. (err 9, h);
  set_analog_port_value = λ p v h. (0, h);
  set_analog_port_mode = λ p v h. (0, h);
  set_analog_port_resolution = λ p v h. (0, h);
  set_analog_port_reference = λ p v h. (0, h);
  get_digital_port_state = λ p h. (err 9, h);
  set_digital_port_line = λ p v h. (0, h);
  set_digital_port_mode = λ p v h. (0, h);
  get_select_port_state = λ p h. (ok 1, h);
  set_select_port_position = λ p v h. (0, h);
  get_dial_port_state = λ p h. (ok (pos 20), h);
  set_dial_port_position = λ p v h. (0, h);
  get_custom_port_value = λ p n h. (err 9, h);
  set_custom_port_value = λ p v h. (0, h);
}

abbrev pub knob : Port
knob = record {
  id = codes "K";
  name = codes "knob";
  type = porttype_dial;
  caps = [];
  flags = pos 0;
  info = dial_info (pos 10) (pos 50) (pos 5);
  next = some 1;
}

abbrev pub switch : Port
switch = record {
  id = codes "S";
  name = codes "switch";
  type = porttype_select;
  caps = [];
  flags = pos 0;
  info = select_info (codes "low" ∷ codes "high" ∷ []);
  next = none;
}

abbrev pub idle : Bytes → Slave Bytes
idle incoming = record {
  host = record { world = incoming; message = [] };
  ports = record {
    heap = knob ∷ switch ∷ [];
    head = some 0;
    tail = some 1;
    count = 2;
    groups = [];
    bindings = [];
  };
  msg_parts = replicate 16 none;
  msg_payload = [];
  msg_buf = replicate 256 0;
  encryption = 0;
  timeout = 100;
  connected = 0;
}
