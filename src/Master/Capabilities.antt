-- ===== src/Master/Capabilities.antt =====
-- What a device has to offer: code/c/common/master/opdi_BasicDeviceCapabilities.cpp and
-- opdi_PortFactory.cpp, with `getPortInfo` and `getDeviceCapabilities` of opdi_BasicProtocol.cpp.
use opdi_core.Base.{
  ℕ, zero, suc, true, false, not, Bytes, List, [], ◌∷◌, ◌++◌, length, get_or, ◌==◌, if◌then◌else◌,
  pos, strcmp_eq, Option, none, some,
}
use opdi_core.Constants.{
  message_separator, digital_port_tag, select_port_tag, get_port_info_tag, get_device_caps_tag,
  basic_device_caps_tag,
}
use opdi_core.Master.{Outcome, returned, threw, protocol_exception}
use opdi_core.Master.StringTools.{split, join}
use opdi_core.Master.Protocol.{Connection, send, expect, next_channel}
use opdi_core.Master.Ports.{DigitalPort, SelectPort, digital_port, select_port}
use opdi_core.Master.Conversation.{get_label}

-- The loop of the constructor of a select port, from label `i` on, with the number of labels left.
unfoldable pub get_labels : ℕ → ℕ → SelectPort → Connection → Outcome SelectPort × Connection
unfolding get_label
get_labels zero i port c = (returned port, c)
get_labels (suc left) i port c =
    let (r, c1) = get_label port i c in
    elim r [
      | threw e ↦ (threw e, c1)
      | returned label ↦
          get_labels left (suc i)
            (record port { position_labels = port.position_labels ++ label ∷ [] }) c1
    ]

-- What `PortFactory::createPort` creates.
pub data AnyPort : Type 0 where
  digital : DigitalPort → AnyPort
  select : SelectPort → AnyPort

-- `createPort`, which gives NULL for the other kinds of ports.
unfoldable pub create_port : List Bytes → Connection → Outcome (Option AnyPort) × Connection
unfolding digital_port select_port get_labels strcmp_eq
create_port parts c =
    if strcmp_eq (get_or parts 0 []) digital_port_tag
    then (elim (digital_port parts) [
      | threw e ↦ (threw e, c)
      | returned port ↦ (returned (some (digital port)), c)
    ])
    else (if strcmp_eq (get_or parts 0 []) select_port_tag
        then (elim (select_port parts) [
          | threw e ↦ (threw e, c)
          | returned port ↦
              let (r, c1) = get_labels port.label_count 0 port c in
              elim r [ threw e ↦ (threw e, c1) | returned p ↦ (returned (some (select p)), c1) ]
        ])
        else (returned none, c))

-- `getPortInfo`, on a channel that the caller gives.
unfoldable pub get_port_info : Bytes → ℕ → Connection → Outcome (Option AnyPort) × Connection
unfolding join send expect split create_port
get_port_info id channel c =
    let (r, c1) =
      send
        (record {
          channel = pos channel;
          payload = join message_separator (get_port_info_tag ∷ id ∷ []);
        })
        c in
    elim r [
      | threw e ↦ (threw e, c1)
      | returned sent_on ↦
          let (answer, c2) = expect (pos channel) c1 in
          elim answer [
            | threw e ↦ (threw e, c2)
            | returned m ↦ create_port (split m.payload message_separator) c2
          ]
    ]

abbrev pub id_of : AnyPort → Bytes
id_of (digital port) = port.id
id_of (select port) = port.id

abbrev pub with_port : Option AnyPort → List AnyPort → List AnyPort
with_port none ports = ports
with_port (some port) ports = ports ++ port ∷ []

-- The loop over the IDs; `ports` holds what was created before.
unfoldable pub get_ports :
    List Bytes → ℕ → List AnyPort → Connection → Outcome (List AnyPort) × Connection
unfolding get_port_info
get_ports [] channel ports c = (returned ports, c)
get_ports ([] ∷ ids) channel ports c = get_ports ids channel ports c
get_ports ((ch ∷ id) ∷ ids) channel ports c =
    let (r, c1) = get_port_info (ch ∷ id) channel c in
    elim r [
      | threw e ↦ (threw e, c1)
      | returned port ↦ get_ports ids channel (with_port port ports) c1
    ]

-- The constructor of `BasicDeviceCapabilities`.
unfoldable pub device_capabilities : Bytes → ℕ → Connection → Outcome (List AnyPort) × Connection
unfolding split strcmp_eq get_ports
device_capabilities serial_form channel c =
    let parts = split serial_form b':' in
    if not (length parts == 2)
    then (threw protocol_exception, c)
    else (if not (strcmp_eq (get_or parts 0 []) basic_device_caps_tag)
        then (threw protocol_exception, c)
        else get_ports (split (get_or parts 1 []) b',') channel [] c)

-- `getDeviceCapabilities`, when they are not cached.
unfoldable pub get_device_capabilities : Connection → Outcome (List AnyPort) × Connection
unfolding next_channel send expect device_capabilities
get_device_capabilities c =
    let channel = next_channel c.current_channel in
    let (r, c1) =
      send (record { channel = pos channel; payload = get_device_caps_tag })
        (record c { current_channel = channel }) in
    elim r [
      | threw e ↦ (threw e, c1)
      | returned sent_on ↦
          let (answer, c2) = expect (pos channel) c1 in
          elim answer [
            | threw e ↦ (threw e, c2)
            | returned m ↦ device_capabilities m.payload channel c2
          ]
    ]

-- `findPortByID`.
unfoldable pub find_port_by_id : Bytes → List AnyPort → Option AnyPort
unfolding strcmp_eq
find_port_by_id port_id [] = none
find_port_by_id port_id (port ∷ ports) = elim (strcmp_eq (id_of port) port_id) [
  | true ↦ some port
  | false ↦ find_port_by_id port_id ports
]
