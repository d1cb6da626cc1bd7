-- ===== src/Slave/Tests.antt =====
-- The theorems on the slave at concrete inputs.
pub mod Toy
use opdi_core.Base.{
  strcmp_eq, Option, ◌+◌, to_unsigned, ℕ, ◌≡◌, ◌≢◌, ◌⊎◌, ◌++◌, refl, arith, codes, [], ◌∷◌, none,
  some, true, false, pos, ok, err, Bytes, length, replicate, strcmp_eq,
}
use opdi_core.Constants.{
  authentication_timeout, cannot_send, auth_tag, porttype_dial, porttype_select, position_invalid,
  dir_incoming,
}
use opdi_core.Platform.{
  bytes_to_string, str_to_int64, str_to_uint16, uint16_to_str, digits, string_to_bytes,
}
use opdi_core.Message.{
  decode, detect_separator, find_end, subtract_tail, separator_byte, compare_checksum, nibble_of,
  Message, encode, sum_bytes, payload_sum, put_byte, hex_digit,
}
use opdi_core.Message.Encode.{frame}
use opdi_core.Port.{Port, dial_info, select_info}
use opdi_core.Slave.Tests.Toy.{toy, knob, switch, idle}
use opdi_core.Slave.State.{part, FunctionCode, Device, Slave, Host, call, ◌>>◌}
use opdi_core.Strings.{strings_join, split}
use opdi_core.Slave.Protocol.{send_agreement, join_parts, send_payload, split_message, tag_is}
use opdi_core.Slave.Authentication.{authenticate_lem, IsAccepted, told_username}
use opdi_core.Slave.Transfer.{set_timeout, put_message, get_message, debug}
use opdi_core.Slave.Reception.{get_message-encode, Delivers}
use opdi_core.Slave.Handshake.{check_credentials, authenticate, negotiate, Choice}
use opdi_core.Slave.Negotiation.{negotiate_lem, IsExplained, IsOffered}
use opdi_core.Slave.PortInfo.{port_of, dial_of}
use opdi_core.Slave.PortState.{set_dial_port_position, send_dial_port_state}
use opdi_core.Slave.Positions.{set_dial_port_position_lem, IsOnDial}
use opdi_core.Slave.Session.{serve}
use opdi_core.Slave.Disconnection.{goodbye, serve-goodbye}
use opdi_core.Slave.Loop.{serve_lem, ReportsErrors, IsFailure}

abbrev toy-ReportsErrors : ReportsErrors toy
toy-ReportsErrors = (reports_receive, λ block h. tt)
  where
    reports_receive :
        (timeout can_send : ℕ) (h : Host Bytes) → IsFailure (toy.receive timeout can_send h).0
    reports_receive timeout can_send h =
        elim h.world as (λ w. IsFailure (toy.receive timeout can_send (record h { world = w })).0) [
          | [] ↦ λ q. absurd (omega arith)
          | c ∷ s ↦ tt
        ]

-- A device that demands encryption, and a master that offers its method.
negotiate_lem_example :
    IsExplained
      (true, false)
      (true, false)
      false
      (IsOffered (codes "AES" ∷ []) (codes "AES"))
      (negotiate (pos 1) (codes "AES" ∷ []) 1 (codes "AES"))
unfolding to_unsigned
negotiate_lem_example = negotiate_lem (pos 1) (codes "AES" ∷ []) 1 (codes "AES")

-- A master that forbids encryption gets it from a device that offers it.
forbidden_but_encrypted : negotiate (pos 2) (codes "AES" ∷ []) 0 (codes "AES") ≡ Choice.encrypt
unfolding negotiate to_unsigned strcmp_eq
forbidden_but_encrypted = refl

set_dial_port_position_lem_example :
    (IsOnDial (dial_of (port_of 0 (idle [])).info) (pos 20)
      × (set_dial_port_position toy 1 0 (codes "20") (idle [])
          ≡ (call (toy.set_dial_port_position (port_of 0 (idle [])) (pos 20))
                >> send_dial_port_state toy 1 0)
              (idle [])))
    ⊎ (¬ (IsOnDial (dial_of (port_of 0 (idle [])).info) (pos 20))
        × (set_dial_port_position toy 1 0 (codes "20") (idle []) ≡ (position_invalid, idle [])))
unfolding str_to_int64 strcmp_eq
set_dial_port_position_lem_example =
    set_dial_port_position_lem toy 1 0 (codes "20") (pos 20) (idle []) refl refl (omega arith)

serve_lem_example :
    ((serve toy 3 300 (λ phase h. h) (λ channel s. (0, s)) (idle (codes "1:gDC:0150\n"))).0 ≢ 0)
    × ((serve toy 3 300
          (λ phase h. h)
          (λ channel s. (0, s))
          (idle (codes "1:gDC:0150\n"))).1.connected
        ≡ 0)
serve_lem_example =
    serve_lem toy toy-ReportsErrors 3 300 (λ phase h. h) (λ channel s. (0, s))
      (idle (codes "1:gDC:0150\n"))

toy-Delivers :
    (timeout : ℕ) (s rest : Bytes)
    → Delivers toy timeout
        (record { world = s ++ rest; message = [] })
        s
        (record { world = rest; message = [] })
toy-Delivers timeout [] rest = refl
toy-Delivers timeout (c ∷ s) rest =
    (record { world = s ++ rest; message = [] }, (λ can_send. refl), toy-Delivers timeout s rest)

abbrev pub hello : Message
hello = record { channel = 1; payload = codes "OK" }

pub hello_encoded : encode hello ≡ ok (codes "1:OK:0105\n")
unfolding encode sum_bytes payload_sum put_byte hex_digit uint16_to_str digits string_to_bytes
hello_encoded = refl

abbrev pub hello_text : Bytes
hello_text = codes "1:OK:0105\n"

get_message-encode_example :
    get_message toy (length hello_text + 5) 1 (idle (hello_text ++ codes "2:")) ≡ (
      ok hello,
      (debug toy (frame hello) dir_incoming (record (idle (hello_text ++ codes "2:")) {
        host = record { world = codes "2:"; message = [] };
      })).1,
    )
get_message-encode_example =
    get_message-encode toy 1 5 (idle (hello_text ++ codes "2:")) hello hello_text
      (record { world = codes "2:"; message = [] }) refl refl (omega arith) (omega arith)
      (omega arith) ((λ q. absurd (omega arith)), ((λ q. absurd (omega arith)), tt)) hello_encoded
      (toy-Delivers 100 hello_text (codes "2:"))

toy-IsFailure :
    (code : FunctionCode) (text : Option Bytes) (t : Slave Bytes)
    → IsFailure (toy.slave_callback code text 0 t.host).0
toy-IsFailure code text t = tt

credentials_accepted : (check_credentials toy (idle [])).0 ≡ 0
unfolding check_credentials send_agreement join_parts strings_join send_payload put_message encode
    sum_bytes payload_sum put_byte hex_digit uint16_to_str digits string_to_bytes debug
credentials_accepted = refl

abbrev asked : Slave Bytes
asked = idle (codes "0:Auth:u:p:0355\n")

asked_accepted : (authenticate toy 30 asked).0 ≡ 0
unfolding authenticate check_credentials send_agreement join_parts strings_join send_payload
    put_message encode sum_bytes payload_sum put_byte hex_digit uint16_to_str digits string_to_bytes
    debug get_message decode detect_separator find_end subtract_tail separator_byte compare_checksum
    nibble_of str_to_uint16 bytes_to_string split_message split strcmp_eq
asked_accepted = refl

authenticate_lem_example :
    let s1 = set_timeout authentication_timeout asked in
    (m : Message) × ((get_message toy 30 cannot_send s1).0 ≡ ok m)
    × let t =
        (split_message m.payload false (set_timeout 100 (get_message toy 30 cannot_send s1).1)).1 in
      (tag_is auth_tag t ≡ true)
      × IsAccepted (toy.slave_callback FunctionCode.set_username (part 1 t) 0 t.host).0
      × IsAccepted
          (toy.slave_callback FunctionCode.set_password (part 2 t) 0 (told_username toy t).host).0
authenticate_lem_example =
    authenticate_lem toy 30 asked toy-ReportsErrors toy-IsFailure asked_accepted

goodbye_encoded : encode goodbye ≡ ok (codes "0:Dis:018a\n")
unfolding encode sum_bytes payload_sum put_byte hex_digit uint16_to_str digits string_to_bytes
goodbye_encoded = refl

abbrev goodbye_text : Bytes
goodbye_text = codes "0:Dis:018a\n"

serve-goodbye_example :
    ((serve toy 3
        (length goodbye_text + 5)
        (λ phase h. h)
        (λ channel s. (0, s))
        (idle goodbye_text)).0
      ≡ 1)
    × ((serve toy 3
          (length goodbye_text + 5)
          (λ phase h. h)
          (λ channel s. (0, s))
          (idle goodbye_text)).1.connected
        ≡ 0)
serve-goodbye_example =
    serve-goodbye toy (λ phase h. h) (λ channel s. (0, s)) 2 5 (idle goodbye_text) goodbye_text
      (record { world = []; message = [] }) refl refl goodbye_encoded
      (toy-Delivers 100 goodbye_text [])
