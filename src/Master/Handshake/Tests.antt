-- ===== src/Master/Handshake/Tests.antt =====
-- The master's handshake at concrete inputs.
use opdi_core.Base.{
  ℕ, ◌≡◌, ◌≢◌, refl, Bytes, List, [], ◌∷◌, codes, pos, true, false, Bool, Option, some, none,
}
use opdi_core.Platform.{print_int, print_nat, digits, skip_spaces, is_space, scan, is_digit}
use opdi_core.Message.{hex_digit}
use opdi_core.Master.{returned, threw, protocol_exception, disagreement_exception}
use opdi_core.Master.OpdiMessage.{OpdiMessage, encode, checksum_loop}
use opdi_core.Master.StringTools.{
  split, split_loop, remove_leading_blank, join, join_some, join_loop, join_chars, not_empty,
}
use opdi_core.Master.Protocol.{parse_int, stoi, stoi_sign, leading_number}
use opdi_core.Master.Handshake.{
  Connector, shake_hands, send_synchronous, get_handshake_message, check_handshake_message,
  answer_reply, check_version, read_flags, check_encryption, choose_protocol, find_protocol,
  complete, confirm, expect_agreement,
}
use opdi_core.Master.Handshake.Refusal.{confirm_lem}

abbrev control : Bytes → OpdiMessage
control payload = record { channel = pos 0; payload = payload }

abbrev connecting_to : List OpdiMessage → Connector
connecting_to replies = record {
  connecting = true;
  replies = replies;
  sent = [];
  flags = pos 0;
  user = codes "me";
  password = codes "secret";
  device_name = [];
  has_protocol = false;
}

abbrev not_newer : Bytes → Option Bool
not_newer version = some false

abbrev no_credentials : Bytes → Bytes → Bool → Option (Bytes × Bytes × Bool)
no_credentials user password save = none

-- A device without authentication.
connects :
    (shake_hands not_newer no_credentials
      (codes "Test")
      (connecting_to (control (codes "OPDI:0.1: : :0:EP,BP") ∷ control (codes "OK:Device") ∷ []))).0
    ≡ returned true
unfolding shake_hands join join_some join_loop join_chars not_empty print_int print_nat digits
    send_synchronous encode checksum_loop hex_digit get_handshake_message check_handshake_message
    split split_loop remove_leading_blank answer_reply check_version read_flags parse_int stoi
    stoi_sign leading_number skip_spaces is_space scan is_digit check_encryption choose_protocol
    find_protocol complete opdi_core.Base.strcmp_eq opdi_core.Base.to_unsigned
connects = refl

abbrev refused : Connector
refused = connecting_to (control (codes "NOK:17") ∷ [])

refused_outcome : (confirm refused).0 ≡ threw protocol_exception
unfolding confirm expect_agreement get_handshake_message check_handshake_message split split_loop
    remove_leading_blank opdi_core.Base.strcmp_eq
refused_outcome = refl

confirm_lem_example :
    (confirm refused ≡ expect_agreement refused)
    × ((confirm refused).1.password ≡ codes "secret")
    × ((confirm refused).0 ≢ threw disagreement_exception)
confirm_lem_example = confirm_lem refused
