-- ===== src/Master/Ports/Serial.antt =====
-- `serialize` and the constructor of a digital port in code/c/common/master/opdi_DigitalPort.cpp.
use opdi_core.Base.{
  ℕ, ◌^◌, ◌≤◌, ◌<◌, ◌≡◌, ◌≢◌, refl, ap, Bytes, List, [], ◌∷◌, All, arith, magnitude, ℤ, pos, some,
  true, false, ◌==◌,
}
use opdi_core.Constants.{digital_port_tag}
use opdi_core.Platform.{digits, print_nat, print_int, scan, is_digit, is_space, skip_spaces}
use opdi_core.Platform.Print.{scan-digits, print-starts, starts_with_digit}
use opdi_core.Master.{returned}
use opdi_core.Master.StringTools.{split}
use opdi_core.Master.StringTools.RoundTrip.{IsPlain, split-join}
use opdi_core.Master.OpdiMessage.Decode.{IsPlain-digits}
use opdi_core.Master.Protocol.{parse_int, stoi, stoi_sign, leading_number}
use opdi_core.Master.Ports.{
  DigitalPort, PortDirCaps, unknown, input, output, bidirectional, serialize, digital_port,
  check_serial_form, dir_caps_of, dir_caps_number, refresh, mode_unknown, line_unknown,
}

no_sign :
    (c : ℕ) → is_digit c ≡ true → (is_space c ≡ false) × ((c == 45) ≡ false) × ((c == 43) ≡ false)
unfolding is_digit is_space
no_sign c h = ground arith

stoi-digits :
    (s : Bytes) (n : ℕ)
    → starts_with_digit s ≡ true
    → scan s 0 ≡ (n, [])
    → n < 2 ^ 31
    → stoi s ≡ some (pos n)
unfolding stoi stoi_sign leading_number skip_spaces
stoi-digits [] n h e lt = cc
stoi-digits (c ∷ s) n h e lt =
    let (space, minus, plus) = no_sign c h in
    rw (skip_spaces, space, minus, plus, h, e) (ground arith)

stoi-print_nat : (n : ℕ) → n < 2 ^ 31 → stoi (print_nat n) ≡ some (pos n)
unfolding print_nat scan
stoi-print_nat n h =
    stoi-digits (digits 20 n []) n (print-starts 19 n) (scan-digits 20 n [] (omega arith)) h

parse_int-print_nat :
    (n limit : ℕ)
    → n < 2 ^ 31
    → n ≤ limit
    → parse_int (print_nat n) (pos 0) (pos limit) ≡ returned (pos n)
unfolding parse_int
parse_int-print_nat n limit h k = rw (parse_int, stoi-print_nat n h) (ground arith)

IsPlain-print_nat : (n : ℕ) → IsPlain 58 (print_nat n)
unfolding print_nat
IsPlain-print_nat n = IsPlain-digits _ (print-starts 19 n)

-- The number of a direction, as it is printed, is read as this direction.
dir_read :
    (d : PortDirCaps)
    → d ≢ unknown
    → IsPlain 58 (print_int (dir_caps_number d))
      × ((z : ℤ) × (parse_int (print_int (dir_caps_number d)) (pos 0) (pos 2) ≡ returned z)
          × (dir_caps_of z ≡ d))
unfolding print_int dir_caps_number dir_caps_of
dir_read unknown h = absurd (h refl)
dir_read input h =
    (IsPlain-print_nat 0, (pos 0, parse_int-print_nat 0 2 (omega arith) (omega arith), refl))
dir_read output h =
    (IsPlain-print_nat 1, (pos 1, parse_int-print_nat 1 2 (omega arith) (omega arith), refl))
dir_read bidirectional h =
    (IsPlain-print_nat 2, (pos 2, parse_int-print_nat 2 2 (omega arith) (omega arith), refl))

-- The constructor of a digital port reads what serialize writes: the port that it makes has the ID, the
-- name, the directions and the flags of the old one, and an unknown mode and line. The directions are
-- not unknown, the flags are an int that is not negative, and neither the ID nor the name is empty or begins
-- with a blank or a colon.
pub digital_port-serialize :
    (port : DigitalPort)
    → port.dir_caps ≢ unknown
    → port.flags < 2 ^ 31
    → IsPlain 58 port.id
    → IsPlain 58 port.name
    → digital_port (split (serialize port) 58) ≡ returned (refresh port)
unfolding digital_port serialize check_serial_form refresh
digital_port-serialize port known bound id_plain name_plain =
    let (dir_plain, dir) = dir_read port.dir_caps known in
    let (z, read, back) = dir in
    let same : magnitude (pos port.flags) ≡ port.flags = omega arith in
    let parts : List Bytes =
      port.id ∷ port.name ∷ print_int (dir_caps_number port.dir_caps) ∷ print_nat port.flags ∷ [] in
    let all_plain : All (IsPlain 58) (digital_port_tag ∷ parts) = (
      ((λ e. absurd (omega arith)), (λ e. absurd (omega arith))),
      (id_plain, (name_plain, (dir_plain, (IsPlain-print_nat port.flags, tt)))),
    ) in
    rw
      (
        split-join 58 digital_port_tag parts all_plain,
        read,
        back,
        parse_int-print_nat port.flags 2147483647 bound (omega arith),
      )
      (ap (λ n. returned (record port { flags = n; mode = mode_unknown; line = line_unknown }))
        same)
