-- ===== src/Master/Conversation/DigitalState.antt =====
-- The state of a digital port from the parts that code/c/common/opdi_slave_protocol.c joins to the port of
-- code/c/common/master/opdi_DigitalPort.cpp.
use opdi_core.Base.{
  ℕ, zero, suc, ◌+◌, ◌≤◌, ◌<◌, ◌≡◌, refl, true, Bytes, List, [], ◌∷◌, All, length, arith, ℤ, pos,
  map, some, ok, strcmp_eq_refl,
}
use opdi_core.Constants.{digital_port_state_tag}
use opdi_core.Strings.{strings_join}
use opdi_core.Platform.{is_space, is_digit, skip_spaces, scan}
use opdi_core.Master.{returned}
use opdi_core.Master.StringTools.{join}
use opdi_core.Master.StringTools.RoundTrip.{IsPlain, split-join}
use opdi_core.Master.StringTools.Agreement.{strings_join-join}
use opdi_core.Master.Protocol.{parse_int, stoi, stoi_sign, leading_number}
use opdi_core.Master.Ports.{DigitalPort, check_mode, set_port_state, set_port_line}
use opdi_core.Master.Conversation.{take_digital_state, check_answer}

-- The digit of a mode or of a line.
abbrev pub digit : ℕ → Bytes
digit n = (b'0' + n) ∷ []

stoi-digit : (n : ℕ) → n < 4 → stoi (digit n) ≡ some (pos n)
unfolding stoi stoi_sign leading_number skip_spaces scan is_digit is_space
stoi-digit zero h = refl
stoi-digit (suc zero) h = refl
stoi-digit (suc (suc zero)) h = refl
stoi-digit (suc (suc (suc zero))) h = refl
stoi-digit (suc (suc (suc (suc n)))) h = absurd (omega arith)

parse_int-digit :
    (n limit : ℕ) → n < 4 → n ≤ limit → parse_int (digit n) (pos 0) (pos limit) ≡ returned (pos n)
unfolding parse_int
parse_int-digit n limit h k = rw (parse_int, stoi-digit n h) (ground arith)

-- What the slave says about a digital port is what the master then holds: the text that strings_join makes of
-- the tag, the ID of the port, the digit of a mode and the digit of a line gives the port this mode and
-- this line. The mode is 0 to 3 and one that the port can have, the line is 0 or 1, the ID is not empty and
-- begins neither with a blank nor with a colon, and the text leaves two bytes of the slave's payload free.
pub take_digital_state-strings_join :
    (port : DigitalPort) (channel : ℤ) (mode line max_length : ℕ)
    → mode < 4
    → line < 2
    → check_mode port (pos mode) ≡ returned tt
    → IsPlain 58 port.id
    → length (join 58 (digital_port_state_tag ∷ port.id ∷ digit mode ∷ digit line ∷ [])) + 1
      < max_length
    → (payload : Bytes) × (strings_join
          (map some (digital_port_state_tag ∷ port.id ∷ digit mode ∷ digit line ∷ []))
          58
          max_length
        ≡ ok payload)
      × (take_digital_state true port (record { channel = channel; payload = payload })
          ≡ (returned tt, record port { mode = pos mode; line = pos line }))
unfolding take_digital_state check_answer set_port_state set_port_line
take_digital_state-strings_join port channel mode line max_length m l allowed plain room =
    let parts : List Bytes = port.id ∷ digit mode ∷ digit line ∷ [] in
    let all_plain : All (IsPlain 58) (digital_port_state_tag ∷ parts) = (
      ((λ e. absurd (omega arith)), (λ e. absurd (omega arith))),
      (
        plain,
        (
          ((λ e. absurd (omega arith)), (λ e. absurd (omega arith))),
          (((λ e. absurd (omega arith)), (λ e. absurd (omega arith))), tt),
        ),
      ),
    ) in
    (
      join 58 (digital_port_state_tag ∷ parts),
      strings_join-join 58 max_length digital_port_state_tag parts all_plain room,
      rw
          (
            split-join 58 digital_port_state_tag parts all_plain,
            strcmp_eq_refl port.id,
            parse_int-digit mode 3 m (omega arith),
            allowed,
            parse_int-digit line 1 (omega arith) (omega arith),
          )
          refl,
    )
