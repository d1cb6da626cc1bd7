-- ===== src/Slave/Protocol.antt =====
-- code/c/common/opdi_protocol.c: splitting control messages, and sending answers.
use opdi_core.Base.{
  ℕ, Bool, true, false, Bytes, List, [], ◌∷◌, ◌++◌, Option, none, some, ◌==◌, if◌then◌else◌,
  strcmp_eq, ok, err, map, length, replicate, ◌-◌,
}
use opdi_core.Constants.{
  status_ok, protocol_error, disconnected, device_error, cannot_send, parts_separator,
  max_message_parts, message_payload_length, disconnect_tag, error_tag, disagreement_tag,
  agreement_tag,
}
use opdi_core.Platform.{uint8_to_str}
use opdi_core.Strings.{split, strings_join}
use opdi_core.Slave.State.{
  Device, Slave, Action, Fetch, return, ◌>>◌, with_slave, assign_parts, texts, part,
}
use opdi_core.Slave.Transfer.{get_message, put_message}

-- The array of `n` pointers that begins with the parts and is NULL behind them.
abbrev pub padded : ℕ → List Bytes → List (Option Bytes)
padded n ps = map some ps ++ replicate (n - length ps) none

-- `strings_split` into `opdi_msg_parts`, and the number of parts. An error leaves pointers into a
-- half split text there, which nothing reads; the model keeps the old parts.
unfoldable pub split_message : {W : Type 0} → Bytes → Bool → Fetch W ℕ
split_message payload trim s = elim (split payload parts_separator max_message_parts trim) [
  | err e ↦ (err e, s)
  | ok ps ↦ (ok (length ps), record s { msg_parts = padded max_message_parts ps })
]

-- `0 == strcmp(opdi_msg_parts[0], tag)`.
abbrev pub tag_is : {W : Type 0} → Bytes → Slave W → Bool
tag_is tag s = elim (part 0 s) [ none ↦ false | some t ↦ strcmp_eq t tag ]

-- `strings_join` of `opdi_msg_parts` into `opdi_msg_payload`.
unfoldable pub join_parts : {W : Type 0} → Action W
join_parts s = elim (strings_join s.msg_parts parts_separator message_payload_length) [
  | err e ↦ (e, s)
  | ok payload ↦ (status_ok, record s { msg_payload = payload })
]

module _ {W : Type 0} (d : Device W) where
  unfoldable pub send_payload : ℕ → Action W
  send_payload channel =
      with_slave (λ s. put_message d (record { channel = channel; payload = s.msg_payload }))

  unfoldable pub send_parts : ℕ → Action W
  unfolding join_parts send_payload
  send_parts channel = join_parts >> send_payload channel

  unfoldable pub expect_control_message : ℕ → Fetch W ℕ
  unfolding split_message
  expect_control_message rounds s =
      let (r, s1) = get_message d rounds cannot_send s in
      elim r [
        | err e ↦ (err e, s1)
        | ok m ↦ elim (m.channel == 0) [
          | false ↦ (err protocol_error, s1)
          | true ↦
              let (count, s2) = split_message m.payload true s1 in
              elim count [
                | err e ↦ (err e, s2)
                | ok n ↦
                    if tag_is disconnect_tag s2
                    then (err disconnected, s2)
                    else (if tag_is error_tag s2 then (err device_error, s2) else (ok n, s2))
              ]
        ]
      ]

  -- `send_error` returns the code if the message is sent.
  unfoldable pub send_error : ℕ → Option Bytes → Option Bytes → Action W
  unfolding join_parts send_payload
  send_error code part1 part2 =
      assign_parts (some error_tag ∷ some (uint8_to_str code) ∷ part1 ∷ part2 ∷ none ∷ [])
      >> join_parts
      >> send_payload 0
      >> return code

  unfoldable pub send_disagreement : ℕ → ℕ → Option Bytes → Option Bytes → Action W
  unfolding join_parts send_payload
  send_disagreement channel code part1 part2 =
      assign_parts (some disagreement_tag ∷ some (uint8_to_str code) ∷ part1 ∷ part2 ∷ none ∷ [])
      >> join_parts
      >> send_payload channel

  unfoldable pub send_port_error : ℕ → Bytes → Option Bytes → Option Bytes → Action W
  unfolding join_parts send_payload
  send_port_error channel port_id part1 part2 =
      assign_parts (some error_tag ∷ some port_id ∷ part1 ∷ part2 ∷ none ∷ [])
      >> join_parts
      >> send_payload channel

  unfoldable pub send_agreement : ℕ → Action W
  unfolding join_parts send_payload
  send_agreement channel =
      assign_parts (texts (agreement_tag ∷ [])) >> join_parts >> send_payload channel
