-- ===== src/Master/Protocol.antt =====
-- code/c/common/master/opdi_AbstractProtocol.cpp, and the channels and the control messages of
-- opdi_BasicProtocol.cpp. The input queue is a list of messages, oldest first. A wait lists, for each
-- round of the loop in `expect`, the messages that the receiving thread adds before that round; no other
-- thread takes messages out.
pub mod Channels
pub mod Expect
mod Tests
use opdi_core.Base.{
  ℕ, zero, suc, ◌+◌, ◌-◌, ◌^◌, Bool, true, false, not, Bytes, List, [], ◌∷◌, ◌++◌, length, get_or,
  drop, ltb, leb, ◌==◌, if◌then◌else◌, Option, none, some, ℤ, pos, negsuc, sub_ℕ, ltb_ℤ, eq_ℤ,
  magnitude, strcmp_eq,
}
use opdi_core.Constants.{
  message_separator, disconnect_tag, error_tag, disagreement_tag, debug_tag, refresh_tag,
  reconfigure_tag,
}
use opdi_core.Platform.{skip_spaces, scan, is_digit}
use opdi_core.Master.{
  Outcome, returned, threw, ◌>>=◌, protocol_exception, disconnected_exception, timeout_exception,
  port_access_denied, port_error,
}
use opdi_core.Master.OpdiMessage.{OpdiMessage}
use opdi_core.Master.StringTools.{split, join_some}

-- The number that leading digits spell, if there is one and it does not exceed the bound.
unfoldable pub leading_number : Bytes → ℕ → Option ℕ
unfolding scan is_digit
leading_number [] bound = none
leading_number (c ∷ s) bound =
    let v = (scan (c ∷ s) 0).0 in
    if not (is_digit c) then none else (if ltb bound v then none else some v)

-- `std::stoi`, which ignores what follows the digits; `none` is either of its exceptions.
unfoldable pub stoi_sign : Bytes → Option ℤ
unfolding leading_number
stoi_sign [] = none
stoi_sign (c ∷ s) =
    if c == b'-'
    then elim (leading_number s (2 ^ 31)) [ none ↦ none | some v ↦ some (sub_ℕ 0 v) ]
    else elim (leading_number (if c == b'+' then s else c ∷ s) (2 ^ 31 - 1)) [
      | none ↦ none
      | some v ↦ some (pos v)
    ]

unfoldable pub stoi : Bytes → Option ℤ
unfolding skip_spaces stoi_sign
stoi s = stoi_sign (skip_spaces s)

-- `parseInt`.
unfoldable pub parse_int : Bytes → ℤ → ℤ → Outcome ℤ
unfolding stoi
parse_int s min max = elim (stoi s) [
  | none ↦ threw protocol_exception
  | some value ↦
      if ltb_ℤ value min
      then threw protocol_exception
      else (if ltb_ℤ max value then threw protocol_exception else returned value)
]

-- What happens during one call of `expect`: the messages that arrive before each round, and whether
-- the device is connected afterwards.
pub record Wait : Type 0 where
  pub arrivals : List (List OpdiMessage)
  pub connected_after : Bool

-- The device as the protocol sees it, and `currentChannel`. `waits` are those of the calls of `expect`
-- that are to come; `timeouts` counts the calls of `setError` for a timeout.
pub record Connection : Type 0 where
  pub connected : Bool
  pub sent : List OpdiMessage
  pub queue : List OpdiMessage
  pub waits : List Wait
  pub timeouts : ℕ
  pub current_channel : ℕ

-- `send`: the message goes to the device, and its channel is returned.
unfoldable pub send : OpdiMessage → Connection → Outcome ℤ × Connection
send message c =
    if not c.connected
    then (threw disconnected_exception, c)
    else (returned message.channel, record c { sent = c.sent ++ message ∷ [] })

abbrev pub second_part : List Bytes → Option Bytes
second_part [] = none
second_part (p ∷ []) = none
second_part (p ∷ q ∷ parts) = some q

-- A message with the expected channel.
unfoldable pub answer_of : OpdiMessage → Outcome OpdiMessage
unfolding split strcmp_eq
answer_of message =
    let parts = split message.payload message_separator in
    if ltb (length parts) 1
    then threw protocol_exception
    else (if strcmp_eq (get_or parts 0 []) disagreement_tag
        then threw (port_access_denied (second_part parts))
        else (if strcmp_eq (get_or parts 0 []) error_tag
            then threw (port_error (second_part parts))
            else returned message))

-- The loop of `expect`: what it finds, and the queue. A message for another channel is put back in
-- front of the queue.
unfoldable pub expect_loop :
    ℤ → List (List OpdiMessage) → List OpdiMessage → Option (Outcome OpdiMessage) × List OpdiMessage
unfolding answer_of
expect_loop channel [] queue = (none, queue)
expect_loop channel (arrived ∷ rounds) queue = elim (queue ++ arrived) [
  | [] ↦ expect_loop channel rounds []
  | m ∷ rest ↦ elim (eq_ℤ m.channel channel) [
    | true ↦ (some (answer_of m), rest)
    | false ↦ expect_loop channel rounds (m ∷ rest)
  ]
]

-- Behind the loop.
unfoldable pub after_loop : Connection → Outcome OpdiMessage × Connection
after_loop c =
    if not c.connected
    then (threw disconnected_exception, c)
    else (threw timeout_exception, record c { timeouts = c.timeouts + 1 })

unfoldable pub expect_in : ℤ → Wait → Connection → Outcome OpdiMessage × Connection
unfolding expect_loop after_loop
expect_in channel w c =
    let (found, queue) = expect_loop channel w.arrivals c.queue in
    let c1 : Connection = record c { queue = queue; connected = w.connected_after } in
    elim found [ none ↦ after_loop c1 | some outcome ↦ (outcome, c1) ]

-- `expect`. The channel is not negative in any call. A call for which no wait is left finds the
-- device disconnected.
unfoldable pub expect : ℤ → Connection → Outcome OpdiMessage × Connection
unfolding expect_in
expect channel c = elim c.waits [
  | [] ↦ (threw disconnected_exception, record c { connected = false })
  | w ∷ waits ↦ expect_in channel w (record c { waits = waits })
]

-- `AbstractProtocol::disconnect`.
unfoldable pub disconnect : Connection → Connection
unfolding send
disconnect c = (send (record { channel = pos 0; payload = disconnect_tag }) c).1

abbrev pub highest_streaming : ℕ
highest_streaming = 19

abbrev pub lowest_synchronous : ℕ
lowest_synchronous = highest_streaming + 1

abbrev pub channel_rollover : ℕ
channel_rollover = 100

-- `currentChannel` after the constructor.
abbrev pub first_channel : ℕ
first_channel = lowest_synchronous - 1

-- `getSynchronousChannel`.
unfoldable pub next_channel : ℕ → ℕ
next_channel current_channel =
    let channel = current_channel + 1 in if leb channel_rollover channel then 1 else channel

-- What a control message tells the device.
pub data Notice : Type 0 where
  disconnect_notice : Notice
  reconfigure_notice : Notice
  debug_notice : Bytes → Notice
  refresh_notice : List Bytes → Notice
  error_notice : ℕ → Bytes → Notice

-- The parts of an error message.
unfoldable pub error_of : List Bytes → Outcome (Option Notice)
unfolding parse_int join_some
error_of parts =
    let text = if ltb 2 (length parts) then join_some 2 0 message_separator parts else [] in
    if ltb 1 (length parts)
    then (elim (parse_int (get_or parts 1 []) (pos 0) (pos 255)) [
      | threw e ↦ threw e
      | returned error ↦ returned (some (error_notice (magnitude error) text))
    ])
    else returned (some (error_notice 0 text))

-- `dispatch`: what it tells the device, or nothing if it returns false.
unfoldable pub dispatch : OpdiMessage → Outcome (Option Notice)
unfolding split error_of
dispatch message =
    if not (eq_ℤ message.channel (pos 0))
    then returned none
    else (if strcmp_eq message.payload disconnect_tag
        then returned (some disconnect_notice)
        else (if strcmp_eq message.payload reconfigure_tag
            then returned (some reconfigure_notice)
            else (let parts = split message.payload message_separator in
                let tag = get_or parts 0 [] in
                if strcmp_eq tag debug_tag
                then returned (some (debug_notice (join_some 1 0 message_separator parts)))
                else (if strcmp_eq tag refresh_tag
                    then returned (some (refresh_notice (drop 1 parts)))
                    else (if strcmp_eq tag error_tag then error_of parts else returned none)))))
