-- ===== src/Master/Protocol/Tests.antt =====
-- The master's side of the protocol at concrete inputs.
use opdi_core.Base.{
  ℕ, ◌+◌, ◌%◌, ◌≤◌, ◌<◌, ◌≡◌, refl, arith, Bytes, List, [], ◌∷◌, ◌++◌, codes, ℤ, pos, negsuc, ◌≤ℤ◌,
  true, false, Option, some, none, drop,
}
use opdi_core.Platform.{skip_spaces, scan, is_digit, is_space}
use opdi_core.Master.{returned, threw, timeout_exception, protocol_exception}
use opdi_core.Master.OpdiMessage.{OpdiMessage}
use opdi_core.Master.StringTools.{split, split_loop, remove_leading_blank}
use opdi_core.Master.Protocol.{
  Connection, expect, answer_of, parse_int, stoi, stoi_sign, leading_number, next_channel,
  channel_rollover, dispatch, error_of,
}
use opdi_core.Master.Protocol.Channels.{channel_after, channel_after_lem}
use opdi_core.Master.Protocol.Expect.{expect-other_channel, expect-first_arrival}

abbrev ping : OpdiMessage
ping = record { channel = pos 7; payload = codes "hello" }

abbrev reply : OpdiMessage
reply = record { channel = pos 21; payload = codes "DS:d1:3:1" }

abbrev waiting : List OpdiMessage → List (List OpdiMessage) → Connection
waiting queue arrivals = record {
  connected = true;
  sent = [];
  queue = queue;
  waits = record { arrivals = arrivals; connected_after = true } ∷ [];
  timeouts = 0;
  current_channel = 21;
}

-- After channel 99 comes a channel of the streaming ports.
rolls_over : next_channel 99 ≡ 1
unfolding next_channel
rolls_over = refl

-- What follows the digits is not looked at.
parse_trailing : parse_int (codes "12abc") (pos 0) (pos 255) ≡ returned (pos 12)
unfolding parse_int stoi stoi_sign leading_number skip_spaces scan is_digit is_space
parse_trailing = refl

-- An error message without a number makes `dispatch` throw.
dispatch_bad_error :
    dispatch (record { channel = pos 0; payload = codes "Err:no" }) ≡ threw protocol_exception
unfolding dispatch error_of split split_loop remove_leading_blank parse_int stoi stoi_sign
    leading_number skip_spaces is_digit is_space opdi_core.Base.strcmp_eq
dispatch_bad_error = refl

channel_after_lem_example :
    (channel_after 81 ≡ 1 + (19 + 80) % 99)
    × (1 ≤ channel_after 81)
    × (channel_after 81 < channel_rollover)
channel_after_lem_example = channel_after_lem 80

expect-other_channel_example :
    ((expect (pos 21) (waiting (ping ∷ []) ([] ∷ (reply ∷ []) ∷ []))).0 ≡ threw timeout_exception)
    × ((expect (pos 21) (waiting (ping ∷ []) ([] ∷ (reply ∷ []) ∷ []))).1.queue ≡ ping ∷ reply ∷ [])
expect-other_channel_example =
    expect-other_channel (pos 21) ping []
      (record { arrivals = [] ∷ (reply ∷ []) ∷ []; connected_after = true }) []
      (waiting (ping ∷ []) ([] ∷ (reply ∷ []) ∷ [])) refl refl refl

expect-first_arrival_example :
    (expect (pos 21) (waiting [] ([] ∷ (reply ∷ ping ∷ []) ∷ []))).0 ≡ answer_of reply
expect-first_arrival_example =
    expect-first_arrival (pos 21) reply (ping ∷ [])
      (record { arrivals = [] ∷ (reply ∷ ping ∷ []) ∷ []; connected_after = true }) []
      (waiting [] ([] ∷ (reply ∷ ping ∷ []) ∷ [])) refl refl refl refl
