-- ===== src/Master/Conversation/Tests.antt =====
-- Requests of the master at concrete inputs.
use opdi_core.Base.{
  ◌+◌, ◌<◌, ◌≡◌, ◌⊎◌, inl, refl, arith, Bytes, [], ◌∷◌, codes, pos, negsuc, true, map, some, ok,
  length,
}
use opdi_core.Constants.{digital_port_state_tag}
use opdi_core.Strings.{strings_join}
use opdi_core.Master.{returned}
use opdi_core.Master.StringTools.{join, join_some, join_loop, join_chars, not_empty}
use opdi_core.Master.StringTools.RoundTrip.{IsPlain}
use opdi_core.Master.Protocol.{Connection}
use opdi_core.Master.Ports.{DigitalPort, bidirectional, check_mode, has_pullup, has_pulldown}
use opdi_core.Master.Conversation.{take_digital_state, set_mode}
use opdi_core.Master.Conversation.DigitalState.{digit, take_digital_state-strings_join}
use opdi_core.Master.Conversation.Requests.{set_mode-sent, IsModeRequest}
use opdi_core.Master.Conversation.Safety.{IsAllowed}
use opdi_core.Master.Conversation.Calls.{
  run_calls, call_get_state, call_set_mode, call_refresh, run_calls-IsAllowed,
}

abbrev lamp : DigitalPort
lamp = record {
  id = codes "d1";
  name = codes "Lamp";
  dir_caps = bidirectional;
  flags = 1;
  mode = negsuc 0;
  line = negsuc 0;
}

abbrev answered : Connection
answered = record {
  connected = true;
  sent = [];
  queue = [];
  waits =
      record {
        arrivals = (record { channel = pos 20; payload = codes "DS:d1:1:0" } ∷ []) ∷ [];
        connected_after = true;
      }
      ∷ [];
  timeouts = 0;
  current_channel = 19;
}

lamp_output : check_mode lamp (pos 3) ≡ returned tt
unfolding check_mode has_pullup has_pulldown
lamp_output = refl

lamp-IsPlain : IsPlain 58 lamp.id
lamp-IsPlain = ((λ e. absurd (omega arith)), (λ e. absurd (omega arith)))

lamp_short : length (join 58 (digital_port_state_tag ∷ lamp.id ∷ digit 3 ∷ digit 1 ∷ [])) + 1 < 247
unfolding join join_some join_loop join_chars not_empty
lamp_short = omega arith

take_digital_state-strings_join_example :
    (payload : Bytes) × (strings_join
        (map some (digital_port_state_tag ∷ lamp.id ∷ digit 3 ∷ digit 1 ∷ []))
        58
        247
      ≡ ok payload)
    × (take_digital_state true lamp (record { channel = pos 20; payload = payload })
        ≡ (returned tt, record lamp { mode = pos 3; line = pos 1 }))
take_digital_state-strings_join_example =
    take_digital_state-strings_join lamp (pos 20) 3 1 247 (omega arith) (omega arith) lamp_output
      lamp-IsPlain lamp_short

run_calls-IsAllowed_example :
    IsAllowed
      (run_calls true (call_set_mode (pos 1) ∷ call_get_state ∷ call_refresh ∷ []) lamp answered).0
run_calls-IsAllowed_example =
    run_calls-IsAllowed true (call_set_mode (pos 1) ∷ call_get_state ∷ call_refresh ∷ []) lamp
      answered (inl refl)

set_mode-sent_example :
    ((set_mode true (pos 1) lamp answered).2.sent ≡ [])
    ⊎ IsModeRequest lamp (pos 1) answered (set_mode true (pos 1) lamp answered).2.sent
set_mode-sent_example = set_mode-sent true (pos 1) lamp answered
