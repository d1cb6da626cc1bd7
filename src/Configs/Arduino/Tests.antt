-- ===== src/Configs/Arduino/Tests.antt =====
-- Runs of the Arduino library at concrete inputs.
use opdi_core.Base.{◌+◌, ◌-◌, ◌^◌, ◌≡◌, refl, arith, codes, [], ◌∷◌}
use opdi_core.Slave.Tests.Toy.{toy, idle}
use opdi_core.Configs.Arduino.Idle.Timeout.{TimesOut, message_handled_lem}
use opdi_core.Configs.Arduino.Pins.{
  change_mode, change_line, digital_port_pin, run, command, set_line, set_mode,
  get_digital_port_state,
}
use opdi_core.Configs.Arduino.Pins.Agreement.{Agrees, run-Agrees}

-- The slave makes a pin an output and sets its line.
run-Agrees_example : Agrees (
    run
      (change_mode (codes "3") ∷ (change_line (codes "1") ∷ []))
      (digital_port_pin (codes "2") 4 13))
run-Agrees_example =
    run-Agrees (change_mode (codes "3") ∷ (change_line (codes "1") ∷ [])) (codes "2") 4 13

output_is_high :
    get_digital_port_state 0 (
      run
        (change_mode (codes "3") ∷ (change_line (codes "1") ∷ []))
        (digital_port_pin (codes "2") 4 13))
    ≡ (codes "3", codes "1")
unfolding run command set_mode set_line digital_port_pin get_digital_port_state
output_is_high = refl

-- 71 seconds without activity, in which the clock wraps around, and a timeout of one minute.
message_handled_lem_example :
    TimesOut toy
      (2 ^ 32 - 1000)
      (2 ^ 32 + 70000)
      0
      (record { idle_timeout_ms = 60000; last_activity = 2 ^ 32 - 1000 })
      (idle [])
message_handled_lem_example =
    message_handled_lem toy (2 ^ 32 - 1000) (2 ^ 32 + 70000) 0
      (record { idle_timeout_ms = 60000; last_activity = 2 ^ 32 - 1000 }) (idle []) (omega arith)
      (omega arith) (omega arith) (omega arith)
