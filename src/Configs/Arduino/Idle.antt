-- ===== src/Configs/Arduino/Idle.antt =====
-- The class `OPDI` of code/c/configs/ArduinoPDI/OPDI.cpp: the idle timeout and the waiting. The time is a
-- uint32_t in milliseconds and is an argument.
pub mod Timeout
use opdi_core.Base.{
  ℕ, ◌+◌, ◌-◌, ◌%◌, ◌^◌, ◌==◌, ltb, leb, if◌then◌else◌, List, [], ◌∷◌, Option, none, some, codes,
}
use opdi_core.Constants.{status_ok}
use opdi_core.Slave.State.{Device, Slave, return, ◌then_run◌}
use opdi_core.Slave.Session.{send_debug, disconnect}

pub record IdleTimer : Type 0 where
  pub idle_timeout_ms : ℕ
  pub last_activity : ℕ

-- `messageHandled`: the status and the slave afterwards, and the timer.
unfoldable pub message_handled :
    {W : Type 0} → Device W → ℕ → ℕ → IdleTimer → Slave W → (ℕ × Slave W) × IdleTimer
message_handled d now channel t s =
    if ltb 0 t.idle_timeout_ms
    then (if leb 20 channel
        then (return status_ok s, record t { last_activity = now })
        else if ltb t.idle_timeout_ms ((now + 2 ^ 32 - t.last_activity) % 2 ^ 32)
        then ((send_debug d (codes "Idle timeout!") then_run disconnect d) s, t)
        else (return status_ok s, t))
    else (return status_ok s, t)

module _ {S : Type 0} where
  -- The ports' `doWork`, in the order of the list, up to the first error.
  unfoldable pub ports_work : List (S → ℕ × S) → S → ℕ × S
  ports_work [] s = (status_ok, s)
  ports_work (work ∷ ports) s =
      let (result, s') = work s in
      let rest = ports_work ports s' in if result == status_ok then rest else (result, s')

  -- `waiting`, with the work function and the ports' functions.
  unfoldable pub waiting : Option (S → ℕ × S) → List (S → ℕ × S) → ℕ → S → ℕ × S
  unfolding ports_work
  waiting none ports can_send s = if can_send == 0 then (status_ok, s) else ports_work ports s
  waiting (some work) ports can_send s =
      let (result, s') = work s in
      if can_send == 0
      then (status_ok, s)
      else if result == status_ok
      then ports_work ports s'
      else (result, s')
