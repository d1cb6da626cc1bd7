-- ===== src/Configs/Arduino/Idle/Timeout.antt =====
-- When an idle connection is ended.
use opdi_core.Base.{
  ℕ, ◌+◌, ◌-◌, ◌%◌, ◌^◌, ◌≤◌, ◌<◌, ◌≡◌, ◌⊎◌, inl, inr, refl, true, ltb, leb, codes, arith,
  Bool-cases,
}
use opdi_core.Constants.{status_ok}
use opdi_core.Slave.State.{Device, Slave, ◌then_run◌}
use opdi_core.Slave.Session.{send_debug, disconnect}
use opdi_core.Configs.Arduino.Idle.{IdleTimer, message_handled}

-- The difference of two readings of a counter of 32 bits that may have wrapped around.
elapsed :
    (start now : ℕ)
    → start ≤ now
    → now < start + 2 ^ 32
    → (now % 2 ^ 32 + 2 ^ 32 - start % 2 ^ 32) % 2 ^ 32 ≡ now - start
elapsed start now h k = omega arith

ltb-true : (a b : ℕ) → a < b → ltb a b ≡ true
ltb-true a b h = ground arith

-- What `messageHandled` does at the time `now`, when the last activity was at `start`.
abbrev pub TimesOut : {W : Type 0} → Device W → ℕ → ℕ → ℕ → IdleTimer → Slave W → Type 0
TimesOut d start now channel t s =
    let result = message_handled d (now % 2 ^ 32) channel t s in
    ((20 ≤ channel)
      × (result.0 ≡ (status_ok, s))
      × (result.1.last_activity ≡ now % 2 ^ 32)
      × (result.1.idle_timeout_ms ≡ t.idle_timeout_ms))
    ⊎ (((channel < 20)
          × (t.idle_timeout_ms < now - start)
          × (result ≡ ((send_debug d (codes "Idle timeout!") then_run disconnect d) s, t)))
        ⊎ ((channel < 20) × (now - start ≤ t.idle_timeout_ms) × (result ≡ ((status_ok, s), t))))

-- The idle timeout does what it says also when the clock of 32 bits wraps around: a message on a
-- channel from 20 on resets the time of the last activity and is accepted; another message ends the
-- connection if and only if more than the timeout has passed since then, and it changes nothing
-- else. The timeout is not 0, and less than 2^32 milliseconds have passed since the last activity.
pub message_handled_lem :
    {W : Type 0} (d : Device W) (start now channel : ℕ) (t : IdleTimer) (s : Slave W)
    → 0 < t.idle_timeout_ms
    → t.last_activity ≡ start % 2 ^ 32
    → start ≤ now
    → now < start + 2 ^ 32
    → TimesOut d start now channel t s
unfolding message_handled
message_handled_lem d start now channel t s on last order near =
    let gap : (now % 2 ^ 32 + 2 ^ 32 - t.last_activity) % 2 ^ 32 ≡ now - start =
      omega (arith, last, elapsed start now order near) in
    elim (Bool-cases (leb 20 channel)) [
      | inl request ↦
          rw (ltb-true 0 t.idle_timeout_ms on, request) (inl (ground arith, refl, refl, refl))
      | inr control ↦ elim (Bool-cases (ltb t.idle_timeout_ms (now - start))) [
        | inl late ↦
            rw (ltb-true 0 t.idle_timeout_ms on, control, gap, late)
              (inr (inl (ground arith, ground arith, refl)))
        | inr early ↦
            rw (ltb-true 0 t.idle_timeout_ms on, control, gap, early)
              (inr (inr (ground arith, ground arith, refl)))
      ]
    ]
