-- ===== src/Master/Protocol/Channels.antt =====
-- The channels that `getSynchronousChannel` of code/c/common/master/opdi_BasicProtocol.cpp gives out.
use opdi_core.Base.{ℕ, zero, suc, ◌+◌, ◌%◌, ◌≤◌, ◌<◌, ◌≡◌, ap, ◌∙◌, arith}
use opdi_core.Master.Protocol.{next_channel, first_channel, channel_rollover}

-- `currentChannel` after a number of calls.
abbrev pub channel_after : ℕ → ℕ
channel_after zero = first_channel
channel_after (suc n) = next_channel (channel_after n)

next_lem : (n : ℕ) → next_channel (1 + (18 + n) % 99) ≡ 1 + (18 + suc n) % 99
unfolding next_channel
next_lem n = ground arith

-- The n-th channel that getSynchronousChannel gives out, counted from 0, is 1 + (19 + n) % 99. So it
-- is one of 1 to 99, which the slave's decode accepts, and 99 calls in a row give different channels.
pub channel_after_lem :
    (n : ℕ)
    → (channel_after (suc n) ≡ 1 + (19 + n) % 99)
      × (1 ≤ channel_after (suc n))
      × (channel_after (suc n) < channel_rollover)
channel_after_lem n =
    let e : channel_after (suc n) ≡ 1 + (19 + n) % 99 = closed (suc n) ∙ omega arith in
    (e, omega arith, omega arith)
  where
    closed : (k : ℕ) → channel_after k ≡ 1 + (18 + k) % 99
    closed zero = omega arith
    closed (suc k) = ap next_channel (closed k) ∙ next_lem k
