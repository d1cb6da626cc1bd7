-- ===== src/Master/Protocol/Expect.antt =====
-- What `expect` of code/c/common/master/opdi_AbstractProtocol.cpp returns, and what it leaves in the queue.
use opdi_core.Base.{
  ◌≡◌, refl, sym, ap, ◌∙◌, Bool, true, false, List, [], ◌∷◌, ◌++◌, Option, none, some, ℤ, eq_ℤ,
  append_assoc, append-nil, if◌then◌else◌,
}
use opdi_core.Master.{Outcome, threw, timeout_exception, disconnected_exception}
use opdi_core.Master.OpdiMessage.{OpdiMessage}
use opdi_core.Master.Protocol.{
  Connection, Wait, expect, expect_in, expect_loop, after_loop, answer_of,
}

-- The messages of a wait in the order of their arrival.
abbrev pub arrived : List (List OpdiMessage) → List OpdiMessage
arrived [] = []
arrived (ms ∷ rounds) = ms ++ arrived rounds

-- The loop finds the first message of the queue, or none.
first_only :
    (channel : ℤ) (m : OpdiMessage) (rest : List OpdiMessage) (rounds : List (List OpdiMessage))
    → eq_ℤ m.channel channel ≡ false
    → expect_loop channel rounds (m ∷ rest) ≡ (none, m ∷ (rest ++ arrived rounds))
unfolding expect_loop
first_only channel m rest [] e = ap (λ q. (none, m ∷ q)) (sym (append-nil rest))
first_only channel m rest (ms ∷ rounds) e =
    rw (expect_loop, e)
      (first_only channel m (rest ++ ms) rounds e
        ∙ ap (λ q. (none, m ∷ q)) (append_assoc rest ms (arrived rounds)))

-- Behind the loop, by what it has found.
abbrev outcome_of : Option (Outcome OpdiMessage) → Connection → Outcome OpdiMessage × Connection
outcome_of none c = after_loop c
outcome_of (some outcome) c = (outcome, c)

expect_step :
    (channel : ℤ) (w : Wait) (waits : List Wait) (c : Connection)
    (found : Option (Outcome OpdiMessage)) (queue : List OpdiMessage)
    → c.waits ≡ w ∷ waits
    → expect_loop channel w.arrivals c.queue ≡ (found, queue)
    → expect channel c
      ≡ outcome_of found (record c { waits = waits; queue = queue; connected = w.connected_after })
unfolding expect expect_in
expect_step channel w waits c none queue f e =
    rw (expect, f, expect_in, e)
      (ap
        (λ q.
          outcome_of none (record c { waits = waits; queue = q; connected = w.connected_after }))
        (ap (λ r. r.1) e))
expect_step channel w waits c (some outcome) queue f e =
    rw (expect, f, expect_in, e)
      (ap
        (λ q.
          outcome_of (some outcome)
            (record c { waits = waits; queue = q; connected = w.connected_after }))
        (ap (λ r. r.1) e))

after_loop_lem :
    (b : Bool) (c : Connection)
    → ((after_loop (record c { connected = b })).0
        ≡ threw (if b then timeout_exception else disconnected_exception))
      × ((after_loop (record c { connected = b })).1.queue ≡ c.queue)
unfolding after_loop
after_loop_lem true c = (refl, refl)
after_loop_lem false c = (refl, refl)

-- A message for another channel at the head of the queue keeps `expect` from every message behind it:
-- whatever arrives during the call, also the answer, it throws, because the time is up or because the device
-- is not connected any more, and all messages are left in the queue.
pub expect-other_channel :
    (channel : ℤ) (m : OpdiMessage) (rest : List OpdiMessage) (w : Wait) (waits : List Wait)
    (c : Connection)
    → c.queue ≡ m ∷ rest
    → c.waits ≡ w ∷ waits
    → eq_ℤ m.channel channel ≡ false
    → ((expect channel c).0
        ≡ threw (if w.connected_after then timeout_exception else disconnected_exception))
      × ((expect channel c).1.queue ≡ m ∷ (rest ++ arrived w.arrivals))
expect-other_channel channel m rest w waits c e f other =
    let stuck =
      ap (expect_loop channel w.arrivals) e ∙ first_only channel m rest w.arrivals other in
    let step = expect_step channel w waits c none (m ∷ (rest ++ arrived w.arrivals)) f stuck in
    let after =
      after_loop_lem w.connected_after
        (record c { waits = waits; queue = m ∷ (rest ++ arrived w.arrivals) }) in
    (ap (λ r. r.0) step ∙ after.0, ap (λ r. r.1.queue) step ∙ after.1)

loop-first :
    (channel : ℤ) (m : OpdiMessage) (rest : List OpdiMessage) (rounds : List (List OpdiMessage))
    → arrived rounds ≡ m ∷ rest
    → eq_ℤ m.channel channel ≡ true
    → (queue : List OpdiMessage) × (expect_loop channel rounds [] ≡ (some (answer_of m), queue))
unfolding expect_loop
loop-first channel m rest [] e same = cc
loop-first channel m rest ([] ∷ rounds) e same = loop-first channel m rest rounds e same
loop-first channel m rest ((n ∷ ns) ∷ rounds) e same =
    let first : n ≡ m = cc in
    (ns, rw (expect_loop, first, same) (ap (λ k. (some (answer_of k), ns)) first))

-- The answer that is the first message to arrive is found: if the queue is empty when `expect` is
-- called and the first message that arrives during the call has the channel, then `expect` gives this
-- message, or the exception that its first part stands for, whatever arrives behind it.
pub expect-first_arrival :
    (channel : ℤ) (m : OpdiMessage) (rest : List OpdiMessage) (w : Wait) (waits : List Wait)
    (c : Connection)
    → c.queue ≡ []
    → c.waits ≡ w ∷ waits
    → arrived w.arrivals ≡ m ∷ rest
    → eq_ℤ m.channel channel ≡ true
    → (expect channel c).0 ≡ answer_of m
expect-first_arrival channel m rest w waits c e f g same =
    let (queue, found) = loop-first channel m rest w.arrivals g same in
    ap (λ r. r.0)
      (expect_step channel w waits c (some (answer_of m)) queue f
        (ap (expect_loop channel w.arrivals) e ∙ found))
