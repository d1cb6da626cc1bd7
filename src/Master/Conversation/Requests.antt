-- ===== src/Master/Conversation/Requests.antt =====
-- What `setMode` of code/c/common/master/opdi_DigitalPort.cpp sends.
use opdi_core.Base.{
  ℕ, ◌<◌, ◌≡◌, refl, ap, ◌∙◌, Bool, true, false, Bytes, List, [], ◌∷◌, ◌++◌, ◌⊎◌, inl, inr, ℤ, pos,
  negsuc, ltb, if◌then◌else◌, Bool-cases, Option, some, none, arith,
}
use opdi_core.Constants.{message_separator, set_digital_port_mode_tag}
use opdi_core.Master.{disconnected_exception, Outcome, returned, threw, invalid_argument}
use opdi_core.Master.OpdiMessage.{OpdiMessage}
use opdi_core.Master.StringTools.{join}
use opdi_core.Master.Protocol.{
  Connection, Wait, send, expect, expect_in, expect_loop, after_loop, next_channel,
}
use opdi_core.Master.Ports.{DigitalPort, check_mode}
use opdi_core.Master.Conversation.{ask, ask_for, take_digital_state, set_mode, set_port_mode}
use opdi_core.Master.Conversation.DigitalState.{digit}

after_loop-sent :
    (b : Bool) (c : Connection) → (after_loop (record c { connected = b })).1.sent ≡ c.sent
unfolding after_loop
after_loop-sent true c = refl
after_loop-sent false c = refl

expect-sent : (channel : ℤ) (c : Connection) → (expect channel c).1.sent ≡ c.sent
unfolding expect expect_in
expect-sent channel c = waited c.waits
  where
    found :
        (w : Wait) (waits : List Wait) (o : Option (Outcome OpdiMessage)) (queue : List OpdiMessage)
        → (let c1 : Connection = record c {
          waits = waits;
          queue = queue;
          connected = w.connected_after;
        } in
            let x : Outcome OpdiMessage × Connection = elim o [
              | none ↦ after_loop c1
              | some outcome ↦ (outcome, c1)
            ] in
            x.1.sent ≡ c.sent)
    found w waits none queue =
        after_loop-sent w.connected_after (record c { waits = waits; queue = queue })
    found w waits (some outcome) queue = refl

    waited :
        (ws : List Wait)
        → (let x : Outcome OpdiMessage × Connection = elim ws [
          | [] ↦ (threw disconnected_exception, record c { connected = false })
          | w ∷ waits ↦ expect_in channel w (record c { waits = waits })
        ] in
            x.1.sent ≡ c.sent)
    waited [] = refl
    waited (w ∷ waits) =
        found w waits (expect_loop channel w.arrivals c.queue).0
          (expect_loop channel w.arrivals c.queue).1

-- The message of a request, on the next channel.
abbrev pub request : Connection → List Bytes → OpdiMessage
request c parts = record {
  channel = pos (next_channel c.current_channel);
  payload = join message_separator parts;
}

-- `ask` behind the sending of its message.
abbrev follow : Outcome ℤ × Connection → Outcome OpdiMessage × Connection
follow (threw e, c) = (threw e, c)
follow (returned sent_on, c) = expect sent_on c

ask-follow :
    (parts : List Bytes) (c : Connection)
    → ask parts c
      ≡ follow
          (send (request c parts) (record c { current_channel = next_channel c.current_channel }))
unfolding ask
ask-follow parts c =
    split_outcome
      (send (request c parts) (record c { current_channel = next_channel c.current_channel })).0
      (send (request c parts) (record c { current_channel = next_channel c.current_channel })).1
  where
    split_outcome :
        (r : Outcome ℤ) (c1 : Connection)
        → (let x : Outcome OpdiMessage × Connection = elim r [
          | threw e ↦ (threw e, c1)
          | returned sent_on ↦ expect sent_on c1
        ] in
            x ≡ follow (r, c1))
    split_outcome (threw e) c1 = refl
    split_outcome (returned sent_on) c1 = refl

send_lem :
    (b : Bool) (m : OpdiMessage) (c : Connection)
    → c.connected ≡ b
    → send m c ≡ (
        if b
        then (returned m.channel, record c { sent = c.sent ++ m ∷ [] })
        else (threw disconnected_exception, c))
unfolding send
send_lem true m c e = rw (send, e) refl
send_lem false m c e = rw (send, e) refl

ask-sent :
    (parts : List Bytes) (c : Connection)
    → ((ask parts c).1.sent ≡ c.sent) ⊎ ((ask parts c).1.sent ≡ c.sent ++ request c parts ∷ [])
ask-sent parts c =
    let c1 : Connection = record c { current_channel = next_channel c.current_channel } in
    let m : OpdiMessage = request c parts in
    elim (Bool-cases c.connected) [
      | inl e ↦ inr (
          ap (λ r. r.1.sent) (ask-follow parts c ∙ ap follow (send_lem true m c1 e))
          ∙ expect-sent m.channel (record c1 { sent = c.sent ++ m ∷ [] }))
      | inr e ↦ inl (ap (λ r. r.1.sent) (ask-follow parts c ∙ ap follow (send_lem false m c1 e)))
    ]

ask_for-sent :
    (own : Bool) (parts : List Bytes) (port : DigitalPort) (c : Connection)
    → (ask_for (take_digital_state own) parts port c).2 ≡ (ask parts c).1
ask_for-sent own parts port c = answered (ask parts c).0 (ask parts c).1
  where
    answered :
        (r : Outcome OpdiMessage) (c1 : Connection)
        → (let x : Outcome (Unit {0}) × DigitalPort × Connection = elim r [
          | threw e ↦ (threw e, port, c1)
          | returned m ↦ ((take_digital_state own port m).0, (take_digital_state own port m).1, c1)
        ] in
            x.2 ≡ c1)
    answered (threw e) c1 = refl
    answered (returned m) c1 = refl

-- What setMode may have sent: one request for the mode, on the channel that is next, and only if the
-- port can have the mode and it is one of the four that the protocol knows.
abbrev pub IsModeRequest : DigitalPort → ℤ → Connection → List OpdiMessage → Type 0
IsModeRequest port mode c sent =
    (check_mode port mode ≡ returned tt)
    × ((n : ℕ) × (n < 4)
        × (mode ≡ pos n)
        × (sent ≡ c.sent ++ request c (set_digital_port_mode_tag ∷ port.id ∷ digit n ∷ []) ∷ []))

below : (n : ℕ) → ltb n 4 ≡ true → n < 4
below n h = ground arith

-- setMode sends nothing or one message, whatever the mode, the port, the connection and the answers are.
-- If it sends a message, then the mode is one of the four modes, the directions and flags of the port
-- allow it, and the message asks for this mode of this port on the channel that is next.
pub set_mode-sent :
    (own : Bool) (mode : ℤ) (port : DigitalPort) (c : Connection)
    → ((set_mode own mode port c).2.sent ≡ c.sent)
      ⊎ IsModeRequest port mode c (set_mode own mode port c).2.sent
unfolding set_mode set_port_mode
set_mode-sent own mode port c = checked (check_mode port mode) refl
  where
    asked :
        (n : ℕ) (b : Bool)
        → (ltb n 4 ≡ b)
        → check_mode port (pos n) ≡ returned tt
        → (let x : Outcome (Unit {0}) × DigitalPort × Connection =
              elim (if b then some (digit n) else none) [
                | none ↦ (threw invalid_argument, port, c)
                | some q ↦
                    ask_for
                      (take_digital_state own)
                      (set_digital_port_mode_tag ∷ port.id ∷ q ∷ [])
                      port
                      c
              ] in
            (x.2.sent ≡ c.sent) ⊎ IsModeRequest port (pos n) c x.2.sent)
    asked n false lt e = inl refl
    asked n true lt e =
        let parts : List Bytes = set_digital_port_mode_tag ∷ port.id ∷ digit n ∷ [] in
        let same = ap (λ k. k.sent) (ask_for-sent own parts port c) in
        elim (ask-sent parts c) [
          | inl q ↦ inl (same ∙ q)
          | inr q ↦ inr (e, (n, below n lt, refl, same ∙ q))
        ]

    modes :
        (z : ℤ)
        → check_mode port z ≡ returned tt
        → ((set_port_mode own z port c).2.sent ≡ c.sent)
          ⊎ IsModeRequest port z c (set_port_mode own z port c).2.sent
    modes (pos n) e = asked n (ltb n 4) refl e
    modes (negsuc n) e = inl refl

    checked :
        (o : Outcome (Unit {0}))
        → check_mode port mode ≡ o
        → (let x : Outcome (Unit {0}) × DigitalPort × Connection = elim o [
          | threw e ↦ (threw e, port, c)
          | returned u ↦ set_port_mode own mode port c
        ] in
            (x.2.sent ≡ c.sent) ⊎ IsModeRequest port mode c x.2.sent)
    checked (threw e) f = inl refl
    checked (returned tt) f = modes mode f
