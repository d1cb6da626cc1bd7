-- ===== src/Slave/Authentication.antt =====
-- What a successful authentication rests on: the end of `opdi_slave_start` in
-- code/c/common/opdi_slave_protocol.c.
use opdi_core.Base.{
  List, length, ℕ, ◌≡◌, ◌≢◌, refl, sym, ap, ◌∙◌, Bool, true, false, Bool-cases, inl, inr, Bytes,
  ◌==◌, if◌then◌else◌, Option, none, some, Result, ok, err, arith, codes,
}
use opdi_core.Constants.{
  authentication_failed, authentication_timeout, authentication_expected, auth_tag, cannot_send,
}
use opdi_core.Slave.State.{
  Device, Slave, FunctionCode, Action, return, ◌>>◌, ◌>>=◌, ◌then_run◌, fetch, part,
}
use opdi_core.Slave.Protocol.{send_agreement, send_disagreement, split_message, tag_is, padded}
use opdi_core.Slave.Handshake.{tell_device, check_credentials, authenticate}
use opdi_core.Slave.Transfer.{get_message, set_timeout, get_timeout}
use opdi_core.Strings.{split}
use opdi_core.Strings.Split.{split_lem}
use opdi_core.Message.{Message}
use opdi_core.Slave.Loop.{
  IsFailure, seq_ok, seq_first, zero_test, ReportsErrors, get_message-IsFailure,
}

abbrev pub IsAccepted : {A : Type 0} → Result A → Type 0
IsAccepted (ok a) = Unit
IsAccepted (err e) = ⊥

module _ {W : Type 0} (d : Device W) where
  -- The state behind the user name.
  abbrev pub told_username : Slave W → Slave W
  told_username s = (tell_device d FunctionCode.set_username (part 1 s) s).1

  tell_device_ok :
      (code : FunctionCode) (text : Option Bytes) (s : Slave W)
      → IsFailure (d.slave_callback code text 0 s.host).0
      → (tell_device d code text s).0 ≡ 0
      → IsAccepted (d.slave_callback code text 0 s.host).0
  tell_device_ok code text s f h = told (d.slave_callback code text 0 s.host).0 f h
    where
      told :
          (r : Result Bytes)
          → IsFailure r
          → (let x : ℕ × Slave W = elim r [
            | ok b ↦ (0, (fetch (d.slave_callback code text 0) s).1)
            | err e ↦ (e, (fetch (d.slave_callback code text 0) s).1)
          ] in
              x.0 ≡ 0)
          → IsAccepted r
      told (ok b) p q = tt
      told (err e) p q = absurd (p q)

  -- The check of the credentials returns OPDI_STATUS_OK only if the device has accepted the second
  -- part of the message as the user name and, after that, the third part as the password. The
  -- callback reports a refusal with a status other than OPDI_STATUS_OK.
  pub check_credentials_lem :
      (s : Slave W)
      → ((code : FunctionCode) (text : Option Bytes) (t : Slave W)
          → IsFailure (d.slave_callback code text 0 t.host).0)
      → (check_credentials d s).0 ≡ 0
      → IsAccepted (d.slave_callback FunctionCode.set_username (part 1 s) 0 s.host).0
        × IsAccepted
            (d.slave_callback FunctionCode.set_password (part 2 s) 0 (told_username s).host).0
  unfolding check_credentials
  check_credentials_lem s reports h =
      let told : ℕ × Slave W =
        (tell_device d FunctionCode.set_username (part 1 s)
            >> tell_device d FunctionCode.set_password (part 2 s))
          s in
      let both : told.0 ≡ 0 =
        accepted told.0 (send_agreement d 0 told.1)
          ((send_disagreement d 0 authentication_failed (some (codes "Authentication failed")) none
              then_run return authentication_failed)
            told.1)
          h (λ q. absurd (omega arith)) in
      (
        tell_device_ok FunctionCode.set_username (part 1 s) s (reports _ _ s) (
            seq_first (tell_device d FunctionCode.set_username (part 1 s))
              (tell_device d FunctionCode.set_password (part 2 s)) s both),
        tell_device_ok FunctionCode.set_password (part 2 s) (told_username s)
            (reports _ _ (told_username s))
            (seq_ok (tell_device d FunctionCode.set_username (part 1 s))
              (tell_device d FunctionCode.set_password (part 2 s)) s both),
      )
    where
      accepted : (r : ℕ) (f g : ℕ × Slave W) → (if r == 0 then f else g).0 ≡ 0 → g.0 ≢ 0 → r ≡ 0
      accepted r f g q p = elim (Bool-cases (r == 0)) [
        | inl zero0 ↦ zero_test r zero0
        | inr other ↦ absurd (p (sym (ap (λ b. (if b then f else g).0) other) ∙ q))
      ]

-- A step with an out parameter in a sequence that returns OPDI_STATUS_OK has succeeded.
bind_ok :
    {W A : Type 0} (r : Result A) (k : A → ℕ × Slave W) (t : Slave W)
    → IsFailure r
    → (let x : ℕ × Slave W = elim r [ ok a ↦ k a | err e ↦ (e, t) ] in x.0 ≡ 0)
    → (a : A) × (r ≡ ok a) × ((k a).0 ≡ 0)
bind_ok (ok a) k t f h = (a, refl, h)
bind_ok (err e) k t f h = absurd (f h)

split_message-IsFailure :
    {W : Type 0} (payload : Bytes) (trim : Bool) (s : Slave W)
    → IsFailure (split_message payload trim s).0
unfolding split_message
split_message-IsFailure {W = W} payload trim s =
    passed_on (split payload b':' 16 trim) (split_lem payload b':' 16 trim)
  where
    passed_on :
        (r : Result (List Bytes))
        → ((e : ℕ) → r ≡ err e → e ≡ 9)
        → (let x : Result ℕ × Slave W = elim r [
          | err e ↦ (err e, s)
          | ok ps ↦ (ok (length ps), record s { msg_parts = padded 16 ps })
        ] in
            IsFailure x.0)
    passed_on (ok ps) f = tt
    passed_on (err e) f = λ q. absurd (omega (arith, f e refl, q))

-- Authentication returns OPDI_STATUS_OK only if a message came in, its first part is the tag of an
-- authentication, and the device has accepted its second part as the user name and, after that, its
-- third part as the password. The device's functions report errors and refusals with a status other
-- than OPDI_STATUS_OK.
pub authenticate_lem :
    {W : Type 0} (d : Device W) (rounds : ℕ) (s : Slave W)
    → ReportsErrors d
    → ((code : FunctionCode) (text : Option Bytes) (t : Slave W)
        → IsFailure (d.slave_callback code text 0 t.host).0)
    → (authenticate d rounds s).0 ≡ 0
    → let s1 = set_timeout authentication_timeout s in
      (m : Message) × ((get_message d rounds cannot_send s1).0 ≡ ok m)
      × let t =
          (split_message m.payload false
            (set_timeout s.timeout (get_message d rounds cannot_send s1).1)).1 in
        (tag_is auth_tag t ≡ true)
        × IsAccepted (d.slave_callback FunctionCode.set_username (part 1 t) 0 t.host).0
        × IsAccepted
            (d.slave_callback FunctionCode.set_password (part 2 t) 0 (told_username d t).host).0
unfolding authenticate get_timeout
authenticate_lem {W = W} d rounds s reports told h =
    let s1 : Slave W = set_timeout authentication_timeout s in
    let got : Result Message × Slave W = get_message d rounds cannot_send s1 in
    let s2 : Slave W = set_timeout s.timeout got.1 in
    let wrong : Action W =
      send_disagreement d 0 authentication_expected none none
      then_run return authentication_expected in
    let checked : Action W = λ t. if tag_is auth_tag t then check_credentials d t else wrong t in
    let (m, came, rest) =
      bind_ok got.0 (λ m. (split_message m.payload false >>= λ count. checked) s2) s2
        (get_message-IsFailure d reports rounds cannot_send s1) h in
    let t : Slave W = (split_message m.payload false s2).1 in
    let (count, parted, last) =
      bind_ok (split_message m.payload false s2).0 (λ count. checked t) t
        (split_message-IsFailure m.payload false s2) rest in
    let (tagged, fine) =
      by_tag (tag_is auth_tag t) (check_credentials d t) (wrong t) (λ q. absurd (omega arith))
        last in
    let (user, password) = check_credentials_lem d t told fine in
    (m, came, (tagged, user, password))
  where
    by_tag :
        (b : Bool) (f g : ℕ × Slave W)
        → g.0 ≢ 0
        → (if b then f else g).0 ≡ 0
        → (b ≡ true) × (f.0 ≡ 0)
    by_tag true f g p q = (refl, q)
    by_tag false f g p q = absurd (p q)
