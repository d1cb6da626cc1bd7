-- ===== src/Slave/Loop.antt =====
-- How the message loop of code/c/common/opdi_slave_protocol.c ends.
use mathlib.Core.Path.{subst}
use opdi_core.Base.{
  ◌++◌, ltb, set, ◌&&◌, ℕ, zero, suc, ◌+◌, ◌≡◌, ◌≢◌, ◌⊎◌, inl, inr, refl, sym, ap, ◌∙◌, Bool, true,
  false, Bool-cases, Bytes, [], ◌∷◌, Option, none, some, ◌==◌, if◌then◌else◌, Result, ok, err,
  arith, leb, length, ltb, set, ◌&&◌,
}
use opdi_core.Constants.{message_unknown, disconnected, error_tag, can_send}
use opdi_core.Platform.{uint8_to_str}
use opdi_core.Message.{Message, decode}
use opdi_core.Slave.State.{Device, Slave, Host, Action, return, ◌>>◌, assign_parts}
use opdi_core.Slave.Transfer.{get_message, get_plain, get_encrypted, flag, find_terminator}
use opdi_core.Slave.Protocol.{send_error, join_parts, send_payload}
use opdi_core.Slave.Session.{handle_message_result, process, message_loop, serve}

pub zero_test : (n : ℕ) → (n == 0) ≡ true → n ≡ 0
zero_test n q = ground arith

-- An error has a status other than OPDI_STATUS_OK.
abbrev pub IsFailure : {A : Type 0} → Result A → Type 0
IsFailure (ok a) = Unit
IsFailure (err e) = e ≢ 0

-- The functions of the device report an error with such a status.
abbrev pub ReportsErrors : {W : Type 0} → Device W → Type 0
ReportsErrors {W} d =
    ((timeout can_send : ℕ) (h : Host W) → IsFailure (d.receive timeout can_send h).0)
    × ((block : Bytes) (h : Host W) → IsFailure (d.decrypt_block block h).0)

abbrev Fails : {W : Type 0} → Result Message × Slave W → Type 0
Fails x = IsFailure x.0

module _ {W : Type 0} where
  -- A sequence that ends well is one whose parts do.
  pub seq_ok : (m k : Action W) (s : Slave W) → ((m >> k) s).0 ≡ 0 → (k (m s).1).0 ≡ 0
  seq_ok m k s h = elim (Bool-cases ((m s).0 == 0)) [
    | inl zero0 ↦ sym (ap (λ b. (if b then k (m s).1 else ((m s).0, (m s).1)).0) zero0) ∙ h
    | inr other ↦ absurd (
        clash (m s).0 other
          (sym (ap (λ b. (if b then k (m s).1 else ((m s).0, (m s).1)).0) other) ∙ h))
  ]
    where
      clash : (n : ℕ) → (n == 0) ≡ false → n ≡ 0 → ⊥
      clash n q e = ground arith

  pub seq_first : (m k : Action W) (s : Slave W) → ((m >> k) s).0 ≡ 0 → (m s).0 ≡ 0
  seq_first m k s h = elim (Bool-cases ((m s).0 == 0)) [
    | inl zero0 ↦ zero_test (m s).0 zero0
    | inr other ↦ sym (ap (λ b. (if b then k (m s).1 else ((m s).0, (m s).1)).0) other) ∙ h
  ]

  -- A branching fails if its branches do.
  by_test :
      (b : Bool) (x y : Result Message × Slave W)
      → IsFailure x.0
      → IsFailure y.0
      → Fails {W = W} (elim b [ true ↦ x | false ↦ y ])
  by_test true x y p q = p
  by_test false x y p q = q

  by_if :
      (b : Bool) (x y : Result Message × Slave W) → Fails x → Fails y → Fails (if b then x else y)
  by_if true x y p q = p
  by_if false x y p q = q

  by_result :
      {A : Type 0} (r : Result A) (s : Slave W) (f : A → Result Message × Slave W)
      → IsFailure r
      → ((a : A) → IsFailure (f a).0)
      → Fails {W = W} (elim r [ ok a ↦ f a | err e ↦ (err e, s) ])
  by_result (ok a) s f p q = q a
  by_result (err e) s f p q = p

  by_option :
      {A : Type 0} (o : Option A) (x : Result Message × Slave W) (f : A → Result Message × Slave W)
      → IsFailure x.0
      → ((a : A) → IsFailure (f a).0)
      → Fails {W = W} (elim o [ none ↦ x | some a ↦ f a ])
  by_option none x f p q = p
  by_option (some a) x f p q = q a

  by_decode :
      (r : Result Message) (f : Message → Slave W) (g : ℕ → Result Message × Slave W)
      → ((e : ℕ) → IsFailure (g e).0)
      → Fails {W = W} (elim r [ ok m ↦ (ok m, f m) | err e ↦ g e ])
  by_decode (ok m) f g q = tt
  by_decode (err e) f g q = q e

  module _ (d : Device W) (reports : ReportsErrors d) where
    get_plain-IsFailure :
        (rounds can_send : ℕ) (buf : Bytes) (at : ℕ) (s : Slave W)
        → IsFailure (get_plain d rounds can_send buf at s).0
    unfolding get_plain
    get_plain-IsFailure zero can_send buf at s = λ q. absurd (omega arith)
    get_plain-IsFailure (suc rounds) can_send buf at s =
        received (λ b k t. get_plain-IsFailure rounds can_send b k t)
          (d.receive s.timeout (flag (ltb 0 can_send && at == 0)) s.host).0 refl
      where
        decoded :
            ((b : Bytes) (k : ℕ) (t : Slave W) → IsFailure (get_plain d rounds can_send b k t).0)
            → (r : Result Message) (byte : ℕ)
            → (d.receive s.timeout (flag (ltb 0 can_send && at == 0)) s.host).0 ≡ ok byte
            → (byte == 10) ≡ true
            → decode d.below_buffer (set buf at 0) ≡ r
            → IsFailure (get_plain d (suc rounds) can_send buf at s).0
        decoded ih (ok m) byte q b e = rw (get_plain, q, b, e) tt
        decoded ih (err x) byte q b e = rw (get_plain, q, b, e) (ih (set buf at 0) 0 _)

        received :
            ((b : Bytes) (k : ℕ) (t : Slave W) → IsFailure (get_plain d rounds can_send b k t).0)
            → (r : Result ℕ) → (d.receive s.timeout (flag (ltb 0 can_send && at == 0)) s.host).0 ≡ r
            → IsFailure (get_plain d (suc rounds) can_send buf at s).0
        received ih (err e) q =
            rw (get_plain, q)
              (subst IsFailure q (reports.0 s.timeout (flag (ltb 0 can_send && at == 0)) s.host))
        received ih (ok byte) q = elim (Bool-cases (byte == 10)) [
          | inl end ↦ decoded ih (decode d.below_buffer (set buf at 0)) byte q end refl
          | inr more ↦ rw (get_plain, q, more) (ih (set buf at byte) _ _)
        ]

    get_encrypted-IsFailure :
        (rounds can_send : ℕ) (block : Bytes) (at : ℕ) (s : Slave W)
        → IsFailure (get_encrypted d rounds can_send block at s).0
    unfolding get_encrypted
    get_encrypted-IsFailure zero can_send block at s = λ q. absurd (omega arith)
    get_encrypted-IsFailure (suc rounds) can_send block at s =
        received (λ b k t. get_encrypted-IsFailure rounds can_send b k t)
          (d.receive s.timeout f s.host).0 refl
      where
        f : ℕ
        f = flag (ltb 0 can_send && (at == 0 && length block == 0))

        received :
            ((b : Bytes) (k : ℕ) (t : Slave W)
              → IsFailure (get_encrypted d rounds can_send b k t).0)
            → (r : Result ℕ) → (d.receive s.timeout f s.host).0 ≡ r
            → IsFailure (get_encrypted d (suc rounds) can_send block at s).0
        received ih (err e) q =
            rw (get_encrypted, q) (subst IsFailure q (reports.0 s.timeout f s.host))
        received ih (ok byte) q =
            rw (get_encrypted, q)
              (by_test (leb 256 (at + length (block ++ byte ∷ []))) _ _ (ih _ _ _) (
                by_test (leb d.block_size (length (block ++ byte ∷ []))) _ _
                  (by_result (d.decrypt_block (block ++ byte ∷ []) _).0 _ _ (reports.1 _ _)
                    (λ bytes.
                      by_option (find_terminator d.block_size _ at) _ _ (ih _ _ _)
                        (λ i. by_decode (decode d.below_buffer _) _ _ (λ e. ih _ _ _))))
                  (ih _ _ _)))

  module _ (d : Device W) where
    -- The status of send_error is never OPDI_STATUS_OK unless that is the code it is given.
    send_error_ok :
        (code : ℕ) (a b : Option Bytes) (s : Slave W) → (send_error d code a b s).0 ≡ 0 → code ≡ 0
    unfolding send_error
    send_error_ok code a b s h =
        seq_ok
          (assign_parts (some error_tag ∷ some (uint8_to_str code) ∷ a ∷ b ∷ none ∷ [])
            >> join_parts
            >> send_payload d 0)
          (return code) s h

    -- handle_message_result returns OPDI_STATUS_OK only for OPDI_STATUS_OK and OPDI_MESSAGE_UNKNOWN,
    -- whatever becomes of the error message that it sends for another status: the message loop does
    -- not go on after any other status of a handler.
    pub handle_message_result_lem :
        (r : ℕ) (s : Slave W)
        → (handle_message_result d r s).0 ≡ 0
        → (r ≡ 0) ⊎ (r ≡ message_unknown)
    unfolding handle_message_result
    handle_message_result_lem r s h =
        pick (r == 0) (r == message_unknown) (r == disconnected) _ _ h (zero_test r)
          (unknown_test r) (send_error_ok r none none s)
      where
        unknown_test : (n : ℕ) → (n == message_unknown) ≡ true → n ≡ message_unknown
        unknown_test n q = ground arith

        pick :
            (b1 b2 b3 : Bool) (f g : Action W)
            → ((if b1 then return r else (if b2 then f else (if b3 then return r else g))) s).0 ≡ 0
            → (b1 ≡ true → r ≡ 0)
            → (b2 ≡ true → r ≡ message_unknown)
            → ((g s).0 ≡ 0 → r ≡ 0)
            → (r ≡ 0) ⊎ (r ≡ message_unknown)
        pick true b2 b3 f g q x y z = inl (x refl)
        pick false true b3 f g q x y z = inr (y refl)
        pick false false true f g q x y z = inl q
        pick false false false f g q x y z = inl (z q)

  module _ (d : Device W) (reports : ReportsErrors d) where
    pub get_message-IsFailure :
        (rounds can_send : ℕ) (s : Slave W) → IsFailure (get_message d rounds can_send s).0
    unfolding get_message
    get_message-IsFailure rounds can_send s =
        by_if (s.encryption == 0) (get_plain d rounds can_send d.stack_bytes 0 s)
          (get_encrypted d rounds can_send [] 0 s)
          (get_plain-IsFailure d reports rounds can_send d.stack_bytes 0 s)
          (get_encrypted-IsFailure d reports rounds can_send [] 0 s)

    -- The message loop never ends with OPDI_STATUS_OK, however many messages it handles and whatever
    -- the handler does, if the device's functions for receiving and decrypting report an error with
    -- a status other than OPDI_STATUS_OK: it ends with an error, with OPDI_DISCONNECTED, or at the
    -- bound on the rounds.
    pub message_loop_lem :
        (rounds bytes : ℕ) (handler : ℕ → Action W) (s : Slave W)
        → (message_loop d rounds bytes handler s).0 ≢ 0
    unfolding message_loop
    message_loop_lem zero bytes handler s h = absurd (omega arith)
    message_loop_lem (suc rounds) bytes handler s h =
        let t : Slave W = (get_message d bytes can_send s).1 in
        let (m, e) =
          answered (get_message d bytes can_send s).0 t
            (λ m. process d handler m >> message_loop d rounds bytes handler) h
            (get_message-IsFailure bytes can_send s) in
        message_loop_lem rounds bytes handler (process d handler m t).1
          (seq_ok (process d handler m) (message_loop d rounds bytes handler) t e)
      where
        answered :
            (r : Result Message) (t : Slave W) (k : Message → Action W)
            → (let x : ℕ × Slave W = elim r [ ok a ↦ k a t | err e ↦ (e, t) ] in x.0 ≡ 0)
            → IsFailure r
            → (m : Message) × ((k m t).0 ≡ 0)
        answered (ok a) t k q p = (a, q)
        answered (err e) t k q p = absurd (p q)

    -- The end of opdi_slave_start, from the notification of the connection on, returns a status other
    -- than OPDI_STATUS_OK and leaves the slave not connected, if the device's functions for receiving
    -- and decrypting report an error with a status other than OPDI_STATUS_OK.
    pub serve_lem :
        (rounds bytes : ℕ) (callback : ℕ → Host W → Host W) (handler : ℕ → Action W) (s : Slave W)
        → ((serve d rounds bytes callback handler s).0 ≢ 0)
          × ((serve d rounds bytes callback handler s).1.connected ≡ 0)
    unfolding serve
    serve_lem rounds bytes callback handler s = (message_loop_lem rounds bytes handler _, refl)
