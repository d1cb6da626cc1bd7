-- ===== src/Master/Handshake/Refusal.antt =====
-- A refused authentication in code/c/common/master/opdi_IODevice.cpp: `getHandshakeMessage` turns a
-- disagreement into another exception before `expectAgreement` sees it.
use opdi_core.Base.{
  ℕ, ◌≡◌, ◌≢◌, refl, sym, ap, ◌∙◌, Bool, true, false, not, Bytes, List, [], ◌∷◌, length, get_or,
  ◌==◌, if◌then◌else◌, pos, eq_ℤ, strcmp_eq,
}
use opdi_core.Constants.{
  message_separator, disconnect_tag, error_tag, disagreement_tag, agreement_tag,
}
use opdi_core.Master.{
  Exception, Outcome, returned, threw, protocol_exception, disconnected_exception, poco_timeout,
  device_exception, disagreement_exception,
}
use opdi_core.Master.OpdiMessage.{OpdiMessage}
use opdi_core.Master.StringTools.{split}
use opdi_core.Master.Protocol.{second_part}
use opdi_core.Master.Handshake.{
  Connector, give, fail, get_handshake_message, check_handshake_message, expect_agreement, confirm,
  reject,
}

-- What is read of a handshake message does not begin with a disagreement.
checked :
    (m : OpdiMessage) (results : List Bytes) (count : ℕ)
    → (check_handshake_message m results count ≢ threw disagreement_exception)
      × ((parts : List Bytes)
          → check_handshake_message m results count ≡ returned parts
          → strcmp_eq (get_or parts 0 []) disagreement_tag ≡ false)
unfolding check_handshake_message
checked m results count =
    tests (not (eq_ℤ m.channel (pos 0))) (strcmp_eq (get_or results 0 []) disconnect_tag)
      (strcmp_eq (get_or results 0 []) error_tag) (strcmp_eq (get_or results 0 []) disagreement_tag)
      (not (length results == count)) refl
  where
    same_parts : {a b : List Bytes} → returned a ≡ returned b → a ≡ b
    same_parts h = cc

    tests :
        (a b c d e : Bool)
        → strcmp_eq (get_or results 0 []) disagreement_tag ≡ d
        → (let x : Outcome (List Bytes) =
              if a
              then threw protocol_exception
              else (if b
                  then threw disconnected_exception
                  else (if c
                      then threw (device_exception (second_part results))
                      else (if d
                          then threw protocol_exception
                          else (if e then threw protocol_exception else returned results)))) in
            (x ≢ threw disagreement_exception)
            × ((parts : List Bytes)
                → x ≡ returned parts
                → strcmp_eq (get_or parts 0 []) disagreement_tag ≡ false))
    tests true b c d e q = ((λ h. cc), (λ parts h. cc))
    tests false true c d e q = ((λ h. cc), (λ parts h. cc))
    tests false false true d e q = ((λ h. cc), (λ parts h. cc))
    tests false false false true e q = ((λ h. cc), (λ parts h. cc))
    tests false false false false true q = ((λ h. cc), (λ parts h. cc))
    tests false false false false false q = (
      (λ h. cc),
      (λ parts h. ap (λ r. strcmp_eq (get_or r 0 []) disagreement_tag) (sym (same_parts h)) ∙ q),
    )

-- `expectAgreement` behind the message that it reads.
abbrev judge : Outcome (List Bytes) × Connector → Outcome (Unit {0}) × Connector
judge (threw e, c) = (threw e, c)
judge (returned reply, c) =
    (if strcmp_eq (get_or reply 0 []) disagreement_tag
        then fail disagreement_exception
        else (if not (strcmp_eq (get_or reply 0 []) agreement_tag)
            then fail protocol_exception
            else give tt))
      c

expect_agreement-judge : (c : Connector) → expect_agreement c ≡ judge (get_handshake_message 1 [] c)
unfolding expect_agreement
expect_agreement-judge c =
    by_outcome (get_handshake_message 1 [] c).0 (get_handshake_message 1 [] c).1
  where
    by_outcome :
        (r : Outcome (List Bytes)) (c1 : Connector)
        → (let x : Outcome (Unit {0}) × Connector = elim r [
          | threw e ↦ (threw e, c1)
          | returned reply ↦
              (if strcmp_eq (get_or reply 0 []) disagreement_tag
                  then fail disagreement_exception
                  else (if not (strcmp_eq (get_or reply 0 []) agreement_tag)
                      then fail protocol_exception
                      else give tt))
                c1
        ] in
            x ≡ judge (r, c1))
    by_outcome (threw e) c1 = refl
    by_outcome (returned reply) c1 = refl

judge_lem :
    (r : Outcome (List Bytes)) (c : Connector)
    → r ≢ threw disagreement_exception
    → ((parts : List Bytes)
        → r ≡ returned parts
        → strcmp_eq (get_or parts 0 []) disagreement_tag ≡ false)
    → ((judge (r, c)).0 ≢ threw disagreement_exception) × ((judge (r, c)).1 ≡ c)
judge_lem (threw e) c h k = ((λ q. h (ap threw (same_exception q))), refl)
  where
    same_exception :
        {a b : Exception} → (let x : Outcome (Unit {0}) = threw a in x ≡ threw b) → a ≡ b
    same_exception q = cc
judge_lem (returned reply) c h k =
    tests (strcmp_eq (get_or reply 0 []) disagreement_tag)
      (not (strcmp_eq (get_or reply 0 []) agreement_tag)) (k reply refl)
  where
    tests :
        (a b : Bool)
        → a ≡ false
        → (let x : Outcome (Unit {0}) × Connector =
              (if a
                  then fail disagreement_exception
                  else (if b then fail protocol_exception else give tt))
                c in
            (x.0 ≢ threw disagreement_exception) × (x.1 ≡ c))
    tests true b q = cc
    tests false true q = ((λ h. cc), refl)
    tests false false q = ((λ h. cc), refl)

nothing : let x : Outcome (List Bytes) = returned [] in x ≢ threw disagreement_exception
nothing h = cc

no_parts :
    (parts : List Bytes)
    → returned [] ≡ returned parts
    → strcmp_eq (get_or parts 0 []) disagreement_tag ≡ false
unfolding strcmp_eq
no_parts [] h = refl
no_parts (p ∷ ps) h = cc

-- What `getHandshakeMessage` leaves of the password, and what it gives.
heard :
    (c : Connector)
    → ((judge (get_handshake_message 1 [] c)).0 ≢ threw disagreement_exception)
      × ((judge (get_handshake_message 1 [] c)).1.password ≡ c.password)
unfolding get_handshake_message
heard c = by_state c.connecting c.replies
  where
    by_state :
        (b : Bool) (rs : List OpdiMessage)
        → (let x : Outcome (List Bytes) × Connector = if not b then (returned [], c) else (elim rs [
          | [] ↦ (threw poco_timeout, c)
          | m ∷ replies ↦ (
            check_handshake_message m (split m.payload message_separator) 1,
            record c { replies = replies },
          )
        ]) in
            ((judge x).0 ≢ threw disagreement_exception) × ((judge x).1.password ≡ c.password))
    by_state false rs =
        let e = judge_lem (returned []) c nothing no_parts in (e.0, ap (λ k. k.password) e.1)
    by_state true [] = ((λ h. cc), refl)
    by_state true (m ∷ replies) =
        let parts = split m.payload message_separator in
        let (other, plain) = checked m parts 1 in
        let e =
          judge_lem (check_handshake_message m parts 1) (record c { replies = replies }) other
            plain in
        (e.0, ap (λ k. k.password) e.1)

-- `confirm` by what `expectAgreement` gives.
abbrev handled : Outcome (Unit {0}) × Connector → Outcome (Unit {0}) × Connector
handled (returned u, c) = (returned tt, c)
handled (threw e, c) = elim e [ disagreement_exception ↦ reject c | caught ↦ (threw caught, c) ]

confirm-handled : (c : Connector) → confirm c ≡ handled (expect_agreement c)
unfolding confirm
confirm-handled c = by_outcome (expect_agreement c).0 (expect_agreement c).1
  where
    by_outcome :
        (r : Outcome (Unit {0})) (c1 : Connector)
        → (let x : Outcome (Unit {0}) × Connector = elim r [
          | returned u ↦ (returned tt, c1)
          | threw e ↦ elim e [ disagreement_exception ↦ reject c1 | caught ↦ (threw caught, c1) ]
        ] in
            x ≡ handled (r, c1))
    by_outcome (threw e) c1 = refl
    by_outcome (returned u) c1 = refl

handled_lem :
    (r : Outcome (Unit {0})) (c : Connector)
    → r ≢ threw disagreement_exception
    → handled (r, c) ≡ (r, c)
handled_lem (returned tt) c h = refl
handled_lem (threw disagreement_exception) c h = absurd (h refl)
handled_lem (threw e) c h = refl

-- The handler of a refused authentication never runs: whatever the device answers to the credentials, the
-- try block around expectAgreement does what expectAgreement does. So the password is kept, and the
-- exception is not DisagreementException, for which the handler is written.
pub confirm_lem :
    (c : Connector)
    → (confirm c ≡ expect_agreement c)
      × ((confirm c).1.password ≡ c.password)
      × ((confirm c).0 ≢ threw disagreement_exception)
confirm_lem c =
    let judged = expect_agreement-judge c in
    let (other, kept) = heard c in
    let not_caught : (expect_agreement c).0 ≢ threw disagreement_exception =
      λ h. other (ap (λ r. r.0) (sym judged) ∙ h) in
    let same : confirm c ≡ expect_agreement c =
      confirm-handled c ∙ handled_lem (expect_agreement c).0 (expect_agreement c).1 not_caught in
    (
      same,
      ap (λ r. r.1.password) (same ∙ judged) ∙ kept,
      λ h. not_caught (ap (λ r. r.0) (sym same) ∙ h),
    )
