-- ===== src/Master/Handshake.antt =====
-- The master's side of the handshake, in code/c/common/master/opdi_IODevice.cpp. What each call of
-- `receiveHandshakeMessage` gives is a list of messages, behind which it times out. The encryption is
-- NO_ENCRYPTION throughout: `connect` clears it and the code that would set it is commented out. The
-- comparison of versions, over the number parser of the POCO library, the credentials of the listener and the
-- name of the master are parameters.
pub mod Refusal
mod Tests
use opdi_core.Base.{
  ℕ, ◌+◌, ◌-◌, ◌^◌, Bool, true, false, not, ◌&&◌, ◌||◌, Bytes, List, [], ◌∷◌, ◌++◌, length, get_or,
  ◌==◌, if◌then◌else◌, Option, none, some, ℤ, pos, negsuc, eq_ℤ, strcmp_eq, codes,
}
use opdi_core.Constants.{
  message_separator, handshake, handshake_version, disconnect_tag, error_tag, disagreement_tag,
  agreement_tag, auth_tag, flag_encryption_required, flag_authentication_required,
}
use opdi_core.Platform.{print_int}
use opdi_core.Slave.Handshake.{int_has_flag}
use opdi_core.Master.{
  Exception, Outcome, returned, threw, protocol_exception, disconnected_exception, poco_timeout,
  device_exception, disagreement_exception, authentication_exception, cancelled_exception,
}
use opdi_core.Master.OpdiMessage.{OpdiMessage, encode}
use opdi_core.Master.StringTools.{split, join}
use opdi_core.Master.Protocol.{parse_int, second_part}

-- The fields of a device that the handshake uses; `has_protocol` tells whether `protocol` is set.
pub record Connector : Type 0 where
  pub connecting : Bool
  pub replies : List OpdiMessage
  pub sent : List OpdiMessage
  pub flags : ℤ
  pub user : Bytes
  pub password : Bytes
  pub device_name : Bytes
  pub has_protocol : Bool

-- A part of the handshake.
abbrev pub Step : Type 0 → Type 0
Step A = Connector → Outcome A × Connector

abbrev pub give : {A : Type 0} → A → Step A
give a c = (returned a, c)

abbrev pub fail : {A : Type 0} → Exception → Step A
fail e c = (threw e, c)

infixl 5 ◌>>=◌
abbrev pub ◌>>=◌ : {A B : Type 0} → Step A → (A → Step B) → Step B
(step >>= next) c =
    let (r, c1) = step c in elim r [ threw e ↦ (threw e, c1) | returned a ↦ next a c1 ]

infixl 5 ◌>>◌
abbrev pub ◌>>◌ : {A B : Type 0} → Step A → Step B → Step B
first >> next = first >>= λ ignored. next

-- `sendSynchronous`, with the exception of `encode`.
unfoldable pub send_synchronous : Bytes → Step (Unit {0})
unfolding encode
send_synchronous payload c =
    let message : OpdiMessage = record { channel = pos 0; payload = payload } in
    elim (encode message 1024) [
      | threw e ↦ (threw e, c)
      | returned written ↦ (returned tt, record c { sent = c.sent ++ message ∷ [] })
    ]

-- `getHandshakeMessage` behind the splitting of the message.
unfoldable pub check_handshake_message : OpdiMessage → List Bytes → ℕ → Outcome (List Bytes)
unfolding strcmp_eq
check_handshake_message m results expected_part_count =
    if not (eq_ℤ m.channel (pos 0))
    then threw protocol_exception
    else (if strcmp_eq (get_or results 0 []) disconnect_tag
        then threw disconnected_exception
        else (if strcmp_eq (get_or results 0 []) error_tag
            then threw (device_exception (second_part results))
            else (if strcmp_eq (get_or results 0 []) disagreement_tag
                then threw protocol_exception
                else (if not (length results == expected_part_count)
                    then threw protocol_exception
                    else returned results))))

-- `getHandshakeMessage`, whose `results` stay as they are if the device is not connecting.
unfoldable pub get_handshake_message : ℕ → List Bytes → Step (List Bytes)
unfolding split check_handshake_message
get_handshake_message expected_part_count results c =
    if not c.connecting then (returned results, c) else (elim c.replies [
      | [] ↦ (threw poco_timeout, c)
      | m ∷ replies ↦ (
        check_handshake_message m (split m.payload message_separator) expected_part_count,
        record c { replies = replies },
      )
    ])

-- `expectAgreement`.
unfoldable pub expect_agreement : Step (Unit {0})
unfolding get_handshake_message
expect_agreement = get_handshake_message 1 [] >>= λ reply.
    (if strcmp_eq (get_or reply 0 []) disagreement_tag
      then fail disagreement_exception
      else (if not (strcmp_eq (get_or reply 0 []) agreement_tag)
          then fail protocol_exception
          else give tt))

-- Whether `ProtocolFactory::getProtocol` knows one of the names.
unfoldable pub find_protocol : List Bytes → Bool
find_protocol [] = false
find_protocol (p ∷ protos) = elim (strcmp_eq p (codes "BP")) [
  | true ↦ true
  | false ↦ find_protocol protos
]

abbrev pub is_empty : Bytes → Bool
is_empty [] = true
is_empty (ch ∷ s) = false

-- The handler of the disagreement.
unfoldable pub reject : Step (Unit {0})
unfolding send_synchronous
reject c =
    (send_synchronous disconnect_tag >> fail authentication_exception) (record c { password = [] })

-- `try { expectAgreement(); } catch (DisagreementException e) { ... }`.
unfoldable pub confirm : Step (Unit {0})
unfolding expect_agreement reject
confirm c =
    let (r, c1) = expect_agreement c in
    elim r [
      | returned u ↦ (returned tt, c1)
      | threw e ↦ elim e [ disagreement_exception ↦ reject c1 | caught ↦ (threw caught, c1) ]
    ]

unfoldable pub save_credentials : Bool → Bytes → Bytes → Step (Unit {0})
save_credentials save user password c =
    if save then (returned tt, record c { user = user; password = password }) else (returned tt, c)

-- The authentication with these credentials.
unfoldable pub authenticate_with : Bytes × Bytes × Bool → Step (Unit {0})
unfolding join send_synchronous confirm save_credentials
authenticate_with (user, password, save) =
    send_synchronous (join message_separator (auth_tag ∷ user ∷ password ∷ []))
    >> confirm
    >> save_credentials save user password

module _ (is_newer : Bytes → Option Bool)
    (get_credentials : Bytes → Bytes → Bool → Option (Bytes × Bytes × Bool))
    (master_name : Bytes) where
  -- The credentials of the device, or those of the listener if they are incomplete.
  unfoldable pub credentials : Connector → Option (Bytes × Bytes × Bool)
  credentials c =
      let save = not (is_empty c.user) && not (is_empty c.password) in
      if is_empty c.user || is_empty c.password
      then get_credentials c.user c.password save
      else some (c.user, c.password, save)

  unfoldable pub authenticate : Step (Unit {0})
  unfolding credentials authenticate_with
  authenticate c = elim (credentials c) [
    | none ↦ (threw cancelled_exception, c)
    | some given ↦ authenticate_with given c
  ]

  -- The test of the version that the device has sent.
  unfoldable pub check_version : Bytes → Step (Unit {0})
  unfolding send_synchronous
  check_version version = elim (is_newer version) [
    | none ↦ fail protocol_exception
    | some newer ↦
        if newer then (send_synchronous disagreement_tag >> fail protocol_exception) else give tt
  ]

  -- The flags of the device, an `int`.
  unfoldable pub read_flags : Bytes → Step ℤ
  unfolding parse_int
  read_flags text = elim (parse_int text (negsuc (2 ^ 31 - 1)) (pos (2 ^ 31 - 1))) [
    | threw e ↦ fail protocol_exception
    | returned flags ↦ give flags
  ]

  unfoldable pub check_encryption : Step (Unit {0})
  check_encryption c =
      if int_has_flag c.flags flag_encryption_required
      then (threw protocol_exception, c)
      else (returned tt, c)

  unfoldable pub choose_protocol : Bytes → Step (Unit {0})
  unfolding split find_protocol send_synchronous
  choose_protocol names =
      if find_protocol (split names b',')
      then give tt
      else (send_synchronous disagreement_tag >> fail protocol_exception)

  -- The name of the device is there: authentication, if the device requires it, and the end.
  unfoldable pub complete : ℤ → Bytes → Step Bool
  unfolding authenticate
  complete device_flags name c =
      ((if int_has_flag device_flags flag_authentication_required then authenticate else give tt)
          >> (λ c2. (returned true, record c2 { has_protocol = true })))
        (record c { device_name = name })

  -- `handshake` from the reply of the device on; false is NULL.
  unfoldable pub answer_reply : List Bytes → Step Bool
  unfolding check_version read_flags check_encryption choose_protocol complete get_handshake_message
      strcmp_eq
  answer_reply parts =
      if not (strcmp_eq (get_or parts 0 []) handshake)
      then fail protocol_exception
      else (check_version (get_or parts 1 [])
          >> (read_flags (get_or parts 4 []) >>= λ device_flags.
              check_encryption
              >> choose_protocol (get_or parts 5 [])
              >> send_synchronous (join message_separator (codes "BP" ∷ [] ∷ master_name ∷ []))
              >> (get_handshake_message 2 parts >>= λ named.
                  if not (strcmp_eq (get_or named 0 []) agreement_tag)
                  then give false
                  else complete device_flags (get_or named 1 []))))

  unfoldable pub shake_hands : Step Bool
  unfolding join send_synchronous get_handshake_message answer_reply print_int
  shake_hands c =
      (send_synchronous
            (join message_separator (handshake ∷ handshake_version ∷ print_int c.flags ∷ [] ∷ []))
          >> (get_handshake_message 6 [] >>= answer_reply))
        c
