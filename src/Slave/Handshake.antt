-- ===== src/Slave/Handshake.antt =====
-- The handshake of `opdi_slave_start` in code/c/common/opdi_slave_protocol.c: the choice of the
-- encryption, the reply, the choice of the protocol and the authentication.
use opdi_core.Base.{
  ℕ, ◌/◌, ◌%◌, Bool, true, false, not, ◌||◌, Bytes, List, [], ◌∷◌, Option, none, some, ◌==◌,
  if◌then◌else◌, length, ℤ, pos, to_unsigned, strcmp_eq, Result, ok, err, codes,
}
use opdi_core.Constants.{
  status_ok, protocol_error, protocol_not_supported, encryption_not_supported, encryption_required,
  authentication_expected, authentication_failed, use_encryption, cannot_send,
  authentication_timeout, flag_encryption_required, flag_encryption_not_allowed,
  flag_authentication_required, function_buffersize, max_encryptions, handshake, handshake_version,
  basic_protocol_magic, extended_protocol_magic, agreement_tag, auth_tag,
}
use opdi_core.Platform.{int32_to_str, str_to_int32}
use opdi_core.Strings.{split}
use opdi_core.Message.{Message}
use opdi_core.Slave.State.{
  Device, Action, Fetch, FunctionCode, return, ◌>>◌, ◌>>=◌, ◌then_run◌, with_slave, fetch,
  pure_result, assign_parts, texts, part,
}
use opdi_core.Slave.Transfer.{get_message, set_encryption, set_timeout, get_timeout}
use opdi_core.Slave.Protocol.{
  split_message, tag_is, join_parts, send_payload, send_disagreement, send_agreement,
}

-- A part that the count of parts says is there.
abbrev pub text_at : Option Bytes → Bytes
text_at none = []
text_at (some t) = t

-- `flags & mask` for a mask of one bit.
abbrev pub has_flag : ℕ → ℕ → Bool
has_flag flags mask = flags / mask % 2 == 1

-- `flags & mask` for the int32_t of the master.
abbrev pub int_has_flag : ℤ → ℕ → Bool
int_has_flag flags mask = has_flag (to_unsigned 32 flags) mask

-- What the negotiation ends with: an encryption, none, or a disagreement with its texts.
pub data Choice : Type 0 where
  encrypt : Choice
  plain : Choice
  refuse : ℕ → Bytes → Bytes → Choice

-- Does the list of the master's encryptions hold the device's?
unfoldable pub supports : List Bytes → Bytes → Bool
supports [] method = false
supports (e ∷ es) method = elim (strcmp_eq e method) [ true ↦ true | false ↦ supports es method ]

-- The choice from the master's flags and encryptions and the device's flags and method.
unfoldable pub negotiate : ℤ → List Bytes → ℕ → Bytes → Choice
unfolding supports
negotiate flags encryptions device_flags method =
    if int_has_flag flags flag_encryption_required
    then (if has_flag device_flags flag_encryption_not_allowed || length method == 0
        then refuse encryption_not_supported (codes "Encryption not supported: ")
            (codes "by device")
        else (if supports encryptions method
            then encrypt
            else refuse encryption_not_supported (codes "Encryption not supported: ") method))
    else (if has_flag device_flags flag_encryption_required
        then (if int_has_flag flags flag_encryption_not_allowed
            then refuse encryption_required (codes "Encryption required: ") (codes "by device")
            else (if supports encryptions method
                then encrypt
                else refuse encryption_required (codes "Encryption required: ") method))
        else (if has_flag device_flags flag_encryption_not_allowed
            then plain
            else (if supports encryptions method then encrypt else plain)))

-- The device's protocols, by their tags; `none` for NULL.
abbrev pub Protocols : Type 0 → Type 0
Protocols W = Option (Bytes → Option (ℕ → Action W))

-- The protocol that the master selects.
unfoldable pub select_protocol :
    {W : Type 0} → (ℕ → Action W) → (ℕ → Action W) → Protocols W → Bytes → Result (ℕ → Action W)
select_protocol basic extended protocols tag =
    if strcmp_eq tag extended_protocol_magic
    then ok extended
    else (if strcmp_eq tag basic_protocol_magic then ok basic else (elim protocols [
      | none ↦ err protocol_not_supported
      | some get_protocol ↦ elim (get_protocol tag) [ none ↦ ok basic | some handler ↦ ok handler ]
    ]))

module _ {W : Type 0} (d : Device W) where
  -- Answer to a choice; `k` gets whether to encrypt.
  unfoldable pub act_on : Choice → (Bool → Action W) → Action W
  act_on encrypt k = k true
  act_on plain k = k false
  act_on (refuse code text1 text2) k =
      send_disagreement d 0 code (some text1) (some text2) then_run return code

  -- The handshake message of the master: four parts, the tag, the version, the flags and the
  -- encryptions.
  unfoldable pub read_handshake : Message → (ℤ → List Bytes → Action W) → Action W
  unfolding split_message
  read_handshake message k =
      (λ s. (if message.channel == 0 then status_ok else protocol_error, s))
      >> (split_message message.payload true >>= λ count s.
          if not (count == 4)
            || (not (tag_is handshake s) || not (strcmp_eq (text_at (part 1 s)) handshake_version))
          then (protocol_error, s)
          else (pure_result (str_to_int32 (text_at (part 2 s))) >>= λ flags.
                pure_result (split (text_at (part 3 s)) b',' max_encryptions true) >>= k flags)
              s)

  -- A callback that fills a buffer.
  unfoldable pub ask_device : FunctionCode → Fetch W Bytes
  ask_device code = fetch (d.slave_callback code (some []) function_buffersize)

  -- The reply, and encryption from there on.
  unfoldable pub reply_handshake : Bool → Action W
  unfolding join_parts ask_device set_encryption
  reply_handshake encrypted = ask_device FunctionCode.get_encoding >>= λ encoding.
      ask_device FunctionCode.get_supported_protocols >>= λ protocols.
      assign_parts (
        texts (
          handshake
          ∷ handshake_version
          ∷ encoding
          ∷ (if encrypted then d.encryption_method else [])
          ∷ int32_to_str (pos d.device_flags)
          ∷ protocols
          ∷ []))
      >> join_parts
      >> send_payload d 0
      >> (if encrypted then set_encryption use_encryption else return status_ok)

  abbrev pub tell_device : FunctionCode → Option Bytes → Action W
  tell_device code text = fetch (d.slave_callback code text 0) >>= λ buffer. return status_ok

  -- The master's name and languages, and the slave's name in answer.
  unfoldable pub exchange_names : Action W
  unfolding join_parts ask_device
  exchange_names = with_slave λ s.
      tell_device FunctionCode.set_master_name (part 2 s)
      >> tell_device FunctionCode.set_languages (part 1 s)
      >> (ask_device FunctionCode.get_config_name >>= λ name.
          assign_parts (texts (agreement_tag ∷ name ∷ [])) >> join_parts >> send_payload d 0)

  -- The user name and the password, and what the master is told. `opdi_set_timeout` is given the
  -- saved timeout whatever the outcome of the read.
  unfoldable pub check_credentials : Action W
  check_credentials s =
      let (r, s1) =
        (tell_device FunctionCode.set_username (part 1 s)
            >> tell_device FunctionCode.set_password (part 2 s))
          s in
      if r == status_ok
      then send_agreement d 0 s1
      else (send_disagreement d 0 authentication_failed (some (codes "Authentication failed")) none
            then_run return authentication_failed)
          s1

  unfoldable pub authenticate : ℕ → Action W
  unfolding split_message set_timeout get_timeout check_credentials
  authenticate rounds s =
      let saved = get_timeout s in
      let (r, s1) = get_message d rounds cannot_send (set_timeout authentication_timeout s) in
      let s2 = set_timeout saved s1 in
      (pure_result r >>= λ m. split_message m.payload false >>= λ count t.
      if tag_is auth_tag t
      then check_credentials t
      else (send_disagreement d 0 authentication_expected none none
            then_run return authentication_expected)
          t)
        s2

  -- Authentication, if the device requires it.
  unfoldable pub authenticate_if_required : ℕ → Action W
  unfolding authenticate
  authenticate_if_required rounds =
      if has_flag d.device_flags flag_authentication_required
      then authenticate rounds
      else return status_ok
