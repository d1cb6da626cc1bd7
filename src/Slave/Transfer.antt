-- ===== src/Slave/Transfer.antt =====
-- Sending and receiving messages: the second half of code/c/common/opdi_message.c.
-- `rounds` bounds the bytes that a call may receive.
use opdi_core.Base.{
  ℕ, zero, suc, ◌+◌, ◌-◌, ◌&&◌, Bool, true, false, Bytes, [], ◌∷◌, ◌++◌, ltb, leb, ◌==◌,
  if◌then◌else◌, set, get_or, take, drop, length, ok, err, Option, none, some, codes,
}
use opdi_core.Constants.{
  status_ok, message_terminator, message_buffer_size, dir_incoming, dir_incoming_encr, dir_outgoing,
  dir_outgoing_encr, dont_use_encryption,
}
use opdi_core.Message.{Message, encode, decode}
use opdi_core.Slave.State.{
  Device, Slave, Action, Fetch, return, ◌>>◌, ◌>>=◌, ◌then_run◌, change, with_slave, call, fetch,
  pure_result, out_of_rounds,
}

unfoldable pub set_encryption : {W : Type 0} → ℕ → Action W
set_encryption enabled = change (λ s. record s { encryption = enabled })

unfoldable pub set_timeout : {W : Type 0} → ℕ → Slave W → Slave W
set_timeout timeout s = record s { timeout = timeout }

unfoldable pub get_timeout : {W : Type 0} → Slave W → ℕ
get_timeout s = s.timeout

-- `opdi_message_setup`; the functions that it stores are those of the `Device`.
unfoldable pub message_setup : {W : Type 0} → Action W
unfolding set_encryption
message_setup = set_encryption dont_use_encryption

-- The string at the start of a buffer, for debug output.
abbrev pub text_of : Bytes → Bytes
text_of [] = []
text_of (c ∷ s) = elim (c == 0) [ true ↦ [] | false ↦ c ∷ text_of s ]

abbrev pub flag : Bool → ℕ
flag true = 1
flag false = 0

-- The index of the first terminator of `msgBuf[from .. from + n)`.
unfoldable pub find_terminator : ℕ → Bytes → ℕ → Option ℕ
find_terminator zero buf i = none
find_terminator (suc n) buf i =
    let rest = find_terminator n buf (i + 1) in
    if get_or buf i 0 == message_terminator then some i else rest

-- `buf[at .. at + length block) = block`.
unfoldable pub splice : Bytes → ℕ → Bytes → Bytes
splice buf at [] = buf
splice buf at (c ∷ s) = splice (set buf at c) (at + 1) s

module _ {W : Type 0} (d : Device W) where
  unfoldable pub debug : Bytes → ℕ → Action W
  debug text direction = call (d.debug_msg text direction) then_run return status_ok

  -- The loop of `opdi_get_message`; `pos` bytes of the buffer are filled.
  unfoldable pub get_plain : ℕ → ℕ → Bytes → ℕ → Fetch W Message
  unfolding debug
  get_plain zero can_send buf pos s = (err out_of_rounds, s)
  get_plain (suc rounds) can_send buf pos s =
      let (r, s1) = fetch (d.receive s.timeout (flag (ltb 0 can_send && pos == 0))) s in
      elim r [
        | err e ↦ (err e, s1)
        | ok byte ↦ elim (byte == message_terminator) [
          | true ↦
              let buf' = set buf pos 0 in
              elim (decode d.below_buffer buf') [
                | ok m ↦ (ok m, (debug (text_of buf') dir_incoming s1).1)
                | err e ↦
                    let s2 = (debug (codes "malformed msg:") dir_incoming s1).1 in
                    let s3 = (debug (text_of buf') dir_incoming s2).1 in
                    get_plain rounds can_send buf' 0 s3
              ]
          | false ↦
              get_plain rounds can_send (set buf pos byte)
                (if leb (message_buffer_size - 1) (pos + 1) then 0 else pos + 1) s1
        ]
      ]

  -- The loop of `get_encrypted`: `pos` bytes of `msgBuf` are decrypted, and `block` holds
  -- `buf[0 .. blockpos)`.
  unfoldable pub get_encrypted : ℕ → ℕ → Bytes → ℕ → Fetch W Message
  unfolding debug find_terminator splice
  get_encrypted zero can_send block pos s = (err out_of_rounds, s)
  get_encrypted (suc rounds) can_send block pos s =
      let (r, s1) =
        fetch (d.receive s.timeout (flag (ltb 0 can_send && (pos == 0 && length block == 0)))) s in
      elim r [
        | err e ↦ (err e, s1)
        | ok byte ↦
            let block' = block ++ byte ∷ [] in
            elim (leb message_buffer_size (pos + length block')) [
              | true ↦ get_encrypted rounds can_send [] 0 s1
              | false ↦ elim (leb d.block_size (length block')) [
                | false ↦ get_encrypted rounds can_send block' pos s1
                | true ↦
                    let (plain, s2) = fetch (d.decrypt_block block') s1 in
                    elim plain [
                      | err e ↦ (err e, s2)
                      | ok bytes ↦
                          let buf = splice s2.msg_buf pos bytes in
                          elim (find_terminator d.block_size buf pos) [
                            | none ↦
                                get_encrypted rounds can_send [] (pos + d.block_size)
                                  (record s2 { msg_buf = buf })
                            | some i ↦
                                let buf' = set buf i 0 in
                                let s3 = record s2 { msg_buf = buf' } in
                                elim (decode d.below_buffer buf') [
                                  | ok m ↦ (ok m, (debug (text_of buf') dir_incoming_encr s3).1)
                                  | err e ↦
                                      let s4 =
                                        (debug (codes "malformed msg:") dir_incoming_encr s3).1 in
                                      let s5 = (debug (text_of buf') dir_incoming_encr s4).1 in
                                      get_encrypted rounds can_send [] 0 s5
                                ]
                          ]
                    ]
              ]
            ]
      ]

  unfoldable pub get_message : ℕ → ℕ → Fetch W Message
  unfolding get_plain get_encrypted
  get_message rounds can_send s =
      if s.encryption == 0
      then get_plain rounds can_send d.stack_bytes 0 s
      else get_encrypted rounds can_send [] 0 s

  -- Blocks are filled up with bytes that are no terminator.
  unfoldable pub pad : ℕ → Bytes → Slave W → Bytes × Slave W
  pad zero block s = (block, s)
  pad (suc n) block s =
      let (b, h) = d.padding s.host in pad n (block ++ b ∷ []) (record s { host = h })

  -- `put_encrypted`: the bytes that are left to send. A block takes at least one of them, so their
  -- number is enough fuel.
  unfoldable pub put_encrypted : ℕ → Bytes → Action W
  unfolding pad
  put_encrypted zero bytes s = (status_ok, s)
  put_encrypted (suc fuel) [] s = (status_ok, s)
  put_encrypted (suc fuel) (c ∷ bytes) s =
      let head = take d.block_size (c ∷ bytes) in
      let (block, s1) = pad (d.block_size - length head) head s in
      (fetch (d.encrypt_block block) >>= λ dest.
      call (d.send dest) >> put_encrypted fuel (drop d.block_size (c ∷ bytes)))
        s1

  -- What `encode` writes stays in `msgBuf`; what a failed `encode` leaves there is not modelled.
  unfoldable pub put_message : Message → Action W
  unfolding debug put_encrypted
  put_message message = pure_result (encode message) >>= λ bytes.
      change (λ s. record s { msg_buf = bytes ++ drop (length bytes) s.msg_buf })
      >> with_slave (λ s.
        debug (take (length bytes - 1) bytes)
          (if s.encryption == 0 then dir_outgoing else dir_outgoing_encr))
      >> with_slave (λ s.
        if s.encryption == 0 then call (d.send bytes) else put_encrypted (length bytes) bytes)
