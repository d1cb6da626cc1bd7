-- ===== src/Slave/Encrypted/Blocks.antt =====
-- `get_encrypted` on the blocks that carry a message.
use opdi_core.Base.{
  ◌*◌, ℕ, suc, ◌+◌, ◌≤◌, ◌<◌, ◌≡◌, ◌≢◌, refl, ap, sym, ◌∙◌, List, Bytes, [], ◌∷◌, ◌++◌, length, map,
  length-append, append_assoc, append-nil, subst, Lacks, All, All-split, arith, drop, length-drop,
  set, ok,
}
use opdi_core.Constants.{message_terminator, dir_incoming_encr}
use opdi_core.Message.{Message, decode}
use opdi_core.Slave.State.{Device, Slave, Host}
use opdi_core.Slave.Reception.{set_behind}
use opdi_core.Slave.Transfer.{get_encrypted, splice, debug, text_of, find_terminator}
use opdi_core.Slave.Encrypted.{Cipher, Receives, Carries, concat}
use opdi_core.Slave.Encrypted.Buffer.{splice_lem, find_none, find_some}
use opdi_core.Slave.Encrypted.Receiving.{collect, fill_block, end_message, received, may_send}

pub suc_times : (n k : ℕ) → suc n * k ≡ k + n * k
suc_times n k = grind arith

-- The last byte of a block.
unsnoc : (b : Bytes) → 0 < length b → (front : Bytes) × (c : ℕ) × (b ≡ front ++ c ∷ [])
unsnoc [] h = absurd (omega arith)
unsnoc (x ∷ []) h = ([], x, refl)
unsnoc (x ∷ (y ∷ b)) h =
    let (front, c, eq) = unsnoc (y ∷ b) (omega arith) in (x ∷ front, c, ap (λ t. x ∷ t) eq)

module _ {W : Type 0} (d : Device W) (cipher : Cipher d.block_size) (receives : Receives d cipher)
    (can_send : ℕ) where
  -- The bytes of an encrypted block come in; what is left is the last of them.
  pub take_front :
      (b q : Bytes) (pos rounds : ℕ) (s : Slave W)
      → 0 < d.block_size
      → length b ≡ d.block_size
      → receives.queue s.host ≡ cipher.encrypt b ++ q
      → pos + d.block_size ≤ 256
      → (front : Bytes) × (c : ℕ) × (h : Host W) × (cipher.encrypt b ≡ front ++ c ∷ [])
        × (receives.queue h ≡ c ∷ q)
        × (get_encrypted d (d.block_size + rounds) can_send [] pos s
            ≡ get_encrypted d (suc rounds) can_send front pos (record s { host = h }))
  take_front b q pos rounds s positive len queue fits =
      let size = cipher.length-encrypt b len in
      let (front, c, shape) = unsnoc (cipher.encrypt b) (omega arith) in
      let count : length front + 1 ≡ d.block_size =
        omega (arith, ap length shape, length-append {0} front (c ∷ []), size) in
      let (h, rest, eq) =
        collect d cipher receives can_send front [] (c ∷ q) pos (suc rounds) s
          (queue ∙ ap (λ t. t ++ q) shape ∙ append_assoc front (c ∷ []) q) (omega arith) fits in
      (front, c, h, shape, rest, ap (λ t. get_encrypted d t can_send [] pos s) (omega arith) ∙ eq)

  -- A block without a terminator goes to the buffer.
  pub pass_block :
      (b q pre tail : Bytes) (rounds : ℕ) (s : Slave W)
      → 0 < d.block_size
      → length b ≡ d.block_size
      → receives.queue s.host ≡ cipher.encrypt b ++ q
      → s.msg_buf ≡ pre ++ tail
      → length pre + length tail ≡ 256
      → length pre + d.block_size < 256
      → Lacks message_terminator b
      → (h : Host W) × (receives.queue h ≡ q)
        × (get_encrypted d (d.block_size + rounds) can_send [] (length pre) s
            ≡ get_encrypted d rounds can_send []
                (length pre + d.block_size)
                (record s { host = h; msg_buf = pre ++ (b ++ drop (length b) tail) }))
  pass_block b q pre tail rounds s positive len queue buf size fits lacks =
      let (front, c, h0, shape, queue0, eq) =
        take_front b q (length pre) rounds s positive len queue (omega arith) in
      let s0 = record s { host = h0 } in
      let whole : cipher.decrypt (front ++ c ∷ []) ≡ b =
        ap cipher.decrypt (sym shape) ∙ cipher.decrypt-encrypt b len in
      let filled : splice s.msg_buf (length pre) (cipher.decrypt (front ++ c ∷ []))
          ≡ pre ++ (b ++ drop (length b) tail) =
        ap (splice s.msg_buf (length pre)) whole
        ∙ ap (λ t. splice t (length pre) b) buf
        ∙ splice_lem pre tail b (omega arith) in
      let h =
        (d.decrypt_block (front ++ c ∷ [])
          (received d cipher receives can_send front (length pre) s0)).1 in
      (
        h,
        receives.queue-decrypt (front ++ c ∷ [])
              (received d cipher receives can_send front (length pre) s0)
            ∙ (receives.receives s.timeout (may_send d cipher receives can_send front (length pre))
                c q h0 queue0).1,
        eq
            ∙ fill_block d cipher receives can_send c front q (length pre) rounds s0 queue0
                (ap length (sym shape) ∙ cipher.length-encrypt b len) fits
                (ap (λ t. find_terminator d.block_size t (length pre)) filled
                  ∙ ap
                      (λ (n : ℕ).
                        find_terminator n (pre ++ (b ++ drop (length b) tail)) (length pre))
                      (sym len)
                  ∙ find_none b pre (drop (length b) tail) lacks)
            ∙ ap
                (λ t.
                  get_encrypted d rounds can_send [] (length pre + d.block_size)
                    (record s { host = h; msg_buf = t }))
                filled,
      )

  -- The block with the terminator ends the message.
  end_block :
      (b q pre tail text left : Bytes) (rounds : ℕ) (m : Message) (s : Slave W)
      → 0 < d.block_size
      → length b ≡ d.block_size
      → receives.queue s.host ≡ cipher.encrypt b ++ q
      → s.msg_buf ≡ pre ++ tail
      → length pre + length tail ≡ 256
      → length pre + d.block_size < 256
      → b ≡ text ++ message_terminator ∷ left
      → Lacks message_terminator text
      → ((rest : Bytes) → decode d.below_buffer (pre ++ (text ++ 0 ∷ rest)) ≡ ok m)
      → (s' : Slave W) × (get_encrypted d (d.block_size + rounds) can_send [] (length pre) s
          ≡ (ok m, s'))
        × (receives.queue s'.host ≡ q)
  unfolding debug
  end_block b q pre tail text left rounds m s positive len queue buf size fits shape_b lacks dec =
      let (front, c, h0, shape, queue0, eq) =
        take_front b q (length pre) rounds s positive len queue (omega arith) in
      let s0 = record s { host = h0 } in
      let behind = left ++ drop (length b) tail in
      let whole : cipher.decrypt (front ++ c ∷ []) ≡ b =
        ap cipher.decrypt (sym shape) ∙ cipher.decrypt-encrypt b len in
      let filled : splice s.msg_buf (length pre) (cipher.decrypt (front ++ c ∷ []))
          ≡ pre ++ (text ++ message_terminator ∷ behind) =
        ap (splice s.msg_buf (length pre)) whole
        ∙ ap (λ t. splice t (length pre) b) buf
        ∙ splice_lem pre tail b (omega arith)
        ∙ ap (λ t. pre ++ (t ++ drop (length b) tail)) shape_b
        ∙ ap (λ t. pre ++ t)
            (append_assoc text (message_terminator ∷ left) (drop (length b) tail)) in
      let ended : set (splice s.msg_buf (length pre) (cipher.decrypt (front ++ c ∷ [])))
            (length pre + length text) 0
          ≡ pre ++ (text ++ 0 ∷ behind) =
        ap (λ t. set t (length pre + length text) 0)
          (filled ∙ sym (append_assoc pre text (message_terminator ∷ behind)))
        ∙ ap (λ (n : ℕ). set ((pre ++ text) ++ message_terminator ∷ behind) n 0)
            (sym (length-append pre text))
        ∙ set_behind (pre ++ text) message_terminator 0 behind
        ∙ append_assoc pre text (0 ∷ behind) in
      let room : length text < d.block_size =
        omega (arith, len, ap length shape_b, length-append {0} text (message_terminator ∷ left)) in
      let cells =
        set (splice s.msg_buf (length pre) (cipher.decrypt (front ++ c ∷ [])))
          (length pre + length text) 0 in
      let host = received d cipher receives can_send front (length pre) s0 in
      let s1 = record s0 { host = (d.decrypt_block (front ++ c ∷ []) host).1; msg_buf = cells } in
      (
        (debug d (text_of cells) dir_incoming_encr s1).1,
        eq
            ∙ end_message d cipher receives can_send c front q (length pre) rounds
                (length pre + length text) m s0 queue0
                (ap length (sym shape) ∙ cipher.length-encrypt b len) fits
                (ap (λ t. find_terminator d.block_size t (length pre)) filled
                  ∙ find_some text pre behind d.block_size lacks room)
                (ap (decode d.below_buffer) ended ∙ dec behind),
        receives.queue-debug (text_of cells) dir_incoming_encr
              (d.decrypt_block (front ++ c ∷ []) host).1
            ∙ receives.queue-decrypt (front ++ c ∷ []) host
            ∙ (receives.receives s.timeout (may_send d cipher receives can_send front (length pre))
                c q h0 queue0).1,
      )

  -- All blocks of a message.
  pub receive_blocks :
      (blocks : List Bytes) (q pre tail text : Bytes) (rounds : ℕ) (m : Message) (s : Slave W)
      → 0 < d.block_size
      → All (λ b. length b ≡ d.block_size) blocks
      → receives.queue s.host ≡ concat (map cipher.encrypt blocks) ++ q
      → s.msg_buf ≡ pre ++ tail
      → length pre + length tail ≡ 256
      → length pre + length blocks * d.block_size < 256
      → Carries blocks text
      → Lacks message_terminator text
      → ((rest : Bytes) → decode d.below_buffer (pre ++ (text ++ 0 ∷ rest)) ≡ ok m)
      → (s' : Slave W) × (get_encrypted d
            (length blocks * d.block_size + rounds)
            can_send
            []
            (length pre)
            s
          ≡ (ok m, s'))
        × (receives.queue s'.host ≡ q)
  unfolding Carries concat
  receive_blocks [] q pre tail text rounds m s positive len queue buf size fits carries lacks dec =
      elim carries [ ]
  receive_blocks (b ∷ []) q pre tail text rounds m s positive len queue buf size fits (left, shape)
        lacks dec =
      let (s', eq, rest) =
        end_block b q pre tail text left rounds m s positive len.0
          (queue ∙ ap (λ t. t ++ q) (append-nil (cipher.encrypt b))) buf size (omega arith) shape
          lacks dec in
      (s', ap (λ t. get_encrypted d t can_send [] (length pre) s) (omega arith) ∙ eq, rest)
  receive_blocks (b ∷ (b' ∷ bs)) q pre tail text rounds m s positive len queue buf size fits
        (text', shape, carries) lacks dec =
      let later = concat (map cipher.encrypt (b' ∷ bs)) ++ q in
      let n = length (b' ∷ bs) in
      let behind = drop (length b) tail in
      let place : length (pre ++ b) ≡ length pre + d.block_size =
        length-append pre b ∙ ap (λ (k : ℕ). length pre + k) len.0 in
      let parts =
        All-split (λ c. c ≢ message_terminator) b text'
          (subst (Lacks message_terminator) shape lacks) in
      let product = suc_times n d.block_size in
      let (h, queue', eq) =
        pass_block b later pre tail (n * d.block_size + rounds) s positive len.0
          (queue ∙ append_assoc (cipher.encrypt b) (concat (map cipher.encrypt (b' ∷ bs))) q) buf
          size (omega (arith, fits, product)) parts.0 in
      let s1 = record s { host = h; msg_buf = pre ++ (b ++ behind) } in
      let (s', eq', rest) =
        receive_blocks (b' ∷ bs) q (pre ++ b) behind text' rounds m s1 positive len.1 queue'
          (sym (append_assoc pre b behind))
          (omega (arith, place, len.0, length-drop (length b) tail, size, fits, product))
          (omega (arith, place, fits, product)) carries parts.1
          (λ t.
            ap (decode d.below_buffer) (
              append_assoc pre b (text' ++ 0 ∷ t)
              ∙ ap (λ u. pre ++ u)
                  (sym (append_assoc b text' (0 ∷ t)) ∙ ap (λ u. u ++ 0 ∷ t) (sym shape)))
            ∙ dec t) in
      (
        s',
        ap (λ t. get_encrypted d t can_send [] (length pre) s) (omega (arith, product))
            ∙ eq
            ∙ ap (λ (k : ℕ). get_encrypted d (n * d.block_size + rounds) can_send [] k s1)
                (sym place)
            ∙ eq',
        rest,
      )
