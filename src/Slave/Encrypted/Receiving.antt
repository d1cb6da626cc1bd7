-- ===== src/Slave/Encrypted/Receiving.antt =====
-- What `get_encrypted` makes of the blocks.
use opdi_core.Base.{
  ltb, leb, ◌==◌, ◌&&◌, ℕ, suc, ◌+◌, ◌≤◌, ◌<◌, ◌≡◌, refl, ap, sym, ◌∙◌, Bytes, [], ◌∷◌, ◌++◌,
  length, length-append, append_assoc, append-nil, arith, true, false, set, ok, none, some,
}
use opdi_core.Constants.{dir_incoming_encr}
use opdi_core.Message.{Message, decode}
use opdi_core.Slave.State.{Device, Slave, Host}
use opdi_core.Slave.Transfer.{get_encrypted, find_terminator, splice, debug, text_of, flag}
use opdi_core.Slave.Encrypted.{Cipher, Receives}

leb-false : (a b : ℕ) → b < a → leb a b ≡ false
leb-false a b h = ground arith

leb-true : (a b : ℕ) → a ≤ b → leb a b ≡ true
leb-true a b h = ground arith

pub zero_plus : (n : ℕ) → 0 + n ≡ n
zero_plus n = omega arith

pub suc_plus : (a b : ℕ) → suc a + b ≡ suc (a + b)
suc_plus a b = omega arith

module _ {W : Type 0} (d : Device W) (cipher : Cipher d.block_size) (receives : Receives d cipher)
    (can_send : ℕ) where
  -- What `receive` is told about sending.
  abbrev pub may_send : Bytes → ℕ → ℕ
  may_send block pos = flag (ltb 0 can_send && (pos == 0 && length block == 0))

  -- The host after one byte.
  abbrev pub received : Bytes → ℕ → Slave W → Host W
  received block pos s = (d.receive s.timeout (may_send block pos) s.host).1

  -- A byte that does not fill the block.
  collect_one :
      (c : ℕ) (block q : Bytes) (pos rounds : ℕ) (s : Slave W)
      → receives.queue s.host ≡ c ∷ q
      → length (block ++ c ∷ []) < d.block_size
      → pos + d.block_size ≤ 256
      → get_encrypted d (suc rounds) can_send block pos s
        ≡ get_encrypted d rounds can_send
            (block ++ c ∷ [])
            pos
            (record s { host = received block pos s })
  unfolding get_encrypted
  collect_one c block q pos rounds s queue room fits =
      rw
        (
          get_encrypted,
          (receives.receives s.timeout (may_send block pos) c q s.host queue).0,
          leb-false 256 (pos + length (block ++ c ∷ [])) (omega arith),
          leb-false d.block_size (length (block ++ c ∷ [])) room,
        )
        refl

  -- Bytes that do not fill the block yet.
  pub collect :
      (cs block : Bytes) (q : Bytes) (pos rounds : ℕ) (s : Slave W)
      → receives.queue s.host ≡ cs ++ q
      → length block + length cs < d.block_size
      → pos + d.block_size ≤ 256
      → (h : Host W) × (receives.queue h ≡ q)
        × (get_encrypted d (length cs + rounds) can_send block pos s
            ≡ get_encrypted d rounds can_send (block ++ cs) pos (record s { host = h }))
  collect [] block q pos rounds s queue room fits = (
    s.host,
    queue,
    ap (λ t. get_encrypted d t can_send block pos s) (zero_plus rounds)
        ∙ ap (λ t. get_encrypted d rounds can_send t pos s) (sym (append-nil block)),
  )
  collect (c ∷ cs) block q pos rounds s queue room fits =
      let size : length (block ++ c ∷ []) ≡ length block + 1 = length-append block (c ∷ []) in
      let h1 = received block pos s in
      let taken = (receives.receives s.timeout (may_send block pos) c (cs ++ q) s.host queue).1 in
      let (h, rest, eq) =
        collect cs (block ++ c ∷ []) q pos rounds (record s { host = h1 }) taken (omega arith)
          fits in
      (
        h,
        rest,
        ap (λ t. get_encrypted d t can_send block pos s) (suc_plus (length cs) rounds)
            ∙ collect_one c block (cs ++ q) pos (length cs + rounds) s queue (omega arith) fits
            ∙ eq
            ∙ ap (λ t. get_encrypted d rounds can_send t pos (record s { host = h }))
                (append_assoc block (c ∷ []) cs),
      )

  -- The byte that fills the block.
  pub fill_block :
      (c : ℕ) (block q : Bytes) (pos rounds : ℕ) (s : Slave W)
      → receives.queue s.host ≡ c ∷ q
      → length (block ++ c ∷ []) ≡ d.block_size
      → pos + d.block_size < 256
      → find_terminator d.block_size (splice s.msg_buf pos (cipher.decrypt (block ++ c ∷ []))) pos
        ≡ none
      → get_encrypted d (suc rounds) can_send block pos s
        ≡ get_encrypted d rounds can_send [] (pos + d.block_size) (record s {
          host = (d.decrypt_block (block ++ c ∷ []) (received block pos s)).1;
          msg_buf = splice s.msg_buf pos (cipher.decrypt (block ++ c ∷ []));
        })
  unfolding get_encrypted
  fill_block c block q pos rounds s queue full fits no_end =
      rw
        (
          get_encrypted,
          (receives.receives s.timeout (may_send block pos) c q s.host queue).0,
          leb-false 256 (pos + length (block ++ c ∷ [])) (omega arith),
          leb-true d.block_size (length (block ++ c ∷ [])) (omega arith),
          receives.decrypts (block ++ c ∷ []) (received block pos s),
          no_end,
        )
        refl

  -- The byte that fills the block with the terminator.
  pub end_message :
      (c : ℕ) (block q : Bytes) (pos rounds i : ℕ) (m : Message) (s : Slave W)
      → receives.queue s.host ≡ c ∷ q
      → length (block ++ c ∷ []) ≡ d.block_size
      → pos + d.block_size < 256
      → find_terminator d.block_size (splice s.msg_buf pos (cipher.decrypt (block ++ c ∷ []))) pos
        ≡ some i
      → decode d.below_buffer (set (splice s.msg_buf pos (cipher.decrypt (block ++ c ∷ []))) i 0)
        ≡ ok m
      → get_encrypted d (suc rounds) can_send block pos s ≡ (
        ok m,
        (debug d
            (text_of (set (splice s.msg_buf pos (cipher.decrypt (block ++ c ∷ []))) i 0))
            dir_incoming_encr
            (record s {
              host = (d.decrypt_block (block ++ c ∷ []) (received block pos s)).1;
              msg_buf = set (splice s.msg_buf pos (cipher.decrypt (block ++ c ∷ []))) i 0;
            })).1,
      )
  unfolding get_encrypted
  end_message c block q pos rounds i m s queue full fits end dec =
      rw
        (
          get_encrypted,
          (receives.receives s.timeout (may_send block pos) c q s.host queue).0,
          leb-false 256 (pos + length (block ++ c ∷ [])) (omega arith),
          leb-true d.block_size (length (block ++ c ∷ [])) (omega arith),
          receives.decrypts (block ++ c ∷ []) (received block pos s),
          end,
          dec,
        )
        refl

  -- The byte with which the block would reach the end of the buffer: what has come in is discarded.
  pub overflow :
      (c : ℕ) (block q : Bytes) (pos rounds : ℕ) (s : Slave W)
      → receives.queue s.host ≡ c ∷ q
      → pos + length (block ++ c ∷ []) ≡ 256
      → get_encrypted d (suc rounds) can_send block pos s
        ≡ get_encrypted d rounds can_send [] 0 (record s { host = received block pos s })
  unfolding get_encrypted
  overflow c block q pos rounds s queue full =
      rw
        (
          get_encrypted,
          (receives.receives s.timeout (may_send block pos) c q s.host queue).0,
          leb-true 256 (pos + length (block ++ c ∷ [])) (omega arith),
        )
        refl
