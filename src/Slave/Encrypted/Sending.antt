-- ===== src/Slave/Encrypted/Sending.antt =====
-- What `put_encrypted` sends: the message in blocks, the last one filled up.
use opdi_core.Base.{
  ltb, ◌*◌, Bool-cases, inl, inr, ℕ, zero, suc, ◌+◌, ◌-◌, ◌≤◌, ◌<◌, ◌≡◌, refl, ap, sym, ◌∙◌, List,
  Bytes, [], ◌∷◌, ◌++◌, length, length-append, append_assoc, append-nil, subst, All, arith, take,
  drop, drop_all, length-drop, length-take, take-drop, take-append_left, drop-append_left, take_all,
  false, map,
}
use opdi_core.Constants.{status_ok, message_terminator}
use opdi_core.Slave.State.{Device, Slave, Host, Action, fetch, call, ◌>>=◌, ◌>>◌}
use opdi_core.Slave.Transfer.{pad, put_encrypted}
use opdi_core.Slave.Encrypted.{Cipher, Sends, Carries, concat}

not_below : (a b : ℕ) → ltb a b ≡ false → b ≤ a
not_below a b h = ground arith

count_more :
    (n size t t' : ℕ)
    → n * size < t' + 1 + size
    → t' ≡ t - size
    → size ≤ t
    → suc n * size < t + 1 + size
count_more n size t t' h e long = grind arith

empty_of : (t : Bytes) → length t ≡ 0 → t ≡ []
empty_of [] h = refl
empty_of (c ∷ t) h = absurd (omega arith)

Carries-cons :
    (b : Bytes) (bs : List Bytes) (text : Bytes) → Carries bs text → Carries (b ∷ bs) (b ++ text)
unfolding Carries
Carries-cons b [] text h = elim h [ ]
Carries-cons b (b' ∷ bs) text h = (text, refl, h)

module _ {W : Type 0} (d : Device W) (cipher : Cipher d.block_size) (sends : Sends d cipher) where
  -- Filling up a block.
  pad_lem :
      (n : ℕ) (block : Bytes) (s : Slave W)
      → (filling : Bytes) × (h : Host W) × (pad d n block s
          ≡ (block ++ filling, record s { host = h }))
        × (length filling ≡ n)
        × (sends.sent h ≡ sends.sent s.host)
  unfolding pad
  pad_lem zero block s = ([], s.host, ground (arith, append-nil block), refl, refl)
  pad_lem (suc n) block s =
      let (b, h1) = d.padding s.host in
      let (filling, h, eq, len, same) = pad_lem n (block ++ b ∷ []) (record s { host = h1 }) in
      (
        b ∷ filling,
        h,
        eq ∙ ap (λ t. (t, record s { host = h })) (append_assoc block (b ∷ []) filling),
        omega arith,
        same ∙ sends.sent-padding s.host,
      )

  send_block :
      (go_on : Action W) (block : Bytes) (s : Slave W)
      → length block ≡ d.block_size
      → (fetch (d.encrypt_block block) >>= λ dest. call (d.send dest) >> go_on) s
        ≡ go_on
            (record s { host = (d.send (cipher.encrypt block) (d.encrypt_block block s.host).1).1 })
  send_block go_on block s full = rw (
    ◌>>=◌,
    sends.encrypts block s.host full,
    ◌>>◌,
    sends.send_ok (cipher.encrypt block) (d.encrypt_block block s.host).1,
  )

  -- One round of the loop.
  put_step :
      (fuel c : ℕ) (bytes : Bytes) (s : Slave W)
      → length (take d.block_size (c ∷ bytes)) ≤ d.block_size
      → (block : Bytes) × (h : Host W) × (filling : Bytes) × (put_encrypted d
            (suc fuel)
            (c ∷ bytes)
            s
          ≡ put_encrypted d fuel (drop d.block_size (c ∷ bytes)) (record s { host = h }))
        × (block ≡ take d.block_size (c ∷ bytes) ++ filling)
        × (length block ≡ d.block_size)
        × (sends.sent h ≡ sends.sent s.host ++ cipher.encrypt block)
  unfolding put_encrypted
  put_step fuel c bytes s fits =
      let head = take d.block_size (c ∷ bytes) in
      let (filling, h0, eq, len, same) = pad_lem (d.block_size - length head) head s in
      let block = head ++ filling in
      let full : length block ≡ d.block_size =
        omega (arith, length-append {0} head filling, len, fits) in
      let h1 = (d.encrypt_block block h0).1 in
      let h2 = (d.send (cipher.encrypt block) h1).1 in
      (
        block,
        h2,
        filling,
        rw eq (
            send_block (put_encrypted d fuel (drop d.block_size (c ∷ bytes))) block
              (record s { host = h0 }) full),
        refl,
        full,
        sends.sent-send (cipher.encrypt block) h1
            ∙ ap (λ t. t ++ cipher.encrypt block) (sends.sent-encrypt block h0 ∙ same),
      )

  -- The blocks that are sent for a text and its terminator.
  abbrev Sent : Bytes → Slave W → ℕ × Slave W → Type 0
  Sent text s result =
      (blocks : List Bytes) × (h : Host W) × (result ≡ (status_ok, record s { host = h }))
      × Carries blocks text
      × All (λ b. length b ≡ d.block_size) blocks
      × (length blocks * d.block_size < length text + 1 + d.block_size)
      × (sends.sent h ≡ sends.sent s.host ++ concat (map cipher.encrypt blocks))

  put_nothing : (fuel : ℕ) (s : Slave W) → put_encrypted d fuel [] s ≡ (status_ok, s)
  unfolding put_encrypted
  put_nothing zero s = refl
  put_nothing (suc fuel) s = refl

  last_block :
      (fuel c : ℕ) (bytes text : Bytes) (s : Slave W)
      → c ∷ bytes ≡ text ++ message_terminator ∷ []
      → length text < d.block_size
      → Sent text s (put_encrypted d (suc fuel) (c ∷ bytes) s)
  unfolding Carries concat
  last_block fuel c bytes text s same short =
      let size : length (c ∷ bytes) ≤ d.block_size =
        omega (arith, ap length same, length-append text (message_terminator ∷ [])) in
      let whole = take_all d.block_size (c ∷ bytes) size in
      let (block, h, filling, eq, shape, full, sent) =
        put_step fuel c bytes s (omega (arith, ap length whole)) in
      (
        block ∷ [],
        h,
        eq
            ∙ ap (λ t. put_encrypted d fuel t (record s { host = h }))
                (drop_all d.block_size (c ∷ bytes) size)
            ∙ put_nothing fuel (record s { host = h }),
        (
          filling,
          shape
              ∙ ap (λ t. t ++ filling) (whole ∙ same)
              ∙ append_assoc text (message_terminator ∷ []) filling,
        ),
        (full, tt),
        omega arith,
        sent ∙ ap (λ t. sends.sent s.host ++ t) (sym (append-nil (cipher.encrypt block))),
      )

  put_last :
      (fuel : ℕ) (text : Bytes) (s : Slave W)
      → length text < d.block_size
      → Sent text s (put_encrypted d (suc fuel) (text ++ message_terminator ∷ []) s)
  put_last fuel [] s short = last_block fuel message_terminator [] [] s refl short
  put_last fuel (c ∷ text) s short =
      last_block fuel c (text ++ message_terminator ∷ []) (c ∷ text) s refl short

  put_more :
      (fuel : ℕ) (text : Bytes) (s : Slave W)
      → 0 < d.block_size
      → d.block_size ≤ length text
      → ((s' : Slave W)
          → Sent
              (drop d.block_size text)
              s'
              (put_encrypted d fuel (drop d.block_size text ++ message_terminator ∷ []) s'))
      → Sent text s (put_encrypted d (suc fuel) (text ++ message_terminator ∷ []) s)
  unfolding concat
  put_more fuel [] s some long go_on = absurd (omega arith)
  put_more fuel (c ∷ text) s some long go_on =
      let bytes = c ∷ (text ++ message_terminator ∷ []) in
      let head : take d.block_size bytes ≡ take d.block_size (c ∷ text) =
        take-append_left d.block_size (c ∷ text) (message_terminator ∷ []) long in
      let fits : length (take d.block_size bytes) ≡ d.block_size =
        ap length head ∙ length-take d.block_size (c ∷ text) long in
      let (block, h, filling, eq, shape, full, sent) =
        put_step fuel c (text ++ message_terminator ∷ []) s (omega arith) in
      let left : drop d.block_size bytes ≡ drop d.block_size (c ∷ text) ++ message_terminator ∷ [] =
        drop-append_left d.block_size (c ∷ text) (message_terminator ∷ []) long in
      let nothing : filling ≡ [] =
        empty_of filling
          (omega (arith, ap length shape, length-append {0} (take d.block_size bytes) filling)) in
      let exact : block ≡ take d.block_size (c ∷ text) =
        shape
        ∙ ap (λ t. take d.block_size bytes ++ t) nothing
        ∙ append-nil (take d.block_size bytes)
        ∙ head in
      let (blocks, h', eq', carries, lengths, count, sent') = go_on (record s { host = h }) in
      (
        block ∷ blocks,
        h',
        eq ∙ ap (λ t. put_encrypted d fuel t (record s { host = h })) left ∙ eq',
        subst (Carries (block ∷ blocks))
            (ap (λ t. t ++ drop d.block_size (c ∷ text)) exact ∙ take-drop d.block_size (c ∷ text))
            (Carries-cons block blocks (drop d.block_size (c ∷ text)) carries),
        (full, lengths),
        count_more (length blocks) d.block_size (length (c ∷ text))
            (length (drop d.block_size (c ∷ text))) count (length-drop d.block_size (c ∷ text))
            long,
        sent'
            ∙ ap (λ t. t ++ concat (map cipher.encrypt blocks)) sent
            ∙ append_assoc (sends.sent s.host) (cipher.encrypt block)
                (concat (map cipher.encrypt blocks)),
      )

  pub put_encrypted_lem :
      (fuel : ℕ) (text : Bytes) (s : Slave W)
      → 0 < d.block_size
      → length text < fuel
      → Sent text s (put_encrypted d fuel (text ++ message_terminator ∷ []) s)
  put_encrypted_lem zero text s some enough = absurd (omega arith)
  put_encrypted_lem (suc fuel) text s some enough =
      elim (Bool-cases (ltb (length text) d.block_size)) [
        | inl short ↦ put_last fuel text s (ground arith)
        | inr long ↦
            let reaches = not_below (length text) d.block_size long in
            put_more fuel text s some reaches (λ s'.
              put_encrypted_lem fuel (drop d.block_size text) s' some
                (omega (arith, length-drop d.block_size text, reaches, enough)))
      ]
