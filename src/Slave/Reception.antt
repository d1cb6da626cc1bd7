-- ===== src/Slave/Reception.antt =====
-- `opdi_get_message` without encryption (code/c/common/opdi_message.c) on the bytes that `encode`
-- writes, whatever the device below delivers them.
use mathlib.Core.Path.{subst}
use opdi_core.Base.{
  ℕ, zero, suc, ◌+◌, ◌≤◌, ◌<◌, ◌≡◌, ◌≢◌, refl, sym, ap, ◌∙◌, Bytes, [], ◌∷◌, ◌++◌, length, Lacks,
  arith, ok, ltb, leb, ◌==◌, if◌then◌else◌, append_assoc, length-append, set, drop, ◌&&◌, false,
}
use opdi_core.Constants.{dir_incoming}
use opdi_core.Message.{Message, decode, encode}
use opdi_core.Message.Checksum.{hex_digit_plain}
use opdi_core.Message.Encode.{frame}
use opdi_core.Message.Bounds.{encode_sound, Lacks-frame}
use opdi_core.Message.RoundTrip.{decode-frame}
use opdi_core.Slave.State.{Device, Slave, Host}
use opdi_core.Slave.Transfer.{get_plain, get_encrypted, get_message, debug, flag, text_of}

-- The device delivers these bytes, one per call of `receive`, and the host is then `h'`.
abbrev pub Delivers : {W : Type 0} → Device W → ℕ → Host W → Bytes → Host W → Type 0
Delivers d timeout h [] h' = h ≡ h'
Delivers {W} d timeout h (c ∷ s) h' =
    (h1 : Host W) × ((can_send : ℕ) → d.receive timeout can_send h ≡ (ok c, h1))
    × Delivers d timeout h1 s h'

pub set_behind :
    (pre : Bytes) (x y : ℕ) (rest : Bytes) → set (pre ++ x ∷ rest) (length pre) y ≡ pre ++ y ∷ rest
set_behind [] x y rest = refl
set_behind (p ∷ pre) x y rest = ap (λ t. p ∷ t) (set_behind pre x y rest)

Delivers-split :
    {W : Type 0} (d : Device W) (timeout : ℕ) (h : Host W) (s t : Bytes) (h' : Host W)
    → Delivers d timeout h (s ++ t) h'
    → (h1 : Host W) × Delivers d timeout h s h1 × Delivers d timeout h1 t h'
Delivers-split d timeout h [] t h' e = (h, refl, e)
Delivers-split d timeout h (c ∷ s) t h' (h1, e, more) =
    let (h2, first, last) = Delivers-split d timeout h1 s t h' more in (h2, (h1, e, first), last)

-- What is left of a buffer that is longer than what was written to it.
drop-cons :
    (n : ℕ) (buf : Bytes) → n < length buf → (x : ℕ) × (rest : Bytes) × (drop n buf ≡ x ∷ rest)
drop-cons zero [] h = absurd (omega arith)
drop-cons zero (x ∷ rest) h = (x, rest, refl)
drop-cons (suc n) [] h = absurd (omega arith)
drop-cons (suc n) (x ∷ buf) h = drop-cons n buf (omega arith)

pub text_of_lem : (s rest : Bytes) → Lacks 0 s → text_of (s ++ 0 ∷ rest) ≡ s
text_of_lem [] rest h = refl
text_of_lem (zero ∷ s) rest h = absurd (h.0 refl)
text_of_lem (suc c ∷ s) rest h =
    rw (text_of, test (suc c) (omega arith)) (ap (λ t. suc c ∷ t) (text_of_lem s rest h.1))
  where
    test : (a : ℕ) → 0 < a → (a == 0) ≡ false
    test a lt = ground arith

module _ {W : Type 0} (d : Device W) (can_send : ℕ) where
  -- Bytes that are no terminator go to the buffer.
  fill :
      (s pre : Bytes) (rounds : ℕ) (rest : Bytes) (st : Slave W) (h' : Host W)
      → Delivers d st.timeout st.host s h'
      → Lacks 10 s
      → length s ≤ length rest
      → length pre + length s < 255
      → get_plain d (length s + rounds) can_send (pre ++ rest) (length pre) st
        ≡ get_plain d rounds can_send
            (pre ++ (s ++ drop (length s) rest))
            (length pre + length s)
            (record st { host = h' })
  unfolding get_plain
  fill [] pre rounds rest st h' e l room small =
      rw (zero_plus rounds, plus_zero (length pre), sym e) refl
    where
      zero_plus : (n : ℕ) → 0 + n ≡ n
      zero_plus n = omega arith

      plus_zero : (n : ℕ) → n + 0 ≡ n
      plus_zero n = omega arith
  fill (c ∷ s) pre rounds [] st h' e l room small = absurd (omega arith)
  fill (c ∷ s) pre rounds (x ∷ rest) st h' (h1, e, more) l room small =
      rw
        (
          suc_plus (length s) rounds,
          get_plain,
          e (flag (ltb 0 can_send && length pre == 0)),
          test c 10 l.0,
          below (length pre) (omega arith),
          set_behind pre x c rest,
          ap (λ q. q.1) (e (flag (ltb 0 can_send && length pre == 0))),
          longer,
          sym (length-append pre (c ∷ [])),
          sym (append_assoc pre (c ∷ []) rest),
          sym (append_assoc pre (c ∷ []) (s ++ drop (length s) rest)),
        )
        (fill s (pre ++ c ∷ []) rounds rest (record st { host = h1 }) h' more l.1 (omega arith)
          (omega (arith, length-append pre (c ∷ []))))
    where
      longer : length pre + suc (length s) ≡ length (pre ++ c ∷ []) + length s
      longer = omega (arith, length-append pre (c ∷ []))

      suc_plus : (a b : ℕ) → suc a + b ≡ suc (a + b)
      suc_plus a b = omega arith

      test : (a b : ℕ) → a ≢ b → (a == b) ≡ false
      test a b ne = ground arith

      below : (a : ℕ) → a + 1 < 255 → leb 255 (a + 1) ≡ false
      below a lt = ground arith

  -- The terminator ends a message.
  finish :
      (pre : Bytes) (x : ℕ) (rest : Bytes) (rounds : ℕ) (m : Message) (st : Slave W) (h' : Host W)
      → Delivers d st.timeout st.host (10 ∷ []) h'
      → decode d.below_buffer (pre ++ 0 ∷ rest) ≡ ok m
      → get_plain d (suc rounds) can_send (pre ++ x ∷ rest) (length pre) st
        ≡ (ok m, (debug d (text_of (pre ++ 0 ∷ rest)) dir_incoming (record st { host = h' })).1)
  unfolding get_plain
  finish pre x rest rounds m st h' (h1, e, same) dec =
      rw
        (
          get_plain,
          e (flag (ltb 0 can_send && length pre == 0)),
          set_behind pre x 0 rest,
          dec,
          ap (λ q. q.1) (e (flag (ltb 0 can_send && length pre == 0))),
          same,
          set_behind pre x 0 rest,
        )
        refl

  -- A whole text with its terminator.
  receive_text :
      (F : Bytes) (extra : ℕ) (s : Slave W) (m : Message) (h' : Host W)
      → length d.stack_bytes ≡ 256
      → Lacks 10 F
      → Lacks 0 F
      → length F < 255
      → Delivers d s.timeout s.host (F ++ 10 ∷ []) h'
      → ((rest : Bytes) → decode d.below_buffer (F ++ 0 ∷ rest) ≡ ok m)
      → get_plain d (length F + suc extra) can_send d.stack_bytes 0 s
        ≡ (ok m, (debug d F dir_incoming (record s { host = h' })).1)
  receive_text F extra s m h' size l z short e dec =
      let (h1, first, last) = Delivers-split d s.timeout s.host F (10 ∷ []) h' e in
      let (x, rest, cut) = drop-cons (length F) d.stack_bytes (omega arith) in
      fill F [] (suc extra) d.stack_bytes s h1 first l (omega arith) (omega arith)
      ∙ ap
          (λ k.
            get_plain d (suc extra) can_send (F ++ drop (length F) d.stack_bytes) k
              (record s { host = h1 }))
          (zero_plus (length F))
      ∙ ap (λ b. get_plain d (suc extra) can_send (F ++ b) (length F) (record s { host = h1 })) cut
      ∙ finish F x rest extra m (record s { host = h1 }) h' last (dec rest)
      ∙ ap (λ t. (ok m, (debug d t dir_incoming (record s { host = h' })).1)) (text_of_lem F rest z)
    where
      zero_plus : (n : ℕ) → 0 + n ≡ n
      zero_plus n = omega arith

-- If encryption is off and the device delivers, byte by byte, what encode has written for a message,
-- opdi_get_message returns that message, has consumed these bytes and no more, and hands the frame
-- to opdi_debug_msg. It does so whatever the local buffer of 256 bytes held before, for a channel
-- below 100, a payload of 1 to 246 bytes without NUL, and a bound on the rounds that is no less than
-- the number of bytes.
pub get_message-encode :
    {W : Type 0} (d : Device W) (can_send extra : ℕ) (s : Slave W) (m : Message) (bytes : Bytes)
    (h' : Host W)
    → s.encryption ≡ 0
    → length d.stack_bytes ≡ 256
    → m.channel < 100
    → 0 < length m.payload
    → length m.payload < 247
    → Lacks 0 m.payload
    → encode m ≡ ok bytes
    → Delivers d s.timeout s.host bytes h'
    → get_message d (length bytes + extra) can_send s
      ≡ (ok m, (debug d (frame m) dir_incoming (record s { host = h' })).1)
unfolding get_message
get_message-encode d can_send extra s m bytes h' plain size c some fit z enc e =
    let (shape, no_lf, fits) = encode_sound m bytes enc in
    let short : length (frame m) < 255 =
      omega (arith, ap length shape, length-append (frame m) (10 ∷ [])) in
    let rounds : length bytes + extra ≡ length (frame m) + suc extra =
      omega (arith, ap length shape, length-append (frame m) (10 ∷ [])) in
    ap
      (λ n.
        if n == 0
        then get_plain d (length bytes + extra) can_send d.stack_bytes 0 s
        else get_encrypted d (length bytes + extra) can_send [] 0 s)
      plain
    ∙ ap (λ n. get_plain d n can_send d.stack_bytes 0 s) rounds
    ∙ receive_text d can_send (frame m) extra s m h' size
        (Lacks-frame 10 m (omega arith) no_lf (λ k h q. omega arith) (λ q. absurd (omega arith))
          (λ n h. (hex_digit_plain n h).2))
        (Lacks-frame 0 m (omega arith) z (λ k h q. omega arith) (λ q. absurd (omega arith))
          (λ n h. (hex_digit_plain n h).0))
        short (subst (λ b. Delivers d s.timeout s.host b h') shape e)
        (λ rest. decode-frame m rest d.below_buffer c some fit z)
