-- ===== src/Message/Frame.antt =====
-- `decode` on the frame of a message, in code/c/common/opdi_message.c: with the right checksum and
-- with a wrong one.
use opdi_core.Base.{
  ℕ, ◌+◌, ◌-◌, ◌<◌, ◌≡◌, ◌≢◌, sym, ap, ◌∙◌, Bytes, [], ◌∷◌, ◌++◌, length, Lacks, All-append, arith,
  ok, ◌==◌, append_assoc, length-append, not,
}
use opdi_core.Constants.{error_malformed_message}
use opdi_core.Platform.{str_to_uint16, bytes_to_string}
use opdi_core.Message.{
  End, decode, detect_separator, sum_bytes, add16, separator_byte, subtract_tail, compare_checksum,
  sub16, refuse, ◌>>◌,
}
use opdi_core.Message.Checksum.{
  hex4, sum_bytes-append, sum_bytes-lt, hex_digit_plain, compare-hex4, subtract_tail_lem,
  sub16-add16, get_behind,
}
use opdi_core.Message.Scan.{
  detect_lem, last_sep_of, find_end_lem, last_sep_lem, bytes_to_string_lem, Lacks-hex4,
  decode_steps,
}

-- A frame around any digits and any text, with any checksum, and what is left in the buffer
-- behind it.
module _ (C P junk : Bytes) (below k : ℕ) (k_lt : k < 65536) (c0 : Lacks 0 C) (c58 : Lacks 58 C)
    (c_short : length C < 3) (p0 : Lacks 0 P) (p_some : 0 < length P)
    (p_short : length P < 247) where
  abbrev body : Bytes
  body = C ++ 58 ∷ P

  abbrev cs : ℕ
  cs = sum_bytes body 0

  abbrev buffer : Bytes
  buffer = (body ++ 58 ∷ hex4 k) ++ 0 ∷ junk

  buffer_split : buffer ≡ C ++ 58 ∷ ((P ++ 58 ∷ hex4 k) ++ 0 ∷ junk)
  buffer_split =
      append_assoc body (58 ∷ hex4 k) (0 ∷ junk)
      ∙ append_assoc C (58 ∷ P) (58 ∷ hex4 k ++ 0 ∷ junk)
      ∙ ap (λ t. C ++ 58 ∷ t) (sym (append_assoc P (58 ∷ hex4 k) (0 ∷ junk)))

  buffer_tail : buffer ≡ (body ++ 58 ∷ []) ++ (hex4 k ++ 0 ∷ junk)
  buffer_tail =
      append_assoc body (58 ∷ hex4 k) (0 ∷ junk)
      ∙ sym (append_assoc body (58 ∷ []) (hex4 k ++ 0 ∷ junk))

  buffer_payload : buffer ≡ (C ++ 58 ∷ []) ++ (P ++ (58 ∷ hex4 k ++ 0 ∷ junk))
  buffer_payload =
      append_assoc body (58 ∷ hex4 k) (0 ∷ junk)
      ∙ append_assoc C (58 ∷ P) (58 ∷ hex4 k ++ 0 ∷ junk)
      ∙ sym (append_assoc C (58 ∷ []) (P ++ (58 ∷ hex4 k ++ 0 ∷ junk)))

  length-body : length body ≡ length C + 1 + length P
  length-body = omega (arith, length-append C (58 ∷ P))

  tail_sum : sum_bytes (P ++ 58 ∷ hex4 k) (add16 (sum_bytes C 0) 58) ≡ sum_bytes (58 ∷ hex4 k) cs
  unfolding sum_bytes
  tail_sum =
      sum_bytes-append P (58 ∷ hex4 k) (add16 (sum_bytes C 0) 58)
      ∙ ap (sum_bytes (58 ∷ hex4 k)) (sym whole)
    where
      whole : cs ≡ sum_bytes P (add16 (sum_bytes C 0) 58)
      whole = sum_bytes-append C (58 ∷ P) 0

  abbrev at_end : End
  at_end = record {
    pos = length C + 1 + length (P ++ 58 ∷ hex4 k);
    last_sep = last_sep_of (P ++ 58 ∷ hex4 k) (length C + 1) 0;
    sum = sum_bytes (P ++ 58 ∷ hex4 k) (add16 (sum_bytes C 0) 58);
  }

  end_pos : at_end.pos ≡ length C + length P + 6
  end_pos = omega (arith, length-append P (58 ∷ hex4 k))

  end_sep : at_end.last_sep ≡ length C + 1 + length P
  end_sep =
      last_sep_lem P (hex4 k) (length C + 1) 0 (Lacks-hex4 k 58 (λ n h. (hex_digit_plain n h).1))

  cs_lt : cs < 65536
  cs_lt = sum_bytes-lt body 0 (omega arith)

  no_nul : Lacks 0 (P ++ 58 ∷ hex4 k)
  no_nul =
      All-append (λ c. c ≢ 0) P (58 ∷ hex4 k) p0
        ((λ e. absurd (omega arith)), Lacks-hex4 k 0 (λ n h. (hex_digit_plain n h).0))

  sep_there : separator_byte below buffer at_end.pos ≡ 58
  unfolding separator_byte
  sep_there =
      rw
        (
          end_pos,
          append_assoc body (58 ∷ hex4 k) (0 ∷ junk),
          get_behind body (58 ∷ hex4 k ++ 0 ∷ junk) 0 (length C + length P + 6 - 5) 0
              (omega (arith, length-body)),
        )
        (ground arith)

  rest_sum : sub16 (subtract_tail buffer at_end.pos at_end.sum) 58 ≡ cs
  unfolding sum_bytes
  rest_sum =
      ap (λ s. sub16 (subtract_tail buffer at_end.pos s) 58) tail_sum
      ∙ ap (λ b. sub16 (subtract_tail b at_end.pos (sum_bytes (58 ∷ hex4 k) cs)) 58) buffer_tail
      ∙ ap (λ s. sub16 s 58)
          (subtract_tail_lem (body ++ 58 ∷ []) (0 ∷ junk) _ _ _ _ at_end.pos (add16 cs 58)
            (omega (arith, end_pos, length-body, length-append body (58 ∷ []))) (omega arith))
      ∙ sub16-add16 cs 58 cs_lt

  payload_read : bytes_to_string buffer (length C + 1) (at_end.last_sep - (length C + 1)) 247 ≡ ok P
  payload_read =
      ap (λ b. bytes_to_string b (length C + 1) (at_end.last_sep - (length C + 1)) 247)
        buffer_payload
      ∙ ap
          (λ n.
            bytes_to_string ((C ++ 58 ∷ []) ++ (P ++ (58 ∷ hex4 k ++ 0 ∷ junk))) n
              (at_end.last_sep - (length C + 1)) 247)
          (omega (arith, length-append C (58 ∷ [])))
      ∙ ap
          (λ n.
            bytes_to_string ((C ++ 58 ∷ []) ++ (P ++ (58 ∷ hex4 k ++ 0 ∷ junk)))
              (length (C ++ 58 ∷ [])) n 247)
          (omega (arith, end_sep))
      ∙ bytes_to_string_lem (C ++ 58 ∷ []) P (58 ∷ hex4 k ++ 0 ∷ junk) 247 p_short

  checked :
      (compare_checksum
        (sub16 (subtract_tail buffer at_end.pos at_end.sum) 58)
        buffer
        (at_end.pos - 4))
      ≡ refuse (not (cs == k)) error_malformed_message
  checked =
      ap (λ s. compare_checksum s buffer (at_end.pos - 4)) rest_sum
      ∙ ap (λ b. compare_checksum cs b (at_end.pos - 4)) buffer_tail
      ∙ compare-hex4 cs k (body ++ 58 ∷ []) (0 ∷ junk) (at_end.pos - 4) k_lt
          (omega (arith, end_pos, length-body, length-append body (58 ∷ [])))

  pub decode_framed :
      (ch : ℕ)
      → str_to_uint16 C ≡ ok ch
      → decode below buffer ≡ (
          refuse (not (cs == k)) error_malformed_message
          >> ok (record { channel = ch; payload = P }))
  decode_framed ch e =
      decode_steps below ch buffer
        (record { digits = C; sum = sum_bytes C 0; rest = 58 ∷ ((P ++ 58 ∷ hex4 k) ++ 0 ∷ junk) })
        at_end P (not (cs == k))
        (ap (λ b. detect_separator b [] 0) buffer_split ∙ detect_lem C _ [] 0 c0 c58 (omega arith))
        e
        (find_end_lem (P ++ 58 ∷ hex4 k) junk (length C + 1) 0 (add16 (sum_bytes C 0) 58) no_nul
          (omega (arith, end_pos)))
        (omega (arith, end_sep)) (omega (arith, end_pos)) sep_there checked payload_read
