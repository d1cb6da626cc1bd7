-- ===== src/Message/Scan.antt =====
-- The steps of `decode` in code/c/common/opdi_message.c, one by one.
use opdi_core.Base.{
  ℕ, suc, ◌+◌, ◌-◌, ◌/◌, ◌%◌, ◌≤◌, ◌<◌, ◌≡◌, ◌≢◌, refl, sym, ap, ◌∙◌, Bytes, [], ◌∷◌, ◌++◌, length,
  Lacks, arith, ok, ltb, leb, ◌==◌, if◌then◌else◌, append_assoc, append-nil, length-append, drop,
  get_or, drop-append, false, true, Bool,
}
use opdi_core.Constants.{message_payload_length, error_malformed_message}
use opdi_core.Platform.{str_to_uint16, bytes_to_string, copy_string}
use opdi_core.Message.{
  Head, End, decode, detect_separator, find_end, sum_bytes, hex_digit, add16, separator_byte,
  subtract_tail, compare_checksum, sub16, refuse, ◌>>◌,
}
use opdi_core.Message.Checksum.{hex4}

pub detect_lem :
    (s rest digits : Bytes) (sum : ℕ)
    → Lacks 0 s
    → Lacks 58 s
    → length digits + length s < 3
    → detect_separator (s ++ 58 ∷ rest) digits sum
      ≡ ok (record { digits = digits ++ s; sum = sum_bytes s sum; rest = 58 ∷ rest })
unfolding detect_separator sum_bytes
detect_lem [] rest digits sum z c h = rw (append-nil digits) refl
detect_lem (x ∷ s) rest digits sum z c h =
    rw
      (
        detect_lem s rest (digits ++ x ∷ []) (add16 sum x) z.1 c.1
            (omega (arith, length-append digits (x ∷ []))),
        append_assoc digits (x ∷ []) s,
      )
      (ground arith)

-- `lastSepPos` behind the bytes of a text.
abbrev pub last_sep_of : Bytes → ℕ → ℕ → ℕ
last_sep_of [] pos last = last
last_sep_of (c ∷ s) pos last = last_sep_of s (pos + 1) (if c == 58 then pos else last)

pub find_end_lem :
    (s rest : Bytes) (pos last sum : ℕ)
    → Lacks 0 s
    → pos + length s < 256
    → find_end (s ++ 0 ∷ rest) (record { pos = pos; last_sep = last; sum = sum })
      ≡ ok (record {
        pos = pos + length s;
        last_sep = last_sep_of s pos last;
        sum = sum_bytes s sum;
      })
unfolding find_end sum_bytes
find_end_lem [] rest pos last sum z h = rw (zero_add pos) refl
  where
    zero_add : (n : ℕ) → n + 0 ≡ n
    zero_add n = omega arith
find_end_lem (c ∷ s) rest pos last sum z h =
    rw
      (
        find_end_lem s rest (pos + 1) (if c == 58 then pos else last) (add16 sum c) z.1
            (omega arith),
        add_suc pos (length s),
      )
      (ground arith)
  where
    add_suc : (a b : ℕ) → a + 1 + b ≡ a + suc b
    add_suc a b = omega arith

pub last_sep_lem :
    (s t : Bytes) (pos last : ℕ) → Lacks 58 t → last_sep_of (s ++ 58 ∷ t) pos last ≡ pos + length s
last_sep_lem [] t pos last l = no_sep t (pos + 1) pos l ∙ zero_add pos
  where
    zero_add : (n : ℕ) → n ≡ n + 0
    zero_add n = omega arith

    no_sep : (u : Bytes) (p q : ℕ) → Lacks 58 u → last_sep_of u p q ≡ q
    no_sep [] p q h = refl
    no_sep (c ∷ u) p q h = rw (no_sep u (p + 1) (if c == 58 then p else q) h.1) (ground arith)
last_sep_lem (c ∷ s) t pos last l =
    rw (last_sep_lem s t (pos + 1) (if c == 58 then pos else last) l) (omega arith)

copy_string_lem :
    (s rest dest : Bytes) (i n : ℕ)
    → i + length s < n
    → copy_string (length s) i (s ++ rest) n dest ≡ ok (dest ++ s)
unfolding copy_string
copy_string_lem [] rest dest i n h = ap ok (sym (append-nil dest))
copy_string_lem (c ∷ s) rest dest i n h =
    rw
      (
        copy_string_lem s rest (dest ++ c ∷ []) (i + 1) n (omega arith),
        append_assoc dest (c ∷ []) s,
      )
      (ground arith)

pub bytes_to_string_lem :
    (a s rest : Bytes) (n : ℕ)
    → length s < n
    → bytes_to_string (a ++ (s ++ rest)) (length a) (length s) n ≡ ok s
unfolding bytes_to_string
bytes_to_string_lem a s rest n h =
    rw (drop-append a (s ++ rest)) (copy_string_lem s rest [] 0 n (omega arith))

-- The digits of a checksum are no separators and no terminators.
pub Lacks-hex4 : (cs b : ℕ) → ((n : ℕ) → n < 16 → hex_digit n ≢ b) → Lacks b (hex4 cs)
Lacks-hex4 cs b h = (
  h (cs / 4096 % 16) (omega arith),
  (
    h (cs / 256 % 16) (omega arith),
    (h (cs / 16 % 16) (omega arith), (h (cs % 16) (omega arith), tt)),
  ),
)

gt_false : {a b : ℕ} → a < b → leb b a ≡ false
gt_false h = ground arith

lt_false : {a b : ℕ} → a ≤ b → ltb b a ≡ false
lt_false h = ground arith

-- The steps of `decode` when only the checksum may be refused.
pub decode_steps :
    (below ch : ℕ) (bytes : Bytes) (head : Head) (end : End) (payload : Bytes) (bad : Bool)
    → detect_separator bytes [] 0 ≡ ok head
    → str_to_uint16 head.digits ≡ ok ch
    → find_end (drop 1 head.rest) (record {
      pos = length head.digits + 1;
      last_sep = 0;
      sum = add16 head.sum (get_or head.rest 0 0);
    })
      ≡ ok end
    → length head.digits + 1 < end.last_sep
    → 4 ≤ end.pos
    → separator_byte below bytes end.pos ≡ 58
    → compare_checksum (sub16 (subtract_tail bytes end.pos end.sum) 58) bytes (end.pos - 4)
      ≡ refuse bad error_malformed_message
    → bytes_to_string bytes
        (length head.digits + 1)
        (end.last_sep - (length head.digits + 1))
        message_payload_length
      ≡ ok payload
    → decode below bytes
      ≡ (refuse bad error_malformed_message >> ok (record { channel = ch; payload = payload }))
unfolding decode
decode_steps below ch bytes head end payload true e1 e2 e3 l1 l2 e4 e5 e6 =
    rw (e1, e2, e3, gt_false l1, lt_false l2, e4, e5) refl
decode_steps below ch bytes head end payload false e1 e2 e3 l1 l2 e4 e5 e6 =
    rw (e1, e2, e3, gt_false l1, lt_false l2, e4, e5, e6) refl
