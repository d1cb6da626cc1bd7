-- ===== src/Master/StringTools/Agreement.antt =====
-- `strings_join` of code/c/common/opdi_strings.c against `join` of
-- code/c/common/master/opdi_StringTools.cpp.
use opdi_core.Base.{
  ℕ, ◌+◌, ◌-◌, ◌<◌, ◌≡◌, refl, sym, ap, ◌∙◌, Bytes, List, [], ◌∷◌, ◌++◌, length, All, arith,
  append_assoc, append-nil, length-append, map, some, ok, leb, ◌==◌, true, false, Bool-cases, inl,
  inr, if◌then◌else◌,
}
use opdi_core.Strings.{strings_join, join_loop, join_part, put_part}
use opdi_core.Master.StringTools.{join}
use opdi_core.Master.StringTools.RoundTrip.{IsPlain, doubled, joined, join-joined}

fits : (n max : ℕ) → n < max - 1 → leb (max - 1) n ≡ false
fits n max h = ground arith

-- One character, with its mark if it is the separator.
abbrev char : ℕ → ℕ → Bytes
char c ch = if ch == c then ch ∷ c ∷ [] else ch ∷ []

doubled-cons : (c ch : ℕ) (s : Bytes) → doubled c (ch ∷ s) ≡ char c ch ++ doubled c s
doubled-cons c ch s = elim (Bool-cases (ch == c)) [
  | inl e ↦ rw (e, same ch c e) refl
  | inr e ↦ rw (e) refl
]
  where
    same : (a b : ℕ) → (a == b) ≡ true → a ≡ b
    same a b e = ground arith

join_part_lem :
    (s : Bytes) (c max : ℕ) (dest : Bytes)
    → length dest < max - 1
    → length dest + length (doubled c s) < max - 1
    → join_part s c max dest ≡ ok (dest ++ doubled c s)
unfolding join_part
join_part_lem [] c max dest lt h = ap ok (sym (append-nil dest))
join_part_lem (ch ∷ s) c max dest lt h =
    let room : length (dest ++ char c ch) + length (doubled c s) < max - 1 = omega (
      arith,
      h,
      length-append dest (char c ch),
      ap length (doubled-cons c ch s),
      length-append (char c ch) (doubled c s),
    ) in
    rw (fits (length (dest ++ char c ch)) max (omega arith)) (
      join_part_lem s c max (dest ++ char c ch) (omega arith) room
      ∙ ap ok (
          append_assoc dest (char c ch) (doubled c s)
          ∙ ap (λ t. dest ++ t) (sym (doubled-cons c ch s))))

put_part_lem :
    (p : Bytes) (c max : ℕ) (dest : Bytes)
    → IsPlain c p
    → length dest + length (doubled c p) < max - 1
    → put_part p c max dest ≡ ok (dest ++ doubled c p)
unfolding put_part
put_part_lem [] c max dest plain h = absurd plain
put_part_lem (ch ∷ s) c max dest plain h = join_part_lem (ch ∷ s) c max dest (omega arith) h

join_loop_lem :
    (c max : ℕ) (p : Bytes) (ps : List Bytes) (dest : Bytes)
    → All (IsPlain c) (p ∷ ps)
    → length dest + length (joined c (p ∷ ps)) < max - 1
    → join_loop (map some (p ∷ ps)) c max dest ≡ ok (dest ++ joined c (p ∷ ps))
unfolding join_loop
join_loop_lem c max p [] dest plain h =
    rw
      (
        join_loop,
        put_part_lem p c max dest plain.0 h,
        fits (length (dest ++ doubled c p)) max (omega (arith, length-append dest (doubled c p))),
      )
      refl
join_loop_lem c max p (q ∷ ps) dest plain h =
    let room = length-append (doubled c p) (c ∷ joined c (q ∷ ps)) in
    let dest' : Bytes = dest ++ doubled c p in
    rw
      (
        join_loop,
        put_part_lem p c max dest plain.0 (omega (arith, h, room)),
        fits (length (dest ++ doubled c p)) max
            (omega (arith, h, room, length-append dest (doubled c p))),
      )
      (join_loop_lem c max q ps (dest' ++ c ∷ []) plain.1
          (omega (arith, h, room, length-append dest (doubled c p), length-append dest' (c ∷ [])))
        ∙ ap ok (
            append_assoc dest' (c ∷ []) (joined c (q ∷ ps))
            ∙ append_assoc dest (doubled c p) (c ∷ joined c (q ∷ ps))))

pub strings_join-join :
    (c max_length : ℕ) (p : Bytes) (ps : List Bytes)
    → All (IsPlain c) (p ∷ ps)
    → length (join c (p ∷ ps)) + 1 < max_length
    → strings_join (map some (p ∷ ps)) c max_length ≡ ok (join c (p ∷ ps))
unfolding strings_join
strings_join-join c max_length p ps plain h =
    join_loop_lem c max_length p ps [] plain
      (omega (arith, h, ap length (join-joined c p ps plain)))
    ∙ ap ok (sym (join-joined c p ps plain))
