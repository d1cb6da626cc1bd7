-- ===== src/Strings/Written.antt =====
-- The bytes that `strings_join` of code/c/common/opdi_strings.c writes, also where it fails.
use opdi_core.Base.{
  ℕ, ◌+◌, ◌-◌, ◌^◌, ◌≤◌, ◌<◌, ◌≡◌, ◌⊎◌, inl, inr, refl, ap, true, false, Bytes, List, [], ◌∷◌, ◌++◌,
  Option, none, some, leb, ◌==◌, if◌then◌else◌, length, length-append, Result, ok, err, arith,
  Bool-cases,
}
use opdi_core.Constants.{status_ok, error_strings_overflow}
use opdi_core.Strings.{
  strings_join, join_loop, put_part, join_part, separated, head_part, write_chars, write_part,
  write_parts, written,
}

length-separated :
    (o : Option Bytes) (separator : ℕ) (dest : Bytes)
    → length (separated o separator dest) ≤ length dest + 1
length-separated none separator dest = omega arith
length-separated (some p) separator dest = omega (arith, length-append dest (separator ∷ []))

-- One of the parts up to NULL begins with the separator.
abbrev pub SomeBegins : List (Option Bytes) → ℕ → Type 0
SomeBegins [] separator = ⊥
SomeBegins (none ∷ ps) separator = ⊥
SomeBegins (some [] ∷ ps) separator = SomeBegins ps separator
SomeBegins (some (c ∷ s) ∷ ps) separator = (c ≡ separator) ⊎ SomeBegins ps separator

-- The outcome against the status and the bytes that are written: `close` puts behind the text what
-- follows it, and `Beyond` is what it takes to write the byte behind the destination.
abbrev pub Writes : Type 0 → (Bytes → Bytes) → ℕ → Result Bytes → ℕ × Bytes → Type 0
Writes Beyond close max (ok text) r = (r ≡ (status_ok, close text)) × (length r.1 ≤ max)
Writes Beyond close max (err e) r =
    (e ≡ error_strings_overflow)
    × (r.0 ≡ error_strings_overflow)
    × ((length r.1 ≤ max) ⊎ ((length r.1 ≡ max + 1) × Beyond))

terminated : Bytes → Bytes
terminated text = text ++ 0 ∷ []

one_or_two :
    (c separator : ℕ) (dest : Bytes)
    → length (dest ++ (if c == separator then c ∷ separator ∷ [] else c ∷ [])) ≤ length dest + 2
one_or_two c separator dest =
    ground (arith, length-append dest (c ∷ separator ∷ []), length-append dest (c ∷ []))

one_unless :
    (c separator : ℕ) (dest : Bytes)
    → (c ≡ separator)
      ⊎ (length (dest ++ (if c == separator then c ∷ separator ∷ [] else c ∷ [])) ≡ length dest + 1)
one_unless c separator dest =
    ground (arith, length-append dest (c ∷ separator ∷ []), length-append dest (c ∷ []))

at_most_next : (max n : ℕ) → n ≤ max + 1 → (n ≤ max) ⊎ (n ≡ max + 1)
at_most_next max n h = ground arith

-- The test of the destination, after a character or a part.
tested_lem :
    (Beyond : Type 0) (close : Bytes → Bytes) (max : ℕ) (dest : Bytes) (r : Result Bytes)
    (w : ℕ × Bytes)
    → ((length dest ≤ max) ⊎ ((length dest ≡ max + 1) × Beyond))
    → (length dest < max - 1 → Writes Beyond close max r w)
    → (let x : Result Bytes =
          if leb (max - 1) (length dest) then err error_strings_overflow else r in
        let y : ℕ × Bytes = elim (leb (max - 1) (length dest)) [
          | true ↦ (error_strings_overflow, dest)
          | false ↦ w
        ] in
        Writes Beyond close max x y)
tested_lem Beyond close max dest r w extent next = elim (Bool-cases (leb (max - 1) (length dest))) [
  | inl full ↦ rw full (refl, refl, extent)
  | inr fits ↦ rw fits (next (ground arith))
]

-- Behind the first character there is room for a doubled separator.
write_chars_lem :
    (Beyond : Type 0) (s : Bytes) (separator max : ℕ) (dest : Bytes)
    → length dest < max - 1
    → Writes Beyond (λ d. d) max (join_part s separator max dest) (write_chars s separator max dest)
unfolding join_part write_chars
write_chars_lem Beyond [] separator max dest room = (refl, omega arith)
write_chars_lem Beyond (c ∷ s) separator max dest room =
    let dest' = dest ++ (if c == separator then c ∷ separator ∷ [] else c ∷ []) in
    tested_lem Beyond (λ d. d) max dest' (join_part s separator max dest')
      (write_chars s separator max dest') (inl (omega (arith, one_or_two c separator dest)))
      (write_chars_lem Beyond s separator max dest')

-- The first character may begin at the last byte.
first_char_lem :
    (Beyond : Type 0) (c : ℕ) (s : Bytes) (separator max : ℕ) (dest : Bytes)
    → length dest < max
    → (c ≡ separator → Beyond)
    → Writes Beyond
        (λ d. d)
        max
        (join_part (c ∷ s) separator max dest)
        (write_chars (c ∷ s) separator max dest)
unfolding join_part write_chars
first_char_lem Beyond c s separator max dest room begins =
    let dest' = dest ++ (if c == separator then c ∷ separator ∷ [] else c ∷ []) in
    tested_lem Beyond (λ d. d) max dest' (join_part s separator max dest')
      (write_chars s separator max dest') extent (write_chars_lem Beyond s separator max dest')
  where
    extent :
        let n = length (dest ++ (if c == separator then c ∷ separator ∷ [] else c ∷ [])) in
        (n ≤ max) ⊎ ((n ≡ max + 1) × Beyond)
    extent = elim (one_unless c separator dest) [
      | inr one ↦ inl (omega (arith, one))
      | inl same ↦ elim (at_most_next max _ (omega (arith, one_or_two c separator dest))) [
        | inl within ↦ inl within
        | inr behind ↦ inr (behind, begins same)
      ]
    ]

write_part_lem :
    (p : Bytes) (ps : List (Option Bytes)) (separator max : ℕ) (dest : Bytes)
    → length dest < max
    → Writes
        (SomeBegins (some p ∷ ps) separator)
        (λ d. d)
        max
        (put_part p separator max dest)
        (write_part p separator max dest)
unfolding put_part write_part
write_part_lem [] ps separator max dest room = (refl, omega (arith, length-append dest (b' ' ∷ [])))
write_part_lem (c ∷ s) ps separator max dest room =
    first_char_lem (SomeBegins (some (c ∷ s) ∷ ps) separator) c s separator max dest room inl

later_begins :
    (p : Bytes) (ps : List (Option Bytes)) (separator : ℕ)
    → SomeBegins ps separator
    → SomeBegins (some p ∷ ps) separator
later_begins [] ps separator h = h
later_begins (c ∷ s) ps separator h = inr h

Writes-weaken :
    (A B : Type 0) (close : Bytes → Bytes) (max : ℕ) (r : Result Bytes) (w : ℕ × Bytes)
    → (A → B)
    → Writes A close max r w
    → Writes B close max r w
Writes-weaken A B close max (ok text) w f h = h
Writes-weaken A B close max (err e) w f (q, o, inl within) = (q, o, inl within)
Writes-weaken A B close max (err e) w f (q, o, inr (behind, a)) = (q, o, inr (behind, f a))

-- What follows a part, by the outcome of the part.
after_part_lem :
    (Beyond : Type 0) (max : ℕ) (r : Result Bytes) (w : ℕ × Bytes) (k : Bytes → Result Bytes)
    (l : Bytes → ℕ × Bytes)
    → Writes Beyond (λ d. d) max r w
    → ((dest : Bytes) → length dest < max - 1 → Writes Beyond terminated max (k dest) (l dest))
    → (let x : Result Bytes = elim r [
      | err e ↦ err e
      | ok dest ↦ elim (leb (max - 1) (length dest)) [
        | true ↦ err error_strings_overflow
        | false ↦ k dest
      ]
    ] in
        let y : ℕ × Bytes = elim (w.0 == status_ok) [
          | false ↦ w
          | true ↦ elim (leb (max - 1) (length w.1)) [
            | true ↦ (error_strings_overflow, w.1)
            | false ↦ l w.1
          ]
        ] in
        Writes Beyond terminated max x y)
after_part_lem Beyond max (err e) (status, d) k l (q, o, extent) next = rw o (q, o, extent)
after_part_lem Beyond max (ok dest) (status, d) k l (same, within) next =
    let text : d ≡ dest = ap (λ (x : ℕ × Bytes). x.1) same in
    elim (Bool-cases (leb (max - 1) (length dest))) [
      | inl full ↦
          rw (ap (λ (x : ℕ × Bytes). x.0) same, text, full)
            (refl, refl, inl (omega (arith, within, ap length text)))
      | inr fits ↦
          rw (ap (λ (x : ℕ × Bytes). x.0) same, text, fits) (rw text (next dest (ground arith)))
    ]

write_parts_lem :
    (parts : List (Option Bytes)) (separator max : ℕ) (dest : Bytes)
    → length dest < max
    → Writes
        (SomeBegins parts separator)
        terminated
        max
        (join_loop parts separator max dest)
        (write_parts parts separator max dest)
unfolding join_loop write_parts terminated
write_parts_lem [] separator max dest room = (refl, omega (arith, length-append dest (0 ∷ [])))
write_parts_lem (none ∷ ps) separator max dest room =
    (refl, omega (arith, length-append dest (0 ∷ [])))
write_parts_lem (some p ∷ ps) separator max dest room =
    after_part_lem (SomeBegins (some p ∷ ps) separator) max (put_part p separator max dest)
      (write_part p separator max dest)
      (λ t. join_loop ps separator max (separated (head_part ps) separator t))
      (λ t. write_parts ps separator max (separated (head_part ps) separator t))
      (write_part_lem p ps separator max dest room)
      (λ t fits.
        Writes-weaken (SomeBegins ps separator) (SomeBegins (some p ∷ ps) separator) terminated max
          _ _ (later_begins p ps separator)
          (write_parts_lem ps separator max (separated (head_part ps) separator t)
            (omega (arith, length-separated (head_part ps) separator t))))

-- Whatever the parts and the separator are, strings_join writes the text and its terminator within
-- the max_length bytes of the destination if it succeeds. If it fails, the status is the one for an
-- overflow, and it has written within these bytes too, or one byte behind them as well; that takes a
-- part that begins with the separator. max_length is not 0, and below 65535, so that dPos, a
-- uint16_t, does not wrap around.
pub written-strings_join :
    (parts : List (Option Bytes)) (separator max_length : ℕ)
    → 0 < max_length
    → max_length < 2 ^ 16 - 1
    → Writes
        (SomeBegins parts separator)
        (λ text. text ++ 0 ∷ [])
        max_length
        (strings_join parts separator max_length)
        (written parts separator max_length)
unfolding strings_join written terminated
written-strings_join parts separator max_length some_room no_wrap =
    write_parts_lem parts separator max_length [] (omega arith)
