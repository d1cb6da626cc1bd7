-- ===== src/Strings.antt =====
-- code/c/common/opdi_strings.c: splitting a message into its parts, in place, and joining parts.
-- `strings_split` works on a model of the memory that `str` points into: the list holds the bytes
-- from `str` on, the terminator included, and a part is the offset of its first byte.
pub mod Written
pub mod Split
pub mod CString
mod Tests
use opdi_core.Base.{
  ℕ, zero, suc, ◌+◌, ◌-◌, Bool, true, false, not, ◌&&◌, Bytes, List, [], ◌∷◌, ◌++◌, Option, none,
  some, ltb, leb, ◌==◌, if◌then◌else◌, drop, set, get_or, length, Result, ok, err, replicate, map,
  take,
}
use opdi_core.Constants.{status_ok, error_parts_overflow, error_strings_overflow}
use opdi_core.Platform.{is_space}

-- The variables of `strings_split`; `base` is `dPtr - str`. `parts` holds what was written to
-- `parts[0 .. partCount)`, so `partCount` is its length.
pub record Splitter : Type 0 where
  pub buf : Bytes
  pub base : ℕ
  pub d_pos : ℕ
  pub s_pos : ℕ
  pub parts : List ℕ

-- `str[i]`.
abbrev pub at : Bytes → ℕ → ℕ
at buf i = get_or buf i 0

-- `dPtr[dPos++] = c`.
unfoldable pub put : ℕ → Splitter → Splitter
put c st = record st { buf = set st.buf (st.base + st.d_pos) c; d_pos = st.d_pos + 1 }

-- `dPtr[dPos] = '\0'`.
unfoldable pub terminate : Splitter → Splitter
terminate st = record st { buf = set st.buf (st.base + st.d_pos) 0 }

-- The part ends at a separator and the next one begins behind it.
unfoldable pub next_part : Splitter → Splitter
unfolding terminate
next_part st = record (terminate st) {
  base = st.s_pos + 1;
  d_pos = 0;
  s_pos = st.s_pos + 1;
  parts = st.parts ++ (st.s_pos + 1) ∷ [];
}

-- One round of the loop over the string, up to the test for too many parts.
unfoldable pub split_step : ℕ → Bool → Splitter → Splitter
unfolding put next_part is_space
split_step separator trim st =
    let c = at st.buf st.s_pos in
    if c == separator
    then (if at st.buf (st.s_pos + 1) == separator
        then (let st' = put separator st in record st' { s_pos = st'.s_pos + 2 })
        else next_part st)
    else (if st.d_pos == 0 && (trim && is_space c)
        then record st { s_pos = st.s_pos + 1 }
        else (let st' = put c st in record st' { s_pos = st'.s_pos + 1 }))

-- `while (str[sPos])`; the position grows in each round, so the length of the memory is enough fuel.
unfoldable pub split_loop : ℕ → ℕ → ℕ → Bool → Splitter → Result Splitter
unfolding split_step
split_loop zero separator max_parts trim st = ok st
split_loop (suc fuel) separator max_parts trim st =
    let st' = split_step separator trim st in
    let rest = split_loop fuel separator max_parts trim st' in
    if at st.buf st.s_pos == 0
    then ok st
    else (if ltb max_parts (length st'.parts) then err error_parts_overflow else rest)

-- The loop that looks for the last character of a part that is no space: `dPos` afterwards.
unfoldable pub last_non_space : Bytes → ℕ → ℕ → ℕ
unfolding is_space
last_non_space [] s_pos d_pos = d_pos
last_non_space (c ∷ s) s_pos d_pos =
    let rest = last_non_space s (s_pos + 1) (if is_space c then d_pos else s_pos) in
    if c == 0 then d_pos else rest

-- The trimming of the ends of the parts listed: `dPtr[dPos + 1] = '\0'`.
unfoldable pub trim_ends : List ℕ → Bytes → Bytes
unfolding last_non_space
trim_ends [] buf = buf
trim_ends (p ∷ ps) buf = trim_ends ps (set buf (p + (last_non_space (drop p buf) 0 0 + 1)) 0)

-- What `strings_split` leaves: the memory, and `parts` with `*part_count`.
pub record Pieces : Type 0 where
  pub memory : Bytes
  pub offsets : List ℕ

-- All but the last element.
unfoldable pub init_of : List ℕ → List ℕ
init_of [] = []
init_of (p ∷ []) = []
init_of (p ∷ q ∷ ps) = p ∷ init_of (q ∷ ps)

unfoldable pub finish_split : Bool → Splitter → Pieces
unfolding terminate trim_ends init_of
finish_split trim st =
    let buf = (terminate st).buf in
    record { memory = if trim then trim_ends (init_of st.parts) buf else buf; offsets = st.parts }

-- `strings_split` for `max_parts` above 0.
unfoldable pub strings_split : Bytes → ℕ → ℕ → Bool → Result Pieces
unfolding split_loop finish_split
strings_split str separator max_parts trim =
    elim (split_loop (length str) separator max_parts trim
      (record { buf = str; base = 0; d_pos = 0; s_pos = 0; parts = 0 ∷ [] })) [
        | ok st ↦ ok (finish_split trim st)
        | err e ↦ err e
      ]

-- The string at a pointer: the bytes up to the terminator.
abbrev pub c_string : Bytes → Bytes
c_string [] = []
c_string (c ∷ s) = elim (c == 0) [ true ↦ [] | false ↦ c ∷ c_string s ]

-- The strings that `parts[0 .. partCount)` point to afterwards.
unfoldable pub part_strings : Pieces → List Bytes
part_strings r = map (λ p. c_string (drop p r.memory)) r.offsets

-- `strings_split` of a string, and the strings that the parts point to.
unfoldable pub split : Bytes → ℕ → ℕ → Bool → Result (List Bytes)
unfolding strings_split part_strings
split s separator max_parts trim = elim (strings_split (s ++ 0 ∷ []) separator max_parts trim) [
  | ok r ↦ ok (part_strings r)
  | err e ↦ err e
]

-- The inner loop of `strings_join` over the characters of a part.
unfoldable pub join_part : Bytes → ℕ → ℕ → Bytes → Result Bytes
join_part [] separator max_length dest = ok dest
join_part (c ∷ s) separator max_length dest =
    let dest' = dest ++ (if c == separator then c ∷ separator ∷ [] else c ∷ []) in
    let rest = join_part s separator max_length dest' in
    if leb (max_length - 1) (length dest') then err error_strings_overflow else rest

-- An empty part is written as a blank.
unfoldable pub put_part : Bytes → ℕ → ℕ → Bytes → Result Bytes
unfolding join_part
put_part [] separator max_length dest = ok (dest ++ b' ' ∷ [])
put_part (c ∷ s) separator max_length dest = join_part (c ∷ s) separator max_length dest

-- The separator is written if another part follows.
abbrev pub separated : Option Bytes → ℕ → Bytes → Bytes
separated none separator dest = dest
separated (some p) separator dest = dest ++ separator ∷ []

abbrev pub head_part : List (Option Bytes) → Option Bytes
head_part [] = none
head_part (p ∷ ps) = p

-- The loop over `parts`, which ends at NULL; `dest` holds `dest[0 .. dPos)`.
unfoldable pub join_loop : List (Option Bytes) → ℕ → ℕ → Bytes → Result Bytes
unfolding put_part
join_loop [] separator max_length dest = ok dest
join_loop (none ∷ ps) separator max_length dest = ok dest
join_loop (some p ∷ ps) separator max_length dest = elim (put_part p separator max_length dest) [
  | err e ↦ err e
  | ok dest' ↦ elim (leb (max_length - 1) (length dest')) [
    | true ↦ err error_strings_overflow
    | false ↦ join_loop ps separator max_length (separated (head_part ps) separator dest')
  ]
]

unfoldable pub strings_join : List (Option Bytes) → ℕ → ℕ → Result Bytes
unfolding join_loop
strings_join parts separator max_length = join_loop parts separator max_length []

-- What the loops of `strings_join` leave in memory, with the status: all bytes from `dest[0]` on that
-- are written, also if it fails. The length of the list is `dPos`, without the wrap-around of a
-- uint16_t.
unfoldable pub write_chars : Bytes → ℕ → ℕ → Bytes → ℕ × Bytes
write_chars [] separator max_length dest = (status_ok, dest)
write_chars (c ∷ s) separator max_length dest =
    let dest' = dest ++ (if c == separator then c ∷ separator ∷ [] else c ∷ []) in
    elim (leb (max_length - 1) (length dest')) [
      | true ↦ (error_strings_overflow, dest')
      | false ↦ write_chars s separator max_length dest'
    ]

unfoldable pub write_part : Bytes → ℕ → ℕ → Bytes → ℕ × Bytes
unfolding write_chars
write_part [] separator max_length dest = (status_ok, dest ++ b' ' ∷ [])
write_part (c ∷ s) separator max_length dest = write_chars (c ∷ s) separator max_length dest

unfoldable pub write_parts : List (Option Bytes) → ℕ → ℕ → Bytes → ℕ × Bytes
unfolding write_part
write_parts [] separator max_length dest = (status_ok, dest ++ 0 ∷ [])
write_parts (none ∷ ps) separator max_length dest = (status_ok, dest ++ 0 ∷ [])
write_parts (some p ∷ ps) separator max_length dest =
    let (status, dest') = write_part p separator max_length dest in
    elim (status == status_ok) [
      | false ↦ (status, dest')
      | true ↦ elim (leb (max_length - 1) (length dest')) [
        | true ↦ (error_strings_overflow, dest')
        | false ↦ write_parts ps separator max_length (separated (head_part ps) separator dest')
      ]
    ]

unfoldable pub written : List (Option Bytes) → ℕ → ℕ → ℕ × Bytes
unfolding write_parts
written parts separator max_length = write_parts parts separator max_length []
