-- ===== src/Master/StringTools.antt =====
-- code/c/common/master/opdi_StringTools.cpp: splitting and joining strings.
pub mod RoundTrip
pub mod Agreement
mod Tests
use opdi_core.Base.{
  ℕ, zero, suc, ◌+◌, ◌-◌, ◌&&◌, Bool, true, false, Bytes, List, [], ◌∷◌, ◌++◌, ◌==◌, length, take,
  drop, if◌then◌else◌,
}

-- `sb.erase(0)` erases from the first character to the end.
unfoldable pub remove_leading_blank : Bytes → Bytes
remove_leading_blank [] = []
remove_leading_blank (c ∷ sb) = if c == b' ' then [] else c ∷ sb

-- The loop of `split` from the character `str[i]` on, with `sb`; the list is what is still pushed
-- to `results`. At the last character `nextCh` is `ch + 1`, so that it is not a double separator.
unfoldable pub split_loop : Bytes → ℕ → Bytes → List Bytes
unfolding remove_leading_blank
split_loop [] c sb = remove_leading_blank sb ∷ []
split_loop (ch ∷ []) c sb = elim (ch == c) [
  | true ↦ remove_leading_blank sb ∷ split_loop [] c []
  | false ↦ split_loop [] c (sb ++ ch ∷ [])
]
split_loop (ch ∷ next_ch ∷ s) c sb = elim (ch == c && ch == next_ch) [
  | true ↦ split_loop s c (sb ++ ch ∷ [])
  | false ↦ elim (ch == c) [
    | true ↦ remove_leading_blank sb ∷ split_loop (next_ch ∷ s) c []
    | false ↦ split_loop (next_ch ∷ s) c (sb ++ ch ∷ [])
  ]
]

unfoldable pub split : Bytes → ℕ → List Bytes
unfolding split_loop
split str c = split_loop str c []

-- The inner loop of `join` from `str[i]` on; `first` is `i == 0`.
unfoldable pub join_chars : Bool → Bytes → ℕ → Bytes
join_chars first [] c = []
join_chars first (ch ∷ s) c =
    (if first && ch == b' ' then b' ' ∷ [] else [])
    ++ ((if ch == c then ch ∷ [] else []) ++ ch ∷ join_chars false s c)

-- An empty string is sent as a blank.
unfoldable pub not_empty : Bytes → Bytes
not_empty [] = b' ' ∷ []
not_empty (ch ∷ s) = ch ∷ s

-- What the outer loop of `join` appends to `sb`.
unfoldable pub join_loop : List Bytes → ℕ → Bytes
unfolding join_chars not_empty
join_loop [] c = []
join_loop (str ∷ strings) c = (join_chars true (not_empty str) c ++ c ∷ []) ++ join_loop strings c

-- `sb.substr(0, sb.size() - 1)`, or `sb` if it is empty.
abbrev pub without_last : Bytes → Bytes
without_last sb = take (length sb - 1) sb

-- `join(skipBegin, skipEnd, c, strings)` for skips that do not exceed the size of `strings`.
unfoldable pub join_some : ℕ → ℕ → ℕ → List Bytes → Bytes
unfolding join_loop
join_some skip_begin skip_end c strings =
    without_last
      (join_loop (take (length strings - skip_begin - skip_end) (drop skip_begin strings)) c)

unfoldable pub join : ℕ → List Bytes → Bytes
unfolding join_some
join c strings = join_some 0 0 c strings
