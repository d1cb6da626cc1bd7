-- ===== src/Strings/Tests.antt =====
-- Splitting and joining at concrete inputs.
use opdi_core.Strings.Written.{Writes, SomeBegins, written-strings_join}
use opdi_core.Base.{◌++◌, arith, ◌≡◌, refl, codes, true, false, some, none, ok, err, [], ◌∷◌}
use opdi_core.Constants.{error_parts_overflow}
use opdi_core.Strings.{split, strings_join, written}

split_plain :
    split (codes "gDS:A1 : x") b':' 16 true ≡ ok (codes "gDS" ∷ codes "A1" ∷ codes "x" ∷ [])
unfolding split
split_plain = refl

split_escaped : split (codes "a::b:c") b':' 16 true ≡ ok (codes "a:b" ∷ codes "c" ∷ [])
unfolding split
split_escaped = refl

split_overflow : split (codes "a:b:c") b':' 2 true ≡ err error_parts_overflow
unfolding split
split_overflow = refl

-- Trimming an empty part writes its terminator over the first character of the next part.
split_clobbers : split (codes ":b") b':' 16 true ≡ ok ([] ∷ [] ∷ [])
unfolding split
split_clobbers = refl

-- Without trimming the same text has the parts that one expects.
split_kept : split (codes ":b") b':' 16 false ≡ ok ([] ∷ codes "b" ∷ [])
unfolding split
split_kept = refl

join_blank : strings_join (some (codes "a") ∷ some [] ∷ none ∷ []) b':' 20 ≡ ok (codes "a: ")
unfolding strings_join
join_blank = refl

-- A part that begins with the separator is joined to the part before it.
join_ambiguous :
    strings_join (some (codes "a") ∷ some (codes ":b") ∷ none ∷ []) b':' 20 ≡ ok (codes "a:::b")
unfolding strings_join
join_ambiguous = refl

split_ambiguous : split (codes "a:::b") b':' 16 false ≡ ok (codes "a:" ∷ codes "b" ∷ [])
unfolding split
split_ambiguous = refl

joined_fits : strings_join (some (codes "a:b") ∷ some [] ∷ none ∷ []) b':' 8 ≡ ok (codes "a::b: ")
unfolding strings_join
joined_fits = refl

-- The doubled separator is written behind the four bytes of the destination.
written_beyond :
    written (some (codes "ab") ∷ some (codes ":") ∷ none ∷ []) b':' 4 ≡ (8, codes "ab:::")
unfolding written
written_beyond = refl

written-strings_join_example :
    let parts = some (codes "ab") ∷ some (codes ":") ∷ none ∷ [] in
    Writes
      (SomeBegins parts b':')
      (λ text. text ++ 0 ∷ [])
      4
      (strings_join parts b':' 4)
      (written parts b':' 4)
written-strings_join_example =
    written-strings_join (some (codes "ab") ∷ some (codes ":") ∷ none ∷ []) b':' 4 (omega arith)
      (omega arith)
