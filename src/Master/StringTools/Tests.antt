-- ===== src/Master/StringTools/Tests.antt =====
-- Splitting and joining at concrete inputs.
use opdi_core.Base.{◌≡◌, refl, codes, [], ◌∷◌, All, arith}
use opdi_core.Master.StringTools.{
  split, split_loop, remove_leading_blank, join, join_some, join_loop, join_chars, not_empty,
}
use opdi_core.Master.StringTools.RoundTrip.{IsPlain, split-join}

-- A doubled separator belongs to the part before it.
split_double : split (codes "a::b:c") b':' ≡ codes "a:b" ∷ codes "c" ∷ []
unfolding split split_loop remove_leading_blank
split_double = refl

-- A part that begins with a blank is lost.
split_blank : split (codes "a: b") b':' ≡ codes "a" ∷ [] ∷ []
unfolding split split_loop remove_leading_blank
split_blank = refl

join_empty : join b':' (codes "a" ∷ [] ∷ codes "b:" ∷ []) ≡ codes "a:  :b::"
unfolding join join_some join_loop join_chars not_empty
join_empty = refl

command-IsPlain : All (IsPlain 58) (codes "gDS" ∷ codes "d:1" ∷ [])
command-IsPlain = (
  ((λ e. absurd (omega arith)), (λ e. absurd (omega arith))),
  (((λ e. absurd (omega arith)), (λ e. absurd (omega arith))), tt),
)

split-join_example :
    split (join 58 (codes "gDS" ∷ codes "d:1" ∷ [])) 58 ≡ codes "gDS" ∷ codes "d:1" ∷ []
split-join_example = split-join 58 (codes "gDS") (codes "d:1" ∷ []) command-IsPlain
