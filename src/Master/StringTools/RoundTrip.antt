-- ===== src/Master/StringTools/RoundTrip.antt =====
-- `split` takes apart what `join` puts together, in code/c/common/master/opdi_StringTools.cpp.
use opdi_core.Base.{
  ℕ, ◌≡◌, ◌≢◌, refl, sym, ap, ◌∙◌, true, false, Bytes, List, [], ◌∷◌, ◌++◌, ◌==◌, if◌then◌else◌,
  take, take_all, take-append, length-append, append_assoc, append-nil, arith, All, Bool-cases, inl,
  inr,
}
use opdi_core.Master.StringTools.{
  split, split_loop, remove_leading_blank, join, join_some, join_loop, join_chars, not_empty,
  without_last,
}

-- A part that is not empty and begins neither with a blank nor with the separator.
abbrev pub IsPlain : ℕ → Bytes → Type 0
IsPlain c [] = ⊥
IsPlain c (ch ∷ s) = (ch ≢ b' ') × (ch ≢ c)

-- A part with its separators doubled.
abbrev pub doubled : ℕ → Bytes → Bytes
doubled c [] = []
doubled c (ch ∷ s) = (if ch == c then ch ∷ [] else []) ++ ch ∷ doubled c s

-- The parts with one separator between each two.
abbrev pub joined : ℕ → List Bytes → Bytes
joined c [] = []
joined c (p ∷ []) = doubled c p
joined c (p ∷ q ∷ ps) = doubled c p ++ c ∷ joined c (q ∷ ps)

split_other :
    (ch c : ℕ) (t sb : Bytes) → ch ≢ c → split_loop (ch ∷ t) c sb ≡ split_loop t c (sb ++ ch ∷ [])
unfolding split_loop
split_other ch c [] sb h = ground arith
split_other ch c (n ∷ t) sb h = ground arith

split_pair : (c : ℕ) (t sb : Bytes) → split_loop (c ∷ c ∷ t) c sb ≡ split_loop t c (sb ++ c ∷ [])
unfolding split_loop
split_pair c t sb = ground arith

split_separator :
    (c n : ℕ) (t sb : Bytes)
    → n ≢ c
    → split_loop (c ∷ n ∷ t) c sb ≡ remove_leading_blank sb ∷ split_loop (n ∷ t) c []
unfolding split_loop
split_separator c n t sb h = ground arith

pub split-doubled :
    (c : ℕ) (p t sb : Bytes) → split_loop (doubled c p ++ t) c sb ≡ split_loop t c (sb ++ p)
split-doubled c [] t sb = ap (split_loop t c) (sym (append-nil sb))
split-doubled c (ch ∷ p) t sb = elim (Bool-cases (ch == c)) [
  | inl e ↦
      let same : ch ≡ c = to_path ch c e in
      rw (e, same)
        (split_pair c (doubled c p ++ t) sb
          ∙ split-doubled c p t (sb ++ c ∷ [])
          ∙ ap (split_loop t c) (append_assoc sb (c ∷ []) p))
  | inr e ↦ rw (e) (
      split_other ch c (doubled c p ++ t) sb (apart ch c e)
      ∙ split-doubled c p t (sb ++ ch ∷ [])
      ∙ ap (split_loop t c) (append_assoc sb (ch ∷ []) p))
]
  where
    to_path : (a b : ℕ) → (a == b) ≡ true → a ≡ b
    to_path a b e = ground arith

    apart : (a b : ℕ) → (a == b) ≡ false → a ≢ b
    apart a b e = ground arith

-- The joined text begins with the first character of its first part.
pub joined_head :
    (c ch : ℕ) (s : Bytes) (ps : List Bytes)
    → ch ≢ c
    → (t : Bytes) × (joined c ((ch ∷ s) ∷ ps) ≡ ch ∷ t)
joined_head c ch s [] h = (doubled c s, ground arith)
joined_head c ch s (q ∷ ps) h = (doubled c s ++ c ∷ joined c (q ∷ ps), ground arith)

remove-plain : (d : ℕ) (s : Bytes) → d ≢ b' ' → remove_leading_blank (d ∷ s) ≡ d ∷ s
unfolding remove_leading_blank
remove-plain d s k = ground arith

-- The loop takes the first part behind what it has gathered, and the others as they are.
pub split_loop-joined :
    (c : ℕ) (p : Bytes) (ps : List Bytes) (sb : Bytes)
    → All (IsPlain c) ps
    → split_loop (joined c (p ∷ ps)) c sb ≡ remove_leading_blank (sb ++ p) ∷ ps
split_loop-joined c p [] sb h =
    ap (λ t. split_loop t c sb) (sym (append-nil (doubled c p)))
    ∙ split-doubled c p [] sb
    ∙ (unfold split_loop in refl)
split_loop-joined c p ([] ∷ ps) sb h = absurd h.0
split_loop-joined c p ((ch ∷ q) ∷ ps) sb h =
    let (t, e) = joined_head c ch q ps h.0.1 in
    split-doubled c p (c ∷ joined c ((ch ∷ q) ∷ ps)) sb
    ∙ ap (λ u. split_loop (c ∷ u) c (sb ++ p)) e
    ∙ split_separator c ch t (sb ++ p) h.0.1
    ∙ ap (λ u. remove_leading_blank (sb ++ p) ∷ split_loop u c []) (sym e)
    ∙ ap (λ r. remove_leading_blank (sb ++ p) ∷ r)
        (split_loop-joined c (ch ∷ q) ps [] h.1 ∙ ap (λ r. r ∷ ps) (remove-plain ch q h.0.0))

join_chars_rest : (c : ℕ) (s : Bytes) → join_chars false s c ≡ doubled c s
unfolding join_chars
join_chars_rest c [] = refl
join_chars_rest c (ch ∷ s) = rw (join_chars_rest c s) refl

join_chars_plain : (c : ℕ) (s : Bytes) → IsPlain c s → join_chars true (not_empty s) c ≡ doubled c s
unfolding join_chars not_empty
join_chars_plain c [] h = absurd h
join_chars_plain c (ch ∷ s) h = rw (join_chars_rest c s, apart ch h.0) refl
  where
    apart : (d : ℕ) → d ≢ b' ' → (d == b' ') ≡ false
    apart d k = ground arith

pub join_loop-joined :
    (c : ℕ) (p : Bytes) (ps : List Bytes)
    → All (IsPlain c) (p ∷ ps)
    → join_loop (p ∷ ps) c ≡ joined c (p ∷ ps) ++ c ∷ []
unfolding join_loop
join_loop-joined c p [] h = append-nil _ ∙ ap (λ t. t ++ c ∷ []) (join_chars_plain c p h.0)
join_loop-joined c p (q ∷ ps) h =
    rw (join_loop-joined c q ps h.1, join_chars_plain c p h.0)
      (append_assoc (doubled c p) (c ∷ []) _ ∙ sym (append_assoc (doubled c p) _ (c ∷ [])))

pub without_last_lem : (s : Bytes) (c : ℕ) → without_last (s ++ c ∷ []) ≡ s
without_last_lem s c =
    ap (λ n. take n (s ++ c ∷ [])) (omega (arith, length-append s (c ∷ [])))
    ∙ take-append s (c ∷ [])

-- Parts that need no mark are joined with one separator between each two.
pub join-joined :
    (c : ℕ) (p : Bytes) (ps : List Bytes)
    → All (IsPlain c) (p ∷ ps)
    → join c (p ∷ ps) ≡ joined c (p ∷ ps)
unfolding join join_some
join-joined c p ps h =
    ap (λ l. without_last (join_loop l c)) (take_all _ (p ∷ ps) (omega arith))
    ∙ ap without_last (join_loop-joined c p ps h)
    ∙ without_last_lem (joined c (p ∷ ps)) c

pub split-joined :
    (c : ℕ) (p : Bytes) (ps : List Bytes)
    → All (IsPlain c) (p ∷ ps)
    → split (joined c (p ∷ ps)) c ≡ p ∷ ps
unfolding split
split-joined c [] ps h = absurd h.0
split-joined c (ch ∷ p) ps h =
    split_loop-joined c (ch ∷ p) ps [] h.1 ∙ ap (λ q. q ∷ ps) (remove-plain ch p h.0.0)

-- `split` gives back the parts that `join` has put together, for any separator and any number of
-- parts above 0, if no part is empty or begins with a blank or with the separator; the separator
-- may occur further on in a part.
pub split-join :
    (c : ℕ) (p : Bytes) (ps : List Bytes)
    → All (IsPlain c) (p ∷ ps)
    → split (join c (p ∷ ps)) c ≡ p ∷ ps
split-join c p ps h = ap (λ t. split t c) (join-joined c p ps h) ∙ split-joined c p ps h
