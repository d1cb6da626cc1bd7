-- ===== src/Slave/Encrypted/Buffer.antt =====
-- The buffer of `get_encrypted`: a block behind what is there, and the terminator in it.
use opdi_core.Base.{
  ◌==◌, ℕ, zero, suc, ◌+◌, ◌≤◌, ◌<◌, ◌≡◌, ◌≢◌, refl, ap, sym, ◌∙◌, Bytes, [], ◌∷◌, ◌++◌, length,
  length-append, append_assoc, Lacks, arith, drop, false, get_or-append, none, some,
}
use opdi_core.Constants.{message_terminator}
use opdi_core.Slave.Reception.{set_behind}
use opdi_core.Slave.Transfer.{find_terminator, splice}

pub splice_lem :
    (pre tail b : Bytes)
    → length b ≤ length tail
    → splice (pre ++ tail) (length pre) b ≡ pre ++ (b ++ drop (length b) tail)
unfolding splice
splice_lem pre tail [] h = refl
splice_lem pre [] (c ∷ b) h = absurd (omega arith)
splice_lem pre (x ∷ tail) (c ∷ b) h =
    ap (λ t. splice t (length pre + 1) b) (set_behind pre x c tail)
    ∙ ap (λ t. splice t (length pre + 1) b) (sym (append_assoc pre (c ∷ []) tail))
    ∙ ap (λ (n : ℕ). splice ((pre ++ c ∷ []) ++ tail) n b) (sym (length-append pre (c ∷ [])))
    ∙ splice_lem (pre ++ c ∷ []) tail b (omega arith)
    ∙ append_assoc pre (c ∷ []) (b ++ drop (length b) tail)

-- The byte at the place of the search, and what lies behind it.
step_on :
    (n c : ℕ) (pre rest : Bytes)
    → c ≢ message_terminator
    → find_terminator (suc n) (pre ++ c ∷ rest) (length pre)
      ≡ find_terminator n ((pre ++ c ∷ []) ++ rest) (length (pre ++ c ∷ []))
unfolding find_terminator
step_on n c pre rest ne =
    rw (get_or-append pre c rest 0, differs c ne)
      (ap (λ (i : ℕ). find_terminator n (pre ++ c ∷ rest) i) (sym (length-append pre (c ∷ [])))
        ∙ ap (λ t. find_terminator n t (length (pre ++ c ∷ [])))
            (sym (append_assoc pre (c ∷ []) rest)))
  where
    differs : (a : ℕ) → a ≢ 10 → (a == 10) ≡ false
    differs a h = ground arith

pub find_none :
    (b pre rest : Bytes)
    → Lacks message_terminator b
    → find_terminator (length b) (pre ++ (b ++ rest)) (length pre) ≡ none
unfolding find_terminator
find_none [] pre rest l = refl
find_none (c ∷ b) pre rest l =
    step_on (length b) c pre (b ++ rest) l.0 ∙ find_none b (pre ++ c ∷ []) rest l.1

pub find_some :
    (t pre rest : Bytes) (n : ℕ)
    → Lacks message_terminator t
    → length t < n
    → find_terminator n (pre ++ (t ++ message_terminator ∷ rest)) (length pre)
      ≡ some (length pre + length t)
unfolding find_terminator
find_some t pre rest zero l h = absurd (omega arith)
find_some [] pre rest (suc n) l h = rw (get_or-append pre 10 rest 0) (ap some (omega arith))
find_some (c ∷ t) pre rest (suc n) l h =
    step_on n c pre (t ++ message_terminator ∷ rest) l.0
    ∙ find_some t (pre ++ c ∷ []) rest n l.1 (omega arith)
    ∙ ap some (omega (arith, length-append pre (c ∷ [])))
