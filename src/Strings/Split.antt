-- ===== src/Strings/Split.antt =====
-- How `strings_split` of code/c/common/opdi_strings.c may fail.
use opdi_core.Base.{
  ℕ, zero, suc, ◌≡◌, sym, Bool, true, false, Bytes, ltb, ◌==◌, if◌then◌else◌, length, Result, ok,
  err, ap, [], ◌∷◌, ◌++◌,
}
use opdi_core.Constants.{error_parts_overflow}
use opdi_core.Strings.{
  Splitter, split_step, split_loop, strings_split, split, at, finish_split, part_strings,
}

code_of : {A : Type 0} {a b : ℕ} → (let x : Result A = err a in x ≡ err b) → b ≡ a
code_of h = cc

tests_lem :
    (a b : Bool) (st : Splitter) (rest : Result Splitter) (e : ℕ)
    → (rest ≡ err e → e ≡ error_parts_overflow)
    → (if a then ok st else (if b then err error_parts_overflow else rest)) ≡ err e
    → e ≡ error_parts_overflow
tests_lem true b st rest e ih h = cc
tests_lem false true st rest e ih h = code_of h
tests_lem false false st rest e ih h = ih h

split_loop_lem :
    (fuel separator max : ℕ) (trim : Bool) (st : Splitter) (e : ℕ)
    → split_loop fuel separator max trim st ≡ err e
    → e ≡ error_parts_overflow
unfolding split_loop
split_loop_lem zero separator max trim st e h = cc
split_loop_lem (suc fuel) separator max trim st e h =
    tests_lem (at st.buf st.s_pos == 0) (ltb max (length (split_step separator trim st).parts)) st
      (split_loop fuel separator max trim (split_step separator trim st)) e
      (split_loop_lem fuel separator max trim (split_step separator trim st) e) h

-- An error is passed on.
through :
    {A B : Type 0} (r : Result A) (f : A → B) (e : ℕ)
    → (let x : Result B = elim r [ ok a ↦ ok (f a) | err code ↦ err code ] in x ≡ err e)
    → r ≡ err e
through (ok a) f e h = cc
through (err code) f e h = ap err (sym (code_of h))

-- Splitting a string fails with OPDI_ERROR_PARTS_OVERFLOW or not at all.
pub split_lem :
    (s : Bytes) (separator max : ℕ) (trim : Bool) (e : ℕ)
    → split s separator max trim ≡ err e
    → e ≡ error_parts_overflow
unfolding split strings_split
split_lem s separator max trim e h =
    let start : Splitter = record {
      buf = s ++ 0 ∷ [];
      base = 0;
      d_pos = 0;
      s_pos = 0;
      parts = 0 ∷ [];
    } in
    let loop : Result Splitter = split_loop (length (s ++ 0 ∷ [])) separator max trim start in
    split_loop_lem (length (s ++ 0 ∷ [])) separator max trim start e (
      through loop (finish_split trim) e
        (through (strings_split (s ++ 0 ∷ []) separator max trim) part_strings e h))
