-- ===== src/Strings/CString.antt =====
-- The C string in a piece of memory.
use opdi_core.Base.{◌≡◌, ◌≢◌, ℕ, refl, ap, Bytes, [], ◌∷◌, ◌++◌, Lacks, ◌==◌, false, arith}
use opdi_core.Strings.{c_string}

apart : (n : ℕ) → n ≢ 0 → (n == 0) ≡ false
apart n h = ground arith

pub c_string-Lacks : (s : Bytes) → Lacks 0 s → c_string s ≡ s
c_string-Lacks [] l = refl
c_string-Lacks (c ∷ s) l = rw (c_string, apart c l.0) (ap (λ t. c ∷ t) (c_string-Lacks s l.1))

pub c_string-append : (s rest : Bytes) → Lacks 0 s → c_string (s ++ 0 ∷ rest) ≡ s
c_string-append [] rest l = refl
c_string-append (c ∷ s) rest l =
    rw (c_string, apart c l.0) (ap (λ t. c ∷ t) (c_string-append s rest l.1))
