-- ===== src/Platform/Avr/Swap.antt =====
-- The loop that exchanges characters in code/c/platforms/avr/opdi_platformfuncs.c turns the text round.
use opdi_core.Base.{
  ℕ, zero, suc, ◌+◌, ◌-◌, ◌/◌, ◌≡◌, refl, sym, ap, ◌∙◌, Bytes, [], ◌∷◌, ◌++◌, length, set, get_or,
  append_assoc, append-nil, length-append, get_or-append, arith,
}
use opdi_core.Platform.Avr.{exchange, exchange_loop, ordered}

-- The text from its end to its beginning.
abbrev pub reversed : Bytes → Bytes
reversed [] = []
reversed (x ∷ s) = reversed s ++ x ∷ []

reversed-append : (s : Bytes) (y : ℕ) → reversed (s ++ y ∷ []) ≡ y ∷ reversed s
reversed-append [] y = refl
reversed-append (x ∷ s) y = ap (λ t. t ++ x ∷ []) (reversed-append s y)

last_apart : (x : ℕ) (s : Bytes) → (t : Bytes) × (y : ℕ) × (x ∷ s ≡ t ++ y ∷ [])
last_apart x [] = ([], x, refl)
last_apart x (z ∷ s) = let (t, y, e) = last_apart z s in (x ∷ t, y, ap (λ u. x ∷ u) e)

set-append : (s t : Bytes) (x y : ℕ) → set (s ++ x ∷ t) (length s) y ≡ s ++ y ∷ t
set-append [] t x y = refl
set-append (z ∷ s) t x y = ap (λ u. z ∷ u) (set-append s t x y)

exchange_lem :
    (a m b : Bytes) (x y len : ℕ)
    → len ≡ length a + length m + 2 + length b
    → length a ≡ length b
    → exchange len (length a) (a ++ x ∷ (m ++ y ∷ b)) ≡ a ++ y ∷ (m ++ x ∷ b)
unfolding exchange
exchange_lem a m b x y len e same =
    let s : Bytes = a ++ x ∷ (m ++ y ∷ b) in
    let place : len - 1 - length a ≡ length (a ++ x ∷ m) = omega (arith, length-append a (x ∷ m)) in
    let split : s ≡ (a ++ x ∷ m) ++ y ∷ b = sym (append_assoc a (x ∷ m) (y ∷ b)) in
    let front : get_or s (length a) 0 ≡ x = get_or-append a x (m ++ y ∷ b) 0 in
    let back : get_or s (len - 1 - length a) 0 ≡ y =
      ap (λ t. get_or t (len - 1 - length a) 0) split
      ∙ ap (λ k. get_or ((a ++ x ∷ m) ++ y ∷ b) k 0) place
      ∙ get_or-append (a ++ x ∷ m) y b 0 in
    ap (λ v. set (set s (length a) v) (len - 1 - length a) (get_or s (length a) 0)) back
    ∙ ap (λ v. set (set s (length a) y) (len - 1 - length a) v) front
    ∙ ap (λ t. set t (len - 1 - length a) x)
        (set-append a (m ++ y ∷ b) x y ∙ sym (append_assoc a (y ∷ m) (y ∷ b)))
    ∙ ap (λ k. set ((a ++ y ∷ m) ++ y ∷ b) k x) (omega (arith, length-append a (y ∷ m)))
    ∙ set-append (a ++ y ∷ m) b y x
    ∙ append_assoc a (y ∷ m) (x ∷ b)

loop_lem :
    (k : ℕ) (a m b : Bytes) (len : ℕ)
    → len ≡ length a + length m + length b
    → length a ≡ length b
    → k ≡ length m / 2
    → exchange_loop k len (length a) (a ++ (m ++ b)) ≡ a ++ (reversed m ++ b)
unfolding exchange_loop
loop_lem zero a [] b len e same h = refl
loop_lem zero a (x ∷ []) b len e same h = refl
loop_lem zero a (x ∷ z ∷ m) b len e same h = absurd (omega arith)
loop_lem (suc k) a [] b len e same h = absurd (omega arith)
loop_lem (suc k) a (x ∷ []) b len e same h = absurd (omega arith)
loop_lem (suc k) a (x ∷ z ∷ m) b len e same h =
    let (t, y, split) = last_apart z m in
    let size : length (z ∷ m) ≡ length t + 1 = ap length split ∙ length-append t (y ∷ []) in
    let shape : x ∷ z ∷ m ++ b ≡ x ∷ (t ++ y ∷ b) =
      ap (λ u. x ∷ (u ++ b)) split ∙ ap (λ u. x ∷ u) (append_assoc t (y ∷ []) b) in
    let next : length a + 1 ≡ length (a ++ y ∷ []) = sym (length-append a (y ∷ [])) in
    let turned : reversed (x ∷ z ∷ m) ++ b ≡ y ∷ (reversed t ++ x ∷ b) =
      ap (λ u. (reversed u ++ x ∷ []) ++ b) split
      ∙ ap (λ u. (u ++ x ∷ []) ++ b) (reversed-append t y)
      ∙ ap (λ u. y ∷ u) (append_assoc (reversed t) (x ∷ []) b) in
    ap (λ u. exchange_loop k len (length a + 1) (exchange len (length a) (a ++ u))) shape
    ∙ ap (exchange_loop k len (length a + 1)) (
        exchange_lem a t b x y len (omega (arith, e, size)) same
        ∙ sym (append_assoc a (y ∷ []) (t ++ x ∷ b)))
    ∙ ap (λ i. exchange_loop k len i ((a ++ y ∷ []) ++ (t ++ x ∷ b))) next
    ∙ loop_lem k (a ++ y ∷ []) t (x ∷ b) len (omega (arith, e, size, next))
        (omega (arith, same, next)) (omega (arith, h, size))
    ∙ append_assoc a (y ∷ []) (reversed t ++ x ∷ b)
    ∙ ap (λ u. a ++ u) (sym turned)

pub ordered_lem : (s : Bytes) → ordered s ≡ reversed s
unfolding ordered
ordered_lem s =
    ap (exchange_loop (length s / 2) (length s) 0) (sym (append-nil s))
    ∙ loop_lem (length s / 2) [] s [] (length s) (omega arith) refl refl
    ∙ append-nil (reversed s)
