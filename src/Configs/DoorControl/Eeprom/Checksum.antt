-- ===== src/Configs/DoorControl/Eeprom/Checksum.antt =====
-- The checksum behind the eight bytes of a position tells when one of the ten bytes has changed.
use opdi_core.Base.{
  ℕ, zero, suc, ◌+◌, ◌*◌, ◌/◌, ◌%◌, ◌≤◌, ◌<◌, ◌≡◌, ◌≢◌, inl, inr, refl, ap, ◌∙◌, List, [], ◌∷◌,
  ◌++◌, ◌&&◌, ◌==◌, ℤ, length, subst, sym, set, length-append, get_or, All, false, arith, ltb,
  Bool-cases, length-set,
}
use opdi_core.Configs.DoorControl.Eeprom.{shift_byte}
use opdi_core.Configs.DoorControl.Eeprom.Bytes.{low_bytes, sum, low_byte-lt, length-low_bytes}
use opdi_core.Configs.DoorControl.Eeprom.RoundTrip.{ten_bytes}

sum-set : (bs : List ℕ) (k v : ℕ) → k < length bs → sum (set bs k v) + get_or bs k 0 ≡ sum bs + v
unfolding sum
sum-set [] k v h = absurd (omega arith)
sum-set (b ∷ bs) zero v h = omega arith
sum-set (b ∷ bs) (suc k) v h = omega (arith, sum-set bs k v (omega arith))

sum-le : (bs : List ℕ) → All (λ b. b < 256) bs → sum bs ≤ 255 * length bs
unfolding sum
sum-le [] h = omega arith
sum-le (b ∷ bs) h = omega (arith, sum-le bs h.1)

pub low_bytes-lt : (n : ℕ) (v : ℤ) → All (λ b. b < 256) (low_bytes n v)
unfolding low_bytes
low_bytes-lt zero v = tt
low_bytes-lt (suc n) v = (low_byte-lt v, low_bytes-lt n (shift_byte v))

get_or-lt : (bs : List ℕ) (k : ℕ) → All (λ b. b < 256) bs → get_or bs k 0 < 256
get_or-lt [] k h = omega arith
get_or-lt (b ∷ bs) zero h = h.0
get_or-lt (b ∷ bs) (suc k) h = get_or-lt bs k h.1

-- The position in a list of ten: one of the first eight, or one of the last two.
set-append_left : (xs ys : List ℕ) (k v : ℕ) → k < length xs → set (xs ++ ys) k v ≡ set xs k v ++ ys
set-append_left [] ys k v h = absurd (omega arith)
set-append_left (x ∷ xs) ys zero v h = refl
set-append_left (x ∷ xs) ys (suc k) v h =
    ap (λ zs. x ∷ zs) (set-append_left xs ys k v (omega arith))

get_or-append_left :
    (xs ys : List ℕ) (k d : ℕ) → k < length xs → get_or (xs ++ ys) k d ≡ get_or xs k d
get_or-append_left [] ys k d h = absurd (omega arith)
get_or-append_left (x ∷ xs) ys zero d h = refl
get_or-append_left (x ∷ xs) ys (suc k) d h = get_or-append_left xs ys k d (omega arith)

get_or-append_right :
    (xs ys : List ℕ) (i k d : ℕ) → i ≡ length xs + k → get_or (xs ++ ys) i d ≡ get_or ys k d
get_or-append_right [] ys i k d h = ap (λ (j : ℕ). get_or ys j d) (omega arith)
get_or-append_right (x ∷ xs) ys zero k d h = absurd (omega arith)
get_or-append_right (x ∷ xs) ys (suc i) k d h = get_or-append_right xs ys i k d (omega arith)

set-append_right :
    (xs ys : List ℕ) (i k v : ℕ) → i ≡ length xs + k → set (xs ++ ys) i v ≡ xs ++ set ys k v
set-append_right [] ys i k v h = ap (λ (j : ℕ). set ys j v) (omega arith)
set-append_right (x ∷ xs) ys zero k v h = absurd (omega arith)
set-append_right (x ∷ xs) ys (suc i) k v h =
    ap (λ zs. x ∷ zs) (set-append_right xs ys i k v (omega arith))

-- The checksum does not agree with other bytes of another sum.
checksum_differs :
    (s s' : ℕ)
    → s < 65536
    → s' < 65536
    → s ≢ s'
    → (s % 256 == s' % 256 && s / 256 % 256 == s' / 256 % 256) ≡ false
checksum_differs s s' h h' ne = ground arith

-- Ten bytes of which the last two are not the checksum of the others.
abbrev pub Disagrees : List ℕ → Type 0
Disagrees cells =
    (bs : List ℕ) × (c0 : ℕ) × (c1 : ℕ) × (cells ≡ bs ++ c0 ∷ c1 ∷ [])
    × (length bs ≡ 8)
    × ((c0 == sum bs % 256 && c1 == sum bs / 256 % 256) ≡ false)

abbrev pub cells : List ℕ → List ℕ
cells bs = bs ++ (sum bs % 256) ∷ (sum bs / 256 % 256) ∷ []

module _ (bs : List ℕ) (len : length bs ≡ 8) (are_bytes : All (λ b. b < 256) bs) where
  value_changed :
      (k v : ℕ) → v < 256 → k < 8 → v ≢ get_or (cells bs) k 0 → Disagrees (set (cells bs) k v)
  value_changed k v hv hk ne = (
    set bs k v,
    sum bs % 256,
    sum bs / 256 % 256,
    set-append_left bs _ k v (omega arith),
    length-set bs k v ∙ len,
    checksum_differs (sum bs) (sum (set bs k v)) (omega (arith, sum-le bs are_bytes))
        (omega (arith, sum-le bs are_bytes, sum-set bs k v (omega arith)))
        (λ q. ne (
          omega (
            arith,
            sum-set bs k v (omega arith),
            get_or-append_left bs (sum bs % 256 ∷ (sum bs / 256 % 256) ∷ []) k 0 (omega arith),
          ))),
  )

  first_changed : (v : ℕ) → v ≢ sum bs % 256 → Disagrees (set (cells bs) 8 v)
  first_changed v ne =
      (bs, v, sum bs / 256 % 256, set-append_right bs _ 8 0 v (omega arith), len, ground arith)

  second_changed : (v : ℕ) → v ≢ sum bs / 256 % 256 → Disagrees (set (cells bs) 9 v)
  second_changed v ne =
      (bs, sum bs % 256, v, set-append_right bs _ 9 1 v (omega arith), len, ground arith)

at_place :
    (bs : List ℕ) (k j v : ℕ)
    → k ≡ j
    → v ≢ get_or (cells bs) k 0
    → (v ≢ get_or (cells bs) j 0 → Disagrees (set (cells bs) j v))
    → Disagrees (set (cells bs) k v)
at_place bs k j v eq ne h =
    subst (λ (i : ℕ). v ≢ get_or (cells bs) i 0 → Disagrees (set (cells bs) i v)) (sym eq) h ne

-- Any of the ten bytes.
pub changed :
    (bs : List ℕ) (len : length bs ≡ 8) (are_bytes : All (λ b. b < 256) bs) (k v : ℕ)
    → v < 256
    → k < 10
    → v ≢ get_or (cells bs) k 0
    → Disagrees (set (cells bs) k v)
changed bs len are_bytes k v hv hk ne = elim (Bool-cases (ltb k 8)) [
  | inl below ↦ value_changed bs len are_bytes k v hv (ground arith) ne
  | inr not_below ↦ elim (Bool-cases (k == 8)) [
    | inl is_8 ↦ at_place bs k 8 v (ground arith) ne (λ n.
        first_changed bs len are_bytes v
          (λ q. n (q ∙ sym (get_or-append_right bs _ 8 0 0 (omega arith)))))
    | inr not_8 ↦ at_place bs k 9 v (ground arith) ne (λ n.
        second_changed bs len are_bytes v
          (λ q. n (q ∙ sym (get_or-append_right bs _ 9 1 0 (omega arith)))))
  ]
]

pub length-ten_bytes : (v : ℤ) → length (ten_bytes v) ≡ 10
length-ten_bytes v = omega (
  arith,
  length-append {0} (low_bytes 8 v)
      ((sum (low_bytes 8 v) % 256) ∷ (sum (low_bytes 8 v) / 256 % 256) ∷ []),
  length-low_bytes 8 v,
)
