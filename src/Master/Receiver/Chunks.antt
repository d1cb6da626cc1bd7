-- ===== src/Master/Receiver/Chunks.antt =====
-- The messages that `MessageProcessor::run` puts together do not depend on the chunks, in
-- code/c/common/master/opdi_MessageQueueDevice.cpp.
use opdi_core.Base.{
  ℕ, ◌+◌, ◌≡◌, ◌≢◌, refl, sym, ap, ◌∙◌, Bytes, List, [], ◌∷◌, ◌++◌, length, Lacks, All, arith,
  append_assoc, append-nil, take_all, length-append, ◌==◌, true, false, Bool-cases, inl, inr, map,
}
use opdi_core.Master.Receiver.{Receiver, started, push_back, part_of, take_bytes, receive}

-- The chunks one after the other.
abbrev pub concat : List Bytes → Bytes
concat [] = []
concat (s ∷ ss) = s ++ concat ss

-- What the rest of the bytes adds to the parts that there are.
abbrev behind : List Bytes → List Bytes × Receiver → List Bytes × Receiver
behind parts r = (parts ++ r.0, r.1)

take_end :
    (c : ℕ) (s : Bytes) (st : Receiver)
    → (c == 10) ≡ true
    → take_bytes false (c ∷ s) st ≡ behind (part_of st ∷ []) (take_bytes false s started)
unfolding take_bytes
take_end c s st e = rw (take_bytes, e) refl

take_more :
    (c : ℕ) (s : Bytes) (st : Receiver)
    → (c == 10) ≡ false
    → take_bytes false (c ∷ s) st ≡ take_bytes false s (push_back c st)
unfolding take_bytes
take_more c s st e = rw (take_bytes, e) refl

take_bytes-append :
    (s t : Bytes) (st : Receiver)
    → take_bytes false (s ++ t) st
      ≡ behind (take_bytes false s st).0 (take_bytes false t (take_bytes false s st).1)
take_bytes-append [] t st = unfold take_bytes in refl
take_bytes-append (c ∷ s) t st = elim (Bool-cases (c == 10)) [
  | inl e ↦
      take_end c (s ++ t) st e
      ∙ ap (behind (part_of st ∷ [])) (take_bytes-append s t started)
      ∙ ap (λ r. behind r.0 (take_bytes false t r.1)) (sym (take_end c s st e))
  | inr e ↦
      take_more c (s ++ t) st e
      ∙ take_bytes-append s t (push_back c st)
      ∙ ap (λ r. behind r.0 (take_bytes false t r.1)) (sym (take_more c s st e))
]

-- Without encryption the parts that are put together, and what is left for the next round, are those
-- of the bytes one after the other, however they are divided into chunks.
pub receive-concat :
    (chunks : List Bytes) (st : Receiver)
    → receive false chunks st ≡ take_bytes false (concat chunks) st
unfolding receive
receive-concat [] st = unfold take_bytes in refl
receive-concat (s ∷ ss) st =
    ap (behind (take_bytes false s st).0) (receive-concat ss (take_bytes false s st).1)
    ∙ sym (take_bytes-append s (concat ss) st)

part_of_lem :
    (message : Bytes)
    → part_of (record { message = message; bytes_processed = length message }) ≡ message ++ 0 ∷ []
unfolding part_of
part_of_lem message =
    take_all (length message + 1) (message ++ 0 ∷ [])
      (omega (arith, length-append message (0 ∷ [])))

push_back_lem :
    (c : ℕ) (message : Bytes)
    → push_back c (record { message = message; bytes_processed = length message })
      ≡ record { message = message ++ c ∷ []; bytes_processed = length (message ++ c ∷ []) }
unfolding push_back
push_back_lem c message =
    ap (λ n. record { message = message ++ c ∷ []; bytes_processed = n })
      (omega (arith, length-append message (c ∷ [])))

-- A line that ends in these bytes.
take_line :
    (s rest message : Bytes)
    → Lacks 10 s
    → take_bytes false
        (s ++ 10 ∷ rest)
        (record { message = message; bytes_processed = length message })
      ≡ behind (((message ++ s) ++ 0 ∷ []) ∷ []) (take_bytes false rest started)
take_line [] rest message l =
    take_end 10 rest (record { message = message; bytes_processed = length message }) refl
    ∙ ap (λ t. behind (t ∷ []) (take_bytes false rest started))
        (part_of_lem message ∙ ap (λ t. t ++ 0 ∷ []) (sym (append-nil message)))
take_line (c ∷ s) rest message l =
    take_more c (s ++ 10 ∷ rest) (record { message = message; bytes_processed = length message })
      (apart c l.0)
    ∙ ap (take_bytes false (s ++ 10 ∷ rest)) (push_back_lem c message)
    ∙ take_line s rest (message ++ c ∷ []) l.1
    ∙ ap (λ t. behind ((t ++ 0 ∷ []) ∷ []) (take_bytes false rest started))
        (append_assoc message (c ∷ []) s)
  where
    apart : (n : ℕ) → n ≢ 10 → (n == 10) ≡ false
    apart n h = ground arith

-- Lines, each with its line feed.
abbrev pub lines : List Bytes → Bytes
lines [] = []
lines (s ∷ ss) = s ++ 10 ∷ lines ss

pub receive-lines :
    (ss : List Bytes)
    → All (Lacks 10) ss
    → take_bytes false (lines ss) started ≡ (map (λ s. s ++ 0 ∷ []) ss, started)
receive-lines [] l = unfold take_bytes in refl
receive-lines (s ∷ ss) l =
    take_line s (lines ss) [] l.0 ∙ ap (behind ((s ++ 0 ∷ []) ∷ [])) (receive-lines ss l.1)
