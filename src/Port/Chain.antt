-- ===== src/Port/Chain.antt =====
-- The linked list of ports against the list of addresses that it stands for, in
-- code/c/common/opdi_port.c.
pub mod Distinct
use Distinct.{Avoids, NoRepeat, NoRepeat-append, Below}
use mathlib.Core.Path.{subst}
use opdi_core.Base.{
  ℕ, zero, suc, ◌+◌, ◌≤◌, ◌<◌, ◌≡◌, ◌≢◌, ◌%◌, refl, sym, ap, ◌∙◌, Bool, true, false, Bytes, List,
  [], ◌∷◌, ◌++◌, Option, none, some, length, length-append, length-set, get_or, set, strcmp_eq,
  ◌==◌, arith, if◌then◌else◌, All,
}
use opdi_core.Constants.{status_ok, too_many_ports, max_device_ports}
use opdi_core.Port.{
  Port, Ports, port_at, set_next, null_port, or_else, link_tail, add_port, walk, port_list,
  find_loop, find_port_by_id,
}

-- The pointer leads through the addresses of the list, in order, to NULL.
abbrev pub Chain : List Port → Option ℕ → List ℕ → Type 0
Chain heap p [] = p ≡ none
Chain heap p (a ∷ l) = (p ≡ some a) × (a < length heap) × Chain heap (port_at heap a).next l

abbrev pub last_of : List ℕ → Option ℕ
last_of [] = none
last_of (a ∷ []) = some a
last_of (a ∷ b ∷ l) = last_of (b ∷ l)

-- The variables of the module stand for the list of these addresses.
pub record Represents (ps : Ports) (l : List ℕ) : Type 0 where
  pub chain : Chain ps.heap ps.head l
  pub ends : ps.tail ≡ last_of l
  pub distinct : NoRepeat l

next-set_self :
    (heap : List Port) (a : ℕ) (n : Option ℕ)
    → a < length heap
    → (port_at (set_next heap a n) a).next ≡ n
next-set_self [] a n h = absurd (omega arith)
next-set_self (x ∷ heap) zero n h = refl
next-set_self (x ∷ heap) (suc a) n h = next-set_self heap a n (omega arith)

next-set_ne :
    (heap : List Port) (a q : ℕ) (n : Option ℕ)
    → q ≢ a
    → (port_at (set_next heap a n) q).next ≡ (port_at heap q).next
next-set_ne [] a q n h = refl
next-set_ne (x ∷ heap) zero zero n h = absurd (h refl)
next-set_ne (x ∷ heap) zero (suc q) n h = refl
next-set_ne (x ∷ heap) (suc a) zero n h = refl
next-set_ne (x ∷ heap) (suc a) (suc q) n h = next-set_ne heap a q n (λ e. h (ap suc e))

length-set_next :
    (heap : List Port) (a : ℕ) (n : Option ℕ) → length (set_next heap a n) ≡ length heap
length-set_next heap a n = length-set heap a _

pub id-set_next :
    (heap : List Port) (a q : ℕ) (n : Option ℕ)
    → (port_at (set_next heap a n) q).id ≡ (port_at heap q).id
id-set_next [] a q n = refl
id-set_next (x ∷ heap) zero zero n = refl
id-set_next (x ∷ heap) zero (suc q) n = refl
id-set_next (x ∷ heap) (suc a) zero n = refl
id-set_next (x ∷ heap) (suc a) (suc q) n = id-set_next heap a q n

-- A write to a port that the chain does not visit.
Chain-frame :
    (heap : List Port) (a : ℕ) (n p : Option ℕ) (l : List ℕ)
    → Avoids a l
    → Chain heap p l
    → Chain (set_next heap a n) p l
Chain-frame heap a n p [] v c = c
Chain-frame heap a n p (x ∷ l) v c = (
  c.0,
  rw length-set_next (c.1),
  rw (next-set_ne heap a x n v.0) (Chain-frame heap a n _ l v.1 c.2),
)

-- Linking behind the last port leaves the next pointer of a port before it.
next-link_tail :
    (heap : List Port) (x y : ℕ) (l : List ℕ) (a : ℕ)
    → Avoids x (y ∷ l)
    → (port_at (link_tail (last_of (y ∷ l)) a heap) x).next ≡ (port_at heap x).next
next-link_tail heap x y [] a v = next-set_ne heap y x (some a) (λ e. v.0 (sym e))
next-link_tail heap x y (z ∷ l) a v = next-link_tail heap x z l a v.1

length-link_tail :
    (heap : List Port) (o : Option ℕ) (a : ℕ) → length (link_tail o a heap) ≡ length heap
length-link_tail heap none a = refl
length-link_tail heap (some t) a = length-set_next heap t (some a)

-- The heap after a port is linked behind the last one.
abbrev linked : List Port → List ℕ → ℕ → List Port
linked heap l a = set_next (link_tail (last_of l) a heap) a none

length-linked : (heap : List Port) (l : List ℕ) (a : ℕ) → length (linked heap l a) ≡ length heap
length-linked heap l a = length-set_next _ a none ∙ length-link_tail heap (last_of l) a

Chain-append :
    (heap : List Port) (a : ℕ) (p : Option ℕ) (x : ℕ) (l : List ℕ)
    → Chain heap p (x ∷ l)
    → NoRepeat (x ∷ l)
    → Avoids a (x ∷ l)
    → a < length heap
    → Chain (linked heap (x ∷ l) a) p (x ∷ (l ++ a ∷ []))
Chain-append heap a p x [] c d v h = (
  c.0,
  rw (length-linked heap (x ∷ []) a) c.1,
  (
    next-set_ne _ a x none v.0 ∙ next-set_self heap x (some a) c.1,
    rw (length-linked heap (x ∷ []) a) h,
    next-set_self _ a none (rw (length-set_next heap x (some a)) h),
  ),
)
Chain-append heap a p x (y ∷ l) c d v h = (
  c.0,
  rw (length-linked heap (x ∷ y ∷ l) a) c.1,
  subst (λ q. Chain (linked heap (y ∷ l) a) q (y ∷ (l ++ a ∷ [])))
      (sym (next-set_ne _ a x none v.0 ∙ next-link_tail heap x y l a d.0))
      (Chain-append heap a (port_at heap x).next y l c.2 d.1 v.1 h),
)

last-append : (l : List ℕ) (a : ℕ) → last_of (l ++ a ∷ []) ≡ some a
last-append [] a = refl
last-append (x ∷ []) a = refl
last-append (x ∷ y ∷ l) a = last-append (y ∷ l) a

-- The variables after a port is added where there is room.
abbrev pub added : ℕ → Ports → Ports
added a ps = record ps {
  count = (ps.count + 1) % 65536;
  head = or_else ps.head a;
  heap = set_next (link_tail ps.tail a ps.heap) a none;
  tail = some a;
}

pub add_port-added :
    (a : ℕ) (ps : Ports) → ps.count < max_device_ports → add_port a ps ≡ (status_ok, added a ps)
unfolding add_port
add_port-added a ps h = ground arith

added-Chain :
    (a : ℕ) (ps : Ports) (l : List ℕ)
    → Represents ps l
    → Avoids a l
    → a < length ps.heap
    → Chain (added a ps).heap (added a ps).head (l ++ a ∷ [])
added-Chain a ps [] r v h =
    rw (r.chain, r.ends)
      (refl, rw (length-set_next ps.heap a none) h, next-set_self ps.heap a none h)
added-Chain a ps (x ∷ l) r v h =
    subst
      (λ t. Chain (set_next (link_tail t a ps.heap) a none) (or_else ps.head a) (x ∷ (l ++ a ∷ [])))
      (sym r.ends)
      (subst (λ q. Chain (linked ps.heap (x ∷ l) a) (or_else q a) (x ∷ (l ++ a ∷ [])))
        (sym r.chain.0)
        (Chain-append ps.heap a (some x) x l (refl, r.chain.1, r.chain.2) r.distinct v h))

-- While fewer than OPDI_MAX_DEVICE_PORTS have been added, opdi_add_port of a port that is not in
-- the list succeeds and appends it: head, tail and next pointers stand for the longer list.
pub add_port-Represents :
    (a : ℕ) (ps : Ports) (l : List ℕ)
    → Represents ps l
    → Avoids a l
    → a < length ps.heap
    → ps.count < max_device_ports
    → ((add_port a ps).0 ≡ status_ok) × Represents (add_port a ps).1 (l ++ a ∷ [])
add_port-Represents a ps l r v h room = rw (add_port-added a ps room) (
  refl,
  record {
    chain = added-Chain a ps l r v h;
    ends = sym (last-append l a);
    distinct = NoRepeat-append l a r.distinct v;
  },
)

pub Chain-Below :
    (heap : List Port) (p : Option ℕ) (l : List ℕ) → Chain heap p l → Below (length heap) l
Chain-Below heap p [] c = tt
Chain-Below heap p (x ∷ l) c = (c.1, Chain-Below heap _ l c.2)

add_port_refused :
    (a : ℕ) (ps : Ports)
    → max_device_ports ≤ ps.count
    → ps.count < 65535
    → add_port a ps ≡ (too_many_ports, record ps { count = (ps.count + 1) % 65536 })
unfolding add_port
add_port_refused a ps full small = ground arith

-- When OPDI_MAX_DEVICE_PORTS have been added, opdi_add_port refuses, and the list stays as it was;
-- so for every count short of the largest uint16_t, with which the count would wrap around.
pub add_port_full :
    (a : ℕ) (ps : Ports) (l : List ℕ)
    → Represents ps l
    → max_device_ports ≤ ps.count
    → ps.count < 65535
    → ((add_port a ps).0 ≡ too_many_ports) × Represents (add_port a ps).1 l
add_port_full a ps l r full small =
    rw (add_port_refused a ps full small)
      (refl, record { chain = r.chain; ends = r.ends; distinct = r.distinct })
