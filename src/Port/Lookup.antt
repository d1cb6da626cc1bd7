-- ===== src/Port/Lookup.antt =====
-- Walking along the list of ports and looking for an ID, in code/c/common/opdi_port.c.
use opdi_core.Base.{
  ℕ, zero, suc, ◌≤◌, ◌<◌, ◌≡◌, refl, ap, ◌∙◌, Bytes, List, [], ◌∷◌, ◌++◌, Option, none, some,
  length, strcmp_eq, arith, if◌then◌else◌,
}
use opdi_core.Constants.{max_device_ports}
use opdi_core.Port.{
  Port, Ports, port_at, set_next, link_tail, add_port, walk, port_list, find_loop, find_port_by_id,
}
use opdi_core.Port.Chain.{
  Chain, Represents, Chain-Below, add_port-Represents, add_port-added, id-set_next,
}
use opdi_core.Port.Chain.Distinct.{Avoids, length-le_of_Below}

walk-Chain :
    (fuel : ℕ) (heap : List Port) (p : Option ℕ) (l : List ℕ)
    → Chain heap p l
    → length l ≤ fuel
    → walk fuel heap p ≡ l
unfolding walk
walk-Chain zero heap p [] c h = refl
walk-Chain zero heap p (x ∷ l) c h = absurd (omega arith)
walk-Chain (suc fuel) heap p [] c h = rw c
walk-Chain (suc fuel) heap p (x ∷ l) c h =
    rw (c.0) (ap (λ m. x ∷ m) (walk-Chain fuel heap _ l c.2 (omega arith)))

-- A loop over the ports, from opdi_get_ports along the next pointers, visits the ports of the list
-- in their order and ends: the fuel is enough.
pub port_list_lem : (ps : Ports) (l : List ℕ) → Represents ps l → port_list ps ≡ l
unfolding port_list
port_list_lem ps l r =
    walk-Chain (length ps.heap) ps.heap ps.head l r.chain
      (length-le_of_Below _ l r.distinct (Chain-Below _ _ l r.chain))

-- The first port of a list with an ID.
unfoldable pub first_with_id : List Port → List ℕ → Bytes → Option ℕ
first_with_id heap [] id = none
first_with_id heap (a ∷ l) id =
    if strcmp_eq (port_at heap a).id id then some a else first_with_id heap l id

find-Chain :
    (fuel : ℕ) (heap : List Port) (p : Option ℕ) (l : List ℕ) (id : Bytes)
    → Chain heap p l
    → length l ≤ fuel
    → find_loop fuel heap p id ≡ first_with_id heap l id
unfolding find_loop first_with_id
find-Chain zero heap p [] id c h = refl
find-Chain zero heap p (x ∷ l) id c h = absurd (omega arith)
find-Chain (suc fuel) heap p [] id c h = rw c
find-Chain (suc fuel) heap p (x ∷ l) id c h = rw (c.0) (
    ap (λ o. if strcmp_eq (port_at heap x).id id then some x else o)
      (find-Chain fuel heap _ l id c.2 (omega arith)))

-- opdi_find_port_by_id returns the first port of the list that has the ID, and NULL if none has.
pub find_port_by_id_lem :
    (ps : Ports) (l : List ℕ) (id : Bytes)
    → Represents ps l
    → find_port_by_id id ps ≡ first_with_id ps.heap l id
unfolding find_port_by_id
find_port_by_id_lem ps l id r =
    find-Chain (length ps.heap) ps.heap ps.head l id r.chain
      (length-le_of_Below _ l r.distinct (Chain-Below _ _ l r.chain))

id-link_tail :
    (heap : List Port) (o : Option ℕ) (a q : ℕ)
    → (port_at (set_next (link_tail o a heap) a none) q).id ≡ (port_at heap q).id
id-link_tail heap none a q = id-set_next heap a q none
id-link_tail heap (some t) a q = id-set_next _ a q none ∙ id-set_next heap t q (some a)

abbrev pub or_first : Option ℕ → Option ℕ → Option ℕ
or_first none o = o
or_first (some a) o = some a

first-append :
    (heap heap' : List Port) (l : List ℕ) (a : ℕ) (id : Bytes)
    → ((q : ℕ) → (port_at heap' q).id ≡ (port_at heap q).id)
    → first_with_id heap' (l ++ a ∷ []) id
      ≡ or_first
          (first_with_id heap l id)
          (if strcmp_eq (port_at heap a).id id then some a else none)
unfolding first_with_id
first-append heap heap' [] a id same = rw (same a)
first-append heap heap' (x ∷ l) a id same =
    rw same (ground (arith, first-append heap heap' l a id same))

-- After opdi_add_port of a new port with room for it, opdi_find_port_by_id finds what it found
-- before, and the new port for its own ID if no port of the list had that ID.
pub find-add_port :
    (a : ℕ) (ps : Ports) (l : List ℕ) (id : Bytes)
    → Represents ps l
    → Avoids a l
    → a < length ps.heap
    → ps.count < max_device_ports
    → find_port_by_id id (add_port a ps).1
      ≡ or_first
          (find_port_by_id id ps)
          (if strcmp_eq (port_at ps.heap a).id id then some a else none)
find-add_port a ps l id r v h room =
    rw
      (
        find_port_by_id_lem (add_port a ps).1 (l ++ a ∷ []) id
            (add_port-Represents a ps l r v h room).1,
        find_port_by_id_lem ps l id r,
        add_port-added a ps room,
      )
      (first-append ps.heap _ l a id (id-link_tail ps.heap ps.tail a))
