-- ===== src/Port/Channels.antt =====
-- What a port and its bindings say of the channel after it is bound and unbound, in
-- code/c/common/opdi_port.c.
use opdi_core.Base.{
  ℕ, suc, ◌<◌, ◌≡◌, ◌≢◌, ◌∙◌, ap, zero, refl, true, Bytes, List, [], ◌∷◌, ◌++◌, Option, none, some,
  length, strcmp_eq, arith, inl, inr,
}
use opdi_core.Constants.{status_ok, streaming_ports, porttype_streaming}
use opdi_core.Port.{
  Port, PortInfo, streaming_info, Ports, port_at, set_channel, find_channel, is_bound, remove_first,
  bind_new, bind_found, bind_port, unbind_port, dispatch_found, set_channel_info, no_info,
  select_info, dial_info, try_dispatch_stream, has_handler,
}
use opdi_core.Port.Bindings.{bind_port_lem}

-- At the objects of the heap only the channel of a streaming port changes.
type-update :
    (heap : List Port) (a c q : ℕ) → (port_at (set_channel heap a c) q).type ≡ (port_at heap q).type
type-update [] a c q = refl
type-update (x ∷ heap) zero c zero = refl
type-update (x ∷ heap) zero c (suc q) = refl
type-update (x ∷ heap) (suc a) c zero = refl
type-update (x ∷ heap) (suc a) c (suc q) = type-update heap a c q

handler-set_info : (i : PortInfo) (c : ℕ) → has_handler (set_channel_info i c) ≡ has_handler i
handler-set_info no_info c = refl
handler-set_info (select_info labels) c = refl
handler-set_info (dial_info min max step) c = refl
handler-set_info (streaming_info driver handler old) c = refl

handler-update :
    (heap : List Port) (a c q : ℕ)
    → has_handler (port_at (set_channel heap a c) q).info ≡ has_handler (port_at heap q).info
handler-update [] a c q = refl
handler-update (x ∷ heap) zero c zero = handler-set_info x.info c
handler-update (x ∷ heap) zero c (suc q) = refl
handler-update (x ∷ heap) (suc a) c zero = refl
handler-update (x ∷ heap) (suc a) c (suc q) = handler-update heap a c q

handler-bind_found :
    (o : Option ℕ) (p c q : ℕ) (ps : Ports)
    → has_handler (port_at (bind_found o p c ps).1.heap q).info
      ≡ has_handler (port_at ps.heap q).info
unfolding bind_found bind_new
handler-bind_found none p c q ps = ground (arith, handler-update ps.heap p c q)
handler-bind_found (some b) p c q ps = ground arith

handler-bind_port :
    (p c q : ℕ) (ps : Ports)
    → has_handler (port_at (bind_port p c ps).1.heap q).info ≡ has_handler (port_at ps.heap q).info
unfolding bind_port
handler-bind_port p c q ps =
    ground (arith, handler-bind_found (find_channel ps.bindings c) p c q ps)

-- After a successful opdi_bind_port of a port with a handler, opdi_try_dispatch_stream hands a
-- message on the channel to the handler of this port and returns its status.
pub dispatch-bind_port :
    (received : ℕ → Bytes → ℕ) (p c : ℕ) (payload : Bytes) (ps : Ports)
    → (bind_port p c ps).0 ≡ status_ok
    → has_handler (port_at ps.heap p).info ≡ true
    → try_dispatch_stream received c payload (bind_port p c ps).1 ≡ received p payload
unfolding try_dispatch_stream dispatch_found
dispatch-bind_port received p c payload ps h handler = elim (bind_port_lem p c ps) [
  | inl (_, found, _) ↦ rw (found, handler-bind_port p c p ps, handler)
  | inr (failed, _) ↦ absurd (failed h)
]

bindings-bind_port :
    (p c : ℕ) (ps : Ports)
    → strcmp_eq (port_at ps.heap p).type porttype_streaming ≡ true
    → find_channel ps.bindings c ≡ none
    → length ps.bindings < streaming_ports
    → (bind_port p c ps).1.bindings ≡ ps.bindings ++ record { channel = c; port = p } ∷ []
unfolding bind_port bind_found bind_new
bindings-bind_port p c ps t h room = rw (t, h) (ground arith)

type-bind_found :
    (o : Option ℕ) (p c q : ℕ) (ps : Ports)
    → (port_at (bind_found o p c ps).1.heap q).type ≡ (port_at ps.heap q).type
unfolding bind_found bind_new
type-bind_found none p c q ps = ground (arith, type-update ps.heap p c q)
type-bind_found (some b) p c q ps = ground arith

type-bind_port :
    (p c q : ℕ) (ps : Ports) → (port_at (bind_port p c ps).1.heap q).type ≡ (port_at ps.heap q).type
unfolding bind_port
type-bind_port p c q ps = ground (arith, type-bind_found (find_channel ps.bindings c) p c q ps)

abbrev pub channel_of : PortInfo → ℕ
channel_of (streaming_info driver handler channel) = channel
channel_of other = 0

channel-set_info : (i : PortInfo) → channel_of (set_channel_info i 0) ≡ 0
channel-set_info no_info = refl
channel-set_info (select_info labels) = refl
channel-set_info (dial_info min max step) = refl
channel-set_info (streaming_info driver handler old) = refl

channel-set_channel :
    (heap : List Port) (a : ℕ) → channel_of (port_at (set_channel heap a 0) a).info ≡ 0
channel-set_channel [] a = refl
channel-set_channel (x ∷ heap) zero = channel-set_info x.info
channel-set_channel (x ∷ heap) (suc a) = channel-set_channel heap a

unbind_two :
    (p c e : ℕ) (ps : Ports)
    → strcmp_eq (port_at ps.heap p).type porttype_streaming ≡ true
    → ps.bindings ≡ record { channel = c; port = p } ∷ record { channel = e; port = p } ∷ []
    → (find_channel (unbind_port p ps).1.bindings e ≡ some p)
      × (channel_of (port_at (unbind_port p ps).1.heap p).info ≡ 0)
unfolding unbind_port is_bound remove_first find_channel
unbind_two p c e ps t h = rw (t, h) (ground arith, ground (arith, channel-set_channel ps.heap p))

-- A streaming port that is bound to two channels stays bound to the second one when it is unbound,
-- although its own info says that it has no channel.
pub unbind_keeps_second :
    (p c e : ℕ) (ps : Ports)
    → strcmp_eq (port_at ps.heap p).type porttype_streaming ≡ true
    → ps.bindings ≡ []
    → c ≢ e
    → let ps' = (unbind_port p (bind_port p e (bind_port p c ps).1).1).1 in
      (find_channel ps'.bindings e ≡ some p) × (channel_of (port_at ps'.heap p).info ≡ 0)
unbind_keeps_second p c e ps t none_bound ne =
    unbind_two p c e (bind_port p e (bind_port p c ps).1).1
      (rw (type-bind_port p e p (bind_port p c ps).1, type-bind_port p c p ps) t)
      (second ∙ ap (λ bs. bs ++ record { channel = e; port = p } ∷ []) first)
  where
    first : (bind_port p c ps).1.bindings ≡ record { channel = c; port = p } ∷ []
    first =
        bindings-bind_port p c ps t (rw none_bound (unfold find_channel in refl))
          (rw none_bound (omega arith))
        ∙ rw none_bound refl

    second :
        (bind_port p e (bind_port p c ps).1).1.bindings
        ≡ (bind_port p c ps).1.bindings ++ record { channel = e; port = p } ∷ []
    second =
        bindings-bind_port p e (bind_port p c ps).1 (rw (type-bind_port p c p ps) t)
          (rw first (unfold find_channel in ground arith)) (rw first (omega arith))
