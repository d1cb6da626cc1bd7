-- ===== src/Port.antt =====
-- code/c/common/opdi_port.c: the linked list of ports, the port groups and the bindings of
-- streaming ports. A port is an object of a heap, and its address is its index there.
pub mod Chain
pub mod Lookup
pub mod Bindings
pub mod Channels
mod Tests
use opdi_core.Base.{
  ℕ, zero, suc, ◌+◌, ◌-◌, ◌%◌, Bool, true, false, not, ◌&&◌, Bytes, List, [], ◌∷◌, ◌++◌, Option,
  none, some, ltb, leb, ◌==◌, if◌then◌else◌, get_or, set, take, drop, length, ℤ, pos, strcmp_eq,
}
use opdi_core.Constants.{
  status_ok, too_many_ports, wrong_port_type, channel_invalid, too_many_bindings, no_binding,
  max_device_ports, streaming_ports, porttype_streaming, max_port_info_message,
}

-- What `info` points to: nothing, the labels of a select port up to the NULL, the range of a dial
-- port (`opdi_DialPortInfo`), or a streaming port's driver, whether it has a handler for
-- received data, and its channel (`opdi_StreamingPortInfo`).
pub data PortInfo : Type 0 where
  no_info : PortInfo
  select_info : List Bytes → PortInfo
  dial_info : ℤ → ℤ → ℤ → PortInfo
  streaming_info : Bytes → Bool → ℕ → PortInfo

-- `opdi_Port`.
pub record Port : Type 0 where
  pub id : Bytes
  pub name : Bytes
  pub type : Bytes
  pub caps : Bytes
  pub flags : ℤ
  pub info : PortInfo
  pub next : Option ℕ

-- `opdi_PortGroup`, without the pointer to the next group.
pub record PortGroup : Type 0 where
  pub id : Bytes
  pub label : Bytes
  pub parent : Bytes
  pub flags : ℤ
  pub extended_info : Bytes

-- `opdi_StreamingPortBinding`.
pub record Binding : Type 0 where
  pub channel : ℕ
  pub port : ℕ

-- The static variables of opdi_port.c; `bindings` is `sPortBinds[0 .. sPortBindCount)`, and
-- `groups` is the list of groups from its head on.
pub record Ports : Type 0 where
  pub heap : List Port
  pub head : Option ℕ
  pub tail : Option ℕ
  pub count : ℕ
  pub groups : List PortGroup
  pub bindings : List Binding

abbrev pub null_port : Port
null_port = record {
  id = [];
  name = [];
  type = [];
  caps = [];
  flags = pos 0;
  info = no_info;
  next = none;
}

-- The object at an address.
abbrev pub port_at : List Port → ℕ → Port
port_at heap a = get_or heap a null_port

abbrev pub set_next : List Port → ℕ → Option ℕ → List Port
set_next heap a n = let p = port_at heap a in set heap a (record p { next = n })

abbrev pub set_channel_info : PortInfo → ℕ → PortInfo
set_channel_info (streaming_info driver handler old) channel = streaming_info driver handler channel
set_channel_info other channel = other

-- `spi->channel = channel` for the info of the port at `a`.
abbrev pub set_channel : List Port → ℕ → ℕ → List Port
set_channel heap a channel =
    let p = port_at heap a in set heap a (record p { info = set_channel_info p.info channel })

abbrev pub or_else : Option ℕ → ℕ → Option ℕ
or_else none a = some a
or_else (some b) a = some b

abbrev pub link_tail : Option ℕ → ℕ → List Port → List Port
link_tail none a heap = heap
link_tail (some t) a heap = set_next heap t (some a)

-- The status, and the variables afterwards.
unfoldable pub add_port : ℕ → Ports → ℕ × Ports
add_port a ps =
    let count = (ps.count + 1) % 65536 in
    if ltb max_device_ports count then (too_many_ports, record ps { count = count }) else (
      status_ok,
      record ps {
        count = count;
        head = or_else ps.head a;
        heap = set_next (link_tail ps.tail a ps.heap) a none;
        tail = some a;
      },
    )

-- `while (port != NULL) { …; port = port->next; }`: the ports that the loop visits, by address.
-- An acyclic list has at most as many ports as the heap has objects, which is the fuel.
unfoldable pub walk : ℕ → List Port → Option ℕ → List ℕ
walk zero heap at = []
walk (suc fuel) heap none = []
walk (suc fuel) heap (some a) = a ∷ walk fuel heap (port_at heap a).next

-- The ports from `opdi_get_ports()` on.
unfoldable pub port_list : Ports → List ℕ
unfolding walk
port_list ps = walk (length ps.heap) ps.heap ps.head

unfoldable pub find_loop : ℕ → List Port → Option ℕ → Bytes → Option ℕ
find_loop zero heap at id = none
find_loop (suc fuel) heap none id = none
find_loop (suc fuel) heap (some a) id =
    let rest = find_loop fuel heap (port_at heap a).next id in
    if strcmp_eq (port_at heap a).id id then some a else rest

unfoldable pub find_port_by_id : Bytes → Ports → Option ℕ
unfolding find_loop
find_port_by_id id ps = find_loop (length ps.heap) ps.heap ps.head id

unfoldable pub add_portgroup : PortGroup → Ports → ℕ × Ports
add_portgroup group ps = (status_ok, record ps { groups = ps.groups ++ group ∷ [] })

unfoldable pub find_group : List PortGroup → Bytes → Option PortGroup
find_group [] id = none
find_group (g ∷ gs) id = if strcmp_eq g.id id then some g else find_group gs id

unfoldable pub find_portgroup_by_id : Bytes → Ports → Option PortGroup
unfolding find_group
find_portgroup_by_id id ps = find_group ps.groups id

-- The binding of a channel, and the place of a port's first binding.
unfoldable pub find_channel : List Binding → ℕ → Option ℕ
find_channel [] channel = none
find_channel (b ∷ bs) channel =
    if b.channel == channel then some b.port else find_channel bs channel

unfoldable pub is_bound : List Binding → ℕ → Bool
is_bound [] port = false
is_bound (b ∷ bs) port = elim (b.port == port) [ true ↦ true | false ↦ is_bound bs port ]

-- The bindings behind the port's first one move left.
unfoldable pub remove_first : List Binding → ℕ → List Binding
remove_first [] port = []
remove_first (b ∷ bs) port = if b.port == port then bs else b ∷ remove_first bs port

unfoldable pub bind_new : ℕ → ℕ → Ports → ℕ × Ports
bind_new port channel ps =
    if leb streaming_ports (length ps.bindings) then (too_many_bindings, ps) else (
      status_ok,
      record ps {
        bindings = ps.bindings ++ record { channel = channel; port = port } ∷ [];
        heap = set_channel ps.heap port channel;
      },
    )

unfoldable pub bind_found : Option ℕ → ℕ → ℕ → Ports → ℕ × Ports
unfolding bind_new
bind_found (some bound) port channel ps =
    if bound == port then (status_ok, ps) else (channel_invalid, ps)
bind_found none port channel ps = bind_new port channel ps

unfoldable pub bind_port : ℕ → ℕ → Ports → ℕ × Ports
unfolding find_channel bind_found
bind_port port channel ps =
    if strcmp_eq (port_at ps.heap port).type porttype_streaming
    then bind_found (find_channel ps.bindings channel) port channel ps
    else (wrong_port_type, ps)

unfoldable pub unbind_port : ℕ → Ports → ℕ × Ports
unfolding is_bound remove_first
unbind_port port ps =
    if strcmp_eq (port_at ps.heap port).type porttype_streaming
    then (if is_bound ps.bindings port
        then (
          status_ok,
          record ps { bindings = remove_first ps.bindings port; heap = set_channel ps.heap port 0 },
        )
        else (status_ok, ps))
    else (wrong_port_type, ps)

unfoldable pub clear_channels : List Binding → List Port → List Port
clear_channels [] heap = heap
clear_channels (b ∷ bs) heap = clear_channels bs (set_channel heap b.port 0)

unfoldable pub reset_bindings : Ports → ℕ × Ports
unfolding clear_channels
reset_bindings ps =
    (status_ok, record ps { heap = clear_channels ps.bindings ps.heap; bindings = [] })

unfoldable pub clear_ports : Ports → ℕ × Ports
unfolding reset_bindings
clear_ports ps = reset_bindings (record ps { count = 0; head = none; tail = none })

abbrev pub has_handler : PortInfo → Bool
has_handler (streaming_info driver handler channel) = handler
has_handler other = false

-- `opdi_try_dispatch_stream`; `received` is the handler of the port's driver, which gets the
-- port's address and the payload.
unfoldable pub dispatch_found : Option ℕ → (ℕ → Bytes → ℕ) → Bytes → Ports → ℕ
dispatch_found none received payload ps = no_binding
dispatch_found (some port) received payload ps =
    if has_handler (port_at ps.heap port).info then received port payload else status_ok

unfoldable pub try_dispatch_stream : (ℕ → Bytes → ℕ) → ℕ → Bytes → Ports → ℕ
unfolding find_channel dispatch_found
try_dispatch_stream received channel payload ps =
    dispatch_found (find_channel ps.bindings channel) received payload ps

unfoldable pub port_bind_count : Ports → ℕ
port_bind_count ps = length ps.bindings

-- `strncpy` into `port_info_message`: at most its size, with no terminator behind a longer text.
unfoldable pub port_message : Bytes → Bytes
port_message message = take max_port_info_message message
