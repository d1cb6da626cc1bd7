-- ===== src/Port/Tests.antt =====
-- The port list and the bindings at concrete inputs.
use opdi_core.Base.{
  if◌then◌else◌, strcmp_eq, ◌≡◌, refl, codes, [], ◌∷◌, none, some, true, pos, arith,
}
use opdi_core.Constants.{porttype_streaming, porttype_digital, status_ok}
use opdi_core.Port.{
  Port, Ports, streaming_info, no_info, add_port, port_list, find_port_by_id, bind_port,
  unbind_port, port_at, find_channel,
}
use opdi_core.Port.Chain.{Represents, add_port-Represents}
use opdi_core.Port.Lookup.{port_list_lem, find-add_port, or_first}
use opdi_core.Port.Channels.{unbind_keeps_second, channel_of}
use opdi_core.Port.Bindings.{IsValid, bind, unbind, run, run-IsValid, Bound, bind_port_lem}

abbrev stream_port : Port
stream_port = record {
  id = codes "S1";
  name = codes "log";
  type = porttype_streaming;
  caps = [];
  flags = pos 0;
  info = streaming_info (codes "text") true 0;
  next = none;
}

abbrev lamp : Port
lamp = record {
  id = codes "D1";
  name = codes "lamp";
  type = porttype_digital;
  caps = [];
  flags = pos 0;
  info = no_info;
  next = none;
}

abbrev empty : Ports
empty = record {
  heap = stream_port ∷ lamp ∷ [];
  head = none;
  tail = none;
  count = 0;
  groups = [];
  bindings = [];
}

abbrev two_ports : Ports
two_ports = (add_port 1 (add_port 0 empty).1).1

two_ports_list : port_list two_ports ≡ 0 ∷ 1 ∷ []
unfolding port_list add_port
two_ports_list = refl

two_ports_find : find_port_by_id (codes "D1") two_ports ≡ some 1
unfolding find_port_by_id add_port strcmp_eq
two_ports_find = refl

run-IsValid_example : IsValid (run (bind 0 5 ∷ bind 0 6 ∷ unbind 0 ∷ bind 1 7 ∷ []) empty)
run-IsValid_example =
    run-IsValid (bind 0 5 ∷ bind 0 6 ∷ unbind 0 ∷ bind 1 7 ∷ []) empty
      (record { within = omega arith; distinct = tt })

bind_port_lem_example : Bound 0 5 empty (bind_port 0 5 empty)
bind_port_lem_example = bind_port_lem 0 5 empty

bind_runs : (bind_port 0 5 empty).0 ≡ status_ok
unfolding bind_port strcmp_eq
bind_runs = refl

unbind_keeps_second_example :
    let ps' = (unbind_port 0 (bind_port 0 6 (bind_port 0 5 empty).1).1).1 in
    (find_channel ps'.bindings 6 ≡ some 0) × (channel_of (port_at ps'.heap 0).info ≡ 0)
unfolding strcmp_eq
unbind_keeps_second_example = unbind_keeps_second 0 5 6 empty refl refl (omega arith)

empty-Represents : Represents empty []
empty-Represents = record { chain = refl; ends = refl; distinct = tt }

add_port-Represents_example :
    ((add_port 1 empty).0 ≡ status_ok) × Represents (add_port 1 empty).1 (1 ∷ [])
add_port-Represents_example =
    add_port-Represents 1 empty [] empty-Represents tt (omega arith) (omega arith)

find-add_port_example :
    find_port_by_id (codes "D1") (add_port 1 empty).1
    ≡ or_first
        (find_port_by_id (codes "D1") empty)
        (if strcmp_eq (codes "D1") (codes "D1") then some 1 else none)
find-add_port_example =
    find-add_port 1 empty [] (codes "D1") empty-Represents tt (omega arith) (omega arith)

port_list_lem_example : port_list (add_port 1 empty).1 ≡ 1 ∷ []
port_list_lem_example =
    port_list_lem (add_port 1 empty).1 (1 ∷ [])
      (add_port-Represents 1 empty [] empty-Represents tt (omega arith) (omega arith)).1

abbrev crowded : Ports
crowded = record empty { count = 32 }
