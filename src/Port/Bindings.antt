-- ===== src/Port/Bindings.antt =====
-- The bindings of streaming ports to channels, in code/c/common/opdi_port.c.
use opdi_core.Base.{
  ℕ, ◌≤◌, ◌≡◌, ◌≢◌, ◌⊎◌, ◌∙◌, sym, leb, refl, List, [], ◌∷◌, ◌++◌, Option, none, some, length,
  length-append, strcmp_eq, ◌==◌, arith, if◌then◌else◌, Bool-cases, inl, inr,
}
use opdi_core.Constants.{status_ok, streaming_ports, porttype_streaming}
use opdi_core.Port.{
  Ports, Binding, port_at, find_channel, remove_first, bind_new, bind_found, bind_port, unbind_port,
  reset_bindings,
}

-- No channel is bound twice.
abbrev pub Distinct : List Binding → Type 0
Distinct [] = Unit
Distinct (b ∷ bs) = (find_channel bs b.channel ≡ none) × Distinct bs

pub record IsValid (ps : Ports) : Type 0 where
  pub within : length ps.bindings ≤ streaming_ports
  pub distinct : Distinct ps.bindings

find-append :
    (bs : List Binding) (b : Binding) (c : ℕ)
    → find_channel bs c ≡ none
    → find_channel (bs ++ b ∷ []) c ≡ (if b.channel == c then some b.port else none)
unfolding find_channel
find-append [] b c h = refl
find-append (x ∷ bs) b c h = ground (arith, find-append bs b c)

find-append_ne :
    (bs : List Binding) (b : Binding) (c : ℕ)
    → b.channel ≢ c
    → find_channel (bs ++ b ∷ []) c ≡ find_channel bs c
unfolding find_channel
find-append_ne [] b c h = ground arith
find-append_ne (x ∷ bs) b c h = ground (arith, find-append_ne bs b c)

Distinct-append :
    (bs : List Binding) (b : Binding)
    → Distinct bs
    → find_channel bs b.channel ≡ none
    → Distinct (bs ++ b ∷ [])
unfolding find_channel
Distinct-append [] b d h = ground arith
Distinct-append (x ∷ bs) b d h =
    ground (arith, Distinct-append bs b d.1, find-append_ne bs b x.channel)

find-remove_first :
    (bs : List Binding) (p c : ℕ)
    → find_channel bs c ≡ none
    → find_channel (remove_first bs p) c ≡ none
unfolding find_channel remove_first
find-remove_first [] p c h = refl
find-remove_first (x ∷ bs) p c h = ground (arith, find-remove_first bs p c)

Distinct-remove_first : (bs : List Binding) (p : ℕ) → Distinct bs → Distinct (remove_first bs p)
unfolding find_channel remove_first
Distinct-remove_first [] p d = tt
Distinct-remove_first (x ∷ bs) p d =
    ground (arith, Distinct-remove_first bs p d.1, find-remove_first bs p x.channel)

length-remove_first : (bs : List Binding) (p : ℕ) → length (remove_first bs p) ≤ length bs
unfolding remove_first
length-remove_first [] p = omega arith
length-remove_first (x ∷ bs) p = ground (arith, length-remove_first bs p)

-- The calls of the module, as a client makes them one after the other.
pub data Call : Type 0 where
  bind : ℕ → ℕ → Call
  unbind : ℕ → Call
  reset : Call

unfoldable pub run : List Call → Ports → Ports
run [] ps = ps
run (bind p c ∷ calls) ps = run calls (bind_port p c ps).1
run (unbind p ∷ calls) ps = run calls (unbind_port p ps).1
run (reset ∷ calls) ps = run calls (reset_bindings ps).1

bind_new-IsValid :
    (p c : ℕ) (ps : Ports)
    → IsValid ps
    → find_channel ps.bindings c ≡ none
    → IsValid (bind_new p c ps).1
unfolding bind_new
bind_new-IsValid p c ps v h = ground (
  arith,
  Distinct-append ps.bindings (record { channel = c; port = p }) v.distinct h,
  length-append ps.bindings (record { channel = c; port = p } ∷ []),
)

bind_found-IsValid :
    (o : Option ℕ) (p c : ℕ) (ps : Ports)
    → IsValid ps
    → find_channel ps.bindings c ≡ o
    → IsValid (bind_found o p c ps).1
unfolding bind_found
bind_found-IsValid none p c ps v h = bind_new-IsValid p c ps v h
bind_found-IsValid (some q) p c ps v h = ground arith

bind_port-IsValid : (p c : ℕ) (ps : Ports) → IsValid ps → IsValid (bind_port p c ps).1
unfolding bind_port
bind_port-IsValid p c ps v =
    ground (arith, bind_found-IsValid (find_channel ps.bindings c) p c ps v refl)

unbind_port-IsValid : (p : ℕ) (ps : Ports) → IsValid ps → IsValid (unbind_port p ps).1
unfolding unbind_port
unbind_port-IsValid p ps v =
    ground
      (arith, Distinct-remove_first ps.bindings p v.distinct, length-remove_first ps.bindings p)

reset-IsValid : (ps : Ports) → IsValid (reset_bindings ps).1
unfolding reset_bindings
reset-IsValid ps = ground arith

-- From valid bindings, every sequence of calls of opdi_bind_port, opdi_unbind_port and
-- opdi_reset_bindings leads to valid ones: at most OPDI_STREAMING_PORTS bindings, and no channel
-- bound twice.
pub run-IsValid : (calls : List Call) (ps : Ports) → IsValid ps → IsValid (run calls ps)
unfolding run
run-IsValid [] ps v = v
run-IsValid (bind p c ∷ calls) ps v =
    run-IsValid calls (bind_port p c ps).1 (bind_port-IsValid p c ps v)
run-IsValid (unbind p ∷ calls) ps v =
    run-IsValid calls (unbind_port p ps).1 (unbind_port-IsValid p ps v)
run-IsValid (reset ∷ calls) ps v = run-IsValid calls (reset_bindings ps).1 (reset-IsValid ps)

-- What a call of opdi_bind_port comes to, by its status.
abbrev pub Bound : ℕ → ℕ → Ports → ℕ × Ports → Type 0
Bound p c ps (r, ps') =
    ((r ≡ status_ok)
      × (find_channel ps'.bindings c ≡ some p)
      × ((e : ℕ) → e ≢ c → find_channel ps'.bindings e ≡ find_channel ps.bindings e))
    ⊎ ((r ≢ status_ok) × (ps' ≡ ps))

bind_new-Bound :
    (p c : ℕ) (ps : Ports) → find_channel ps.bindings c ≡ none → Bound p c ps (bind_new p c ps)
unfolding bind_new
bind_new-Bound p c ps h = elim (Bool-cases (leb streaming_ports (length ps.bindings))) [
  | inl full ↦ rw full (inr (omega arith, refl))
  | inr room ↦ rw room (
      inl (
        refl,
        find-append ps.bindings (record { channel = c; port = p }) c h ∙ ground arith,
        λ e ne. find-append_ne ps.bindings (record { channel = c; port = p }) e (λ q. ne (sym q)),
      ))
]

bind_found-Bound :
    (o : Option ℕ) (p c : ℕ) (ps : Ports)
    → find_channel ps.bindings c ≡ o
    → Bound p c ps (bind_found o p c ps)
unfolding bind_found
bind_found-Bound none p c ps h = bind_new-Bound p c ps h
bind_found-Bound (some q) p c ps h = elim (Bool-cases (q == p)) [
  | inl same ↦ rw same (inl (refl, h ∙ ground arith, λ e ne. refl))
  | inr other ↦ rw other (inr (omega arith, refl))
]

-- A successful opdi_bind_port makes the channel lead to the port and leaves every other channel as
-- it was; a refused one changes nothing.
pub bind_port_lem : (p c : ℕ) (ps : Ports) → Bound p c ps (bind_port p c ps)
unfolding bind_port
bind_port_lem p c ps = elim (Bool-cases (strcmp_eq (port_at ps.heap p).type porttype_streaming)) [
  | inl streaming ↦ rw streaming (bind_found-Bound (find_channel ps.bindings c) p c ps refl)
  | inr wrong ↦ rw wrong (inr (omega arith, refl))
]
