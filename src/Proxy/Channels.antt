-- ===== src/Proxy/Channels.antt =====
-- The channels of `Multiplexer` one by one: what a channel's reader sees of the packets of all.
use omni_sshagent.Base.{
  ℕ, Bool, true, false, ◌&&◌, List, [], ◌∷◌, ◌++◌, ◌==◌, if◌then◌else◌, ◌≡◌, arith, All, Option,
  none, some, refl,
}
use omni_sshagent.Files.{Bytes}
use omni_sshagent.Proxy.{
  Packet, type_send, type_close, Place, in_table, shut, replaced, Channel, Mux, stands, leave_table,
  open_channel, close_channel, look_up, deliver, deliver_all, Sent, done, stopped, send_held,
}

-- What happens to the table: a connection opens its channel; `readLoop` has read a packet, and looks
-- its channel up or closes it; `readLoop` sends what it has looked up, before its next lookup; a
-- connection has ended and closes its channel; or its goroutine takes no more, with some payloads
-- left in the channel.
pub data Event : Type 0 where
  opening closing : ℕ → Event
  looking : Packet → Event
  sending : Event
  leaving : ℕ → ℕ → Event

-- The goroutine that takes from a channel leaves it.
unfoldable pub leave_reader : ℕ → ℕ → Mux → Mux
leave_reader id n [] = []
leave_reader id n (c ∷ mux) =
    (if c.id == id then record c { has_reader = false; waiting = n } else c) ∷ leave_reader id n mux

unfoldable pub take_packet : Packet → Mux → Mux
take_packet p mux =
    if p.packet_type == type_send
    then look_up p.channel_id p.payload mux
    else if p.packet_type == type_close
    then close_channel p.channel_id mux
    else mux

unfoldable pub happen : Event → Mux → Sent
unfolding leave_reader take_packet
happen (opening id) mux = done (open_channel id mux)
happen (closing id) mux = done (close_channel id mux)
happen (looking p) mux = done (take_packet p mux)
happen sending mux = send_held mux
happen (leaving id n) mux = done (leave_reader id n mux)

-- The events in order, up to a send that panics or waits for ever.
unfoldable pub run : List Event → Mux → Sent
run [] mux = done mux
run (e ∷ events) mux = elim (happen e mux) [ done m ↦ run events m | stopped t ↦ stopped t ]

-- One channel by itself: it is open or closed, has received some payloads, and one may be on its way.
pub record View : Type 0 where
  pub is_open : Bool
  pub payloads : List Bytes
  pub on_way : Option Bytes

abbrev arrived : View → Option Bytes → View
arrived v none = v
arrived v (some payload) = record v { payloads = v.payloads ++ payload ∷ []; on_way = none }

-- It takes its own payloads in order until its own close, and nothing else.
unfoldable pub observe : ℕ → Event → View → View
observe id (opening j) v = v
observe id (looking p) v =
    if p.channel_id == id && v.is_open
    then (if p.packet_type == type_send
        then record v { on_way = some p.payload }
        else if p.packet_type == type_close
        then record v { is_open = false }
        else v)
    else v
observe id sending v = arrived v v.on_way
observe id (closing j) v = if j == id then record v { is_open = false } else v
observe id (leaving j n) v = v

unfoldable pub observe_all : ℕ → List Event → View → View
observe_all id [] v = v
observe_all id (e ∷ events) v = observe_all id events (observe id e v)

abbrev pub Shut : ℕ → Mux → Type 0
Shut id mux = All (λ (c : Channel). stands id c ≡ false) mux

abbrev place_of : Bool → Place
place_of true = in_table
place_of false = shut

-- The newest channel of this number is as seen, and no older one stands in the table.
abbrev pub Shows : ℕ → Mux → View → Type 0
Shows id [] v = ⊥
Shows id (c ∷ mux) v =
    if c.id == id
    then (c.place ≡ place_of v.is_open)
      × (c.received ≡ v.payloads)
      × (c.held ≡ v.on_way)
      × Shut id mux
    else Shows id mux v

done-injective : {m n : Mux} → done m ≡ done n → m ≡ n
done-injective e = ground (arith, e)

Shut-leave_shut : (id j : ℕ) (mux : Mux) → Shut id mux → Shut id (leave_table j shut mux)
unfolding leave_table
Shut-leave_shut id j [] h = tt
Shut-leave_shut id j (c ∷ mux) h = ground (arith, Shut-leave_shut id j mux)

Shut-leave_replaced : (id j : ℕ) (mux : Mux) → Shut id mux → Shut id (leave_table j replaced mux)
unfolding leave_table
Shut-leave_replaced id j [] h = tt
Shut-leave_replaced id j (c ∷ mux) h = ground (arith, Shut-leave_replaced id j mux)

Shut-look_up : (id j : ℕ) (b : Bytes) (mux : Mux) → Shut id mux → Shut id (look_up j b mux)
unfolding look_up
Shut-look_up id j b [] h = tt
Shut-look_up id j b (c ∷ mux) h = ground (arith, Shut-look_up id j b mux)

Shut-deliver_all : (id : ℕ) (mux : Mux) → Shut id mux → Shut id (deliver_all mux)
unfolding deliver_all deliver
Shut-deliver_all id [] h = tt
Shut-deliver_all id (c ∷ mux) h = ground (arith, Shut-deliver_all id mux)

Shut-leave_reader : (id j n : ℕ) (mux : Mux) → Shut id mux → Shut id (leave_reader j n mux)
unfolding leave_reader
Shut-leave_reader id j n [] h = tt
Shut-leave_reader id j n (c ∷ mux) h = ground (arith, Shut-leave_reader id j n mux)

Shows-leave_replaced :
    (id j : ℕ) (mux : Mux) (v : View)
    → (j == id) ≡ false
    → Shows id mux v
    → Shows id (leave_table j replaced mux) v
unfolding leave_table
Shows-leave_replaced id j [] v other h = h
Shows-leave_replaced id j (c ∷ mux) v other h =
    ground (arith, Shows-leave_replaced id j mux v, Shut-leave_replaced id j mux)

Shows-close :
    (id j : ℕ) (mux : Mux) (v : View)
    → Shows id mux v
    → Shows id (leave_table j shut mux) (if j == id then record v { is_open = false } else v)
unfolding leave_table
Shows-close id j [] v h = h
Shows-close id j (c ∷ mux) v h = ground (arith, Shows-close id j mux v, Shut-leave_shut id j mux)

Shows-look_up :
    (id j : ℕ) (b : Bytes) (mux : Mux) (v : View)
    → Shows id mux v
    → Shows id (look_up j b mux) (if j == id && v.is_open then record v { on_way = some b } else v)
unfolding look_up
Shows-look_up id j b [] v h = h
Shows-look_up id j b (c ∷ mux) v h =
    ground (arith, Shows-look_up id j b mux v, Shut-look_up id j b mux)

Shows-deliver_all :
    (id : ℕ) (mux : Mux) (v : View)
    → Shows id mux v
    → Shows id (deliver_all mux) (arrived v v.on_way)
unfolding deliver_all deliver
Shows-deliver_all id [] v h = h
Shows-deliver_all id (c ∷ mux) v h =
    ground (arith, Shows-deliver_all id mux v, Shut-deliver_all id mux)

Shows-leave_reader :
    (id j n : ℕ) (mux : Mux) (v : View) → Shows id mux v → Shows id (leave_reader j n mux) v
unfolding leave_reader
Shows-leave_reader id j n [] v h = h
Shows-leave_reader id j n (c ∷ mux) v h =
    ground (arith, Shows-leave_reader id j n mux v, Shut-leave_reader id j n mux)

-- The event does not open another channel of this number; numbers come from a counter.
abbrev pub IsOther : ℕ → Event → Type 0
IsOther id (opening j) = (j == id) ≡ false
IsOther id (looking p) = Unit
IsOther id sending = Unit
IsOther id (closing j) = Unit
IsOther id (leaving j n) = Unit

take_packet-Shows :
    (id : ℕ) (p : Packet) (mux : Mux) (v : View)
    → Shows id mux v
    → Shows id (take_packet p mux) (observe id (looking p) v)
unfolding take_packet observe close_channel
take_packet-Shows id p mux v h =
    ground (arith, Shows-look_up id p.channel_id p.payload mux v, Shows-close id p.channel_id mux v)

send_held-done : (mux m : Mux) → send_held mux ≡ done m → deliver_all mux ≡ m
unfolding send_held
send_held-done mux m e = ground (arith, e)

happen-Shows :
    (id : ℕ) (e : Event) (mux m : Mux) (v : View)
    → IsOther id e
    → happen e mux ≡ done m
    → Shows id mux v
    → Shows id m (observe id e v)
unfolding happen observe open_channel close_channel
happen-Shows id (opening j) mux m v other e h =
    rw (← done-injective e) (ground (arith, Shows-leave_replaced id j mux v))
happen-Shows id (closing j) mux m v other e h = rw (← done-injective e) (Shows-close id j mux v h)
happen-Shows id (looking p) mux m v other e h =
    rw (← done-injective e) (take_packet-Shows id p mux v h)
happen-Shows id sending mux m v other e h =
    rw (← send_held-done mux m e) (Shows-deliver_all id mux v h)
happen-Shows id (leaving j n) mux m v other e h =
    rw (← done-injective e) (Shows-leave_reader id j n mux v h)

-- The table of all channels refines the channels one by one: under any interleaving of the lookups
-- and sends of `readLoop` and of what the connections do, in which no other channel of this number
-- is opened, and in which no send has panicked or waits for ever, the channel is open, and has
-- received, exactly as if it stood alone and saw only its own packets, in their order, from the
-- state that it shows at the start.
pub run_refines :
    (id : ℕ) (events : List Event) (mux end' : Mux) (v : View)
    → All (IsOther id) events
    → run events mux ≡ done end'
    → Shows id mux v
    → Shows id end' (observe_all id events v)
unfolding run observe_all
run_refines id [] mux end' v others e h = rw (← done-injective e) h
run_refines id (event ∷ events) mux end' v others e h =
    go (happen event mux) refl
      (λ m l w. run_refines id events m end' (observe id event v) others.1 l w) e
  where
    go :
        (s : Sent)
        → happen event mux ≡ s
        → ((m : Mux)
            → run events m ≡ done end'
            → Shows id m (observe id event v)
            → Shows id end' (observe_all id events (observe id event v)))
        → (elim s as (λ _. Sent) [ done m ↦ run events m | stopped t ↦ stopped t ]) ≡ done end'
        → Shows id end' (observe_all id events (observe id event v))
    go (stopped t) k rec l = absurd (ground (arith, l))
    go (done m) k rec l = rec m l (happen-Shows id event mux m v others.0 k h)

Shut-replaced : (id : ℕ) (mux : Mux) → Shut id (leave_table id replaced mux)
unfolding leave_table
Shut-replaced id [] = tt
Shut-replaced id (c ∷ mux) = ground (arith, Shut-replaced id mux)

-- A channel that was just opened is empty and open, whatever stood in the table.
pub open_channel-Shows :
    (id : ℕ) (mux : Mux)
    → Shows id (open_channel id mux) (record { is_open = true; payloads = []; on_way = none })
unfolding open_channel
open_channel-Shows id mux = ground (arith, Shut-replaced id mux)
