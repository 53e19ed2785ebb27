-- ===== src/Proxy.antt =====
-- old/cmd/wsl2-ssh-agent-proxy/main.go: the packets of `Multiplexer` between the proxy and the
-- PowerShell process, and its table of channels. The byte order is the processor's, which is
-- little-endian on every one that WSL2 runs on.
pub mod Frames
pub mod Channels
pub mod Requests
pub mod Listen
pub mod Script
use omni_sshagent.Base.{
  ℕ, zero, suc, ◌+◌, Bool, true, false, not, ◌&&◌, leb, List, [], ◌∷◌, ◌++◌, Option, none, some,
  ◌==◌, if◌then◌else◌, length, drop,
}
use omni_sshagent.Base.Endian.{
  little_endian, little_word, Full, full, end_of_input, cut_short, read_exactly,
}
use omni_sshagent.Files.{Bytes}

abbrev pub header_size : ℕ
header_size = 12

abbrev pub connect_send : ℕ
connect_send = 0

abbrev pub type_send : ℕ
type_send = 1

abbrev pub type_close : ℕ
type_close = 2

pub record Packet : Type 0 where
  pub packet_type : ℕ
  pub channel_id : ℕ
  pub payload : Bytes

-- `WriteChannel`: the bytes that are written in one call.
unfoldable pub write_channel : Packet → Bytes
write_channel p =
    little_endian p.packet_type
    ++ (little_endian p.channel_id ++ (little_endian (length p.payload) ++ p.payload))

-- How one round of `readLoop` reads from the process.
pub data Read : Type 0 where
  packet : Packet → Bytes → Read
  closed truncated : Read

read_payload : ℕ → ℕ → Full → Read
read_payload t id (full payload rest) =
    packet (record { packet_type = t; channel_id = id; payload = payload }) rest
read_payload t id end_of_input = closed
read_payload t id cut_short = truncated

read_header : Full → Read
unfolding read_payload
read_header (full header rest) =
    read_payload (little_word header) (little_word (drop 4 header))
      (read_exactly (little_word (drop 8 header)) rest)
read_header end_of_input = closed
read_header cut_short = truncated

unfoldable pub read_packet : Bytes → Read
unfolding read_header
read_packet input = read_header (read_exactly header_size input)

-- A channel stands in the table, was closed, or has given its place to a new one of its number.
pub data Place : Type 0 where
  in_table shut replaced : Place

-- A channel with the payloads that were sent to it, in order. `held` is a payload for which
-- `readLoop` has looked the channel up and which it has still to send. While the connection's
-- goroutine takes from it, a full channel only makes `readLoop` wait; once it has left, `waiting`
-- payloads fill the channel for good.
pub record Channel : Type 0 where
  pub id : ℕ
  pub place : Place
  pub received : List Bytes
  pub held : Option Bytes
  pub has_reader : Bool
  pub waiting : ℕ

-- Every channel that was opened, the newest first.
abbrev pub Mux : Type 0
Mux = List Channel

abbrev pub stands : ℕ → Channel → Bool
stands id c = elim c.place [ in_table ↦ c.id == id | shut ↦ false | replaced ↦ false ]

-- The channel of a number leaves the table.
unfoldable pub leave_table : ℕ → Place → Mux → Mux
leave_table id place [] = []
leave_table id place (c ∷ mux) =
    (if stands id c then record c { place = place } else c) ∷ leave_table id place mux

-- `OpenChannel`
unfoldable pub open_channel : ℕ → Mux → Mux
open_channel id mux =
    record { id = id; place = in_table; received = []; held = none; has_reader = true; waiting = 0 }
    ∷ leave_table id replaced mux

-- `CloseChannel`
unfoldable pub close_channel : ℕ → Mux → Mux
close_channel id mux = leave_table id shut mux

-- The lookup of the case `PacketTypeSend`, under the lock; a packet for a missing channel is dropped.
unfoldable pub look_up : ℕ → Bytes → Mux → Mux
look_up id payload [] = []
look_up id payload (c ∷ mux) =
    if stands id c then record c { held = some payload } ∷ mux else c ∷ look_up id payload mux

-- A send on a closed channel panics; one on a full channel that nobody reads waits for ever.
pub data Trouble : Type 0 where
  panics blocks : Trouble

abbrev pub capacity : ℕ
capacity = 10

abbrev pub is_shut : Place → Bool
is_shut in_table = false
is_shut shut = true
is_shut replaced = false

unfoldable pub trouble_of : Channel → Option Trouble
trouble_of c = elim c.held [
  | none ↦ none
  | some payload ↦
      if is_shut c.place
      then some panics
      else if not c.has_reader && leb capacity c.waiting
      then some blocks
      else none
]

unfoldable pub trouble : Mux → Option Trouble
unfolding trouble_of
trouble [] = none
trouble (c ∷ mux) = let rest = trouble mux in elim (trouble_of c) [ some t ↦ some t | none ↦ rest ]

unfoldable pub deliver : Channel → Channel
deliver c = elim c.held [
  | none ↦ c
  | some payload ↦ record c {
    received = c.received ++ payload ∷ [];
    held = none;
    waiting = if c.has_reader then c.waiting else suc c.waiting;
  }
]

unfoldable pub deliver_all : Mux → Mux
unfolding deliver
deliver_all [] = []
deliver_all (c ∷ mux) = deliver c ∷ deliver_all mux

pub data Sent : Type 0 where
  done : Mux → Sent
  stopped : Trouble → Sent

-- The send behind the lookup, without the lock.
unfoldable pub send_held : Mux → Sent
unfolding trouble deliver_all
send_held mux = elim (trouble mux) [ none ↦ done (deliver_all mux) | some t ↦ stopped t ]

-- The `switch` of `readLoop`, where no other goroutine comes between; packets of another type are
-- read and dropped.
unfoldable pub dispatch : Packet → Mux → Sent
dispatch p mux =
    if p.packet_type == type_send
    then send_held (look_up p.channel_id p.payload mux)
    else done (if p.packet_type == type_close then close_channel p.channel_id mux else mux)

-- How `readLoop` ends; `starved` stands for a loop that has no fuel left.
pub data End : Type 0 where
  end_closed end_truncated starved : End
  end_stopped : Trouble → End

-- `readLoop` on what the process writes until it ends, while the context is not done and no other
-- goroutine changes the table.
unfoldable pub read_loop : ℕ → Bytes → Mux → Mux × End
read_loop zero input mux = (mux, starved)
read_loop (suc fuel) input mux = elim (read_packet input) [
  | packet p rest ↦ elim (dispatch p mux) [
    | done m ↦ read_loop fuel rest m
    | stopped t ↦ (mux, end_stopped t)
  ]
  | closed ↦ (mux, end_closed)
  | truncated ↦ (mux, end_truncated)
]
