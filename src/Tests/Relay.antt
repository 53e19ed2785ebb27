-- ===== src/Tests/Relay.antt =====
-- The proxy of the former program, its log, and its sockets.
use omni_sshagent.Base.{true, false, List, [], ◌∷◌, ◌++◌, ◌≡◌, inr, refl, arith, none}
use omni_sshagent.Base.Text.{codes}
use omni_sshagent.Base.Endian.{read_exactly}
use omni_sshagent.Files.{Bytes}
use omni_sshagent.Interfaces.{Served, serve_failed}
use omni_sshagent.Proxy.{
  Packet, connect_send, type_close, Mux, open_channel, read_packet, truncated, read_loop, done,
  stopped, panics, blocks, in_table, shut, look_up, send_held, trouble, trouble_of, deliver,
  deliver_all, close_channel, leave_table,
}
use omni_sshagent.Proxy.Frames.{IsPacket, stream, dispatch_all, Follows, read_loop-stream}
use omni_sshagent.Proxy.Channels.{
  Event, View, opening, looking, sending, leaving, closing, happen, take_packet, leave_reader, run,
  observe, observe_all, Shows, run_refines, open_channel-Shows,
}
use omni_sshagent.Proxy.Requests.{
  unexpected_eof, read_request, forward, requests, packets, forward-requests,
}
use omni_sshagent.FileLog.{Log, Slice, new_log}

abbrev hello : Packet
hello = record { packet_type = 1; channel_id = 7; payload = 104 ∷ 105 ∷ [] }

abbrev other_hello : Packet
other_hello = record { packet_type = 1; channel_id = 8; payload = 111 ∷ [] }

abbrev bye : Packet
bye = record { packet_type = 2; channel_id = 7; payload = [] }

hello-IsPacket : IsPacket hello
hello-IsPacket = record {
  type_fits = omega arith;
  id_fits = omega arith;
  length_fits = omega arith;
}

bye-IsPacket : IsPacket bye
bye-IsPacket = record { type_fits = omega arith; id_fits = omega arith; length_fits = omega arith }

abbrev table : Mux
table = open_channel 7 []

-- The header of a packet that never comes whole.
cut : read_packet (1 ∷ 0 ∷ []) ≡ truncated
unfolding read_packet read_exactly
cut = refl

read_loop-stream_example :
    Follows
      (dispatch_all (hello ∷ bye ∷ []) table)
      (read_loop 3 (stream (hello ∷ bye ∷ []) (1 ∷ 0 ∷ [])) table)
read_loop-stream_example =
    read_loop-stream (hello ∷ bye ∷ []) (1 ∷ 0 ∷ []) table 3 (hello-IsPacket, (bye-IsPacket, tt))
      (inr cut) (omega arith)

-- The connection opens the other channel between a lookup and its send, and a packet comes too late.
abbrev events : List Event
events =
    looking hello
    ∷ opening 8
    ∷ sending
    ∷ looking other_hello
    ∷ sending
    ∷ looking bye
    ∷ looking hello
    ∷ sending
    ∷ []

abbrev fresh : View
fresh = record { is_open = true; payloads = []; on_way = none }

abbrev ended : Mux
ended =
    record {
      id = 8;
      place = in_table;
      received = (111 ∷ []) ∷ [];
      held = none;
      has_reader = true;
      waiting = 0;
    }
    ∷ record {
      id = 7;
      place = shut;
      received = (104 ∷ 105 ∷ []) ∷ [];
      held = none;
      has_reader = true;
      waiting = 0;
    }
    ∷ []

run-events : run events table ≡ done ended
unfolding run happen take_packet look_up send_held trouble trouble_of deliver_all deliver
    open_channel close_channel leave_table
run-events = refl

run_refines_example : Shows 7 ended (observe_all 7 events fresh)
run_refines_example =
    run_refines 7 events table ended fresh (tt, (refl, (tt, (tt, (tt, (tt, (tt, (tt, tt))))))))
      run-events (open_channel-Shows 7 [])

-- What that channel has seen.
seen_alone :
    observe_all 7 events fresh
    ≡ record { is_open = false; payloads = (104 ∷ 105 ∷ []) ∷ []; on_way = none }
unfolding observe_all observe
seen_alone = refl

-- The channel is closed between a lookup and its send: the process panics.
send_on_closed : run (looking hello ∷ closing 7 ∷ sending ∷ []) table ≡ stopped panics
unfolding run happen take_packet look_up send_held trouble trouble_of open_channel close_channel
    leave_table
send_on_closed = refl

-- The goroutine of the connection leaves ten payloads in the channel: the next send waits for ever.
send_to_full : run (leaving 7 10 ∷ looking hello ∷ sending ∷ []) table ≡ stopped blocks
unfolding run happen take_packet leave_reader look_up send_held trouble trouble_of open_channel
    leave_table
send_to_full = refl

forward-requests_example :
    forward 7 (requests ((11 ∷ []) ∷ (12 ∷ 13 ∷ []) ∷ []) [])
    ≡ packets 7 connect_send ((11 ∷ []) ∷ (12 ∷ 13 ∷ []) ∷ [])
      ++ record { packet_type = type_close; channel_id = 7; payload = [] } ∷ []
forward-requests_example =
    forward-requests ((11 ∷ []) ∷ (12 ∷ 13 ∷ []) ∷ []) 7
      ((omega arith, omega arith), ((omega arith, omega arith), tt))

cut_request : read_request (0 ∷ 0 ∷ []) ≡ (unexpected_eof, [])
unfolding read_request read_exactly
cut_request = refl

-- Every slice holds one byte, its own number.
abbrev memory : Slice → Bytes
memory s = s ∷ []

-- A log that has taken one line.
abbrev checked : Log
checked = record (new_log 1 memory) { waiting = 3 ∷ [] }

abbrev taken : Log
taken = record (new_log 1 memory) { queue = 3 ∷ []; sent = 3 ∷ [] }

abbrev sixteen : Bytes
sixteen = 1 ∷ 2 ∷ 3 ∷ 4 ∷ 5 ∷ 6 ∷ 7 ∷ 8 ∷ 9 ∷ 10 ∷ 11 ∷ 12 ∷ 13 ∷ 14 ∷ 15 ∷ 16 ∷ []

abbrev twelve : Bytes
twelve = 1 ∷ 0 ∷ 0 ∷ 0 ∷ 2 ∷ 0 ∷ 0 ∷ 0 ∷ 3 ∷ 0 ∷ 0 ∷ 0 ∷ []

abbrev agent_fails : Bytes → Served
agent_fails b = serve_failed (codes "no")
