-- ===== src/Proxy/Frames.antt =====
-- What the process reads of the packets that `WriteChannel` writes, and `readLoop` on a stream of
-- packets.
use mathlib.Core.List.{append_assoc, append-nil}
use omni_sshagent.Base.{
  ℕ, zero, suc, ◌+◌, ◌≤◌, ◌<◌, List, [], ◌∷◌, ◌++◌, ◌≡◌, ◌≢◌, refl, arith, ◌⊎◌, inl, inr, All,
  length, length-append, length-drop, drop,
}
use omni_sshagent.Base.Endian.{
  little_endian, little_word, IsWord, little_word-little_endian, Full, full, end_of_input,
  cut_short, read_exactly, read_exactly-append,
}
use omni_sshagent.Files.{Bytes}
use omni_sshagent.Proxy.{
  Packet, write_channel, Read, packet, closed, truncated, read_packet, read_header, read_payload,
  Mux, Sent, done, stopped, dispatch, End, end_closed, end_truncated, end_stopped, starved,
  read_loop, header_size,
}

-- The three words of the header hold what they are given.
pub record IsPacket (p : Packet) : Type 0 where
  pub type_fits : IsWord p.packet_type
  pub id_fits : IsWord p.channel_id
  pub length_fits : IsWord (length p.payload)

read_payload-append :
    (t id : ℕ) (payload rest : Bytes)
    → read_payload t id (read_exactly (length payload) (payload ++ rest))
      ≡ packet (record { packet_type = t; channel_id = id; payload = payload }) rest
unfolding read_payload
read_payload-append t id payload rest = rw (read_exactly-append (length payload) payload rest refl)

read_header_words :
    (u v w : Bytes) (t id : ℕ) (payload rest : Bytes)
    → little_word (u ++ (v ++ w)) ≡ t
    → little_word (drop 4 (u ++ (v ++ w))) ≡ id
    → little_word (drop 8 (u ++ (v ++ w))) ≡ length payload
    → read_header (full (u ++ (v ++ w)) (payload ++ rest))
      ≡ packet (record { packet_type = t; channel_id = id; payload = payload }) rest
unfolding read_header
read_header_words u v w t id payload rest a b c =
    rw (a, b, c) (read_payload-append t id payload rest)

header_split :
    (u v w payload rest : Bytes)
    → (u ++ (v ++ (w ++ payload))) ++ rest ≡ (u ++ (v ++ w)) ++ (payload ++ rest)
header_split u v w payload rest = simp append_assoc

length-little_endian : (n : ℕ) → length (little_endian n) ≡ 4
unfolding little_endian
length-little_endian n = refl

words_2 : (m : ℕ) (rest : Bytes) → drop 4 (little_endian m ++ rest) ≡ rest
unfolding little_endian
words_2 m rest = refl

words_3 : (m n : ℕ) (rest : Bytes) → drop 8 (little_endian m ++ (little_endian n ++ rest)) ≡ rest
unfolding little_endian
words_3 m n rest = refl

-- `readLoop` reads the packet that was written, and what follows stays for the next round.
pub read_packet-write_channel :
    (p : Packet) (rest : Bytes) → IsPacket p → read_packet (write_channel p ++ rest) ≡ packet p rest
unfolding read_packet write_channel
read_packet-write_channel p rest fits =
    let u = little_endian p.packet_type in
    let v = little_endian p.channel_id in
    let w = little_endian (length p.payload) in
    rw
      (
        header_split u v w p.payload rest,
        read_exactly-append header_size (u ++ (v ++ w)) (p.payload ++ rest) (
            omega (
              arith,
              length-append u (v ++ w),
              length-append v w,
              length-little_endian p.packet_type,
              length-little_endian p.channel_id,
              length-little_endian (length p.payload),
            )),
      )
      (read_header_words u v w p.packet_type p.channel_id p.payload rest
        (little_word-little_endian p.packet_type (v ++ w) fits.type_fits)
        (rw (words_2 p.packet_type (v ++ w))
          (little_word-little_endian p.channel_id w fits.id_fits))
        (rw (words_3 p.packet_type p.channel_id w) (last fits.length_fits)))
  where
    last :
        IsWord (length p.payload)
        → little_word (little_endian (length p.payload)) ≡ length p.payload
    last h =
        rw (← append-nil (little_endian (length p.payload)))
          (little_word-little_endian (length p.payload) [] h)

-- The packets of a stream, one behind the other.
unfoldable pub stream : List Packet → Bytes → Bytes
stream [] tail = tail
stream (p ∷ packets) tail = write_channel p ++ stream packets tail

-- What a stream of packets does to the table, up to one whose send goes wrong.
unfoldable pub dispatch_all : List Packet → Mux → Sent
dispatch_all [] mux = done mux
dispatch_all (p ∷ packets) mux = elim (dispatch p mux) [
  | done m ↦ dispatch_all packets m
  | stopped t ↦ stopped t
]

-- A tail that holds no further packet.
abbrev pub IsTail : Bytes → Type 0
IsTail tail = (read_packet tail ≡ closed) ⊎ (read_packet tail ≡ truncated)

-- The table is as the packets leave it, and the loop has ended with the input; or it has come to the
-- same stop.
abbrev pub Follows : Sent → Mux × End → Type 0
Follows (done m) (mux, e) = (mux ≡ m) × ((e ≡ end_closed) ⊎ (e ≡ end_truncated))
Follows (stopped t) (mux, e) = e ≡ end_stopped t

-- Over any stream of packets whose parts fit in 32 bits, with bytes behind the last one that are
-- no whole packet, while no other goroutine changes the table, `readLoop` takes every packet in turn
-- and no other, and then ends; or, where the send of one of them panics or waits for ever, since ten
-- payloads fill the channel and its reader has left, it stands at that one. One round more than there
-- are packets is enough.
pub read_loop-stream :
    (packets : List Packet) (tail : Bytes) (mux : Mux) (fuel : ℕ)
    → All IsPacket packets
    → IsTail tail
    → length packets < fuel
    → Follows (dispatch_all packets mux) (read_loop fuel (stream packets tail) mux)
unfolding read_loop stream dispatch_all
read_loop-stream packets tail mux zero fits ends enough = absurd (omega arith)
read_loop-stream [] tail mux (suc fuel) fits (inl e) enough = rw (e, read_loop) (refl, inl refl)
read_loop-stream [] tail mux (suc fuel) fits (inr e) enough = rw (e, read_loop) (refl, inr refl)
read_loop-stream (p ∷ packets) tail mux (suc fuel) fits ends enough =
    rw (read_packet-write_channel p (stream packets tail) fits.0, read_loop)
      (go (dispatch p mux) (λ m. read_loop-stream packets tail m fuel fits.1 ends (omega arith)))
  where
    go :
        (s : Sent)
        → ((m : Mux) → Follows (dispatch_all packets m) (read_loop fuel (stream packets tail) m))
        → Follows
            (elim s [ done m ↦ dispatch_all packets m | stopped t ↦ stopped t ])
            (elim s [
              | done m ↦ read_loop fuel (stream packets tail) m
              | stopped t ↦ (mux, end_stopped t)
            ])
    go (done m) rec = rec m
    go (stopped t) rec = refl

full_shorter :
    (n : ℕ) (input head rest : Bytes)
    → read_exactly n input ≡ full head rest
    → length rest + n ≡ length input
unfolding read_exactly
full_shorter n input head rest h = ground (arith, length-drop n input)

read_payload_shorter :
    (t id n : ℕ) (input rest : Bytes) (p : Packet)
    → read_payload t id (read_exactly n input) ≡ packet p rest
    → length rest ≤ length input
unfolding read_payload
read_payload_shorter t id n input rest p h = go (read_exactly n input) refl h
  where
    go :
        (f : Full)
        → read_exactly n input ≡ f
        → read_payload t id f ≡ packet p rest
        → length rest ≤ length input
    go (full head more) e k =
        let same : more ≡ rest = ground (arith) in
        rw (← same) (omega (arith, full_shorter n input head more e))
    go end_of_input e k = absurd (ground arith)
    go cut_short e k = absurd (ground arith)

read_packet_shorter :
    (input rest : Bytes) (p : Packet)
    → read_packet input ≡ packet p rest
    → length rest < length input
unfolding read_packet read_header
read_packet_shorter input rest p h = go (read_exactly 12 input) refl h
  where
    go :
        (f : Full)
        → read_exactly 12 input ≡ f
        → read_header f ≡ packet p rest
        → length rest < length input
    go (full head more) e k = omega (
      arith,
      full_shorter 12 input head more e,
      read_payload_shorter (little_word head) (little_word (drop 4 head))
          (little_word (drop 8 head)) more rest p k,
    )
    go end_of_input e k = absurd (ground arith)
    go cut_short e k = absurd (ground arith)

-- `readLoop` needs at most one round more than there are bytes, whatever they hold: it ends with
-- them, or comes to a stop at a send.
read_loop_ends :
    (fuel : ℕ) (input : Bytes) (mux : Mux)
    → length input < fuel
    → (read_loop fuel input mux).1 ≢ starved
unfolding read_loop
read_loop_ends zero input mux enough = absurd (omega arith)
read_loop_ends (suc fuel) input mux enough = go (read_packet input) refl (read_loop_ends fuel)
  where
    go :
        (r : Read)
        → read_packet input ≡ r
        → ((i : Bytes) (m : Mux) → length i < fuel → (read_loop fuel i m).1 ≢ starved)
        → (read_loop (suc fuel) input mux).1 ≢ starved
    go (packet p rest) e rec =
        rw (e, read_loop)
          (next (dispatch p mux)
            (λ m. rec rest m (omega (arith, read_packet_shorter input rest p e))))
      where
        next :
            (s : Sent)
            → ((m : Mux) → (read_loop fuel rest m).1 ≢ starved)
            → (elim s as (λ _. Mux × End) [
              | done m ↦ read_loop fuel rest m
              | stopped t ↦ (mux, end_stopped t)
            ]).1
              ≢ starved
        next (done m) k = k m
        next (stopped t) k = λ h. cc
    go closed e rec = rw (e, read_loop) (λ h. cc)
    go truncated e rec = rw (e, read_loop) (λ h. cc)
