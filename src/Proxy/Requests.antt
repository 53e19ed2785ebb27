-- ===== src/Proxy/Requests.antt =====
-- old/cmd/wsl2-ssh-agent-proxy/main.go: `writePacket`, `readPacket`, and the goroutine of
-- `handleConnection` that reads a client's requests. A client is the bytes that it sends until it
-- closes its side.
use mathlib.Core.List.{append_assoc, append-nil}
use omni_sshagent.Base.{
  ℕ, zero, suc, ◌+◌, ◌-◌, ◌≤◌, ◌<◌, Bool, true, false, List, [], ◌∷◌, ◌++◌, ◌==◌, ltb,
  if◌then◌else◌, ◌≡◌, refl, sym, ap, ◌∙◌, arith, All, length, length-append,
}
use omni_sshagent.Base.Endian.{
  put_big_endian, big_word, big_word-put_big_endian, Full, full, end_of_input, cut_short,
  read_exactly, read_exactly-append,
}
use omni_sshagent.Files.{Bytes}
use omni_sshagent.Proxy.{Packet, connect_send, type_send, type_close}

abbrev pub max_agent_response_bytes : ℕ
max_agent_response_bytes = 16777216

-- `writePacket`, where both writes succeed.
unfoldable pub write_request : Bytes → Bytes
write_request b = put_big_endian (length b) ++ b

-- The error of `readPacket`, or the request.
pub data Request : Type 0 where
  request : Bytes → Request
  eof unexpected_eof size_zero : Request
  too_large : ℕ → Request

read_body : Full → Request × Bytes
read_body (full b rest) = (request b, rest)
read_body end_of_input = (eof, [])
read_body cut_short = (unexpected_eof, [])

read_length : Full → Request × Bytes
unfolding read_body
read_length (full head rest) =
    if big_word head == 0
    then (size_zero, rest)
    else if ltb max_agent_response_bytes (big_word head)
    then (too_large (big_word head), rest)
    else read_body (read_exactly (big_word head) rest)
read_length end_of_input = (eof, [])
read_length cut_short = (unexpected_eof, [])

-- `readPacket`, with what is left of the connection.
unfoldable pub read_request : Bytes → Request × Bytes
unfolding read_length
read_request input = read_length (read_exactly 4 input)

abbrev packet_of : ℕ → ℕ → Bytes → Packet
packet_of id t b = record { packet_type = t; channel_id = id; payload = b }

-- `b` of the loop: with an error it is empty.
abbrev payload_of : Request → Bytes
payload_of (request b) = b
payload_of eof = []
payload_of unexpected_eof = []
payload_of size_zero = []
payload_of (too_large n) = []

abbrev is_eof : Request → Bool
is_eof eof = true
is_eof (request b) = false
is_eof unexpected_eof = false
is_eof size_zero = false
is_eof (too_large n) = false

-- The loop: only `io.EOF` ends it, and after any other error an empty packet is written. The type
-- is `connect_send` the first time.
unfoldable pub read_requests : ℕ → ℕ → ℕ → Bytes → List Packet
read_requests zero id t input = []
read_requests (suc fuel) id t input =
    let (r, rest) = read_request input in
    let more = packet_of id t (payload_of r) ∷ read_requests fuel id type_send rest in
    if is_eof r then [] else more

-- All that the goroutine writes, the deferred packet included; a round takes a byte at least.
unfoldable pub forward : ℕ → Bytes → List Packet
unfolding read_requests
forward id input =
    read_requests (suc (length input)) id connect_send input ++ packet_of id type_close [] ∷ []

abbrev pub IsRequest : Bytes → Type 0
IsRequest b = (0 < length b) × (length b ≤ max_agent_response_bytes)

big_word-length : (b : Bytes) → IsRequest b → big_word (put_big_endian (length b)) ≡ length b
big_word-length b h =
    ap big_word (sym (append-nil (put_big_endian (length b))))
    ∙ big_word-put_big_endian (length b) [] (omega arith)

length-put_big_endian : (n : ℕ) → length (put_big_endian n) ≡ 4
unfolding put_big_endian
length-put_big_endian n = refl

-- What one side writes by `writePacket`, the other side reads by `readPacket`, and no byte behind it.
pub read_request-write_request :
    (b rest : Bytes) → IsRequest b → read_request (write_request b ++ rest) ≡ (request b, rest)
unfolding read_request write_request read_length
read_request-write_request b rest h =
    rw
      (
        append_assoc (put_big_endian (length b)) b rest,
        read_exactly-append 4 (put_big_endian (length b)) (b ++ rest)
            (length-put_big_endian (length b)),
        big_word-length b h,
      )
      (ground (arith, read_exactly-append (length b) b rest refl))

-- The bytes of a client that sends these requests, and something behind them.
unfoldable pub requests : List Bytes → Bytes → Bytes
requests [] tail = tail
requests (b ∷ bs) tail = write_request b ++ requests bs tail

-- One packet for each request, the first with the type `t`.
unfoldable pub packets : ℕ → ℕ → List Bytes → List Packet
packets id t [] = []
packets id t (b ∷ bs) = packet_of id t b ∷ packets id type_send bs

abbrev type_after : ℕ → List Bytes → ℕ
type_after t [] = t
type_after t (b ∷ bs) = type_send

type_after-send : (bs : List Bytes) → type_after type_send bs ≡ type_send
type_after-send [] = refl
type_after-send (b ∷ bs) = refl

suc_add : (m n : ℕ) → suc m + n ≡ suc (m + n)
suc_add m n = omega arith

read_requests-requests :
    (bs : List Bytes) (tail : Bytes) (id t extra : ℕ)
    → All IsRequest bs
    → read_requests (length bs + extra) id t (requests bs tail)
      ≡ packets id t bs ++ read_requests extra id (type_after t bs) tail
unfolding read_requests requests packets
read_requests-requests [] tail id t extra h =
    ap (λ (n : ℕ). read_requests n id t tail) (omega arith)
read_requests-requests (b ∷ bs) tail id t extra h =
    rw (suc_add (length bs) extra, read_request-write_request b (requests bs tail) h.0)
      (ap (λ (ps : List Packet). packet_of id t b ∷ ps)
        (read_requests-requests bs tail id type_send extra h.1
          ∙ ap (λ (u : ℕ). packets id type_send bs ++ read_requests extra id u tail)
              (type_after-send bs)))

length-write_request : (b : Bytes) → length (write_request b) ≡ 4 + length b
unfolding write_request put_big_endian
length-write_request b = omega arith

length-requests :
    (bs : List Bytes) (tail : Bytes) → length bs + length tail ≤ length (requests bs tail)
unfolding requests
length-requests [] tail = omega arith
length-requests (b ∷ bs) tail =
    let ih = length-requests bs tail in
    ground (arith, length-append (write_request b) (requests bs tail), length-write_request b)

-- The requests, what a further round makes of the bytes behind them, and the last packet.
forward-tail :
    (bs : List Bytes) (tail : Bytes) (id extra : ℕ)
    → All IsRequest bs
    → length bs + suc extra ≡ suc (length (requests bs tail))
    → forward id (requests bs tail)
      ≡ (packets id connect_send bs
          ++ read_requests (suc extra) id (type_after connect_send bs) tail)
        ++ packet_of id type_close [] ∷ []
unfolding forward
forward-tail bs tail id extra h e =
    ap
      (λ (n : ℕ).
        read_requests n id connect_send (requests bs tail) ++ packet_of id type_close [] ∷ [])
      (sym e)
    ∙ ap (λ (ps : List Packet). ps ++ packet_of id type_close [] ∷ [])
        (read_requests-requests bs tail id connect_send (suc extra) h)

read_requests-nil : (fuel id t : ℕ) → read_requests fuel id t [] ≡ []
unfolding read_requests read_request read_exactly read_length
read_requests-nil zero id t = refl
read_requests-nil (suc fuel) id t = refl

read_requests-cut :
    (extra id t : ℕ) (tail : Bytes)
    → read_request tail ≡ (unexpected_eof, [])
    → read_requests (suc extra) id t tail ≡ packet_of id t [] ∷ []
unfolding read_requests
read_requests-cut extra id t tail e = rw (e, read_requests-nil extra id type_send)

-- A client that sends requests of 1 to 16777216 bytes and closes its side makes one packet of each,
-- in order, the first of the type `PacketTypeConnectSend` and the others of `PacketTypeSend`, and
-- behind them one packet that closes the channel.
pub forward-requests :
    (bs : List Bytes) (id : ℕ)
    → All IsRequest bs
    → forward id (requests bs []) ≡ packets id connect_send bs ++ packet_of id type_close [] ∷ []
unfolding read_requests read_request read_exactly read_length
forward-requests bs id h =
    forward-tail bs [] id (length (requests bs []) - length bs) h
      (ground (arith, length-requests bs []))
    ∙ rw (
      read_requests-nil (suc (length (requests bs []) - length bs)) id (type_after connect_send bs),
      append-nil (packets id connect_send bs),
    )

-- When a client has sent requests of 1 to 16777216 bytes and its side then ends inside a request,
-- what is left leaves an error other than `io.EOF`, and the loop makes an empty packet of it,
-- behind those of the requests and before the one that closes the channel.
pub forward-cut :
    (bs : List Bytes) (tail : Bytes) (id : ℕ)
    → All IsRequest bs
    → read_request tail ≡ (unexpected_eof, [])
    → forward id (requests bs tail)
      ≡ packets id connect_send bs
        ++ packet_of id (type_after connect_send bs) [] ∷ packet_of id type_close [] ∷ []
forward-cut bs tail id h e =
    forward-tail bs tail id (length (requests bs tail) - length bs) h
      (ground (arith, length-requests bs tail))
    ∙ rw (
      read_requests-cut (length (requests bs tail) - length bs) id (type_after connect_send bs) tail
          e,
      append_assoc (packets id connect_send bs) (packet_of id (type_after connect_send bs) [] ∷ [])
          (packet_of id type_close [] ∷ []),
    )
