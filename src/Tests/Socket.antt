-- ===== src/Tests/Socket.antt =====
-- The Cygwin socket of internal/interfaces/cygwin on a disk in memory.
use omni_sshagent.Base.{
  ℕ, ◌<◌, true, [], ◌∷◌, ◌++◌, none, some, ◌≡◌, ◌≢◌, ◌⊎◌, refl, arith, ok, if◌then◌else◌, take,
  drop, All, pos,
}
use omni_sshagent.Base.Text.{Text, codes, equal, equal_iff}
use omni_sshagent.Base.Hex.{hex_encode}
use omni_sshagent.Files.{Bytes, content, not_exist}
use omni_sshagent.Files.Memory.{memory, memory-IsLawful, Disk}
use omni_sshagent.Interfaces.{Served, serve_failed}
use omni_sshagent.Cygwin.{socket_text, parse_socket_nonce}
use omni_sshagent.Cygwin.Nonce.{parse_socket_nonce-socket_text}
use omni_sshagent.Cygwin.Atomic.{atomic_write, chmod_rename, write_rename, close_rename}
use omni_sshagent.Cygwin.Atomic.Laws.{IsTarget}
use omni_sshagent.Cygwin.Handshake.{Client, is_served, admits, handle, handle-admits}
use omni_sshagent.Cygwin.SocketFiles.{
  Host, invalid_parameter, SocketError, application_name, owner_path, prepare_existing, write_files,
}
use omni_sshagent.Cygwin.SocketFiles.Stale.{IsStale, Found, prepare_existing-IsStale}
use omni_sshagent.Legacy.Cygwin.Made.{
  WriteFile, IsWriteFile, make_socket, IsMade, make_socket-IsMade,
}
use omni_sshagent.Cygwin.Start.{Network, connected, failed, start, IsReported, start-IsReported}

abbrev nonce : Bytes
nonce = 1 ∷ 2 ∷ 3 ∷ 4 ∷ 5 ∷ 6 ∷ 7 ∷ 8 ∷ 9 ∷ 10 ∷ 11 ∷ 12 ∷ 13 ∷ 14 ∷ 15 ∷ 255 ∷ []

nonce_bytes : All (λ (b : ℕ). b < 256) nonce
nonce_bytes = ground arith

parse_socket_nonce-socket_text_example : parse_socket_nonce (socket_text 4711 nonce) ≡ some nonce
parse_socket_nonce-socket_text_example =
    parse_socket_nonce-socket_text 4711 nonce (omega arith) refl nonce_bytes

abbrev socket : Text
socket = codes "C:\\s"

socket_IsTarget : IsTarget memory socket
socket_IsTarget d pattern w h = absurd (ground (arith, h))

owner_IsTarget : IsTarget memory (owner_path socket)
owner_IsTarget d pattern w h = absurd (ground (arith, h))

socket_other : socket ≢ owner_path socket
socket_other h = absurd (ground (arith, h))

-- The socket file and the marker of process 77, which has ended.
abbrev stale : Disk
stale p =
    if equal p socket
    then some (socket_text 4711 nonce)
    else if equal p (owner_path socket)
    then some (7 ∷ [])
    else none

abbrev fresh : Disk
fresh p = none

-- Process 42 is this one, the only one that runs; the JSON of a marker is one byte here.
abbrev host : Host
host = record {
  marshal = λ m. ok (9 ∷ []);
  unmarshal = λ b. some (record {
    version = pos 1;
    application = application_name;
    pid = if equal b (9 ∷ []) then pos 42 else pos 77;
    nonce = hex_encode nonce;
  });
  text_of = λ b. b;
  open_process = λ p. invalid_parameter;
  own_pid = pos 42;
}

prepare_existing-IsStale_example :
    IsStale memory host socket stale
    ⊎ ((prepare_existing memory host socket stale ≡ (stale, none))
        × (memory.stat socket stale ≡ not_exist)
        × (memory.stat (owner_path socket) stale ≡ not_exist))
    ⊎ ((e : SocketError) × (prepare_existing memory host socket stale ≡ (stale, some e))
        × Found memory host socket stale)
prepare_existing-IsStale_example = prepare_existing-IsStale memory host socket stale

-- `filepath.Base` of the two paths.
abbrev base : Text → Text
base p = drop 3 p

written : (write_files memory host socket base 4711 nonce fresh).1 ≡ none
unfolding write_files atomic_write equal socket_text chmod_rename write_rename close_rename
written = refl

abbrev agent : Bytes → Served
agent b = serve_failed (codes "protocol")

abbrev client : Client
client = record {
  input = nonce ++ (9 ∷ 9 ∷ 9 ∷ 9 ∷ 1 ∷ 2 ∷ 3 ∷ 4 ∷ 5 ∷ 6 ∷ 7 ∷ 8 ∷ 0 ∷ 1 ∷ []);
  writes = 2;
}

abbrev stranger : Client
stranger = record { input = 0 ∷ client.input; writes = 2 }

handle-admits_example :
    is_served (handle agent 42 true 5 nonce client) ≡ admits agent 42 true nonce client
handle-admits_example = handle-admits agent 42 true 5 nonce client

other_nonce : take 16 stranger.input ≢ nonce
other_nonce h = absurd (ground (arith, h))

abbrev network : Network
network = record {
  listen = ok 4711;
  random = ok nonce;
  accepts = connected client ∷ failed true (codes "closed") ∷ [];
}

start-IsReported_example :
    IsReported memory host socket base (start memory host socket base network stale)
start-IsReported_example = start-IsReported memory host socket base network stale

-- `os.WriteFile` on the disk in memory, which never fails.
abbrev write_file : WriteFile memory
write_file p b d = (λ q. if equal q p then some b else d q, none)

write_file-IsWriteFile : IsWriteFile memory write_file
unfolding content
write_file-IsWriteFile p b w h = ground (arith, equal_iff p p)

abbrev empty_disk : Disk
empty_disk p = none

make_socket-IsMade_example :
    IsMade memory memory-IsLawful write_file write_file-IsWriteFile socket 4711 nonce
      (make_socket memory write_file socket 4711 (ok nonce) empty_disk)
make_socket-IsMade_example =
    make_socket-IsMade memory memory-IsLawful write_file write_file-IsWriteFile socket 4711 nonce
      (omega arith) refl nonce_bytes empty_disk
