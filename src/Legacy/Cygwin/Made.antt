-- ===== src/Legacy/Cygwin/Made.antt =====
-- old/pkg/cygwinsocket/cygwinsocket.go: `makeSocket`, beside `parseSocketNonce` of
-- internal/interfaces/cygwin. `os.WriteFile` is a parameter beside those of `FileSystem`.
use omni_sshagent.Base.{
  ℕ, ◌<◌, true, [], ◌++◌, Option, none, some, Result, ok, err, ◌≡◌, refl, arith, length, All,
}
use omni_sshagent.Base.Text.{Text, codes}
use omni_sshagent.Base.Decimal.{decimal}
use omni_sshagent.Base.Hex.{IsByte}
use omni_sshagent.Files.{OsError, Bytes, FileSystem, IsLawful, content}
use omni_sshagent.Cygwin.{socket_text, parse_socket_nonce, nonce_text}
use omni_sshagent.Cygwin.Nonce.{parse_socket_nonce-socket_text}
use omni_sshagent.Legacy.Cygwin.{nonce2s}
use omni_sshagent.Legacy.Cygwin.Same.{nonce2s-nonce_text}

pub data MakeError : Type 0 where
  uuid_failed write_failed path_failed mark_failed : OsError → MakeError
  -- `nonce2s` on bytes that are no whole words.
  panicked : MakeError

-- `Sprintf` of the port and the text of the nonce.
unfoldable pub former_text : ℕ → Text → Text
former_text port nonce = codes "!<socket >" ++ (decimal port ++ (codes " s " ++ nonce))

module _ (fs : FileSystem) where
  open fs use {World, utf16_error, set_attributes}

  -- `os.WriteFile`
  abbrev pub WriteFile : Type 0
  WriteFile = Text → Bytes → World → World × Option OsError

  -- Documented: without an error the file holds these bytes.
  abbrev pub IsWriteFile : WriteFile → Type 0
  IsWriteFile write_file =
      (p : Text) (b : Bytes) (w : World)
      → (write_file p b w).1 ≡ none
      → content fs p (write_file p b w).0 ≡ some b

  -- The named results `nonce` and `err`.
  abbrev pub Made : Type 0
  Made = World × Bytes × Option MakeError

  marked : Bytes → World × Option OsError → Made
  marked nonce (w, none) = (w, nonce, none)
  marked nonce (w, some e) = (w, nonce, some (mark_failed e))

  mark_encoded : Text → Bytes → Option OsError → World → Made
  unfolding marked
  mark_encoded path nonce (some e) w = (w, nonce, some (path_failed e))
  mark_encoded path nonce none w = marked nonce (set_attributes path true w)

  written : Text → Bytes → World × Option OsError → Made
  unfolding mark_encoded
  written path nonce (w, none) = mark_encoded path nonce (utf16_error path) w
  written path nonce (w, some e) = (w, nonce, some (write_failed e))

  write_nonce : WriteFile → Text → ℕ → Bytes → Option Text → World → Made
  unfolding written former_text
  write_nonce write_file path port nonce none w = (w, nonce, some panicked)
  write_nonce write_file path port nonce (some text) w =
      written path nonce (write_file path (former_text port text) w)

  -- `makeSocket`, with what `NewUUID` and its `MarshalBinary` give.
  unfoldable pub make_socket : WriteFile → Text → ℕ → Result OsError Bytes → World → Made
  unfolding write_nonce
  make_socket write_file path port (err e) w = (w, [], some (uuid_failed e))
  make_socket write_file path port (ok nonce) w =
      write_nonce write_file path port nonce (nonce2s nonce) w

module _ (fs : FileSystem) (laws : IsLawful fs) (write_file : WriteFile fs)
    (writes : IsWriteFile fs write_file) (path : Text) (port : ℕ) (nonce : Bytes) where
  -- The file is just the one that the present program would write.
  abbrev pub Holds : fs.World → Type 0
  Holds w = content fs path w ≡ some (socket_text port nonce)

  abbrev pub IsMade : Made fs → Type 0
  IsMade (w, n, none) =
      (n ≡ nonce) × Holds w × (parse_socket_nonce (socket_text port nonce) ≡ some n)
  IsMade (w, n, some (write_failed e)) = n ≡ nonce
  IsMade (w, n, some (path_failed e)) = Holds w
  IsMade (w, n, some (mark_failed e)) = Holds w
  IsMade (w, n, some (uuid_failed e)) = ⊥
  IsMade (w, n, some panicked) = ⊥

  marked-IsMade :
      (s : fs.World × Option OsError)
      → Holds s.0
      → parse_socket_nonce (socket_text port nonce) ≡ some nonce
      → IsMade (marked fs nonce s)
  unfolding marked
  marked-IsMade (w, none) h p = (refl, h, p)
  marked-IsMade (w, some e) h p = h

  mark_encoded-IsMade :
      (e : Option OsError) (w : fs.World)
      → Holds w
      → parse_socket_nonce (socket_text port nonce) ≡ some nonce
      → IsMade (mark_encoded fs path nonce e w)
  unfolding mark_encoded
  mark_encoded-IsMade (some e) w h p = h
  mark_encoded-IsMade none w h p =
      marked-IsMade (fs.set_attributes path true w)
        (rw (laws.set_attributes-content path path true w) h) p

  written-IsMade :
      (s : fs.World × Option OsError)
      → (s.1 ≡ none → Holds s.0)
      → parse_socket_nonce (socket_text port nonce) ≡ some nonce
      → IsMade (written fs path nonce s)
  unfolding written
  written-IsMade (w, none) h p = mark_encoded-IsMade (fs.utf16_error path) w (h refl) p
  written-IsMade (w, some e) h p = refl

  write_nonce-IsMade :
      (text : Option Text) (w : fs.World)
      → text ≡ some (nonce_text nonce)
      → parse_socket_nonce (socket_text port nonce) ≡ some nonce
      → IsMade (write_nonce fs write_file path port nonce text w)
  unfolding write_nonce former_text socket_text
  write_nonce-IsMade none w e p = absurd (ground (arith, e))
  write_nonce-IsMade (some text) w e p =
      let same : text ≡ nonce_text nonce = ground (arith, e) in
      rw same (
        written-IsMade (write_file path (socket_text port nonce) w)
          (writes path (socket_text port nonce) w) p)

  -- For a port and a nonce of 16 bytes, `makeSocket` returns that nonce where it succeeds, and the
  -- file is the one that the present program would write: `parseSocketNonce` reads the nonce from
  -- it. Where the file is written but cannot be marked, there is an error, and it stays as it is.
  pub make_socket-IsMade :
      port < 65536
      → length nonce ≡ 16
      → All IsByte nonce
      → (w : fs.World) → IsMade (make_socket fs write_file path port (ok nonce) w)
  unfolding make_socket
  make_socket-IsMade h size bytes w =
      write_nonce-IsMade (nonce2s nonce) w (nonce2s-nonce_text nonce size)
        (parse_socket_nonce-socket_text port nonce h size bytes)
