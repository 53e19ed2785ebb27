-- ===== src/KeyRing/Load.antt =====
-- old/pkg/sshutil/sshutil.go: `LoadKeyfile` and `CheckKeyType`.
use omni_sshagent.Base.{
  Bool, true, false, not, ◌&&◌, [], ◌++◌, Option, none, some, Result, ok, err, ◌>>=◌, if◌then◌else◌,
  ◌≡◌, refl, arith, Bool-cases, Result-cases, inl, inr,
}
use omni_sshagent.Base.Text.{Text, codes, equal, is_empty}
use omni_sshagent.Files.{Bytes}
use omni_sshagent.KeyRing.{
  PublicKey, no_public_key, PrivateKeyFile, Parsed, parsed, passphrase_missing, not_parsed, System,
}

abbrev pub local_store : Text
local_store = codes "LocalStore"

module _ (sys : System) where
  unfoldable pub public_key_string : sys.SshKey → Text → Text
  public_key_string k comment =
      sys.type_of k
      ++ codes " "
      ++ sys.base64 (sys.marshal k)
      ++ (if is_empty comment then [] else codes " " ++ comment)

  -- `getkeyInfo` of the signer's public key.
  unfoldable pub get_key_info : sys.SshKey → Text → PublicKey
  unfolding public_key_string
  get_key_info k comment = record {
    md5 = sys.fingerprint_md5 k;
    sha256 = sys.fingerprint_sha256 k;
    key_type = sys.type_of k;
    comment = comment;
    string = public_key_string k comment;
  }

  -- `agent.AddedKey`: the private key and a comment.
  abbrev pub Added : Type 0
  Added = sys.Private × Text

  abbrev pub Loaded : Type 0
  Loaded = Result Text (PrivateKeyFile × Option Added)

  abbrev file_of : Text → Text → Bool → PublicKey → PrivateKeyFile
  file_of path file_type encryption key = record {
    id = [];
    name = [];
    file_path = path;
    file_type = file_type;
    store_type = local_store;
    encryption = encryption;
    passphrase = [];
    public_key = key;
  }

  abbrev is_encrypted : sys.Putty → Bool
  is_encrypted putty = not (equal (sys.putty_encryption putty) (codes "none"))

  -- A key that was decrypted, with its signer.
  unfoldable pub loaded : Text → Text → Bool → Text → sys.Private → Loaded
  unfolding get_key_info
  loaded path file_type encryption comment private = sys.signer private >>= λ k.
      ok (file_of path file_type encryption (get_key_info k comment), some (private, comment))

  abbrev decrypted : Result Text sys.Private → Result Text sys.Private
  decrypted (ok private) = ok private
  decrypted (err e) = err (codes "faild decrypto")

  unfoldable pub load_putty : Text → Text → sys.Putty → Loaded
  unfolding loaded
  load_putty path passphrase putty =
      if is_empty passphrase && is_encrypted putty
      then ok (
        file_of path (codes "ppk") (is_encrypted putty)
            (record no_public_key { key_type = sys.putty_algo putty }),
        none,
      )
      else decrypted (sys.putty_private_key putty passphrase)
        >>= loaded path (codes "ppk") (is_encrypted putty) (sys.putty_comment putty)

  without_passphrase : Text → Parsed sys.Private → Loaded
  unfolding loaded
  without_passphrase path (parsed private) = loaded path (codes "OpenSSH") false [] private
  without_passphrase path passphrase_missing =
      ok (file_of path (codes "OpenSSH") true no_public_key, none)
  without_passphrase path (not_parsed e) = err e

  unfoldable pub load_pem : Text → Text → Bytes → Loaded
  unfolding without_passphrase
  load_pem path passphrase pem =
      if is_empty passphrase
      then without_passphrase path (sys.parse_private_key pem)
      else sys.parse_with_passphrase pem passphrase >>= loaded path (codes "OpenSSH") true []

  -- `LoadKeyfile`: the file's key if it can be decrypted, else what is known without it.
  unfoldable pub load_keyfile : Text → Text → sys.World → Loaded
  unfolding load_putty load_pem
  load_keyfile path passphrase w = elim (sys.putty_from_file path w) [
    | ok putty ↦ load_putty path passphrase putty
    | err e ↦ sys.read_file path w >>= load_pem path passphrase
  ]

  unfoldable pub check_key_type : Text → Text → sys.World → Result Text PrivateKeyFile
  unfolding load_keyfile
  check_key_type path passphrase w = load_keyfile path passphrase w >>= λ p. ok (p.0)

  -- The file is at the path, in the local store, with no passphrase of its own; without a key it is
  -- encrypted and was read with an empty passphrase.
  abbrev pub Describes : Text → Text → Loaded → Type 0
  Describes path passphrase (err e) = Unit
  Describes path passphrase (ok (file, some key)) =
      (file.file_path ≡ path) × (file.store_type ≡ local_store) × (file.passphrase ≡ [])
  Describes path passphrase (ok (file, none)) =
      (file.file_path ≡ path)
      × (file.store_type ≡ local_store)
      × (file.passphrase ≡ [])
      × (file.encryption ≡ true)
      × (is_empty passphrase ≡ true)

  loaded-Describes :
      (path file_type passphrase comment : Text) (encryption : Bool) (private : sys.Private)
      → Describes path passphrase (loaded path file_type encryption comment private)
  unfolding loaded
  loaded-Describes path file_type passphrase comment encryption private =
      elim (Result-cases (sys.signer private)) [
        | inl (k, e) ↦ rw (e, loaded) (refl, refl, refl)
        | inr (x, e) ↦ rw (e, loaded) tt
      ]

  chain-Describes :
      {A : Type 0} (path passphrase : Text) (r : Result Text A) (f : A → Loaded)
      → ((a : A) → Describes path passphrase (f a))
      → Describes path passphrase (r >>= f)
  chain-Describes path passphrase (ok a) f h = h a
  chain-Describes path passphrase (err e) f h = tt

  load_putty-Describes :
      (path passphrase : Text) (putty : sys.Putty)
      → Describes path passphrase (load_putty path passphrase putty)
  unfolding load_putty
  load_putty-Describes path passphrase putty =
      elim (Bool-cases (is_empty passphrase && is_encrypted putty)) [
        | inl e ↦ rw (e) (refl, refl, refl, ground (arith, e), ground (arith, e))
        | inr e ↦ rw (e) (
            chain-Describes path passphrase (decrypted (sys.putty_private_key putty passphrase))
              (loaded path (codes "ppk") (is_encrypted putty) (sys.putty_comment putty))
              (loaded-Describes path (codes "ppk") passphrase (sys.putty_comment putty)
                (is_encrypted putty)))
      ]

  without_passphrase-Describes :
      (path passphrase : Text) (p : Parsed sys.Private)
      → is_empty passphrase ≡ true
      → Describes path passphrase (without_passphrase path p)
  unfolding without_passphrase
  without_passphrase-Describes path passphrase (parsed private) h =
      loaded-Describes path (codes "OpenSSH") passphrase [] false private
  without_passphrase-Describes path passphrase passphrase_missing h = (refl, refl, refl, refl, h)
  without_passphrase-Describes path passphrase (not_parsed e) h = tt

  load_pem-Describes :
      (path passphrase : Text) (pem : Bytes)
      → Describes path passphrase (load_pem path passphrase pem)
  unfolding load_pem
  load_pem-Describes path passphrase pem = elim (Bool-cases (is_empty passphrase)) [
    | inl e ↦ rw (e) (without_passphrase-Describes path passphrase (sys.parse_private_key pem) e)
    | inr e ↦ rw (e) (
        chain-Describes path passphrase (sys.parse_with_passphrase pem passphrase)
          (loaded path (codes "OpenSSH") true [])
          (loaded-Describes path (codes "OpenSSH") passphrase [] true))
  ]

  -- What `LoadKeyfile` returns without an error stands at the path it was given, in the local store
  -- and with no passphrase; and if it returns no key to add, then the file is encrypted and the
  -- passphrase was empty.
  pub load_keyfile-Describes :
      (path passphrase : Text) (w : sys.World)
      → Describes path passphrase (load_keyfile path passphrase w)
  unfolding load_keyfile
  load_keyfile-Describes path passphrase w = elim (Result-cases (sys.putty_from_file path w)) [
    | inl (putty, e) ↦ rw (e, load_keyfile) (load_putty-Describes path passphrase putty)
    | inr (x, e) ↦
        rw (e, load_keyfile)
          (chain-Describes path passphrase (sys.read_file path w) (load_pem path passphrase)
            (load_pem-Describes path passphrase))
  ]
