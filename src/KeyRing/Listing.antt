-- ===== src/KeyRing/Listing.antt =====
-- old/pkg/sshutil/sshutil.go: `KeyList`, `mergeKeyList` and `FindPrivKey`: the agent's keys with what
-- the settings know of them, and behind them the keys of the settings that are not loaded.
use mathlib.Core.List.{map-append}
use omni_sshagent.Base.{
  Bool, true, false, not, ◌||◌, List, [], ◌∷◌, ◌++◌, Option, none, some, Result, ok, err,
  if◌then◌else◌, ◌≡◌, refl, ap, ◌∙◌, arith, map, Bool-cases, inl, inr,
}
use omni_sshagent.Base.Text.{Text, equal, equal_iff}
use omni_sshagent.KeyRing.{PublicKey, PrivateKeyFile, System, State, Fault, Step, done, ◌>>=◌}
use omni_sshagent.KeyRing.Agent.{list_publickeys}

-- `PrivateKeyFile{PublicKey: key}`
abbrev pub bare : PublicKey → PrivateKeyFile
bare key = record {
  id = [];
  name = [];
  file_path = [];
  file_type = [];
  store_type = [];
  encryption = false;
  passphrase = [];
  public_key = key;
}

-- `getKey` and `hasKey`
unfoldable pub get_key : List PrivateKeyFile → PublicKey → Option PrivateKeyFile
get_key [] pubkey = none
get_key (key ∷ keys) pubkey =
    let rest = get_key keys pubkey in
    if equal key.public_key.sha256 pubkey.sha256 then some key else rest

unfoldable pub has_key : List PublicKey → PrivateKeyFile → Bool
has_key [] key = false
has_key (pubkey ∷ pubkeys) key =
    let rest = has_key pubkeys key in
    if equal pubkey.sha256 key.public_key.sha256 then true else rest

abbrev or_bare : PublicKey → Option PrivateKeyFile → PrivateKeyFile
or_bare pubkey none = bare pubkey
or_bare pubkey (some key) = key

-- The two loops of `mergeKeyList`.
unfoldable pub merge_agent : List PrivateKeyFile → List PublicKey → List PrivateKeyFile
unfolding get_key
merge_agent keys [] = []
merge_agent keys (pubkey ∷ pubkeys) =
    or_bare pubkey (get_key keys pubkey) ∷ merge_agent keys pubkeys

unfoldable pub not_loaded : List PublicKey → List PrivateKeyFile → List PrivateKeyFile
unfolding has_key
not_loaded pubkeys [] = []
not_loaded pubkeys (key ∷ keys) =
    let rest = not_loaded pubkeys keys in if not (has_key pubkeys key) then key ∷ rest else rest

unfoldable pub merge_key_list : List PublicKey → List PrivateKeyFile → List PrivateKeyFile
unfolding merge_agent not_loaded
merge_key_list pubkeys keys = merge_agent keys pubkeys ++ not_loaded pubkeys keys

abbrev pub fingerprint : PrivateKeyFile → Text
fingerprint key = key.public_key.sha256

abbrev pub agent_fingerprint : PublicKey → Text
agent_fingerprint key = key.sha256

module _ (sys : System) where
  unfoldable pub key_list : Step (State sys) (List PrivateKeyFile)
  unfolding merge_key_list
  key_list = list_publickeys sys >>= λ pubkeys s. done (merge_key_list pubkeys s.save_data.keys) s

  -- The loop of `FindPrivKey`.
  unfoldable pub find_fingerprint : Text → List PrivateKeyFile → Option PrivateKeyFile
  find_fingerprint sha256 [] = none
  find_fingerprint sha256 (key ∷ keys) =
      let rest = find_fingerprint sha256 keys in
      if equal (fingerprint key) sha256 then some key else rest

  abbrev found : Text → Result Fault (List PrivateKeyFile) → Option PrivateKeyFile
  found sha256 (err e) = none
  found sha256 (ok keys) = find_fingerprint sha256 keys

  unfoldable pub find_priv_key : sys.SshKey → State sys → State sys × Option PrivateKeyFile
  unfolding key_list find_fingerprint
  find_priv_key key s = let (s', r) = key_list s in (s', found (sys.fingerprint_sha256 key) r)

or_bare-fingerprint :
    (keys : List PrivateKeyFile) (pubkey : PublicKey)
    → fingerprint (or_bare pubkey (get_key keys pubkey)) ≡ pubkey.sha256
unfolding get_key
or_bare-fingerprint [] pubkey = refl
or_bare-fingerprint (key ∷ keys) pubkey =
    elim (Bool-cases (equal key.public_key.sha256 pubkey.sha256)) [
      | inl e ↦ rw (e, get_key) ((equal_iff key.public_key.sha256 pubkey.sha256).0 e)
      | inr e ↦ rw (e, get_key) (or_bare-fingerprint keys pubkey)
    ]

merge_agent-fingerprints :
    (keys : List PrivateKeyFile) (pubkeys : List PublicKey)
    → map fingerprint (merge_agent keys pubkeys) ≡ map agent_fingerprint pubkeys
unfolding merge_agent
merge_agent-fingerprints keys [] = refl
merge_agent-fingerprints keys (pubkey ∷ pubkeys) =
    rw (or_bare-fingerprint keys pubkey, merge_agent-fingerprints keys pubkeys)

-- The list begins with the agent's keys, one entry for each and in the agent's order, and continues
-- with the keys of the settings that the agent does not hold.
pub merge_key_list-fingerprints :
    (pubkeys : List PublicKey) (keys : List PrivateKeyFile)
    → map fingerprint (merge_key_list pubkeys keys)
      ≡ map agent_fingerprint pubkeys ++ map fingerprint (not_loaded pubkeys keys)
unfolding merge_key_list
merge_key_list-fingerprints pubkeys keys =
    map-append fingerprint (merge_agent keys pubkeys) (not_loaded pubkeys keys)
    ∙ ap (λ (f : List Text). f ++ map fingerprint (not_loaded pubkeys keys))
        (merge_agent-fingerprints keys pubkeys)

-- Whether a fingerprint is one of a list.
unfoldable pub among : Text → List Text → Bool
among f [] = false
among f (g ∷ fs) = equal g f || among f fs

among-append : (f : Text) (fs gs : List Text) → among f (fs ++ gs) ≡ (among f fs || among f gs)
unfolding among
among-append f [] gs = refl
among-append f (g ∷ fs) gs = ground (arith, among-append f fs gs)

has_key-among :
    (pubkeys : List PublicKey) (key : PrivateKeyFile)
    → has_key pubkeys key ≡ among (fingerprint key) (map agent_fingerprint pubkeys)
unfolding has_key among
has_key-among [] key = refl
has_key-among (pubkey ∷ pubkeys) key = ground (arith, has_key-among pubkeys key)

among_loaded :
    (f : Text) (pubkeys : List PublicKey) (keys : List PrivateKeyFile)
    → (among f (map agent_fingerprint pubkeys)
        || among f (map fingerprint (not_loaded pubkeys keys)))
      ≡ (among f (map agent_fingerprint pubkeys) || among f (map fingerprint keys))
unfolding among not_loaded
among_loaded f pubkeys [] = refl
among_loaded f pubkeys (key ∷ keys) = elim (Bool-cases (equal (fingerprint key) f)) [
  | inl e ↦ ground (
    arith,
    among_loaded f pubkeys keys,
    has_key-among pubkeys key,
    (equal_iff (fingerprint key) f).0 e,
  )
  | inr e ↦ ground (arith, among_loaded f pubkeys keys, e)
]

-- A fingerprint is listed exactly if the agent or the settings have a key of it.
pub merge_key_list-among :
    (f : Text) (pubkeys : List PublicKey) (keys : List PrivateKeyFile)
    → among f (map fingerprint (merge_key_list pubkeys keys))
      ≡ (among f (map agent_fingerprint pubkeys) || among f (map fingerprint keys))
merge_key_list-among f pubkeys keys =
    ap (among f) (merge_key_list-fingerprints pubkeys keys)
    ∙ among-append f (map agent_fingerprint pubkeys) (map fingerprint (not_loaded pubkeys keys))
    ∙ among_loaded f pubkeys keys
