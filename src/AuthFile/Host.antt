-- ===== src/AuthFile/Host.antt =====
-- `create_for_host` and `load_for_host` of `src/auth_file.rs` on every branch.
use shex.Prelude.{◌≡◌, refl, none, ◌++◌, Bytes, codes}
use shex.Result.{ok}
use shex.Names.{hex}
use shex.Channel.{Crypto, Codec}
use shex.Files.{FilePath, Tree, find, attempt, ensure_private_directory}
use shex.Files.Laws.{dir_there}
use shex.Vault.Key.{secured}
use shex.Credentials.{at, Secrets}
use shex.AuthFile.{
  StoredAuth, Envelope, AuthFile, NewAuth, service, auth_directory, host_path, continued,
  create_for_host, load_for_host,
}
use shex.AuthFile.Loads.{Loads, load-Loads, CanEncrypt}
use shex.AuthFile.RoundTrip.{with_stored, update-Saved, create-Saved}

module _ (crypto : Crypto) (codec : Codec StoredAuth) (envelopes : Codec Envelope) {K : Type 0}
    (secrets : Secrets K) (sha256 : Bytes → Bytes) (store_dir : FilePath) where
  -- the files after the directories are made
  abbrev pub prepared : Tree → Tree
  prepared t = secured (auth_directory store_dir) (secured store_dir t)

  abbrev name_of : Bytes → Bytes
  name_of hostname = hex (sha256 hostname) ++ codes ".auth"

  abbrev pub first_auth : StoredAuth → NewAuth → AuthFile
  first_auth stored drawn = record {
    stored = stored;
    path = host_path sha256 store_dir stored.hostname;
    key_id = drawn.key_id;
  }

  abbrev pub LoadsFor : Bytes → Bytes → AuthFile → Tree → K → Type 0
  LoadsFor hostname =
      Loads crypto codec envelopes secrets store_dir (codes "auth") (name_of hostname)

  abbrev pub CanWrite : Bytes → AuthFile → Bytes → Bytes → Type 0
  CanWrite hostname =
      CanEncrypt crypto codec envelopes secrets store_dir (codes "auth") (name_of hostname)

  -- What `create_for_host` needs, and the auth file that it makes: one that replaces the file that is
  -- there, or a first one.
  pub data CanCreate (stored : StoredAuth) (drawn : NewAuth) (t : Tree) (k : K)
      : AuthFile → Type 0 where
    again :
        {key : Bytes} (existing : AuthFile)
        → LoadsFor stored.hostname key existing t k
        → CanWrite stored.hostname
            (with_stored (continued existing.stored stored) existing)
            key
            drawn.nonce
        → CanCreate stored drawn t k (with_stored (continued existing.stored stored) existing)
    anew :
        find (host_path sha256 store_dir stored.hostname) t.files ≡ none
        → secrets.CanSet store_dir service drawn.key_id drawn.secret drawn.key (prepared t) k
        → CanWrite stored.hostname (first_auth stored drawn) drawn.key drawn.nonce
        → CanCreate stored drawn t k (first_auth stored drawn)

  prepared-Loads :
      (hostname key : Bytes) (auth : AuthFile) (t : Tree) (k : K)
      → LoadsFor hostname key auth t k
      → LoadsFor hostname key auth (prepared t) k
  prepared-Loads hostname key auth t k l = record {
    remembers =
        secrets.Remembers-others store_dir service auth.key_id key t (prepared t) k (codes "")
          (codes "") (λ e. absurd (cc e)) (λ q ne. refl) l.remembers;
    whole = l.whole;
    at_path = l.at_path;
    bytes = l.bytes;
    nonce = l.nonce;
    ciphertext = l.ciphertext;
    plain = l.plain;
    mode = l.mode;
    here = l.here;
    private = l.private;
    read = l.read;
    opened = l.opened;
    parsed = l.parsed;
  }

  -- What `create_for_host` returns is what `load_for_host` reads afterwards, whether the file is
  -- new or replaces one that can be loaded, whose key and id it then keeps, and whose last session
  -- it keeps if the server and its Redis are the same. Nobody else uses the disk, the credential
  -- store takes the key, and the cipher and the codecs take the data.
  pub load_for_host-create_for_host :
      (stored : StoredAuth) (drawn : NewAuth) (t : Tree) (k : K) {auth : AuthFile}
      → CanCreate stored drawn t k auth
      → let (r, m) =
          create_for_host crypto codec envelopes secrets sha256 stored store_dir drawn (at t k) in
        (r ≡ ok auth)
        × (load_for_host crypto codec envelopes secrets sha256 store_dir stored.hostname m
            ≡ (ok auth, m))
  unfolding create_for_host load_for_host ensure_private_directory attempt
  load_for_host-create_for_host stored drawn t k (again {key} existing l can) =
      let name = name_of stored.hostname in
      let s =
        update-Saved crypto codec envelopes secrets store_dir name existing stored key drawn.nonce
          (prepared t) k (prepared-Loads stored.hostname key existing t k l) can in
      rw
        (
          l.here,
          s.returns,
          load-Loads crypto codec envelopes secrets store_dir (codes "auth") name key _ s.tree k
              s.loads,
        )
        (refl, refl)
  load_for_host-create_for_host stored drawn t k (anew missing can_set can) =
      let name = name_of stored.hostname in
      let (k', s) =
        create-Saved crypto codec envelopes secrets store_dir name stored drawn (prepared t) k
          can_set can missing
          (dir_there (auth_directory store_dir) 0o700 (secured store_dir t).dirs) in
      rw
        (
          missing,
          s.returns,
          load-Loads crypto codec envelopes secrets store_dir (codes "auth") name drawn.key _ s.tree
              k' s.loads,
        )
        (refl, refl)
