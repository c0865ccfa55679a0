-- ===== src/AuthFile.antt =====
-- `src/auth_file.rs`: the encrypted file with a host's code and last session.
pub mod Loads
pub mod RoundTrip
pub mod Host
use shex.Prelude.{
  ℕ, Bool, true, false, ◌&&◌, Option, none, some, List, [], ◌∷◌, ◌++◌, Bytes, codes, eq, length,
  ◌==◌, if◌then◌else◌,
}
use shex.Result.{
  Error, Result, ok, err, demand, capture, context, Exec, pure, raise, lift, proceed, ◌>>=◌, ◌>>◌,
  bad_key_length, serialization_failed, invalid_auth_file, unsupported_auth_file,
  no_store_directory, auth_not_encrypted, auth_not_authentic, invalid_auth_data,
}
use shex.Names.{hex}
use shex.Channel.{Crypto, Codec}
use shex.Files.{
  FilePath, join, parent, Disk, read, exists, open_new, open_truncate, write_all,
  ensure_private_directory, check_private_permissions,
}
use shex.Vault.{Draws}
use shex.Credentials.{Machine, on_disk, Secrets}

pub record StoredAuth : Type 0 where
  pub redis_url : Bytes
  pub hostname : Bytes
  pub server_signature : Bytes
  pub code : Bytes
  pub last_session : Option Bytes

pub record Envelope : Type 0 where
  pub version : ℕ
  pub key_id : Bytes
  pub nonce : Bytes
  pub ciphertext : Bytes

pub record AuthFile : Type 0 where
  pub stored : StoredAuth
  pub path : FilePath
  pub key_id : Bytes

-- the random bytes of one `create_for_host`; `key_id` is printed
pub record NewAuth : Type 0 where
  pub key_id : Bytes
  pub key : Bytes
  pub nonce : Bytes
  pub secret : Draws

abbrev pub auth_version : ℕ
auth_version = 2

-- `KEYRING_SERVICE`
abbrev pub service : Bytes
service = codes "shex"

-- `AUTH_DIRECTORY`
abbrev pub auth_directory : FilePath → FilePath
auth_directory store_dir = join store_dir (codes "auth")

-- `sha256` is the digest.
abbrev pub host_path : (Bytes → Bytes) → FilePath → Bytes → FilePath
host_path sha256 store_dir hostname =
    join (auth_directory store_dir) (hex (sha256 hostname) ++ codes ".auth")

abbrev parent_of : Option FilePath → Option FilePath
parent_of none = none
parent_of (some dir) = parent dir

-- `path.parent().and_then(Path::parent)`
abbrev pub store_of : FilePath → Option FilePath
store_of path = parent_of (parent path)

unfoldable pub write_private_new : FilePath → Bytes → Exec Disk (Unit {0})
write_private_new path bytes = do open_new path 0o600; write_all path bytes

unfoldable pub write_private_replace : FilePath → Bytes → Exec Disk (Unit {0})
write_private_replace path bytes = do open_truncate path; write_all path bytes

-- The last session is kept while the server and its Redis are the same.
abbrev pub continued : StoredAuth → StoredAuth → StoredAuth
continued existing stored =
    if eq existing.server_signature stored.server_signature
      && eq existing.redis_url stored.redis_url
    then record stored { last_session = existing.last_session }
    else stored

abbrev pub enveloped : Bytes → Bytes → Bytes → Envelope
enveloped key_id nonce ciphertext = record {
  version = auth_version;
  key_id = key_id;
  nonce = nonce;
  ciphertext = ciphertext;
}

module _ (crypto : Crypto) (codec : Codec StoredAuth) (envelopes : Codec Envelope) where
  unfoldable pub encrypt : {S : Type 0} → Bytes → StoredAuth → Bytes → Bytes → Exec S Bytes
  encrypt nonce stored key_id key = do
    demand (length key == 32) bad_key_length
    plain ← lift (context (codec.to_vec stored) serialization_failed)
    ciphertext ← lift (context (crypto.encrypt key nonce key_id plain) auth_not_encrypted)
    lift (context (envelopes.to_vec (enveloped key_id nonce ciphertext)) serialization_failed)

  unfoldable pub decrypt : {S : Type 0} → Envelope → Bytes → Exec S StoredAuth
  decrypt envelope key = do
    demand (length key == 32) bad_key_length
    plain ← lift (
        context (crypto.decrypt key envelope.nonce envelope.key_id envelope.ciphertext)
          auth_not_authentic)
    lift (context (codec.from_slice plain) invalid_auth_data)

  module _ {K : Type 0} (secrets : Secrets K) where
    unfoldable pub load : FilePath → Exec (Machine K) AuthFile
    load path = do
      on_disk (check_private_permissions path)
      bytes ← on_disk (read path)
      envelope ← lift (context (envelopes.from_slice bytes) invalid_auth_file)
      demand (envelope.version == auth_version) unsupported_auth_file
      store_dir ← lift (context (store_of path) no_store_directory)
      key ← secrets.get store_dir service envelope.key_id
      stored ← decrypt envelope key
      pure (record { stored = stored; path = path; key_id = envelope.key_id })

    unfoldable pub save : Bytes → AuthFile → Exec (Machine K) (Unit {0})
    save nonce auth = do
      store_dir ← lift (context (store_of auth.path) no_store_directory)
      key ← secrets.get store_dir service auth.key_id
      bytes ← encrypt nonce auth.stored auth.key_id key
      on_disk (write_private_replace auth.path bytes)

    unfoldable pub write_new : Bytes → AuthFile → Bytes → Exec (Machine K) (Unit {0})
    write_new nonce auth key = do
      bytes ← encrypt nonce auth.stored auth.key_id key
      on_disk (write_private_new auth.path bytes)

    -- the part of `create_for_host` for a file that is there
    unfoldable pub update : FilePath → StoredAuth → Bytes → Exec (Machine K) AuthFile
    update path stored nonce = do
      existing ← load path
      let updated = record existing { stored = continued existing.stored stored } in
          do save nonce updated; pure updated

    -- A file that is not written leaves no key behind.
    abbrev pub or_forget : FilePath → AuthFile → Result (Unit {0}) → Exec (Machine K) AuthFile
    or_forget store_dir auth (ok u) = pure auth
    or_forget store_dir auth (err e) = do
      capture (secrets.delete store_dir service auth.key_id)
      raise e

    -- the part of `create_for_host` for a new file
    unfoldable pub create : FilePath → FilePath → StoredAuth → NewAuth → Exec (Machine K) AuthFile
    create store_dir path stored drawn = do
      secrets.set store_dir service drawn.key_id drawn.secret drawn.key
      let auth : AuthFile = record { stored = stored; path = path; key_id = drawn.key_id } in
          do
            written ← capture (write_new drawn.nonce auth drawn.key)
            or_forget store_dir auth written

    module _ (sha256 : Bytes → Bytes) where
      unfoldable pub create_for_host : StoredAuth → FilePath → NewAuth → Exec (Machine K) AuthFile
      create_for_host stored store_dir drawn = do
        on_disk (ensure_private_directory store_dir)
        on_disk (ensure_private_directory (auth_directory store_dir))
        there ← on_disk (exists (host_path sha256 store_dir stored.hostname))
        if there
            then update (host_path sha256 store_dir stored.hostname) stored drawn.nonce
            else create store_dir (host_path sha256 store_dir stored.hostname) stored drawn

      unfoldable pub load_for_host : FilePath → Bytes → Exec (Machine K) AuthFile
      load_for_host store_dir hostname = load (host_path sha256 store_dir hostname)
