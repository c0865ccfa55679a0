-- ===== src/Vault.antt =====
-- `FileEntry` of `src/credential_store.rs`: secrets in encrypted files, and the key file that they share.
pub mod Key
pub mod Secrets
pub mod Refinement
pub mod Atomic
pub mod Race
pub mod Agreement
use shex.Prelude.{
  ℕ, Bool, true, false, Option, none, some, List, [], ◌∷◌, ◌++◌, Bytes, codes, length, ◌==◌,
  if◌then◌else◌,
}
use shex.Result.{
  ErrorKind, unexpected_eof, connection_reset, broken_pipe, not_found, already_exists, other_kind,
  io, Error, Result, ok, err, is_ok, context, demand, capture, Exec, pure, raise, lift, proceed,
  ◌>>=◌, ◌>>◌, bad_key_length, credential_not_encrypted, serialization_failed, invalid_credential,
  unsupported_credential, credential_not_authentic, no_parent,
}
use shex.Names.{hex}
use shex.Channel.{Crypto, Codec}
use shex.Files.{
  FilePath, join, parent, Disk, read, exists, open_new, write_all, sync_all, rename, hard_link,
  remove_file, ensure_private_directory, check_private_permissions,
}

pub record FileEnvelope : Type 0 where
  pub version : ℕ
  pub nonce : Bytes
  pub ciphertext : Bytes

pub record FileEntry : Type 0 where
  pub store_dir : FilePath
  pub path : FilePath
  pub aad : Bytes

-- the random bytes of one `set_secret`: two names of temporary files are printed
pub record Draws : Type 0 where
  pub key : Bytes
  pub key_temp : Bytes
  pub nonce : Bytes
  pub temp : Bytes

abbrev pub file_store_version : ℕ
file_store_version = 1

-- `FILE_STORE_DIRECTORY`
abbrev pub directory : FilePath → FilePath
directory store_dir = join store_dir (codes "credentials")

-- `FILE_STORE_KEY`
abbrev pub key_path : FilePath → FilePath
key_path store_dir = join store_dir (codes "credential.key")

abbrev pub identity : Bytes → Bytes → Bytes
identity service user = service ++ 0 ∷ user

-- `FileEntry::new`; `sha256` is the digest.
abbrev pub new : (Bytes → Bytes) → FilePath → Bytes → Bytes → FileEntry
new sha256 store_dir service user = record {
  store_dir = store_dir;
  path = join (directory store_dir) (hex (sha256 (identity service user)) ++ codes ".secret");
  aad = identity service user;
}

unfoldable pub load_file_key : FilePath → Exec Disk Bytes
load_file_key store_dir = do
  check_private_permissions (key_path store_dir)
  bytes ← read (key_path store_dir)
  if length bytes == 32 then pure bytes else raise bad_key_length

abbrev pub key_temp_path : FilePath → Bytes → FilePath
key_temp_path store_dir temp = join store_dir (codes ".credential-key-" ++ (temp ++ codes ".tmp"))

-- `error.kind()` is `AlreadyExists`.
abbrev pub is_already_exists : Error → Bool
is_already_exists (io already_exists) = true
is_already_exists e = false

-- Whoever links first has made the key.
abbrev pub after_link : FilePath → Bytes → Result (Unit {0}) → Exec Disk Bytes
after_link store_dir key (ok u) = pure key
after_link store_dir key (err e) = if is_already_exists e then load_file_key store_dir else raise e

-- the part of `load_or_create_file_key` that makes a key
unfoldable pub create_file_key : FilePath → Bytes → Bytes → Exec Disk Bytes
create_file_key store_dir key temp = do
  open_new (key_temp_path store_dir temp) 0o600
  write_all (key_temp_path store_dir temp) key
  sync_all
  linked ← capture (hard_link (key_temp_path store_dir temp) (key_path store_dir))
  result ← capture (after_link store_dir key linked)
  capture (remove_file (key_temp_path store_dir temp))
  lift result

unfoldable pub load_or_create_file_key : FilePath → Bytes → Bytes → Exec Disk Bytes
load_or_create_file_key store_dir key temp = do
  ensure_private_directory store_dir
  ensure_private_directory (directory store_dir)
  there ← exists (key_path store_dir)
  if there then load_file_key store_dir else create_file_key store_dir key temp

abbrev pub temp_path : FilePath → Bytes → FilePath
temp_path dir temp = join dir (codes ".credential-" ++ (temp ++ codes ".tmp"))

-- the closure of `write_private_replace`
unfoldable pub write_and_rename : FilePath → FilePath → Bytes → Exec Disk (Unit {0})
write_and_rename temp path bytes = do
  open_new temp 0o600
  write_all temp bytes
  sync_all
  rename temp path

abbrev pub tidy : FilePath → Result (Unit {0}) → Exec Disk (Result (Unit {0}))
tidy temp (ok u) = pure (ok u)
tidy temp (err e) = capture (remove_file temp)

unfoldable pub write_private_replace : FilePath → Bytes → Bytes → Exec Disk (Unit {0})
write_private_replace path bytes temp = do
  dir ← lift (context (parent path) no_parent)
  ensure_private_directory dir
  result ← capture (write_and_rename (temp_path dir temp) path bytes)
  tidy (temp_path dir temp) result
  lift result

abbrev pub sealed : Bytes → Bytes → FileEnvelope
sealed nonce ciphertext = record {
  version = file_store_version;
  nonce = nonce;
  ciphertext = ciphertext;
}

module _ (crypto : Crypto) (codec : Codec FileEnvelope) where
  unfoldable pub set_secret : FileEntry → Draws → Bytes → Exec Disk (Unit {0})
  set_secret entry draws secret = do
    key ← load_or_create_file_key entry.store_dir draws.key draws.key_temp
    ciphertext ←
        lift (context (crypto.encrypt key draws.nonce entry.aad secret) credential_not_encrypted)
    bytes ← lift (context (codec.to_vec (sealed draws.nonce ciphertext)) serialization_failed)
    write_private_replace entry.path bytes draws.temp

  unfoldable pub get_secret : FileEntry → Exec Disk Bytes
  get_secret entry = do
    key ← load_file_key entry.store_dir
    check_private_permissions entry.path
    bytes ← read entry.path
    envelope ← lift (context (codec.from_slice bytes) invalid_credential)
    demand (envelope.version == file_store_version) unsupported_credential
    lift (
        context (crypto.decrypt key envelope.nonce entry.aad envelope.ciphertext)
          credential_not_authentic)

unfoldable pub delete_credential : FileEntry → Exec Disk (Unit {0})
delete_credential entry = remove_file entry.path
