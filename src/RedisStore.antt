-- ===== src/RedisStore.antt =====
-- `src/redis_store.rs`: the Redis servers that are saved by name.
pub mod Saved
pub mod Valid
use shex.Prelude.{
  ℕ, Bool, true, false, ◌&&◌, Option, none, some, List, [], ◌∷◌, ◌++◌, Bytes, codes, eq, contains,
  ends_with, is_utf8, length, ltb, ◌==◌, if◌then◌else◌,
}
use shex.Result.{
  Error, io, ErrorKind, unexpected_eof, connection_reset, broken_pipe, not_found, already_exists,
  other_kind, Result, ok, err, demand, capture, context, Exec, pure, raise, lift, proceed, ◌>>=◌,
  ◌>>◌, serialization_failed, invalid_redis_url, invalid_marker, unsupported_marker,
  marker_mismatch, not_utf8, many_servers,
}
use shex.Names.{hex, validate_name}
use shex.Channel.{Codec}
use shex.Files.{
  FilePath, join, Disk, read, exists, open_create, set_mode, write_all, read_dir,
  ensure_private_directory, check_private_permissions,
}
use shex.Vault.{Draws}
use shex.Credentials.{Machine, on_disk, Secrets}

pub record Marker : Type 0 where
  pub version : ℕ
  pub name : Bytes

abbrev pub store_version : ℕ
store_version = 1

-- `KEYRING_SERVICE`
abbrev pub service : Bytes
service = codes "shex-redis"

abbrev pub local_url : Bytes
local_url = codes "redis://127.0.0.1/"

abbrev pub directory : FilePath → FilePath
directory store_dir = join store_dir (codes "redis")

abbrev pub default_path : FilePath → FilePath
default_path store_dir = join (directory store_dir) (codes "default")

-- `sha256` is the digest.
abbrev pub server_hash : (Bytes → Bytes) → Bytes → Bytes
server_hash sha256 name = hex (sha256 name)

abbrev pub marker_path : (Bytes → Bytes) → FilePath → Bytes → FilePath
marker_path sha256 store_dir name =
    join (directory store_dir) (server_hash sha256 name ++ codes ".server")

abbrev server_name : Bytes → Bool
server_name name = ends_with (codes ".server") name && ltb 7 (length name)

-- `path.extension()` is `server`: something stands before the last dot.
abbrev pub is_server : FilePath → Bool
is_server [] = false
is_server (name ∷ dir) = server_name name

unfoldable pub write_private : FilePath → Bytes → Exec Disk (Unit {0})
write_private path bytes = do open_create path 0o600; set_mode path 0o600; write_all path bytes

-- `error.kind()` is `NotFound`.
abbrev pub is_not_found : Error → Bool
is_not_found (io not_found) = true
is_not_found e = false

-- `valid_url` says that `redis::Client::open` takes a URL.
module _ (markers : Codec Marker) (valid_url : Bytes → Bool) {K : Type 0} (secrets : Secrets K)
    (sha256 : Bytes → Bytes) where
  unfoldable pub read_marker : FilePath → Exec (Machine K) Marker
  read_marker path = do
    on_disk (check_private_permissions path)
    bytes ← on_disk (read path)
    marker ← lift (context (markers.from_slice bytes) invalid_marker)
    demand (marker.version == store_version) unsupported_marker
    pure marker

  unfoldable pub add : FilePath → Bytes → Bytes → Draws → Exec (Machine K) FilePath
  add store_dir name redis_url draws = do
    lift (validate_name name)
    demand (valid_url redis_url) invalid_redis_url
    on_disk (ensure_private_directory store_dir)
    on_disk (ensure_private_directory (directory store_dir))
    secrets.set store_dir service (server_hash sha256 name) draws redis_url
    marker ← lift (
        context (markers.to_vec (record { version = store_version; name = name }))
          serialization_failed)
    on_disk (write_private (marker_path sha256 store_dir name) marker)
    on_disk (write_private (default_path store_dir) marker)
    pure (marker_path sha256 store_dir name)

  -- the part of `resolve` for a name
  unfoldable pub resolve_name : FilePath → Bytes → Exec (Machine K) Bytes
  resolve_name store_dir reference = do
    lift (validate_name reference)
    marker ← read_marker (marker_path sha256 store_dir reference)
    demand (marker.version == store_version && eq marker.name reference) marker_mismatch
    secret ← secrets.get store_dir service (server_hash sha256 reference)
    demand (is_utf8 secret) not_utf8
    demand (valid_url secret) invalid_redis_url
    pure secret

  -- the part of `resolve` for a URL
  abbrev pub resolve_url : Bytes → Exec (Machine K) Bytes
  resolve_url reference = do demand (valid_url reference) invalid_redis_url; pure reference

  unfoldable pub resolve : FilePath → Bytes → Exec (Machine K) Bytes
  resolve store_dir reference =
      if contains (codes "://") reference
      then resolve_url reference
      else resolve_name store_dir reference

  -- the names that the markers of a directory have
  unfoldable pub names_of : List FilePath → Exec (Machine K) (List Bytes)
  names_of [] = pure []
  names_of (path ∷ paths) =
      let rest = names_of paths in
      if is_server path
      then (do marker ← read_marker path; names ← rest; pure (marker.name ∷ names))
      else rest

  abbrev pub only : FilePath → List Bytes → Exec (Machine K) Bytes
  only store_dir [] = pure local_url
  only store_dir (name ∷ []) = resolve store_dir name
  only store_dir (name ∷ more ∷ names) = raise many_servers

  abbrev pub listed : FilePath → Result (List FilePath) → Exec (Machine K) Bytes
  listed store_dir (err e) = if is_not_found e then pure local_url else raise e
  listed store_dir (ok paths) = do names ← names_of paths; only store_dir names

  -- the part of `resolve_or_default` that looks for a default
  unfoldable pub resolve_default : FilePath → Exec (Machine K) Bytes
  resolve_default store_dir = do
    there ← on_disk (exists (default_path store_dir))
    if there
        then (do marker ← read_marker (default_path store_dir); resolve store_dir marker.name)
        else (do
          entries ← capture (on_disk (read_dir (directory store_dir)))
          listed store_dir entries)

  unfoldable pub resolve_or_default : FilePath → Option Bytes → Exec (Machine K) Bytes
  resolve_or_default store_dir (some reference) = resolve store_dir reference
  resolve_or_default store_dir none = resolve_default store_dir
