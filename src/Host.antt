-- ===== src/Host.antt =====
-- `HostListener` and the session lookups of `src/redis_transport.rs`.
pub mod Ownership
pub mod Clearing
pub mod Overlap
use shex.Prelude.{
  ◌++◌, ℕ, zero, suc, [], ◌∷◌, Bool, Option, none, some, List, Bytes, eq, if◌then◌else◌,
}
use shex.Result.{
  fuel_exhausted, Result, ok, err, context, Exec, pure, raise, lift, gets, zoom, proceed, ◌>>=◌,
  ◌>>◌, hostname_owned, wrong_type, listener_ended,
}
use shex.Names.{validate_hostname, hex}
use shex.Keys.{session_prefix, host_key, wake_key, session_key}
use shex.Redis.{Redis}
use shex.Redis.World.{World, query}
use shex.Transport.{RedisTransport, server}

pub record HostListener (Db : Type 0) : Type 0 where
  pub hostname : Bytes
  pub connection : World Db

module _ (R : Redis) where
  -- A missing key is no string to compare with the signature.
  abbrev owner : Option Bytes → Result Bytes
  owner existing = context existing wrong_type

  -- the part of `register` that looks at a name which is taken
  unfoldable pub check_owner : Bytes → Bytes → Exec (World R.Db) (Unit {0})
  check_owner key signature = do
    found ← query (R.get key)
    existing ← lift (owner found)
    if eq existing signature then pure tt else raise hostname_owned

  -- `HostListener::register` on a fresh connection
  unfoldable pub register : Bytes → Bytes → Exec (World R.Db) (HostListener R.Db)
  register hostname signature = do
    lift (validate_hostname hostname)
    created ← query (R.setnx (host_key hostname) signature)
    if created then pure tt else check_owner (host_key hostname) signature
    connection ← gets (λ w. w)
    pure (record { hostname = hostname; connection = connection })

  -- `HostListener::accept`; the new transport has a connection of its own, `fresh`.
  unfoldable pub accept : World R.Db → Exec (HostListener R.Db) (RedisTransport R.Db)
  accept fresh = do
    hostname ← gets (λ l. l.hostname)
    result ←
        zoom (λ l. l.connection) (λ w l. record l { connection = w })
          (query (R.blpop (wake_key hostname)))
    connection_id ← lift (context result listener_ended)
    pure (server R hostname connection_id fresh)

  -- `create_session_lookup`; `sha256` is the digest.
  unfoldable pub create_session_lookup : (Bytes → Bytes) → Bytes → Bytes → Exec (World R.Db) Bytes
  create_session_lookup sha256 hostname session_id = do
    let key = session_key hostname (hex (sha256 session_id))
    query (R.set key hostname)
    pure key

  unfoldable pub delete_session_lookup : Bytes → Exec (World R.Db) (Unit {0})
  delete_session_lookup key = do query (R.del key); pure tt

  abbrev delete_found : List Bytes → Exec (World R.Db) (Unit {0})
  delete_found [] = pure tt
  delete_found (key ∷ keys) = do query (R.del_all (key ∷ keys)); pure tt

  abbrev scan_on : ℕ → Exec (World R.Db) (Unit {0}) → Exec (World R.Db) (Unit {0})
  scan_on zero again = pure tt
  scan_on (suc cursor) again = again

  -- the loop of `clear_session_lookups`: Redis says with a cursor of 0 that it has seen all keys
  unfoldable pub clear_loop : ℕ → Bytes → ℕ → Exec (World R.Db) (Unit {0})
  clear_loop zero pattern cursor = raise fuel_exhausted
  clear_loop (suc fuel) pattern cursor = do
    (next, keys) ← query (R.scan cursor pattern 100)
    delete_found keys
    scan_on next (clear_loop fuel pattern next)

  -- `clear_session_lookups` on a fresh connection, at most `fuel` rounds of it
  unfoldable pub clear_session_lookups : ℕ → Bytes → Exec (World R.Db) (Unit {0})
  clear_session_lookups fuel hostname = clear_loop fuel (session_prefix hostname ++ b'*' ∷ []) 0
