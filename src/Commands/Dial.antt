-- ===== src/Commands/Dial.antt =====
-- `client_channel` of `src/main.rs` from its beginning: the mailboxes of `src/redis_transport.rs`, the login of
-- `src/auth.rs` over them, and the channel of `src/channel.rs` with the session key.
use shex.Prelude.{ℕ, ◌≡◌, refl, Option, none, some, [], Bytes}
use shex.Result.{Result, ok, err, Exec, zoom, ◌>>=◌, not_connected, unknown_host}
use shex.Names.Hostname.{IsHostname, validate_hostname_iff}
use shex.Keys.{host_key}
use shex.Protocol.{ClientRequest, ServerReply}
use shex.Redis.{Redis}
use shex.Redis.World.{World, query_quiet}
use shex.Transport.{RedisTransport}
use shex.Transport as Transport
use shex.Channel.{
  Crypto, Codec, SecureChannel, send, recv_unacknowledged, acknowledge, wait_indefinitely,
}
use shex.Channel as Channel
use shex.Channel.RedisFrames.{redis_frames}
use shex.Login.{Opaque, client_login}
use shex.Client.{ClientChannel, Client}

-- the client's Redis, and its channel once it is logged in
pub record Link (Db : Type 0) : Type 0 where
  pub world : World Db
  pub channel : Option (SecureChannel (RedisTransport Db))

-- what the client draws: the bytes of its connection id and the randomness of the login
pub record Chance : Type 0 where
  pub id : Bytes
  pub r1 : ℕ
  pub r3 : ℕ

module _ (R : Redis) (crypto : Crypto) where
  open R use {Db}

  abbrev through :
      {A : Type 0}
      → Exec (SecureChannel (RedisTransport Db)) A
      → Option (SecureChannel (RedisTransport Db))
      → Exec (Link Db) A
  through m none l = (err not_connected, l)
  through m (some c) l = let (r, c') = m c in (r, record l { channel = some c' })

  -- a method of the channel
  abbrev over : {A : Type 0} → Exec (SecureChannel (RedisTransport Db)) A → Exec (Link Db) A
  over m l = through m l.channel l

  abbrev waits :
      Option (SecureChannel (RedisTransport Db)) → Option (SecureChannel (RedisTransport Db))
  waits none = none
  waits (some c) = some (wait_indefinitely crypto (redis_frames R) c)

  -- the encrypted channel over Redis, as the commands use it
  abbrev pub link_channel : Codec ClientRequest → Codec ServerReply → ClientChannel (Link Db)
  link_channel requests replies = record {
    send = λ request. over (send crypto (redis_frames R) requests request);
    recv_unacknowledged = over (recv_unacknowledged crypto (redis_frames R) replies);
    acknowledge = over (acknowledge crypto (redis_frames R));
    wait_indefinitely = λ l. record l { channel = waits l.channel };
  }

  -- the channel that was made, or the connection that is left
  abbrev opened :
      RedisTransport Db → Result (SecureChannel (RedisTransport Db)) → Exec (Link Db) (Unit {0})
  opened t (err e) l = (err e, record { world = t.connection; channel = none })
  opened t (ok c) l = (ok tt, record { world = t.connection; channel = some c })

  abbrev logged_in : Result Bytes → RedisTransport Db → Exec (Link Db) (Unit {0})
  logged_in (err e) t l = (err e, record { world = t.connection; channel = none })
  logged_in (ok key) t l = opened t (Channel.client crypto t key) l

  module _ (opaque : Opaque) where
    abbrev login : Chance → Bytes → RedisTransport Db → Exec (Link Db) (Unit {0})
    login chance code transport l =
        let (r, t) = client_login opaque (redis_frames R) chance.r1 chance.r3 code transport in
        logged_in r t l

    -- `client_channel` up to the greeting, on the Redis of the URL
    unfoldable pub connect : Chance → Bytes → Bytes → Exec (Link Db) (Unit {0})
    connect chance hostname code = do
      transport ←
          zoom (λ l. l.world) (λ w l. record { world = w; channel = none })
            (Transport.client R hostname chance.id)
      login chance code transport

    -- what Commands takes as `dial`
    abbrev pub dial : Chance → Bytes → Bytes → Bytes → Exec (Client (Link Db)) (Unit {0})
    dial chance redis_url hostname code =
        zoom (λ s. s.channel) (λ c s. record s { channel = c }) (connect chance hostname code)

    -- A host that has not registered cannot be dialled, and is sent nothing: no key changes, and there is no
    -- channel.
    connect-unknown :
        (chance : Chance) (hostname code : Bytes) (l : Link Db)
        → IsHostname hostname
        → l.world.turns ≡ []
        → R.lookup l.world.db (host_key hostname) ≡ none
        → let (r, after) = connect chance hostname code l in
          (r ≡ err unknown_host)
          × (after.channel ≡ none)
          × ((j : Bytes) → R.lookup after.world.db j ≡ R.lookup l.world.db j)
    unfolding connect Transport.client
    connect-unknown chance hostname code l named quiet unregistered =
        rw
          (
            (validate_hostname_iff hostname).1 named,
            query_quiet (R.exists (host_key hostname)) l.world quiet,
            R.exists-reply,
            unregistered,
          )
          (refl, refl, R.lookup-exists (host_key hostname) l.world.db)
