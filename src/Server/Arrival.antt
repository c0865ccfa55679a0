-- ===== src/Server/Arrival.antt =====
-- `handle` of `src/server.rs` from its beginning: the login of `src/auth.rs` over the transport that the host
-- accepted, and the encrypted channel with the session key.
use shex.Prelude.{ℕ, ◌≡◌, refl, Bytes}
use shex.Result.{Result, ok, err, Exec}
use shex.Protocol.{ClientRequest, ServerReply}
use shex.Transport.{RedisTransport}
use shex.Channel.{
  Crypto, Codec, SecureChannel, send, recv_unacknowledged, acknowledge, wait_indefinitely,
}
use shex.Channel as Channel
use shex.Channel.RedisFrames.{redis_frames}
use shex.Login.{Opaque, server_login}
use shex.Server.{Outside, Host, ServerChannel, handle}

module _ (out : Outside) (crypto : Crypto) (requests : Codec ClientRequest)
    (replies : Codec ServerReply) where
  abbrev pub Wire : Type 0
  Wire = SecureChannel (RedisTransport out.redis.Db)

  -- the encrypted channel over Redis, as `handle` uses it
  abbrev pub wire : ServerChannel Wire
  wire = record {
    send = send crypto (redis_frames out.redis) replies;
    recv_unacknowledged = recv_unacknowledged crypto (redis_frames out.redis) requests;
    acknowledge = acknowledge crypto (redis_frames out.redis);
    wait_indefinitely = wait_indefinitely crypto (redis_frames out.redis);
  }

  -- `handle` on the channel, if it could be made; the connection is over then
  abbrev pub welcomed : ℕ → Bytes → Result Wire → Exec (Host out) (Unit {0})
  welcomed fuel signature (err e) host = (err e, host)
  welcomed fuel signature (ok channel) host =
      let (r, h) = handle out wire fuel signature (record { channel = channel; host = host }) in
      (r, h.host)

  abbrev pub admitted :
      ℕ → Bytes → Result Bytes × RedisTransport out.redis.Db → Exec (Host out) (Unit {0})
  admitted fuel signature (err e, transport) host = (err e, host)
  admitted fuel signature (ok key, transport) host =
      welcomed fuel signature (Channel.server crypto transport key) host

  module _ (opaque : Opaque) where
    -- The whole of `handle`; `r2` is what `OsRng` gives, and `signature` that of the credentials.
    unfoldable pub handle_accepted :
        ℕ
        → ℕ
        → opaque.Credentials
        → Bytes
        → RedisTransport out.redis.Db
        → Exec (Host out) (Unit {0})
    handle_accepted fuel r2 credentials signature transport host =
        admitted fuel signature
          (server_login opaque (redis_frames out.redis) r2 credentials transport) host

    -- A connection whose login fails ends with that error, and leaves the sessions, the shells and the lookups
    -- of the host alone.
    handle_accepted-refused :
        (fuel r2 : ℕ) (credentials : opaque.Credentials) (signature : Bytes)
        (transport t : RedisTransport out.redis.Db) (host : Host out) (e : _)
        → server_login opaque (redis_frames out.redis) r2 credentials transport ≡ (err e, t)
        → handle_accepted fuel r2 credentials signature transport host ≡ (err e, host)
    unfolding handle_accepted
    handle_accepted-refused fuel r2 credentials signature transport t host e refused =
        rw refused refl
