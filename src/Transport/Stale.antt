-- ===== src/Transport/Stale.antt =====
-- `send_frame` of `src/redis_transport.rs` at a mailbox whose message nobody takes any more.
use shex.Prelude.{ℕ, ◌≡◌, some, Bytes}
use shex.Result.{Result, ok, Exec}
use shex.Redis.{Redis, Value, text}
use shex.Redis.Scripts.{send_script}
use shex.Transport.{RedisTransport, sleep, message_ttl_ms}
use shex.Transport.Mailbox.{shown, with_db}

module _ (R : Redis) where
  open R use {Db}

  -- the endpoint after a poll that the script refuses
  abbrev polled : Bytes → RedisTransport Db → RedisTransport Db
  polled frame s = sleep R (
      with_db R s
        (send_script R s.send_key s.send_ready_key frame message_ttl_ms s.connection.db).1)

  module _ (frame : Bytes) (s : RedisTransport Db) (held : Value)
      (full : shown R s s.send_key ≡ some held) where
    abbrev script : Exec Db ℕ
    script = send_script R s.send_key s.send_ready_key frame message_ttl_ms

  -- What a frame that is sent in the end has come to.
  pub record Delivered (frame key : Bytes) (r : Result (Unit {0}) × RedisTransport Db)
      : Type 0 where
    pub sent : r.0 ≡ ok tt
    pub there : shown R r.1 key ≡ some (text frame)
