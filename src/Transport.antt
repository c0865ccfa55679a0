-- ===== src/Transport.antt =====
-- `RedisTransport` of `src/redis_transport.rs`: frames travel through one mailbox for each
-- direction, a key that holds at most one message, beside a list that signals its arrival.
pub mod Sending
pub mod Mailbox
pub mod Stale
pub mod Receiving
pub mod Delivery
pub mod Lease
use shex.Prelude.{
  ℕ, zero, suc, ◌+◌, ◌*◌, Bool, true, false, Option, none, some, List, [], ◌∷◌, ◌++◌, Bytes, leb,
  ltb, ◌==◌, if◌then◌else◌, length,
}
use shex.Result.{
  Error, Result, ok, err, context, Exec, pure, raise, lift, gets, modify, zoom, proceed, ◌>>=◌,
  ◌>>◌, message_too_large, not_acknowledged, pending_message, receive_timeout, message_expired,
  nothing_to_acknowledge, message_changed, never_returns, unknown_host, fuel_exhausted,
}
use shex.Names.{validate_hostname, hex}
use shex.Keys.{host_key, wake_key, client_message_key, host_message_key, ready_key, last_segment}
use shex.Redis.{Redis}
use shex.Redis.Scripts.{send_script, ack_script}
use shex.Redis.World.{World, query}

abbrev pub message_ttl_ms : ℕ
message_ttl_ms = 60_000

abbrev pub message_timeout_seconds : ℕ
message_timeout_seconds = 65

-- in milliseconds
abbrev pub poll_interval : ℕ
poll_interval = 20

abbrev pub frame_limit : ℕ
frame_limit = 16 * 1024 * 1024

-- One round more than the polls that fit between a start and its deadline.
abbrev pub poll_fuel : ℕ
poll_fuel = 3251

-- `pending` is the value of the message that was read and not yet acknowledged, and `lease` the key and the value
-- that the thread of its processing lease renews.
pub record RedisTransport (Db : Type 0) : Type 0 where
  pub connection : World Db
  pub send_key : Bytes
  pub recv_key : Bytes
  pub send_ready_key : Bytes
  pub recv_ready_key : Bytes
  pub wake_queue : Option Bytes
  pub pending : Option Bytes
  pub lease : Option (Bytes × Bytes)
  pub receive_timeout_seconds : ℕ

module _ (R : Redis) where
  open R use {Db}

  -- `query(&mut self.connection)`
  unfoldable pub ask {ℓ} : {A : Type ℓ} → Exec Db A → Exec (RedisTransport Db) A
  ask command = zoom (λ s. s.connection) (λ w s. record s { connection = w }) (query command)

  -- the atomic pipe of `notify_host`
  unfoldable pub wake : Bytes → Bytes → Exec Db (Unit {0})
  wake queue connection_id db =
      let (reply, db1) = R.rpush queue connection_id db in
      (reply, (R.pexpire queue message_ttl_ms db1).1)

  -- `self.wake_queue.take()` comes first, so the host is notified once.
  unfoldable pub notify_host : Exec (RedisTransport Db) (Unit {0})
  notify_host s = elim s.wake_queue [
    | none ↦ (ok tt, s)
    | some queue ↦ ask (wake queue (last_segment s.send_key)) (record s { wake_queue = none })
  ]

  -- `thread::sleep(POLL_INTERVAL)`, while the keys in Redis come closer to their end
  abbrev pub sleep : RedisTransport Db → RedisTransport Db
  sleep s = record s {
    connection = record s.connection {
      db = R.pass poll_interval s.connection.db;
      clock = s.connection.clock + poll_interval;
    };
  }

  -- What `send_frame` does with the reply of the script; `again` is the next round.
  unfoldable pub after_send :
      ℕ
      → Result ℕ × RedisTransport Db
      → (RedisTransport Db → Result (Unit {0}) × RedisTransport Db)
      → Result (Unit {0}) × RedisTransport Db
  after_send deadline (err e, s) again = (err e, s)
  after_send deadline (ok stored, s) again =
      if stored == 1
      then notify_host s
      else if leb deadline s.connection.clock
      then (err not_acknowledged, s)
      else again (sleep s)

  unfoldable pub send_loop : ℕ → ℕ → Bytes → Exec (RedisTransport Db) (Unit {0})
  send_loop zero deadline frame s = (err fuel_exhausted, s)
  send_loop (suc fuel) deadline frame s =
      after_send deadline (ask (send_script R s.send_key s.send_ready_key frame message_ttl_ms) s)
        (send_loop fuel deadline frame)

  unfoldable pub send_frame : Bytes → Exec (RedisTransport Db) (Unit {0})
  send_frame frame s =
      if ltb frame_limit (length frame)
      then (err message_too_large, s)
      else send_loop poll_fuel (s.connection.clock + message_timeout_seconds * 1000) frame s

  -- BLPOP with a timeout of 0 waits for ever.
  abbrev pub signal : ℕ → Option Bytes → Result Bytes
  signal seconds ready = context ready (if seconds == 0 then never_returns else receive_timeout)

  -- `recv_frame`, once the signal has come; the lease that it starts is Transport/Lease, on a connection of its own.
  unfoldable pub read_message : Exec (RedisTransport Db) Bytes
  read_message = do
    key ← gets (λ s. s.recv_key)
    found ← ask (R.get key)
    value ← lift (context found message_expired)
    modify (λ s. record s { pending = some value; lease = some (key, value) })
    pure value

  unfoldable pub receive : Exec (RedisTransport Db) Bytes
  receive = do
    ready_key ← gets (λ s. s.recv_ready_key)
    seconds ← gets (λ s. s.receive_timeout_seconds)
    ready ← ask (R.blpop ready_key)
    lift (signal seconds ready)
    read_message

  unfoldable pub recv_frame : Exec (RedisTransport Db) Bytes
  recv_frame s = elim s.pending [ some _ ↦ (err pending_message, s) | none ↦ receive s ]

  unfoldable pub acknowledge_value : Bytes → Exec (RedisTransport Db) (Unit {0})
  acknowledge_value value = do
    modify (λ s. record s { pending = none; lease = none })
    key ← gets (λ s. s.recv_key)
    removed ← ask (ack_script R key value)
    if removed == 1 then pure tt else raise message_changed

  -- `self.pending.take()` and the end of the lease come first: a failed acknowledgement is not repeated.
  unfoldable pub acknowledge : Exec (RedisTransport Db) (Unit {0})
  acknowledge s = elim s.pending [
    | none ↦ (err nothing_to_acknowledge, s)
    | some value ↦ acknowledge_value value s
  ]

  unfoldable pub wait_indefinitely : RedisTransport Db → RedisTransport Db
  wait_indefinitely s = record s { receive_timeout_seconds = 0 }

  -- the fields that `client` and `server` fill
  abbrev pub endpoint : World Db → Bytes → Bytes → Option Bytes → RedisTransport Db
  endpoint connection send_key recv_key wake_queue = record {
    connection = connection;
    send_key = send_key;
    recv_key = recv_key;
    send_ready_key = ready_key send_key;
    recv_ready_key = ready_key recv_key;
    wake_queue = wake_queue;
    pending = none;
    lease = none;
    receive_timeout_seconds = message_timeout_seconds;
  }

  -- `RedisTransport::client` on a fresh connection; `bytes` are those that `random_hex` draws.
  unfoldable pub client : Bytes → Bytes → Exec (World Db) (RedisTransport Db)
  client hostname bytes = do
    lift (validate_hostname hostname)
    exists ← query (R.exists (host_key hostname))
    connection ← gets (λ w. w)
    if exists
        then (do
          let connection_id = hex bytes
          pure (
              endpoint connection (client_message_key hostname connection_id)
                (host_message_key hostname connection_id) (some (wake_key hostname))))
        else raise unknown_host

  -- `RedisTransport::server` on a fresh connection
  unfoldable pub server : Bytes → Bytes → World Db → RedisTransport Db
  server hostname connection_id connection =
      endpoint connection (host_message_key hostname connection_id)
        (client_message_key hostname connection_id) none
