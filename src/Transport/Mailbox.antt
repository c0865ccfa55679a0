-- ===== src/Transport/Mailbox.antt =====
-- `send_frame` of `src/redis_transport.rs` on a quiet network: what it does to the keys.
use shex.Prelude.{
  ℕ, suc, ◌+◌, ◌*◌, ◌≤◌, ◌≡◌, ◌≢◌, refl, Option, none, some, [], Bytes, codes, if◌then◌else◌,
  length, arith, eq, eq-false, Option-cases, inl, inr,
}
use shex.Result.{ok, Exec}
use shex.Keys.{last_segment}
use shex.Redis.{Redis, Value, text, pushed, not_text}
use shex.Redis.Scripts.{send_script, send_script-free}
use shex.Redis.World.{query_quiet}
use shex.Transport.{
  RedisTransport, ask, wake, notify_host, after_send, send_loop, send_frame, poll_fuel,
  message_ttl_ms, message_timeout_seconds, frame_limit,
}

-- The keys as a function: what a database shows.
abbrev pub Keyspace : Type 0
Keyspace = Bytes → Option Value

-- A message and its signal.
abbrev pub stored : Bytes → Bytes → Bytes → Keyspace → Keyspace
stored key ready frame f j =
    if eq j ready then pushed (codes "1") (f ready) else if eq j key then some (text frame) else f j

-- A connection id at the end of a host's queue, if there is one to wake.
abbrev pub woken : Option Bytes → Bytes → Keyspace → Keyspace
woken none id f j = f j
woken (some queue) id f j = if eq j queue then pushed id (f queue) else f j

module _ (R : Redis) where
  open R use {Db}

  abbrev pub shown : RedisTransport Db → Keyspace
  shown s = R.lookup s.connection.db

  abbrev pub with_db : RedisTransport Db → Db → RedisTransport Db
  with_db s db = record s { connection = record s.connection { db = db } }

  pub ask_quiet {ℓ} :
      {A : Type ℓ} (command : Exec Db A) (s : RedisTransport Db)
      → s.connection.turns ≡ []
      → ask R command s ≡ ((command s.connection.db).0, with_db s (command s.connection.db).1)
  unfolding ask
  ask_quiet command s quiet = rw (query_quiet command s.connection quiet)

  -- A list key: RPUSH works on it.
  abbrev pub IsQueue : RedisTransport Db → Bytes → Type 0
  IsQueue s k = not_text (shown s k) ≡ ok tt

  -- What the keys of an endpoint are to each other, and that its lists are lists.
  pub record CanSend (s : RedisTransport Db) : Type 0 where
    pub quiet : s.connection.turns ≡ []
    pub apart : s.send_ready_key ≢ s.send_key
    pub signals : IsQueue s s.send_ready_key
    pub queue_apart :
        (q : Bytes)
        → s.wake_queue ≡ some q
        → (q ≢ s.send_key) × (q ≢ s.send_ready_key) × IsQueue s q

  -- on a quiet network, waking a host appends the connection's id to its queue
  wake-shown :
      (queue id : Bytes) (db : Db) (f : Keyspace)
      → ((j : Bytes) → R.lookup db j ≡ f j)
      → not_text (f queue) ≡ ok tt
      → ((wake R queue id db).0 ≡ ok tt)
        × ((j : Bytes) → R.lookup (wake R queue id db).1 j ≡ woken (some queue) id f j)
  unfolding wake
  wake-shown queue id db f same list = (
    rw (R.rpush-reply, same queue, list),
    λ j. rw (R.lookup-pexpire queue message_ttl_ms _ j (omega arith)) (simp (R.lookup-rpush, same)),
  )

  notify_host-shown :
      (s : RedisTransport Db) (f : Keyspace)
      → s.connection.turns ≡ []
      → ((j : Bytes) → shown s j ≡ f j)
      → ((q : Bytes) → s.wake_queue ≡ some q → not_text (f q) ≡ ok tt)
      → ((notify_host R s).0 ≡ ok tt)
        × ((j : Bytes)
            → shown (notify_host R s).1 j ≡ woken s.wake_queue (last_segment s.send_key) f j)
  unfolding notify_host
  notify_host-shown s f quiet same lists = elim (Option-cases s.wake_queue) [
    | inl nobody ↦ rw nobody (refl, same)
    | inr (q, host) ↦ rw host (
        rw (ask_quiet (wake R q (last_segment s.send_key)) (record s { wake_queue = none }) quiet)
          (wake-shown q (last_segment s.send_key) s.connection.db f same (lists q host)))
  ]

  -- one round at a free mailbox
  send_loop-free :
      (fuel deadline : ℕ) (frame : Bytes) (s : RedisTransport Db)
      → CanSend s
      → shown s s.send_key ≡ none
      → send_loop R (suc fuel) deadline frame s
        ≡ notify_host R (
            with_db s
              (send_script R s.send_key s.send_ready_key frame message_ttl_ms s.connection.db).1)
  unfolding send_loop after_send
  send_loop-free fuel deadline frame s can free =
      let script = send_script R s.send_key s.send_ready_key frame message_ttl_ms in
      let sent =
        send_script-free R s.send_key s.send_ready_key frame message_ttl_ms s.connection.db
          (omega arith) can.apart free can.signals in
      rw (ask_quiet script s can.quiet) (rw sent.0)

  pub send_frame-fits :
      (frame : Bytes) (s : RedisTransport Db)
      → length frame ≤ frame_limit
      → send_frame R frame s
        ≡ send_loop R poll_fuel (s.connection.clock + message_timeout_seconds * 1000) frame s
  unfolding send_frame
  send_frame-fits frame s fits = ground arith

  -- storing a message leaves the host's queue a list
  queue_untouched :
      (frame : Bytes) (s : RedisTransport Db)
      → CanSend s
      → (q : Bytes) → s.wake_queue ≡ some q
      → not_text (stored s.send_key s.send_ready_key frame (shown s) q) ≡ ok tt
  queue_untouched frame s can q host =
      let (key, ready, list) = can.queue_apart q host in
      rw (eq-false q s.send_ready_key ready, eq-false q s.send_key key) list

  pub send_loop-shown :
      (fuel deadline : ℕ) (frame : Bytes) (s : RedisTransport Db)
      → CanSend s
      → shown s s.send_key ≡ none
      → ((send_loop R (suc fuel) deadline frame s).0 ≡ ok tt)
        × ((j : Bytes)
            → shown (send_loop R (suc fuel) deadline frame s).1 j
              ≡ woken s.wake_queue
                  (last_segment s.send_key)
                  (stored s.send_key s.send_ready_key frame (shown s))
                  j)
  send_loop-shown fuel deadline frame s can free =
      let script = send_script R s.send_key s.send_ready_key frame message_ttl_ms in
      let sent =
        send_script-free R s.send_key s.send_ready_key frame message_ttl_ms s.connection.db
          (omega arith) can.apart free can.signals in
      rw (send_loop-free fuel deadline frame s can free) (
        notify_host-shown (with_db s (script s.connection.db).1)
          (stored s.send_key s.send_ready_key frame (shown s)) can.quiet sent.1
          (queue_untouched frame s can))

  -- With a free mailbox and a working network that nobody else uses, a frame within the limit is
  -- stored with one signal, the host is woken if it has not been, and no other key changes.
  pub send_frame-free :
      (frame : Bytes) (s : RedisTransport Db)
      → CanSend s
      → shown s s.send_key ≡ none
      → length frame ≤ frame_limit
      → ((send_frame R frame s).0 ≡ ok tt)
        × ((j : Bytes)
            → shown (send_frame R frame s).1 j
              ≡ woken s.wake_queue
                  (last_segment s.send_key)
                  (stored s.send_key s.send_ready_key frame (shown s))
                  j)
  send_frame-free frame s can free fits =
      rw (send_frame-fits frame s fits) (
        send_loop-shown 3250 (s.connection.clock + message_timeout_seconds * 1000) frame s can free)
