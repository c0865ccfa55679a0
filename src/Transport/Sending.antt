-- ===== src/Transport/Sending.antt =====
-- The rounds of `send_frame` in `src/redis_transport.rs`.
use shex.Prelude.{ℕ, zero, suc, ◌+◌, ◌*◌, ◌<◌, ◌≤◌, ◌≢◌, Bytes, arith, Option-cases, inl, inr}
use shex.Result.{Result, ok, err, Exec, fuel_exhausted}
use shex.Keys.{last_segment}
use shex.Redis.{Redis}
use shex.Redis.Scripts.{send_script, send_script-ne}
use shex.Redis.World.{query_clock, query-ne}
use shex.Transport.{
  RedisTransport, sleep, ask, wake, notify_host, after_send, send_loop, send_frame, poll_fuel,
  poll_interval, message_ttl_ms, message_timeout_seconds,
}

module _ (R : Redis) where
  open R use {Db}

  ask_clock {ℓ} :
      {A : Type ℓ} (command : Exec Db A) (s : RedisTransport Db)
      → s.connection.clock ≤ (ask R command s).1.connection.clock
  unfolding ask
  ask_clock command s = query_clock command s.connection

  ask-ne {ℓ} :
      {A : Type ℓ} (command : Exec Db A) (s : RedisTransport Db)
      → ((db : Db) → (command db).0 ≢ err fuel_exhausted)
      → (ask R command s).0 ≢ err fuel_exhausted
  unfolding ask
  ask-ne command s h = query-ne command s.connection h

  wake-ne : (queue id : Bytes) (db : Db) → (wake R queue id db).0 ≢ err fuel_exhausted
  unfolding wake
  wake-ne queue id db e = ground (arith, R.rpush-reply queue id db, e)

  notify_host-ne : (s : RedisTransport Db) → (notify_host R s).0 ≢ err fuel_exhausted
  unfolding notify_host ask
  notify_host-ne s = elim (Option-cases s.wake_queue) [
    | inl nobody ↦ rw nobody (λ e. cc)
    | inr (queue, host) ↦ rw host (
        query-ne (wake R queue (last_segment s.send_key)) s.connection
          (wake-ne queue (last_segment s.send_key)))
  ]

  after_send-ne :
      (deadline : ℕ) (r : Result ℕ) (s : RedisTransport Db)
      (again : RedisTransport Db → Result (Unit {0}) × RedisTransport Db)
      → r ≢ err fuel_exhausted
      → (s.connection.clock < deadline → (again (sleep R s)).0 ≢ err fuel_exhausted)
      → (after_send R deadline (r, s) again).0 ≢ err fuel_exhausted
  unfolding after_send
  after_send-ne deadline (err e) s again hr ha = λ h. hr (cc)
  after_send-ne deadline (ok stored) s again hr ha = ground (arith, notify_host-ne s, ha)

  send_loop-ne :
      (fuel deadline : ℕ) (frame : Bytes) (s : RedisTransport Db)
      → 0 < fuel
      → deadline + poll_interval ≤ s.connection.clock + poll_interval * fuel
      → (send_loop R fuel deadline frame s).0 ≢ err fuel_exhausted
  unfolding send_loop
  send_loop-ne zero deadline frame s pos enough = absurd (omega arith)
  send_loop-ne (suc fuel) deadline frame s pos enough =
      let script = send_script R s.send_key s.send_ready_key frame message_ttl_ms in
      let s1 = (ask R script s).1 in
      after_send-ne deadline (ask R script s).0 s1 (send_loop R fuel deadline frame)
        (ask-ne script s (send_script-ne R s.send_key s.send_ready_key frame message_ttl_ms))
        λ early.
          send_loop-ne fuel deadline frame (sleep R s1) (omega (arith, ask_clock script s))
            (omega (arith, ask_clock script s))

  -- Whatever others, the network and the clock do, sending ends within the rounds it is given.
  pub send_frame-total :
      (frame : Bytes) (s : RedisTransport Db) → (send_frame R frame s).0 ≢ err fuel_exhausted
  unfolding send_frame
  send_frame-total frame s =
      let bounded =
        send_loop-ne poll_fuel (s.connection.clock + message_timeout_seconds * 1000) frame s
          (omega arith) (omega arith) in
      ground (arith, bounded)
