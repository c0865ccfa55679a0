-- ===== src/Transport/Delivery.antt =====
-- One frame from `send_frame` to `recv_frame` and `acknowledge` at the other end of the mailbox.
use shex.Prelude.{
  ◌≤◌, ◌≡◌, ◌≢◌, refl, ap, sym, ◌∙◌, Option, none, some, [], ◌∷◌, Bytes, codes, if◌then◌else◌,
  arith, eq, eq-false, eq_iff, eq_refl, length,
}
use mathlib.Core.Path.{fun_ext}
use shex.Result.{ok}
use shex.Keys.{last_segment}
use shex.Redis.{Redis, text, items, popped}
use shex.Transport.{RedisTransport, send_frame, recv_frame, acknowledge, frame_limit}
use shex.Transport.Mailbox.{Keyspace, shown, stored, woken, CanSend, send_frame-free}
use shex.Transport.Receiving.{recv_frame-Received, acknowledge-Acknowledged}

-- what is left of a stored message when its signal and itself are taken away
abbrev emptied : Bytes → Bytes → Keyspace → Keyspace
emptied key ready f j = if eq j key then none else if eq j ready then popped (f ready) else f j

emptied-stored :
    (key ready frame : Bytes) (f : Keyspace)
    → ready ≢ key
    → f key ≡ none
    → f ready ≡ none
    → (j : Bytes) → emptied key ready (stored key ready frame f) j ≡ f j
emptied-stored key ready frame f ne free silent j =
    ground (arith, eq_iff j key, eq_iff j ready, eq_refl ready)

emptied-woken :
    (key ready queue id : Bytes) (f : Keyspace)
    → queue ≢ key
    → queue ≢ ready
    → (j : Bytes)
    → emptied key ready (woken (some queue) id f) j ≡ woken (some queue) id (emptied key ready f) j
emptied-woken key ready queue id f nk nr j = ground (
  arith,
  eq_iff j key,
  eq_iff j ready,
  eq_iff j queue,
  eq-false queue key nk,
  eq-false queue ready nr,
  eq_iff ready queue,
  eq_iff queue ready,
)

module _ (R : Redis) where
  -- the receiver, on a working network, at the database that the sender has left
  abbrev pub facing : RedisTransport R.Db → R.Db → RedisTransport R.Db
  facing r db = record r { connection = record r.connection { db = db; turns = [] } }

  abbrev pub at_receiver : Bytes → RedisTransport R.Db → RedisTransport R.Db → RedisTransport R.Db
  at_receiver frame s r = facing r (send_frame R frame s).1.connection.db

  -- A sender with an empty mailbox, and the endpoint that receives from it.
  pub record Facing (s r : RedisTransport R.Db) : Type 0 where
    pub sender : CanSend R s
    pub mailbox : r.recv_key ≡ s.send_key
    pub signals : r.recv_ready_key ≡ s.send_ready_key
    pub idle : r.pending ≡ none
    pub empty : shown R s s.send_key ≡ none
    pub silent : shown R s s.send_ready_key ≡ none

  -- the keys once a frame is sent, with `q` for the host's queue
  abbrev sent_keys : Bytes → RedisTransport R.Db → Option Bytes → Keyspace
  sent_keys frame s q =
      woken q (last_segment s.send_key) (stored s.send_key s.send_ready_key frame (shown R s))

  -- the keys when the message has been taken, in terms of those before it was sent
  restored :
      (frame : Bytes) (s : RedisTransport R.Db) (q : Option Bytes)
      → CanSend R s
      → s.wake_queue ≡ q
      → shown R s s.send_key ≡ none
      → shown R s s.send_ready_key ≡ none
      → (j : Bytes)
      → emptied s.send_key s.send_ready_key (sent_keys frame s q) j
        ≡ woken q (last_segment s.send_key) (shown R s) j
  restored frame s none can host free silent j =
      emptied-stored s.send_key s.send_ready_key frame (shown R s) can.apart free silent j
  restored frame s (some q) can host free silent j =
      let (nk, nr, _) = can.queue_apart q host in
      emptied-woken s.send_key s.send_ready_key q (last_segment s.send_key)
        (stored s.send_key s.send_ready_key frame (shown R s)) nk nr j
      ∙ ap (λ (g : Keyspace). woken (some q) (last_segment s.send_key) g j)
          (fun_ext
            (emptied-stored s.send_key s.send_ready_key frame (shown R s) can.apart free silent))

  -- the mailbox and its signal, once a frame is sent
  sent_pair :
      (frame : Bytes) (s : RedisTransport R.Db) (q : Option Bytes)
      → CanSend R s
      → s.wake_queue ≡ q
      → shown R s s.send_ready_key ≡ none
      → (sent_keys frame s q s.send_key ≡ some (text frame))
        × (sent_keys frame s q s.send_ready_key ≡ some (items (codes "1" ∷ [])))
  sent_pair frame s none can host silent = (
    rw (eq-false s.send_key s.send_ready_key (λ e. can.apart (sym e)), eq_refl),
    rw (eq_refl, silent),
  )
  sent_pair frame s (some q) can host silent =
      let (nk, nr, _) = can.queue_apart q host in
      (
        rw (
          eq-false s.send_key q (λ e. nk (sym e)),
          eq-false s.send_key s.send_ready_key (λ e. can.apart (sym e)),
          eq_refl,
        ),
        rw (eq-false s.send_ready_key q (λ e. nr (sym e)), eq_refl, silent),
      )

  -- A frame within the limit that is sent into an empty mailbox, on a working network that nobody
  -- else uses, is received whole by the endpoint that faces the sender and is acknowledged; the
  -- keys are then as they were, but for the id that waits in the host's queue.
  pub send-recv-acknowledge :
      (frame : Bytes) (s r : RedisTransport R.Db)
      → Facing s r
      → length frame ≤ frame_limit
      → ((recv_frame R (at_receiver frame s r)).0 ≡ ok frame)
        × ((acknowledge R (recv_frame R (at_receiver frame s r)).1).0 ≡ ok tt)
        × ((j : Bytes)
            → shown R (acknowledge R (recv_frame R (at_receiver frame s r)).1).1 j
              ≡ woken s.wake_queue (last_segment s.send_key) (shown R s) j)
  send-recv-acknowledge frame s r f fits =
      let (_, shows) = send_frame-free R frame s f.sender f.empty fits in
      let (full, signalled) = sent_pair frame s s.wake_queue f.sender refl f.silent in
      let r0 = at_receiver frame s r in
      let apart : r.recv_key ≢ r.recv_ready_key =
        λ e. f.sender.apart (sym f.signals ∙ sym e ∙ f.mailbox) in
      let got = recv_frame-Received R r0 (record { quiet = refl; apart = apart; idle = f.idle }) in
      let r1 = (recv_frame R r0).1 in
      let ready_is : shown R r0 r.recv_ready_key ≡ some (items (codes "1" ∷ [])) =
        rw f.signals (shows s.send_ready_key ∙ signalled) in
      let key_is : shown R r0 r.recv_key ≡ some (text frame) =
        rw f.mailbox (shows s.send_key ∙ full) in
      let value : (recv_frame R r0).0 ≡ ok frame = got.reply ∙ rw (ready_is, key_is) in
      let ack = acknowledge-Acknowledged R frame r1 got.still (got.remembered ∙ rw value) in
      let here : shown R r1 r1.recv_key ≡ some (text frame) =
        rw got.mailbox
          (got.keys r.recv_key ∙ rw (eq-false r.recv_key r.recv_ready_key apart) key_is) in
      let (acked, left) = ack.same here in
      (
        value,
        acked,
        λ j.
            left j
            ∙ rw (got.mailbox ∙ f.mailbox, got.keys j, f.signals, shows s.send_ready_key, shows j)
                (restored frame s s.wake_queue f.sender refl f.empty f.silent j),
      )
