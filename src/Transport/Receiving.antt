-- ===== src/Transport/Receiving.antt =====
-- `recv_frame` and `acknowledge` of `src/redis_transport.rs` on a quiet network.
use shex.Prelude.{
  ℕ, ◌≡◌, ◌≢◌, refl, ◌∙◌, Option, none, some, [], Bytes, ◌==◌, if◌then◌else◌, arith, eq, eq-false,
  inl, inr, ◌⊎◌,
}
use shex.Result.{
  Error, Result, ok, err, message_changed, message_expired, receive_timeout, never_returns,
}
use shex.Redis.{Redis, text, popped, first_item, as_text}
use shex.Redis.Scripts.{ack_script, ack_script-same, ack_script-other}
use shex.Transport.{
  RedisTransport, read_message, receive, recv_frame, acknowledge, acknowledge_value,
}
use shex.Transport.Mailbox.{shown, with_db, ask_quiet}

-- The value that a mailbox gives, or why it gives none.
abbrev pub mailbox_value : Result (Option Bytes) → Result Bytes
mailbox_value (ok none) = err message_expired
mailbox_value (ok (some value)) = ok value
mailbox_value (err e) = err e

-- What `recv_frame` returns, from the timeout, the signal list and the mailbox.
abbrev pub received : ℕ → Result (Option Bytes) → Result (Option Bytes) → Result Bytes
received seconds (err e) found = err e
received seconds (ok none) found = err (if seconds == 0 then never_returns else receive_timeout)
received seconds (ok (some _)) found = mailbox_value found

abbrev pub read_pending : Result Bytes → Option Bytes
read_pending (ok value) = some value
read_pending (err e) = none

reply-cases :
    (r : Result (Option Bytes))
    → (r ≡ ok none) ⊎ (((v : Bytes) × (r ≡ ok (some v))) ⊎ ((e : Error) × (r ≡ err e)))
reply-cases (ok none) = inl refl
reply-cases (ok (some v)) = inr (inl (v, refl))
reply-cases (err e) = inr (inr (e, refl))

module _ (R : Redis) where
  open R use {Db}

  -- An endpoint that may receive: its network works, its two keys differ, nothing is unacknowledged.
  pub record CanReceive (s : RedisTransport Db) : Type 0 where
    pub quiet : s.connection.turns ≡ []
    pub apart : s.recv_key ≢ s.recv_ready_key
    pub idle : s.pending ≡ none

  -- What a call of `recv_frame` has done.
  pub record Received (s : RedisTransport Db) (r : Result Bytes × RedisTransport Db) : Type 0 where
    pub reply :
        r.0
        ≡ received s.receive_timeout_seconds
            (first_item (shown R s s.recv_ready_key))
            (as_text (shown R s s.recv_key))
    pub keys :
        (j : Bytes)
        → shown R r.1 j
          ≡ (if eq j s.recv_ready_key then popped (shown R s s.recv_ready_key) else shown R s j)
    pub remembered : r.1.pending ≡ read_pending r.0
    pub still : r.1.connection.turns ≡ []
    pub mailbox : r.1.recv_key ≡ s.recv_key

  -- the second query of `recv_frame`
  record Read (s : RedisTransport Db) (r : Result Bytes × RedisTransport Db) : Type 0 where
    reply : r.0 ≡ mailbox_value (as_text (shown R s s.recv_key))
    keys : (j : Bytes) → shown R r.1 j ≡ shown R s j
    remembered : r.1.pending ≡ read_pending r.0
    still : r.1.connection.turns ≡ []
    mailbox : r.1.recv_key ≡ s.recv_key

  read_message-Read :
      (s : RedisTransport Db)
      → s.connection.turns ≡ []
      → s.pending ≡ none
      → Read s (read_message R s)
  unfolding read_message
  read_message-Read s quiet idle =
      let same = R.lookup-get s.recv_key s.connection.db in
      rw (ask_quiet R (R.get s.recv_key) s quiet, R.get-reply)
        (elim (reply-cases (as_text (shown R s s.recv_key))) [
          | inl nothing ↦ rw nothing (record {
            reply = rw nothing;
            keys = same;
            remembered = idle;
            still = quiet;
            mailbox = refl;
          })
          | inr (inl (v, value)) ↦ rw value (record {
            reply = rw value;
            keys = same;
            remembered = refl;
            still = quiet;
            mailbox = refl;
          })
          | inr (inr (e, wrong)) ↦ rw wrong (record {
            reply = rw wrong;
            keys = same;
            remembered = idle;
            still = quiet;
            mailbox = refl;
          })
        ])

  receive-Received : (s : RedisTransport Db) → CanReceive s → Received s (receive R s)
  unfolding receive
  receive-Received s can =
      let pop = R.blpop s.recv_ready_key in
      let s1 = with_db R s (pop s.connection.db).1 in
      let popped_ = R.lookup-blpop s.recv_ready_key s.connection.db in
      let read = read_message-Read s1 can.quiet can.idle in
      let kept : shown R s1 s.recv_key ≡ shown R s s.recv_key =
        rw (popped_, eq-false s.recv_key s.recv_ready_key can.apart) in
      rw (ask_quiet R pop s can.quiet, R.blpop-reply)
        (elim (reply-cases (first_item (shown R s s.recv_ready_key))) [
          | inl nothing ↦ rw nothing (record {
            reply = rw nothing;
            keys = popped_;
            remembered = can.idle;
            still = can.quiet;
            mailbox = refl;
          })
          | inr (inl (v, value)) ↦ rw value (record {
            reply = rw (value, ← kept) read.reply;
            keys = λ j. read.keys j ∙ popped_ j;
            remembered = read.remembered;
            still = read.still;
            mailbox = read.mailbox;
          })
          | inr (inr (e, wrong)) ↦ rw wrong (record {
            reply = rw wrong;
            keys = popped_;
            remembered = can.idle;
            still = can.quiet;
            mailbox = refl;
          })
        ])

  recv_frame-receive : (s : RedisTransport Db) → s.pending ≡ none → recv_frame R s ≡ receive R s
  unfolding recv_frame
  recv_frame-receive s idle = ground arith

  acknowledge-value :
      (s : RedisTransport Db) (value : Bytes)
      → s.pending ≡ some value
      → acknowledge R s ≡ acknowledge_value R value s
  unfolding acknowledge
  acknowledge-value s value e = ground arith

  -- On a working network that nobody else uses, `recv_frame` without a pending message takes one
  -- signal and returns the mailbox's value, remembered as pending, or says why there is none. The
  -- mailbox and all other keys stay as they are.
  pub recv_frame-Received : (s : RedisTransport Db) → CanReceive s → Received s (recv_frame R s)
  recv_frame-Received s can = rw (recv_frame-receive s can.idle) (receive-Received s can)

  -- What a call of `acknowledge` has done with the pending `value`.
  pub record Acknowledged (value : Bytes) (s : RedisTransport Db)
      (r : Result (Unit {0}) × RedisTransport Db) : Type 0 where
    pub same :
        shown R s s.recv_key ≡ some (text value)
        → (r.0 ≡ ok tt)
          × ((j : Bytes) → shown R r.1 j ≡ (if eq j s.recv_key then none else shown R s j))
    pub other :
        {found : Option Bytes}
        → as_text (shown R s s.recv_key) ≡ ok found
        → found ≢ some value
        → (r.0 ≡ err message_changed) × ((j : Bytes) → shown R r.1 j ≡ shown R s j)
    pub forgotten : r.1.pending ≡ none

  acknowledge_value-Acknowledged :
      (value : Bytes) (s : RedisTransport Db)
      → s.connection.turns ≡ []
      → Acknowledged value s (acknowledge_value R value s)
  unfolding acknowledge_value
  acknowledge_value-Acknowledged value s quiet =
      let script = ack_script R s.recv_key value in
      let s0 = record s { pending = none; lease = none } in
      rw (ask_quiet R script s0 quiet) (record {
        same = λ here.
            let done = ack_script-same R s.recv_key value s.connection.db here in
            rw (done.0) (refl, done.1);
        other = λ {found} here ne.
            let done = ack_script-other R s.recv_key value s.connection.db here ne in
            rw (done.0) (refl, done.1);
        forgotten = ground arith;
      })

  pub acknowledge-Acknowledged :
      (value : Bytes) (s : RedisTransport Db)
      → s.connection.turns ≡ []
      → s.pending ≡ some value
      → Acknowledged value s (acknowledge R s)
  acknowledge-Acknowledged value s quiet held =
      rw (acknowledge-value s value held) (acknowledge_value-Acknowledged value s quiet)

  -- On a quiet network `acknowledge` removes the message that was read, and nothing else, and
  -- forgets it.
  pub acknowledge-same :
      (value : Bytes) (s : RedisTransport Db)
      → s.connection.turns ≡ []
      → s.pending ≡ some value
      → shown R s s.recv_key ≡ some (text value)
      → ((acknowledge R s).0 ≡ ok tt)
        × ((acknowledge R s).1.pending ≡ none)
        × ((j : Bytes)
            → shown R (acknowledge R s).1 j ≡ (if eq j s.recv_key then none else shown R s j))
  acknowledge-same value s quiet held here =
      let a = acknowledge-Acknowledged value s quiet held in
      let (done, left) = a.same here in (done, a.forgotten, left)

  -- If the mailbox has come to hold another message than the one that was read, or none,
  -- `acknowledge` fails on a quiet network, leaves every key alone, and forgets the message.
  pub acknowledge-other :
      (value : Bytes) (s : RedisTransport Db) {found : Option Bytes}
      → s.connection.turns ≡ []
      → s.pending ≡ some value
      → as_text (shown R s s.recv_key) ≡ ok found
      → found ≢ some value
      → ((acknowledge R s).0 ≡ err message_changed)
        × ((acknowledge R s).1.pending ≡ none)
        × ((j : Bytes) → shown R (acknowledge R s).1 j ≡ shown R s j)
  acknowledge-other value s quiet held here other =
      let a = acknowledge-Acknowledged value s quiet held in
      let (done, left) = a.other here other in (done, a.forgotten, left)
