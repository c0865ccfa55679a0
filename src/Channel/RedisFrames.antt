-- ===== src/Channel/RedisFrames.antt =====
-- `impl FrameTransport for RedisTransport` of `src/redis_transport.rs`: the channel over Redis.
use shex.Prelude.{◌+◌, ◌^◌, ◌<◌, ◌≤◌, ◌≡◌, ◌∙◌, ap, Bytes, length}
use shex.Result.{ok}
use shex.Keys.{last_segment}
use shex.Redis.{Redis}
use shex.Transport
use shex.Transport.{RedisTransport, frame_limit}
use shex.Transport.Mailbox.{shown, woken, send_frame-free}
use shex.Transport.Delivery.{Facing, at_receiver, send-recv-acknowledge}
use shex.Channel.{FrameTransport, Crypto, Codec, SecureChannel, send, recv}
use shex.Channel.Nonce.{FrameOf}
use shex.Channel.Pairing.{Paired, send-recv}

abbrev pub redis_frames : (R : Redis) → FrameTransport (RedisTransport R.Db)
redis_frames R = record {
  send_frame = Transport.send_frame R;
  recv_frame = Transport.recv_frame R;
  acknowledge = Transport.acknowledge R;
  wait_indefinitely = Transport.wait_indefinitely R;
}

module _ (R : Redis) (crypto : Crypto) {A : Type 0} (codec : Codec A) where
  abbrev Channel : Type 0
  Channel = SecureChannel (RedisTransport R.Db)

  abbrev sent : Channel → A → Channel
  sent c value = (send crypto (redis_frames R) codec value c).1

  -- the other end, at the database that a send has left
  abbrev pub at_peer : Channel → Channel → Bytes → Channel
  at_peer c s frame = record s { transport = at_receiver R frame c.transport s.transport }

  -- On a working network that nobody else uses, a value that one end of a channel sends through
  -- empty mailboxes is what the other end's `recv` returns; Redis then has the keys it had before,
  -- but for the id that waits in the host's queue, and the two ends are in step. The frame is
  -- within the limit and the counter is not exhausted.
  pub send-recv_over_redis :
      (c s : Channel) (value : A) (frame : Bytes)
      → Paired c s
      → Facing R c.transport s.transport
      → FrameOf crypto codec c value frame
      → length frame ≤ frame_limit
      → c.send_counter + 1 < 2 ^ 64
      → ((send crypto (redis_frames R) codec value c).0 ≡ ok tt)
        × ((recv crypto (redis_frames R) codec (at_peer c s frame)).0 ≡ ok value)
        × Paired (sent c value) (recv crypto (redis_frames R) codec (at_peer c s frame)).1
        × ((j : Bytes)
            → shown R (recv crypto (redis_frames R) codec (at_peer c s frame)).1.transport j
              ≡ woken c.transport.wake_queue
                  (last_segment c.transport.send_key)
                  (shown R c.transport)
                  j)
  send-recv_over_redis c s value frame p f made fits room =
      let (got, acked, left) = send-recv-acknowledge R frame c.transport s.transport f fits in
      let (stored_, _) = send_frame-free R frame c.transport f.sender f.empty fits in
      let r0 = at_receiver R frame c.transport s.transport in
      let r1 = (Transport.recv_frame R r0).1 in
      let r2 = (Transport.acknowledge R r1).1 in
      let t = (Transport.send_frame R frame c.transport).1 in
      let s' = at_peer c s frame in
      let paired : Paired c s' = record {
        cipher = p.cipher;
        label = p.label;
        counter = p.counter;
      } in
      let (done, returned, again, over) =
        send-recv crypto (redis_frames R) codec (redis_frames R) c s' value frame t r1 r2 paired
          made (ap (λ x. (x, t)) stored_) (ap (λ x. (x, r1)) got) (ap (λ x. (x, r2)) acked) room in
      (done, returned, again, λ j. ap (λ x. shown R x j) over ∙ left j)
