-- ===== src/Channel/Pairing.antt =====
-- The two ends of a `SecureChannel` of `src/channel.rs`.
use shex.Prelude.{
  ℕ, ◌+◌, ◌^◌, ◌<◌, ◌≡◌, ◌≢◌, refl, ap, some, Bytes, arith, eq, Option-cases, inl, inr,
}
use shex.Result.{ok}
use shex.Channel.{
  FrameTransport, Crypto, Codec, SecureChannel, new, client, server, client_label, server_label,
  nonce, checked_add_one, send, recv_unacknowledged, acknowledge, recv,
}
use shex.Channel.Nonce.{FrameOf, send-FrameOf}

-- `s` can read what `c` sends next.
pub record Paired {T U : Type 0} (c : SecureChannel T) (s : SecureChannel U) : Type 0 where
  pub cipher : c.send_cipher ≡ s.recv_cipher
  pub label : c.send_label ≡ s.recv_label
  pub counter : c.send_counter ≡ s.recv_counter

checked_add_one-some : (n : ℕ) → n + 1 < 2 ^ 64 → checked_add_one n ≡ some (n + 1)
unfolding checked_add_one
checked_add_one-some n room = ground arith

-- The two ends that one session key makes understand each other in both directions, under different
-- labels.
pub client-server-Paired :
    (crypto : Crypto) {T U : Type 0} (t : T) (u : U) (key : Bytes) (c : SecureChannel T)
    (s : SecureChannel U)
    → client crypto t key ≡ ok c
    → server crypto u key ≡ ok s
    → Paired c s × Paired s c × (c.send_label ≢ s.send_label)
unfolding client server new eq
client-server-Paired crypto t u key c s hc hs =
    elim (Option-cases (crypto.expand key client_label)) [
      | inl missing ↦ absurd (ground arith)
      | inr (c2s, first) ↦ elim (Option-cases (crypto.expand key server_label)) [
        | inl missing ↦ absurd (ground arith)
        | inr (s2c, second) ↦ (
          record { cipher = ground arith; label = ground arith; counter = ground arith },
          record { cipher = ground arith; label = ground arith; counter = ground arith },
          ground arith,
        )
      ]
    ]

module _ (crypto : Crypto) {T : Type 0} (frames : FrameTransport T) {A : Type 0}
    (codec : Codec A) where
  recv_unacknowledged-FrameOf :
      {U : Type 0} (c : SecureChannel U) (s : SecureChannel T) (value : A) (frame : Bytes) (u : T)
      → Paired c s
      → FrameOf crypto codec c value frame
      → frames.recv_frame s.transport ≡ (ok frame, u)
      → recv_unacknowledged crypto frames codec s ≡ (ok value, record s { transport = u })
  unfolding recv_unacknowledged
  recv_unacknowledged-FrameOf c s value frame u p f got =
      let opened : crypto.decrypt s.recv_cipher (nonce s.recv_counter) s.recv_label frame
          ≡ some f.plain =
        rw (← p.cipher, ← p.counter, ← p.label)
          (crypto.decrypt-encrypt c.send_cipher (nonce c.send_counter) c.send_label f.plain
            f.encrypted) in
      rw (got, opened, codec.from_slice-to_vec value f.written)

  -- Over any transports that carry the frame, what one of two paired ends sends next is received
  -- whole on the other, and after the acknowledgement the ends are in step again, where the counter
  -- is not exhausted.
  pub send-recv :
      {U : Type 0} (senders : FrameTransport U) (c : SecureChannel U) (s : SecureChannel T)
      (value : A) (frame : Bytes) (t : U) (u u' : T)
      → Paired c s
      → FrameOf crypto codec c value frame
      → senders.send_frame frame c.transport ≡ (ok tt, t)
      → frames.recv_frame s.transport ≡ (ok frame, u)
      → frames.acknowledge u ≡ (ok tt, u')
      → c.send_counter + 1 < 2 ^ 64
      → ((send crypto senders codec value c).0 ≡ ok tt)
        × ((recv crypto frames codec s).0 ≡ ok value)
        × Paired (send crypto senders codec value c).1 (recv crypto frames codec s).1
        × ((recv crypto frames codec s).1.transport ≡ u')
  unfolding recv acknowledge
  send-recv senders c s value frame t u u' p f sent got acked room =
      let sending = send-FrameOf crypto senders codec c value frame t f sent room in
      let reading = recv_unacknowledged-FrameOf c s value frame u p f got in
      let next : checked_add_one s.recv_counter ≡ some (s.recv_counter + 1) =
        rw (← p.counter) (checked_add_one-some c.send_counter room) in
      rw (sending, reading, acked, next)
        (
          refl,
          refl,
          record { cipher = p.cipher; label = p.label; counter = ap (λ (n : ℕ). n + 1) p.counter },
          refl,
        )
