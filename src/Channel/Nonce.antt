-- ===== src/Channel/Nonce.antt =====
-- Nonces of `SecureChannel::send` in `src/channel.rs`, and the counter they are made from.
use native.Mathlib.Nat.{pow-suc}
use shex.Prelude.{
  ℕ, zero, suc, ◌+◌, ◌/◌, ◌%◌, ◌^◌, ◌<◌, ◌≤◌, ◌≢◌, ◌≡◌, ◌∙◌, sym, ap, some, [], ◌∷◌, Bytes, arith,
  cons_heads, if◌then◌else◌, cons_tails, length,
}
use shex.Result.{Error, ok, err, is_ok, counter_exhausted}
use shex.Channel.{
  FrameTransport, Crypto, Codec, SecureChannel, be_bytes, nonce, checked_add_one, send,
}

be_bytes_injective :
    (n v w : ℕ) (x y : Bytes)
    → v < 256 ^ n
    → w < 256 ^ n
    → be_bytes n v x ≡ be_bytes n w y
    → (v ≡ w) × (x ≡ y)
unfolding be_bytes
be_bytes_injective zero v w x y hv hw e = (omega arith, e)
be_bytes_injective (suc n) v w x y hv hw e =
    let (high, rest) =
      be_bytes_injective n (v / 256) (w / 256) (v % 256 ∷ x) (w % 256 ∷ y)
        (omega (arith, pow-suc 256 n)) (omega (arith, pow-suc 256 n)) e in
    (omega (arith, cons_heads rest), cons_tails rest)

length-be_bytes : (n v : ℕ) (x : Bytes) → length (be_bytes n v x) ≡ n + length x
unfolding be_bytes
length-be_bytes zero v x = omega arith
length-be_bytes (suc n) v x = omega (arith, length-be_bytes n (v / 256) (v % 256 ∷ x))

-- Every nonce has the 12 bytes that ChaCha20-Poly1305 takes.
pub length-nonce : (v : ℕ) → length (nonce v) ≡ 12
unfolding nonce
length-nonce v = omega (arith, length-be_bytes 8 v [])

-- Two counters of 64 bits have the same nonce only if they are equal.
nonce_injective : (v w : ℕ) → v < 2 ^ 64 → w < 2 ^ 64 → nonce v ≡ nonce w → v ≡ w
unfolding nonce
nonce_injective v w hv hw e =
    (be_bytes_injective 8 v w [] [] (omega arith) (omega arith)
      (cons_tails (cons_tails (cons_tails (cons_tails e))))).0

-- The frame that `send` makes of a value.
pub record FrameOf (crypto : Crypto) {T A : Type 0} (codec : Codec A) (ch : SecureChannel T)
    (value : A) (frame : Bytes) : Type 0 where
  pub plain : Bytes
  pub written : codec.to_vec value ≡ some plain
  pub encrypted :
      crypto.encrypt ch.send_cipher (nonce ch.send_counter) ch.send_label plain ≡ some frame

module _ (crypto : Crypto) {T : Type 0} (frames : FrameTransport T) {A : Type 0}
    (codec : Codec A) where
  -- what `send` does once it has its frame
  pub send-FrameOf :
      (ch : SecureChannel T) (value : A) (frame : Bytes) (t : T)
      → FrameOf crypto codec ch value frame
      → frames.send_frame frame ch.transport ≡ (ok tt, t)
      → ch.send_counter + 1 < 2 ^ 64
      → send crypto frames codec value ch
        ≡ (ok tt, record ch { transport = t; send_counter = ch.send_counter + 1 })
  unfolding send checked_add_one
  send-FrameOf ch value frame t f sent room = rw (f.written, f.encrypted, sent) (ground arith)

  send_refused :
      (ch : SecureChannel T) (value : A) (frame : Bytes) (e : Error) (t : T)
      → FrameOf crypto codec ch value frame
      → frames.send_frame frame ch.transport ≡ (err e, t)
      → send crypto frames codec value ch ≡ (err e, record ch { transport = t })
  unfolding send
  send_refused ch value frame e t f refused = rw (f.written, f.encrypted, refused)

  send_last :
      (ch : SecureChannel T) (value : A) (frame : Bytes) (t : T)
      → FrameOf crypto codec ch value frame
      → frames.send_frame frame ch.transport ≡ (ok tt, t)
      → 2 ^ 64 ≤ ch.send_counter + 1
      → send crypto frames codec value ch ≡ (err counter_exhausted, record ch { transport = t })
  unfolding send checked_add_one
  send_last ch value frame t f sent full = rw (f.written, f.encrypted, sent) (ground arith)

  send_steps :
      (ch : SecureChannel T) (value : A)
      → let r = send crypto frames codec value ch in
        (r.0 ≡ ok tt → (r.1.send_counter ≡ ch.send_counter + 1) × (ch.send_counter + 1 < 2 ^ 64))
  unfolding send checked_add_one
  send_steps ch value h = ground arith

  -- A send that succeeds raises the counter by one, and one that fails, at whatever step, leaves
  -- it, so that a counter of 64 bits stays one; keys, labels and the other counter never change.
  pub send_counter_lem :
      (ch : SecureChannel T) (value : A)
      → ch.send_counter < 2 ^ 64
      → let r = send crypto frames codec value ch in
        (r.1.send_counter ≡ (if is_ok r.0 then ch.send_counter + 1 else ch.send_counter))
        × (r.1.send_counter < 2 ^ 64)
        × (r.1.send_cipher ≡ ch.send_cipher)
        × (r.1.send_label ≡ ch.send_label)
        × (r.1.recv_cipher ≡ ch.recv_cipher)
        × (r.1.recv_label ≡ ch.recv_label)
        × (r.1.recv_counter ≡ ch.recv_counter)
  unfolding send checked_add_one
  send_counter_lem ch value small = (
    ground arith,
    ground arith,
    ground arith,
    ground arith,
    ground arith,
    ground arith,
    ground arith,
  )

  -- One or more successful sends, from the second channel to the first.
  pub data SendsTo (last : SecureChannel T) : SecureChannel T → Type 0 where
    one :
        {ch : SecureChannel T} (value : A)
        → send crypto frames codec value ch ≡ (ok tt, last)
        → SendsTo last ch
    more :
        {ch next : SecureChannel T} (value : A)
        → send crypto frames codec value ch ≡ (ok tt, next)
        → SendsTo last next
        → SendsTo last ch

  raised :
      (ch next : SecureChannel T) (value : A)
      → send crypto frames codec value ch ≡ (ok tt, next)
      → (next.send_counter ≡ ch.send_counter + 1) × (ch.send_counter + 1 < 2 ^ 64)
  raised ch next value e =
      let done = (send_steps ch value) (ap (λ r. r.0) e) in
      (sym (ap (λ r. r.1.send_counter) e) ∙ done.0, done.1)

  SendsTo-lt :
      {last ch : SecureChannel T}
      → SendsTo last ch
      → (ch.send_counter < last.send_counter) × (last.send_counter < 2 ^ 64)
  SendsTo-lt {last} (one {ch} value e) = omega (arith, raised ch last value e)
  SendsTo-lt (more {ch} {next} value e rest) =
      omega (arith, raised ch next value e, SendsTo-lt rest)

  -- After one or more successful sends a channel's next nonce is not the one that the first of them
  -- used.
  pub SendsTo-nonce :
      {last ch : SecureChannel T}
      → SendsTo last ch
      → nonce ch.send_counter ≢ nonce last.send_counter
  SendsTo-nonce {last} {ch} sends e =
      let (lt, bound) = SendsTo-lt sends in
      let same = nonce_injective ch.send_counter last.send_counter (omega arith) bound e in
      omega (arith, same)

  -- If the transport fails a frame and takes the next, both were encrypted under one key and nonce,
  -- and the counter is raised once, where it is not exhausted.
  send-refused-send :
      (ch : SecureChannel T) (v w : A) (frame frame' : Bytes) (e : Error) (t t' : T)
      → FrameOf crypto codec ch v frame
      → FrameOf crypto codec ch w frame'
      → frames.send_frame frame ch.transport ≡ (err e, t)
      → frames.send_frame frame' t ≡ (ok tt, t')
      → ch.send_counter + 1 < 2 ^ 64
      → send crypto frames codec w (send crypto frames codec v ch).1
        ≡ (ok tt, record ch { transport = t'; send_counter = ch.send_counter + 1 })
  send-refused-send ch v w frame frame' e t t' f f' refused sent room =
      rw (send_refused ch v frame e t f refused) (
        send-FrameOf (record ch { transport = t }) w frame' t'
          (record { plain = f'.plain; written = f'.written; encrypted = f'.encrypted }) sent room)
