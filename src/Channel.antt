-- ===== src/Channel.antt =====
-- `src/channel.rs`: the interface of a transport of frames, and the encrypted channel over one.
pub mod Nonce
pub mod Pairing
pub mod RedisFrames
use shex.Prelude.{
  ℕ, zero, suc, ◌+◌, ◌/◌, ◌%◌, ◌^◌, ◌≡◌, Bool, Option, none, some, List, [], ◌∷◌, ◌++◌, Bytes,
  codes, eq, ltb, if◌then◌else◌,
}
use shex.Result.{
  Result, ok, err, context, Exec, pure, raise, lift, gets, modify, zoom, proceed, ◌>>=◌, ◌>>◌,
  hkdf_failure, encryption_failed, invalid_message, counter_exhausted, serialization_failed,
  deserialization_failed,
}

-- the trait `FrameTransport`
pub record FrameTransport (T : Type 0) : Type 0 where
  pub send_frame : Bytes → Exec T (Unit {0})
  pub recv_frame : Exec T Bytes
  pub acknowledge : Exec T (Unit {0})
  pub wait_indefinitely : T → T

-- ChaCha20-Poly1305 and HKDF-SHA256. What is encrypted is decrypted under the same key, nonce and
-- associated data.
pub record Crypto : Type 0 where
  pub expand : Bytes → Bytes → Option Bytes
  pub encrypt : Bytes → Bytes → Bytes → Bytes → Option Bytes
  pub decrypt : Bytes → Bytes → Bytes → Bytes → Option Bytes
  pub decrypt-encrypt :
      (key nonce aad plain : Bytes) {encrypted : Bytes}
      → encrypt key nonce aad plain ≡ some encrypted
      → decrypt key nonce aad encrypted ≡ some plain

-- serde_json for one type of messages: what is written is read back.
pub record Codec (A : Type 0) : Type 0 where
  pub to_vec : A → Option Bytes
  pub from_slice : Bytes → Option A
  pub from_slice-to_vec :
      (a : A) {bytes : Bytes} → to_vec a ≡ some bytes → from_slice bytes ≡ some a

-- The ciphers are their keys.
pub record SecureChannel (T : Type 0) : Type 0 where
  pub transport : T
  pub send_cipher : Bytes
  pub recv_cipher : Bytes
  pub send_counter : ℕ
  pub recv_counter : ℕ
  pub send_label : Bytes
  pub recv_label : Bytes

abbrev pub client_label : Bytes
client_label = codes "client->server"

abbrev pub server_label : Bytes
server_label = codes "server->client"

-- `value.to_be_bytes()` of `n` bytes, in front of `rest`
unfoldable pub be_bytes : ℕ → ℕ → Bytes → Bytes
be_bytes zero value rest = rest
be_bytes (suc n) value rest = be_bytes n (value / 256) (value % 256 ∷ rest)

unfoldable pub nonce : ℕ → Bytes
nonce counter = 0 ∷ 0 ∷ 0 ∷ 0 ∷ be_bytes 8 counter []

-- `counter.checked_add(1)` of a `u64`
unfoldable pub checked_add_one : ℕ → Option ℕ
checked_add_one counter = if ltb (counter + 1) (2 ^ 64) then some (counter + 1) else none

module _ (crypto : Crypto) {T : Type 0} where
  unfoldable pub new : T → Bytes → Bytes → Bytes → Result (SecureChannel T)
  new transport key send_label recv_label = elim (crypto.expand key client_label) [
    | none ↦ err hkdf_failure
    | some c2s ↦ elim (crypto.expand key server_label) [
      | none ↦ err hkdf_failure
      | some s2c ↦
          let is_client = eq send_label client_label in
          ok (record {
            transport = transport;
            send_cipher = if is_client then c2s else s2c;
            recv_cipher = if is_client then s2c else c2s;
            send_counter = 0;
            recv_counter = 0;
            send_label = send_label;
            recv_label = recv_label;
          })
    ]
  ]

  unfoldable pub client : T → Bytes → Result (SecureChannel T)
  client transport key = new transport key client_label server_label

  unfoldable pub server : T → Bytes → Result (SecureChannel T)
  server transport key = new transport key server_label client_label

module _ (crypto : Crypto) {T : Type 0} (frames : FrameTransport T) where
  -- a method of the transport of a channel
  abbrev pub transporting {ℓ} : {A : Type ℓ} → Exec T A → Exec (SecureChannel T) A
  transporting = zoom (λ c. c.transport) (λ t c. record c { transport = t })

  -- The counter is raised only when the frame is sent.
  unfoldable pub send : {A : Type 0} → Codec A → A → Exec (SecureChannel T) (Unit {0})
  send codec value = do
    plain ← lift (context (codec.to_vec value) serialization_failed)
    counter ← gets (λ c. c.send_counter)
    cipher ← gets (λ c. c.send_cipher)
    label ← gets (λ c. c.send_label)
    encrypted ← lift (context (crypto.encrypt cipher (nonce counter) label plain) encryption_failed)
    transporting (frames.send_frame encrypted)
    next ← lift (context (checked_add_one counter) counter_exhausted)
    modify (λ c. record c { send_counter = next })

  unfoldable pub recv_unacknowledged : {A : Type 0} → Codec A → Exec (SecureChannel T) A
  recv_unacknowledged codec = do
    encrypted ← transporting frames.recv_frame
    counter ← gets (λ c. c.recv_counter)
    cipher ← gets (λ c. c.recv_cipher)
    label ← gets (λ c. c.recv_label)
    plain ← lift (context (crypto.decrypt cipher (nonce counter) label encrypted) invalid_message)
    lift (context (codec.from_slice plain) deserialization_failed)

  unfoldable pub acknowledge : Exec (SecureChannel T) (Unit {0})
  acknowledge = do
    transporting frames.acknowledge
    counter ← gets (λ c. c.recv_counter)
    next ← lift (context (checked_add_one counter) counter_exhausted)
    modify (λ c. record c { recv_counter = next })

  unfoldable pub recv : {A : Type 0} → Codec A → Exec (SecureChannel T) A
  recv codec = do value ← recv_unacknowledged codec; acknowledge; pure value

  unfoldable pub wait_indefinitely : SecureChannel T → SecureChannel T
  wait_indefinitely c = record c { transport = frames.wait_indefinitely c.transport }
