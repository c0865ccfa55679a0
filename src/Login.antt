-- ===== src/Login.antt =====
-- The login of `src/auth.rs`: OPAQUE messages as frames, before the channel is encrypted.
pub mod Agreement
pub mod Registration
use shex.Prelude.{ℕ, ◌≡◌, Bytes, codes}
use shex.Result.{Result, ok, err, Exec, pure, lift, proceed, ◌>>=◌, ◌>>◌}
use shex.Channel.{FrameTransport}

-- `IDENTITY`
abbrev pub user_identity : Bytes
user_identity = codes "shex-user-v1"

-- The library `opaque_ke`. Randomness that a step draws is its first argument. A code that the
-- credentials were registered with gives both parties one session key.
pub record Opaque : Type 1 where
  pub ClientState : Type 0
  pub ServerState : Type 0
  pub Credentials : Type 0
  pub Request : Type 0
  pub Response : Type 0
  pub Finalization : Type 0
  pub Registered : Credentials → Bytes → Type 0
  -- the `deserialize` of each message
  pub read_request : Bytes → Result Request
  pub read_response : Bytes → Result Response
  pub read_finalization : Bytes → Result Finalization
  -- `ClientLogin::start`, with the serialized message
  pub start : ℕ → Bytes → Result (ClientState × Bytes)
  -- `ServerLogin::start`, with the identity of the user
  pub respond : ℕ → Credentials → Request → Bytes → Result (ServerState × Bytes)
  -- `ClientLogin::finish`: the serialized message and the session key
  pub finish : ℕ → ClientState → Bytes → Response → Result (Bytes × Bytes)
  -- `ServerLogin::finish`
  pub complete : ServerState → Finalization → Result Bytes
  pub agree :
      (credentials : Credentials) (code : Bytes) (r1 r2 r3 : ℕ) {c : ClientState} {s : ServerState}
      {m1 m2 m3 key : Bytes} {q : Request} {a : Response} {f : Finalization}
      → Registered credentials code
      → start r1 code ≡ ok (c, m1)
      → read_request m1 ≡ ok q
      → respond r2 credentials q (codes "shex-user-v1") ≡ ok (s, m2)
      → read_response m2 ≡ ok a
      → finish r3 c code a ≡ ok (m3, key)
      → read_finalization m3 ≡ ok f
      → complete s f ≡ ok key

module _ (opaque : Opaque) {T : Type 0} (frames : FrameTransport T) where
  -- A message that cannot be read stays unacknowledged.
  abbrev pub take_message : {M : Type 0} → (Bytes → Result M) → Exec T M
  take_message read = do
    frame ← frames.recv_frame
    message ← lift (read frame)
    frames.acknowledge
    pure message

  -- `r1` and `r3` are what `OsRng` gives.
  unfoldable pub client_login : ℕ → ℕ → Bytes → Exec T Bytes
  client_login r1 r3 code = do
    (state, message) ← lift (opaque.start r1 code)
    frames.send_frame message
    response ← take_message opaque.read_response
    (finalization, session_key) ← lift (opaque.finish r3 state code response)
    frames.send_frame finalization
    pure session_key

  unfoldable pub server_login : ℕ → opaque.Credentials → Exec T Bytes
  server_login r2 credentials = do
    request ← take_message opaque.read_request
    (state, message) ← lift (opaque.respond r2 credentials request user_identity)
    frames.send_frame message
    finalization ← take_message opaque.read_finalization
    lift (opaque.complete state finalization)
