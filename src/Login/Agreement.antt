-- ===== src/Login/Agreement.antt =====
-- Both sides of the login of `src/auth.rs`, on the messages of each other.
use shex.Prelude.{◌≡◌, sym, ap, ◌∙◌, ℕ, inl, inr, List, [], ◌∷◌, ◌++◌, Bytes}
use shex.Result.{Result, ok, err, Result-cases, Exec, receive_timeout, ok-inj}
use shex.Channel.{FrameTransport}
use shex.Login.{user_identity, Opaque, client_login, server_login}

-- A transport that is played from a list of frames and keeps those that were sent.
pub record Tape : Type 0 where
  pub incoming : List Bytes
  pub sent : List Bytes

abbrev take_frame : List Bytes → Exec Tape Bytes
take_frame [] t = (err receive_timeout, t)
take_frame (frame ∷ frames) t = (ok frame, record t { incoming = frames })

abbrev pub taped : FrameTransport Tape
taped = record {
  send_frame = λ frame t. (ok tt, record t { sent = t.sent ++ frame ∷ [] });
  recv_frame = λ t. take_frame t.incoming t;
  acknowledge = λ t. (ok tt, t);
  wait_indefinitely = λ t. t;
}

abbrev pub tape : List Bytes → List Bytes → Tape
tape incoming sent = record { incoming = incoming; sent = sent }

client-inj :
    (m m' n n' k l : Bytes)
    → ◌≡◌ {A = Result Bytes × Tape} (ok k, tape [] (m ∷ m' ∷ [])) (ok l, tape [] (n ∷ n' ∷ []))
    → (k ≡ l) × (m ≡ n) × (m' ≡ n')
client-inj m m' n n' k l e = let sent = ap (λ r. r.1.sent) e in (ok-inj (ap (λ r. r.0) e), cc, cc)

server-inj :
    (m n : Bytes) (r : Result Bytes) (k : Bytes)
    → ◌≡◌ {A = Result Bytes × Tape} (r, tape [] (m ∷ [])) (ok k, tape [] (n ∷ []))
    → (r ≡ ok k) × (m ≡ n)
server-inj m n r k e = let sent = ap (λ r. r.1.sent) e in (ap (λ r. r.0) e, cc)

module _ (opaque : Opaque) where
  open opaque use {ClientState, ServerState, Credentials, Request, Response, Finalization}

  -- the library's steps of a client that has a key
  record ClientSteps (r1 r3 : ℕ) (code m1 m2 m3 key : Bytes) : Type 0 where
    state : ClientState
    response : Response
    started : opaque.start r1 code ≡ ok (state, m1)
    read : opaque.read_response m2 ≡ ok response
    finished : opaque.finish r3 state code response ≡ ok (m3, key)

  record ServerSteps (r2 : ℕ) (credentials : Credentials) (m1 m2 m3 key : Bytes) : Type 0 where
    request : Request
    state : ServerState
    finalization : Finalization
    read : opaque.read_request m1 ≡ ok request
    responded : opaque.respond r2 credentials request user_identity ≡ ok (state, m2)
    read_last : opaque.read_finalization m3 ≡ ok finalization
    completed : opaque.complete state finalization ≡ ok key

  client_login-ClientSteps :
      (r1 r3 : ℕ) (code m1 m2 m3 key : Bytes)
      → client_login opaque taped r1 r3 code (tape (m2 ∷ []) []) ≡ (ok key, tape [] (m1 ∷ m3 ∷ []))
      → ClientSteps r1 r3 code m1 m2 m3 key
  unfolding client_login
  client_login-ClientSteps r1 r3 code m1 m2 m3 key h = elim (Result-cases (opaque.start r1 code)) [
    | inr (e, failed) ↦ absurd (cc (rw failed at h))
    | inl ((c, m), started) ↦ elim (Result-cases (opaque.read_response m2)) [
      | inr (e, failed) ↦ absurd (cc (rw (started, failed) at h))
      | inl (a, read) ↦ elim (Result-cases (opaque.finish r3 c code a)) [
        | inr (e, failed) ↦ absurd (cc (rw (started, read, failed) at h))
        | inl ((m', k), finished) ↦
            let (keys, first, second) =
              client-inj m m' m1 m3 k key (rw (started, read, finished) at h) in
            record {
              state = c;
              response = a;
              started = rw (← first) started;
              read = read;
              finished = rw (← second, ← keys) finished;
            }
      ]
    ]
  ]

  server_login-ServerSteps :
      (r2 : ℕ) (credentials : Credentials) (m1 m2 m3 key : Bytes)
      → server_login opaque taped r2 credentials (tape (m1 ∷ m3 ∷ []) [])
        ≡ (ok key, tape [] (m2 ∷ []))
      → ServerSteps r2 credentials m1 m2 m3 key
  unfolding server_login
  server_login-ServerSteps r2 credentials m1 m2 m3 key h =
      elim (Result-cases (opaque.read_request m1)) [
        | inr (e, failed) ↦ absurd (cc (rw failed at h))
        | inl (q, read) ↦ elim (Result-cases (opaque.respond r2 credentials q user_identity)) [
          | inr (e, failed) ↦ absurd (cc (rw (read, failed) at h))
          | inl ((s, m), responded) ↦ elim (Result-cases (opaque.read_finalization m3)) [
            | inr (e, failed) ↦ absurd (cc (rw (read, responded, failed) at h))
            | inl (f, read_last) ↦
                let (done, first) =
                  server-inj m m2 (opaque.complete s f) key
                    (rw (read, responded, read_last) at h) in
                record {
                  request = q;
                  state = s;
                  finalization = f;
                  read = read;
                  responded = rw (← first) responded;
                  read_last = read_last;
                  completed = done;
                }
          ]
        ]
      ]

  -- A client and a host whose logins succeed, each on the messages that the other sent, have the
  -- same session key if the host's credentials are registered with the client's code.
  pub login-agree :
      (credentials : Credentials) (code : Bytes) (r1 r2 r3 : ℕ)
      (m1 m2 m3 client_key server_key : Bytes)
      → opaque.Registered credentials code
      → client_login opaque taped r1 r3 code (tape (m2 ∷ []) [])
        ≡ (ok client_key, tape [] (m1 ∷ m3 ∷ []))
      → server_login opaque taped r2 credentials (tape (m1 ∷ m3 ∷ []) [])
        ≡ (ok server_key, tape [] (m2 ∷ []))
      → client_key ≡ server_key
  login-agree credentials code r1 r2 r3 m1 m2 m3 client_key server_key registered hc hs =
      let c = client_login-ClientSteps r1 r3 code m1 m2 m3 client_key hc in
      let s = server_login-ServerSteps r2 credentials m1 m2 m3 server_key hs in
      ok-inj (
        sym (
          opaque.agree credentials code r1 r2 r3 registered c.started s.read s.responded c.read
            c.finished s.read_last)
        ∙ s.completed)
