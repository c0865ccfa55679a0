-- ===== src/Server.antt =====
-- `handle` of `src/server.rs`: one connection, from the host's greeting to its end.
pub mod Sessions
pub mod Script
pub mod Deletion
pub mod Replies
pub mod Order
pub mod Whole
pub mod Arrival
pub mod Dropping
use shex.Prelude.{
  ℕ, zero, suc, ◌+◌, Bool, true, false, Option, none, some, List, [], ◌∷◌, ◌++◌, Bytes, codes, eq,
  length, if◌then◌else◌, any, ◌||◌, ◌==◌,
}
use shex.Result.{
  ErrorKind, unexpected_eof, connection_reset, broken_pipe, other_kind, io, Error, Result, ok, err,
  Exec, pure, raise, lift, gets, modify, zoom, proceed, ◌>>=◌, ◌>>◌, unopened_run, fuel_exhausted,
  never_returns,
}
use shex.Shell
use shex.Shell.{Sh, ShellSession}
use shex.Shell.Status.{ℤ}
use shex.Redis.{Redis}
use shex.Redis.World.{World}
use shex.Host.{create_session_lookup, delete_session_lookup}
use shex.Protocol.{
  ClientRequest, ServerReply, open_, run, delete_session, ping, disconnect, hello, opened, deleted,
  pong, output, error,
}
use shex.Server.Sessions.{Session, lookup, insert, remove, nth, set_nth}

-- What `handle` asks of the encrypted channel.
pub record ServerChannel (C : Type 0) : Type 0 where
  pub send : ServerReply → Exec C (Unit {0})
  pub recv_unacknowledged : Exec C ClientRequest
  pub acknowledge : Exec C (Unit {0})
  pub wait_indefinitely : C → C

-- What lies outside the host's own code: Redis, the shell, SHA-256, the random ids (the n-th id
-- that is drawn), whether a shell starts, and the printed form of an error.
pub record Outside : Type 1 where
  pub redis : Redis
  pub sh : Sh
  pub lossy : Bytes → Bytes
  pub sha256 : Bytes → Bytes
  pub random_id : ℕ → Bytes
  pub spawn : ℕ → Result (ShellSession sh)
  pub display : Error → Bytes

-- The host's state that connections share. A `Session` refers to its shell by its place; `held` has the places of the
-- shells whose sessions connections have open, and `killed` those that were killed, the last one first.
pub record Host (out : Outside) : Type 0 where
  pub hostname : Bytes
  pub sessions : List (Bytes × Session)
  pub shells : List (ShellSession out.sh)
  pub world : World out.redis.Db
  pub drawn : ℕ
  pub held : List ℕ
  pub killed : List ℕ

pub record Handler (out : Outside) (C : Type 0) : Type 0 where
  pub channel : C
  pub host : Host out

-- What the first loop ends with: the `Open` that it met, or that the connection is over.
pub data Opening : Type 0 where
  requested : Option Bytes → Bool → Opening
  finished : Opening

-- whether a command waits for its shell for ever
unfoldable pub is_stuck {ℓ} : {A : Type ℓ} → Result A → Bool
is_stuck (err never_returns) = true
is_stuck _ = false

unfoldable pub is_disconnect : Error → Bool
is_disconnect (io unexpected_eof) = true
is_disconnect (io connection_reset) = true
is_disconnect (io broken_pipe) = true
is_disconnect _ = false

module _ (out : Outside) where
  -- Whether an `Arc` of the session with this shell is left, in the map or in a connection.
  abbrev pub in_use : ℕ → Host out → Bool
  in_use place host =
      any (◌==◌ place) host.held
      || any (λ (entry : Bytes × Session). place == entry.1.shell) host.sessions

  -- `Drop` of an `Arc<Session>`; the last one drops the session, and with it `ShellSession`, which kills its process.
  unfoldable pub let_go : ℕ → Host out → Host out
  let_go place host =
      if in_use place host then host else record host { killed = place ∷ host.killed }

-- one place less
unfoldable pub without : ℕ → List ℕ → List ℕ
without place [] = []
without place (p ∷ ps) = let rest = without place ps in if place == p then ps else p ∷ rest

module _ (out : Outside) {C : Type 0} (chan : ServerChannel C) where
  abbrev pub on_channel : {A : Type 0} → Exec C A → Exec (Handler out C) A
  on_channel = zoom (λ h. h.channel) (λ c h. record h { channel = c })

  abbrev pub on_redis : {A : Type 0} → Exec (World out.redis.Db) A → Exec (Handler out C) A
  on_redis = zoom (λ h. h.host.world) (λ w h. record h { host = record h.host { world = w } })

  abbrev pub reply : ServerReply → Exec (Handler out C) (Unit {0})
  reply r = on_channel (chan.send r)

  abbrev pub acknowledge : Exec (Handler out C) (Unit {0})
  acknowledge = on_channel chan.acknowledge

  abbrev pub set_sessions : List (Bytes × Session) → Handler out C → Handler out C
  set_sessions sessions h = record h { host = record h.host { sessions = sessions } }

  -- `random_id`
  unfoldable pub draw : Exec (Handler out C) Bytes
  draw h = (
    ok (out.random_id h.host.drawn),
    record h { host = record h.host { drawn = h.host.drawn + 1 } },
  )

  unfoldable pub unknown_session : Exec (Handler out C) (Unit {0})
  unknown_session = do acknowledge; reply (error (codes "unknown session"))

  abbrev pub dropped : {A : Type 0} → ℕ → Result A × Handler out C → Result A × Handler out C
  dropped place (r, h) = (r, record h { host = let_go out place h.host })

  abbrev pub released : {A : Type 0} → ℕ → Result A × Handler out C → Result A × Handler out C
  released place (r, h) =
      dropped place (r, record h { host = record h.host { held = without place h.host.held } })

  -- a part of `handle` in which the connection has an `Arc` of its own
  unfoldable pub holding : {A : Type 0} → ℕ → Exec (Handler out C) A → Exec (Handler out C) A
  holding place m h =
      released place (m (record h { host = record h.host { held = place ∷ h.host.held } }))

  abbrev pub delete_lookup : Option Bytes → Exec (Handler out C) (Unit {0})
  delete_lookup none = pure tt
  delete_lookup (some key) = on_redis (delete_session_lookup out.redis key)

  -- the arm of `DeleteSession` in the first loop, on what the map gave up, which is dropped however the arm ends
  unfoldable pub delete_removed : Bytes → Option Session → Exec (Handler out C) (Unit {0})
  delete_removed session none h = unknown_session h
  delete_removed session (some removed) h =
      dropped removed.shell
        ((do delete_lookup removed.lookup_key; acknowledge; reply (deleted session)) h)

  -- The entry leaves the map before the lookup leaves Redis.
  unfoldable pub delete : Bytes → Exec (Handler out C) (Unit {0})
  delete session = do
    removed ← gets (λ h. lookup session h.host.sessions)
    modify (λ h. set_sessions (remove session h.host.sessions) h)
    delete_removed session removed

  -- One round of the first loop; `none` goes round again.
  unfoldable pub first_request : ClientRequest → Exec (Handler out C) (Option Opening)
  first_request (open_ session persistent) = pure (some (requested session persistent))
  first_request ping = do acknowledge; reply pong; pure none
  first_request (delete_session session) = do delete session; pure (some finished)
  first_request disconnect = do acknowledge; pure (some finished)
  first_request (run command) = raise unopened_run

  abbrev pub or_again : Option Opening → Exec (Handler out C) Opening → Exec (Handler out C) Opening
  or_again (some o) again = pure o
  or_again none again = again

  -- the first loop, at most `fuel` rounds of it
  unfoldable pub await_open : ℕ → Exec (Handler out C) Opening
  await_open zero h = (err fuel_exhausted, h)
  await_open (suc fuel) h =
      (do
        request ← on_channel chan.recv_unacknowledged
        next ← first_request request
        or_again next (await_open fuel))
        h

  -- `ShellSession::spawn`; the new shell has the last place.
  unfoldable pub spawn : Exec (Handler out C) ℕ
  spawn = do
    drawn ← gets (λ h. h.host.drawn)
    shell ← lift (out.spawn drawn)
    place ← gets (λ h. length h.host.shells)
    modify (λ h. record h { host = record h.host { shells = h.host.shells ++ shell ∷ [] } })
    pure place

  unfoldable pub lookup_for : Bool → Bytes → Exec (Handler out C) (Option Bytes)
  lookup_for false id = pure none
  lookup_for true id = do
    hostname ← gets (λ h. h.host.hostname)
    key ← on_redis (create_session_lookup out.redis out.sha256 hostname id)
    pure (some key)

  abbrev pub keep : Bool → Bytes → Session → Handler out C → Handler out C
  keep persistent id session h =
      if persistent then set_sessions (insert id session h.host.sessions) h else h

  unfoldable pub new_session : Bool → Exec (Handler out C) (Bytes × Session)
  new_session persistent = do
    id ← draw
    lookup_key ← lookup_for persistent id
    shell ← spawn
    let session : Session = record { shell = shell; lookup_key = lookup_key }
    modify (keep persistent id session)
    pure (id, session)

  abbrev pub found : Bytes → Option Session → Exec (Handler out C) (Option (Bytes × Session))
  found id none = do unknown_session; pure none
  found id (some session) = pure (some (id, session))

  -- What `Open` gets: a session, or `none` after the error reply.
  unfoldable pub open_session :
      Option Bytes → Bool → Exec (Handler out C) (Option (Bytes × Session))
  open_session (some id) persistent = do
    session ← gets (λ h. lookup id h.host.sessions)
    found id session
  open_session none persistent = do made ← new_session persistent; pure (some made)

  -- `session.shell.lock().unwrap().run(&command)`: its result is a value here, not yet an error,
  -- unless the shell never ends a line: then nothing more happens.
  unfoldable pub run_in : ℕ → Bytes → Exec (Handler out C) (Result (Bytes × ℤ))
  run_in place command = do
    marker ← draw
    shells ← gets (λ h. h.host.shells)
    shell ← lift (nth place shells)
    let ran = Shell.run out.sh out.lossy (codes "SHEX-" ++ marker) command shell
    modify (λ h. record h { host = record h.host { shells = set_nth place ran.1 h.host.shells } })
    if is_stuck ran.0 then raise never_returns else pure ran.0

  abbrev pub output_reply : Result (Bytes × ℤ) → ServerReply
  output_reply (ok (text, status)) = output text status
  output_reply (err e) = error (out.display e)

  -- One round of the second loop; `true` ends it.
  unfoldable pub serve_request : ℕ → ClientRequest → Exec (Handler out C) Bool
  serve_request place (run command) = do
    result ← run_in place command
    acknowledge
    reply (output_reply result)
    pure false
  serve_request place (open_ session persistent) = do
    acknowledge
    reply (error (codes "session is already open"))
    pure false
  serve_request place (delete_session session) = do
    acknowledge
    reply (error (codes "cannot delete a session from an open connection"))
    pure false
  serve_request place ping = do acknowledge; reply pong; pure false
  serve_request place disconnect = do acknowledge; pure true

  abbrev pub received : Result ClientRequest → Exec (Handler out C) (Option ClientRequest)
  received (ok request) = pure (some request)
  received (err e) = if is_disconnect e then pure none else raise e

  -- what the second loop receives: `none` is a disconnection
  unfoldable pub next_request : Exec (Handler out C) (Option ClientRequest)
  next_request h =
      let (r, c) = chan.recv_unacknowledged h.channel in received r (record h { channel = c })

  abbrev pub served : ℕ → Option ClientRequest → Exec (Handler out C) Bool
  served place none = pure true
  served place (some request) = serve_request place request

  abbrev pub unless : Bool → Exec (Handler out C) (Unit {0}) → Exec (Handler out C) (Unit {0})
  unless true again = pure tt
  unless false again = again

  unfoldable pub serve_loop : ℕ → ℕ → Exec (Handler out C) (Unit {0})
  serve_loop zero place h = (err fuel_exhausted, h)
  serve_loop (suc fuel) place h =
      (do request ← next_request; over ← served place request; unless over (serve_loop fuel place))
        h

  unfoldable pub serve_session : ℕ → Option (Bytes × Session) → Exec (Handler out C) (Unit {0})
  serve_session fuel none = pure tt
  serve_session fuel (some (id, session)) = holding session.shell (do
    acknowledge
    reply (opened id)
    modify (λ h. record h { channel = chan.wait_indefinitely h.channel })
    serve_loop fuel session.shell)

  abbrev pub after_opening : ℕ → Opening → Exec (Handler out C) (Unit {0})
  after_opening fuel finished = pure tt
  after_opening fuel (requested session persistent) = do
    opened_session ← open_session session persistent
    serve_session fuel opened_session

  -- `handle`, once the client is authenticated
  unfoldable pub handle : ℕ → Bytes → Exec (Handler out C) (Unit {0})
  handle fuel signature = do
    reply (hello signature)
    opening ← await_open fuel
    after_opening fuel opening
