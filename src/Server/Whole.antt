-- ===== src/Server/Whole.antt =====
-- `handle` of `src/server.rs` for a client that opens a session of its own.
use shex.Prelude.{
  ◌≡◌, refl, ◌∙◌, ℕ, suc, ◌+◌, ◌≤◌, Bool, false, Option, none, List, [], ◌∷◌, ◌++◌, Bytes, length,
  arith, append_assoc, if◌then◌else◌,
}
use shex.Result.{Error, Result, ok}
use shex.Shell.{ShellSession}
use shex.Protocol.{ClientRequest, open_, hello, opened}
use shex.Server.{
  Outside, Host, Handler, handle, await_open, first_request, open_session, new_session, draw,
  lookup_for, spawn, serve_session, serve_loop, in_use, holding, released,
}
use shex.Server.Dropping.{let_go-sessions, let_go-world, let_go-killed, without-same}
use shex.Server.Script.{Event, received, acknowledged, sent, Script, scripted}
use shex.Server.Order.{Exchanges, Returning, outcome, playing, serve_loop-Conversation}

module _ (out : Outside) where
  abbrev pub with_shell : ShellSession out.sh → Host out → Host out
  with_shell shell host = record host {
    drawn = host.drawn + 1;
    shells = host.shells ++ shell ∷ [];
    held = length host.shells ∷ host.held;
  }

  abbrev greeted : Bytes → Option Bytes → Bool → Bytes → List Event → List Event
  greeted signature session persistent id log =
      (((log ++ sent (hello signature) ∷ []) ++ received (open_ session persistent) ∷ [])
        ++ acknowledged ∷ [])
      ++ sent (opened id) ∷ []

  -- `handle` comes to its second loop.
  handle-serve_loop :
      (fuel : ℕ) (signature : Bytes) (qs : List ClientRequest) (closing : Error) (log : List Event)
      (host : Host out) (shell : ShellSession out.sh)
      → out.spawn (host.drawn + 1) ≡ ok shell
      → handle out scripted
          (suc fuel)
          signature
          (playing out (open_ none false ∷ qs) closing log host)
        ≡ released out scripted (length host.shells) (
            serve_loop out scripted (suc fuel) (length host.shells) (
              playing out qs closing
                (greeted signature none false (out.random_id host.drawn) log)
                (with_shell shell host)))
  unfolding handle await_open first_request open_session new_session draw lookup_for spawn
      serve_session holding
  handle-serve_loop fuel signature qs closing log host shell starts = rw starts refl

  -- What a connection with a session of its own has come to.
  pub record Visit (shell : ShellSession out.sh) (signature : Bytes) (qs : List ClientRequest)
      (closing : Error) (log : List Event) (host : Host out)
      (r : Result (Unit {0}) × Handler out Script) : Type 0 where
    pub events : List Event
    pub exchanges : Exchanges out (length host.shells) qs (with_shell shell host) events
    pub written :
        r.1.channel.log
        ≡ log
          ++ sent (hello signature)
            ∷ received (open_ none false)
            ∷ acknowledged
            ∷ sent (opened (out.random_id host.drawn))
            ∷ events
    pub ends : r.0 ≡ outcome qs closing
    pub sessions : r.1.host.sessions ≡ host.sessions
    pub world : r.1.host.world ≡ host.world
    pub killed : r.1.host.killed ≡ (
        if in_use out (length host.shells) host
        then host.killed
        else length host.shells ∷ host.killed)

  greeted_log :
      (signature id : Bytes) (session : Option Bytes) (persistent : Bool) (log events : List Event)
      → greeted signature session persistent id log ++ events
        ≡ log
          ++ sent (hello signature)
            ∷ received (open_ session persistent)
            ∷ acknowledged
            ∷ sent (opened id)
            ∷ events
  greeted_log signature id session persistent log events = simp append_assoc

  -- Over a channel that delivers, a client that opens a session of its own is greeted with the
  -- host's signature, has the request acknowledged, gets the next random id, and then sees each
  -- further request acknowledged and answered once, a command with what the new shell makes of it,
  -- until it disconnects. The session leaves nothing in the map of sessions or in Redis, and its
  -- shell is killed unless another has it, however the connection ends. The shell starts and ends
  -- with each command, and there is fuel for every request and for the end.
  pub handle-Visit :
      (fuel : ℕ) (signature : Bytes) (qs : List ClientRequest) (closing : Error) (log : List Event)
      (host : Host out) (shell : ShellSession out.sh)
      → out.spawn (host.drawn + 1) ≡ ok shell
      → Returning out (length host.shells) qs (with_shell shell host)
      → length qs ≤ fuel
      → Visit shell signature qs closing log host (
          handle out scripted
            (suc fuel)
            signature
            (playing out (open_ none false ∷ qs) closing log host))
  handle-Visit fuel signature qs closing log host shell starts answering enough =
      let id = out.random_id host.drawn in
      let place = length host.shells in
      let c =
        serve_loop-Conversation out (suc fuel) (length host.shells) qs closing
          (greeted signature none false id log) (with_shell shell host) answering (omega arith) in
      rw (handle-serve_loop fuel signature qs closing log host shell starts) (record {
        events = c.events;
        exchanges = c.exchanges;
        written = c.written ∙ greeted_log signature id none false log c.events;
        ends = c.ends;
        sessions = let_go-sessions out place _ ∙ c.same.sessions;
        world = let_go-world out place _ ∙ c.same.world;
        killed =
            let_go-killed out place _
            ∙ rw (c.same.sessions, c.same.held, c.same.killed, without-same place host.held) refl;
      })
