-- ===== src/Server/Order.antt =====
-- The second loop of `handle` in `src/server.rs`, on a channel that is played from a list of
-- requests.
use shex.Prelude.{
  Option, Bool, false, Bytes, ℕ, zero, suc, ◌<◌, ◌≡◌, refl, ◌∙◌, sym, Bool-cases, inl, inr, List,
  [], ◌∷◌, ◌++◌, length, if◌then◌else◌, arith, append_assoc, append-nil,
}
use shex.Result.{Error, Result, ok, err}
use shex.Protocol.{ClientRequest, ServerReply, open_, run, delete_session, ping, disconnect}
use shex.Server.{
  Outside, Host, Handler, is_disconnect, is_stuck, serve_request, next_request, serve_loop,
}
use shex.Server.Script.{Event, received, acknowledged, sent, Script, scripted}
use shex.Server.Replies.{
  ran, Answers, SameHost, Replied, unchanged, run-Replied, open-Replied, delete-Replied,
  ping-Replied,
}
use shex.Server.Sessions.{nth}
use shex.Shell.{ShellSession}

-- How the connection ends.
abbrev pub outcome : List ClientRequest → Error → Result (Unit {0})
outcome [] closing = if is_disconnect closing then ok tt else err closing
outcome (disconnect ∷ qs) closing = ok tt
outcome (ping ∷ qs) closing = outcome qs closing
outcome (run command ∷ qs) closing = outcome qs closing
outcome (open_ session persistent ∷ qs) closing = outcome qs closing
outcome (delete_session session ∷ qs) closing = outcome qs closing

module _ (out : Outside) where
  -- The connection before the requests `qs` are read.
  abbrev pub playing : List ClientRequest → Error → List Event → Host out → Handler out Script
  playing qs closing log host = record {
    channel = record { incoming = qs; closing = closing; log = log };
    host = host;
  }

  -- The events on the channel while a list of requests is served, up to a `Disconnect`, from a state of the host on.
  pub data Exchanges (place : ℕ) : List ClientRequest → Host out → List Event → Type 0 where
    silent : (host : Host out) → Exchanges place [] host []
    over :
        (unread : List ClientRequest) (host : Host out)
        → Exchanges place (disconnect ∷ unread) host (received disconnect ∷ acknowledged ∷ [])
    next :
        {q : ClientRequest} {r : ServerReply} {qs : List ClientRequest} {es : List Event}
        {host after : Host out}
        → Answers out place q host r after
        → Exchanges place qs after es
        → Exchanges place (q ∷ qs) host (received q ∷ acknowledged ∷ sent r ∷ es)

  -- The commands among the requests are such that the session's shell ends with each of them, in the state in which
  -- the earlier ones left it.
  pub data Returning (place : ℕ) : List ClientRequest → Host out → Type 0 where
    end : (host : Host out) → Returning place [] host
    left :
        (unread : List ClientRequest) (host : Host out) → Returning place (disconnect ∷ unread) host
    returns :
        {command : Bytes} {qs : List ClientRequest} {host : Host out} (shell : ShellSession out.sh)
        → nth place host.shells ≡ ok shell
        → is_stuck (ran out place command shell host).0 ≡ false
        → Returning place qs (ran out place command shell host).1
        → Returning place (run command ∷ qs) host
    pings :
        {qs : List ClientRequest} {host : Host out}
        → Returning place qs host
        → Returning place (ping ∷ qs) host
    opens :
        {session : Option Bytes} {persistent : Bool} {qs : List ClientRequest} {host : Host out}
        → Returning place qs host
        → Returning place (open_ session persistent ∷ qs) host
    deletes :
        {session : Bytes} {qs : List ClientRequest} {host : Host out}
        → Returning place qs host
        → Returning place (delete_session session ∷ qs) host

  -- What serving the requests `qs` has come to.
  pub record Conversation (place : ℕ) (qs : List ClientRequest) (closing : Error) (log : List Event)
      (host : Host out) (r : Result (Unit {0}) × Handler out Script) : Type 0 where
    pub events : List Event
    pub exchanges : Exchanges place qs host events
    pub written : r.1.channel.log ≡ log ++ events
    pub ends : r.0 ≡ outcome qs closing
    pub same : SameHost out host r.1.host

  log-next :
      (log : List Event) (a b c : Event) (events : List Event)
      → (((log ++ a ∷ []) ++ b ∷ []) ++ c ∷ []) ++ events ≡ log ++ a ∷ b ∷ c ∷ events
  log-next log a b c events = simp append_assoc

  SameHost-trans : {a b c : Host out} → SameHost out a b → SameHost out b c → SameHost out a c
  SameHost-trans p q = record {
    sessions = q.sessions ∙ p.sessions;
    world = q.world ∙ p.world;
    held = q.held ∙ p.held;
    killed = q.killed ∙ p.killed;
    shells = q.shells ∙ p.shells;
  }

  -- one exchange in front of a conversation
  serve_loop-next :
      (fuel place : ℕ) (q : ClientRequest) (qs : List ClientRequest) (closing : Error)
      (log : List Event) (host after : Host out)
      → outcome (q ∷ qs) closing ≡ outcome qs closing
      → Replied out place q (playing qs closing (log ++ received q ∷ []) host) after
      → ((log' : List Event)
          → Conversation place qs closing log' after
              (serve_loop out scripted fuel place (playing qs closing log' after)))
      → Conversation place
          (q ∷ qs)
          closing
          log
          host
          (serve_loop out scripted (suc fuel) place (playing (q ∷ qs) closing log host))
  unfolding serve_loop next_request
  serve_loop-next fuel place q qs closing log host after goes p serve =
      let c = serve (((log ++ received q ∷ []) ++ acknowledged ∷ []) ++ sent p.reply ∷ []) in
      rw p.steps (record {
        events = received q ∷ acknowledged ∷ sent p.reply ∷ c.events;
        exchanges = next p.answers c.exchanges;
        written = c.written ∙ log-next log (received q) acknowledged (sent p.reply) c.events;
        ends = c.ends ∙ sym goes;
        same = SameHost-trans p.same c.same;
      })

  -- A client that asks for some requests on an open session, over a channel that delivers them,
  -- sees each acknowledged and then answered once until it disconnects: a command with what the
  -- session's shell makes of it, in the state in which the earlier commands left that shell, and
  -- any other request with the reply that is fixed for it; nothing else is written to the channel.
  -- A `Disconnect` and a lost connection end the service well, another error of the channel ends it
  -- with that error. The map of sessions and Redis stay as they are, and no shell is lost or
  -- killed. The session's shell ends with each command, and there is fuel for every request and for
  -- the end.
  pub serve_loop-Conversation :
      (fuel place : ℕ) (qs : List ClientRequest) (closing : Error) (log : List Event)
      (host : Host out)
      → Returning place qs host
      → length qs < fuel
      → Conversation place qs closing log host
          (serve_loop out scripted fuel place (playing qs closing log host))
  unfolding serve_loop next_request serve_request
  serve_loop-Conversation zero place qs closing log host answering enough = absurd (omega arith)
  serve_loop-Conversation (suc fuel) place [] closing log host (end _) enough =
      elim (Bool-cases (is_disconnect closing)) [
        | inl lost ↦ rw lost (record {
          events = [];
          exchanges = silent host;
          written = sym (append-nil log);
          ends = rw lost refl;
          same = unchanged out host;
        })
        | inr other ↦ rw other (record {
          events = [];
          exchanges = silent host;
          written = sym (append-nil log);
          ends = rw other refl;
          same = unchanged out host;
        })
      ]
  serve_loop-Conversation (suc fuel) place (disconnect ∷ qs) closing log host (left _ _) enough =
      record {
        events = received disconnect ∷ acknowledged ∷ [];
        exchanges = over qs host;
        written = append_assoc log (received disconnect ∷ []) (acknowledged ∷ []);
        ends = refl;
        same = unchanged out host;
      }
  serve_loop-Conversation (suc fuel) place (ping ∷ qs) closing log host (pings more) enough =
      serve_loop-next fuel place ping qs closing log host host refl (ping-Replied out place _)
        (λ log'. serve_loop-Conversation fuel place qs closing log' host more (omega arith))
  serve_loop-Conversation (suc fuel) place (run command ∷ qs) closing log host
        (returns shell here fine more) enough =
      let after = (ran out place command shell host).1 in
      serve_loop-next fuel place (run command) qs closing log host after refl
        (run-Replied out place command
          (playing qs closing (log ++ received (run command) ∷ []) host) shell here fine)
        (λ log'. serve_loop-Conversation fuel place qs closing log' after more (omega arith))
  serve_loop-Conversation (suc fuel) place (open_ session persistent ∷ qs) closing log host
        (opens more) enough =
      serve_loop-next fuel place (open_ session persistent) qs closing log host host refl
        (open-Replied out place session persistent _)
        (λ log'. serve_loop-Conversation fuel place qs closing log' host more (omega arith))
  serve_loop-Conversation (suc fuel) place (delete_session session ∷ qs) closing log host
        (deletes more) enough =
      serve_loop-next fuel place (delete_session session) qs closing log host host refl
        (delete-Replied out place session _)
        (λ log'. serve_loop-Conversation fuel place qs closing log' host more (omega arith))
