-- ===== src/Server/Replies.antt =====
-- One round of the second loop of `handle` in `src/server.rs`.
use shex.Prelude.{
  ℕ, zero, suc, ◌+◌, ◌≡◌, refl, ap, Bool, false, Option, List, [], ◌∷◌, ◌++◌, Bytes, codes, length,
}
use shex.Result.{Error, Result, ok, err}
use shex.Shell
use shex.Shell.{ShellSession}
use shex.Shell.Status.{ℤ}
use shex.Protocol.{
  output, ClientRequest, ServerReply, open_, run, delete_session, ping, pong, error,
}
use shex.Server.{Outside, Host, Handler, draw, run_in, is_stuck, output_reply, serve_request}
use shex.Server.Sessions.{nth, set_nth}
use shex.Server.Script.{acknowledged, sent, Script, scripted, noted}

length-set_nth {ℓ} :
    {A : Type ℓ} (place : ℕ) (x : A) (xs : List A) → length (set_nth place x xs) ≡ length xs
unfolding set_nth
length-set_nth place x [] = refl
length-set_nth zero x (y ∷ ys) = refl
length-set_nth (suc place) x (y ∷ ys) = ap suc (length-set_nth place x ys)

module _ (out : Outside) where
  -- the shell in its place, and the next id, after a command
  abbrev pub ran : ℕ → Bytes → ShellSession out.sh → Host out → Result (Bytes × ℤ) × Host out
  ran place command shell host =
      let (result, after) =
        Shell.run out.sh out.lossy (codes "SHEX-" ++ out.random_id host.drawn) command shell in
      (result, record host { drawn = host.drawn + 1; shells = set_nth place after host.shells })

  -- Which reply answers a request on an open session whose shell has this place, and the host then. A command is
  -- answered with what that shell makes of it.
  pub data Answers (place : ℕ) : ClientRequest → Host out → ServerReply → Host out → Type 0 where
    answered :
        (command : Bytes) (host : Host out) (shell : ShellSession out.sh) (text : Bytes)
        (status : ℤ)
        → nth place host.shells ≡ ok shell
        → (ran place command shell host).0 ≡ ok (text, status)
        → Answers place (run command) host (output text status) (ran place command shell host).1
    failed :
        (command : Bytes) (host : Host out) (shell : ShellSession out.sh) (e : Error)
        → nth place host.shells ≡ ok shell
        → (ran place command shell host).0 ≡ err e
        → Answers place (run command) host (error (out.display e)) (ran place command shell host).1
    reopened :
        (session : Option Bytes) (persistent : Bool) (host : Host out)
        → Answers place
            (open_ session persistent)
            host
            (error (codes "session is already open"))
            host
    undeleted :
        (session : Bytes) (host : Host out)
        → Answers place
            (delete_session session)
            host
            (error (codes "cannot delete a session from an open connection"))
            host
    ponged : (host : Host out) → Answers place ping host pong host

  -- what serving leaves alone
  pub record SameHost (a b : Host out) : Type 0 where
    pub sessions : b.sessions ≡ a.sessions
    pub world : b.world ≡ a.world
    pub held : b.held ≡ a.held
    pub killed : b.killed ≡ a.killed
    pub shells : length b.shells ≡ length a.shells

  -- `serve_request` has acknowledged a request, answered it, and goes on.
  pub record Replied (place : ℕ) (q : ClientRequest) (h : Handler out Script) (host : Host out)
      : Type 0 where
    pub reply : ServerReply
    pub steps : serve_request out scripted place q h ≡ (
      ok false,
      record h { channel = noted (sent reply) (noted acknowledged h.channel); host = host },
    )
    pub answers : Answers place q h.host reply host
    pub same : SameHost h.host host

  pub unchanged : (a : Host out) → SameHost a a
  unchanged a = record { sessions = refl; world = refl; held = refl; killed = refl; shells = refl }

  run-Answers :
      (place : ℕ) (command : Bytes) (host : Host out) (shell : ShellSession out.sh)
      (result : Result (Bytes × ℤ))
      → nth place host.shells ≡ ok shell
      → (ran place command shell host).0 ≡ result
      → Answers place
          (run command)
          host
          (output_reply out scripted result)
          (ran place command shell host).1
  run-Answers place command host shell (ok (text, status)) here e =
      answered command host shell text status here e
  run-Answers place command host shell (err x) here e = failed command host shell x here e

  pub run-Replied :
      (place : ℕ) (command : Bytes) (h : Handler out Script) (shell : ShellSession out.sh)
      → nth place h.host.shells ≡ ok shell
      → is_stuck (ran place command shell h.host).0 ≡ false
      → Replied place (run command) h (ran place command shell h.host).1
  unfolding serve_request run_in draw
  run-Replied place command h shell here returns = record {
    reply = output_reply out scripted (ran place command shell h.host).0;
    steps = rw (here, returns);
    answers = run-Answers place command h.host shell _ here refl;
    same = record {
      sessions = refl;
      world = refl;
      held = refl;
      killed = refl;
      shells = length-set_nth place _ h.host.shells;
    };
  }

  pub open-Replied :
      (place : ℕ) (session : Option Bytes) (persistent : Bool) (h : Handler out Script)
      → Replied place (open_ session persistent) h h.host
  unfolding serve_request
  open-Replied place session persistent h = record {
    reply = error (codes "session is already open");
    steps = refl;
    answers = reopened session persistent h.host;
    same = unchanged h.host;
  }

  pub delete-Replied :
      (place : ℕ) (session : Bytes) (h : Handler out Script)
      → Replied place (delete_session session) h h.host
  unfolding serve_request
  delete-Replied place session h = record {
    reply = error (codes "cannot delete a session from an open connection");
    steps = refl;
    answers = undeleted session h.host;
    same = unchanged h.host;
  }

  pub ping-Replied : (place : ℕ) (h : Handler out Script) → Replied place ping h h.host
  unfolding serve_request
  ping-Replied place h = record {
    reply = pong;
    steps = refl;
    answers = ponged h.host;
    same = unchanged h.host;
  }
