-- ===== src/Tests/Connection.antt =====
-- A host with one session, and the requests of a client.
use shex.Prelude.{
  starts_with, false, ◌≡◌, refl, true, Bytes, codes, List, [], ◌∷◌, some, none, if◌then◌else◌,
  arith, eq,
}
use shex.Result.{Result, ok, err, Error, io, unexpected_eof, shell_start_failed}
use shex.Names.{hex}
use shex.Keys.{session_key}
use shex.Shell.{ShellSession}
use shex.Redis.{text}
use shex.Redis.Memory.{memory, lasting}
use shex.Protocol.{ClientRequest, ping, run, open_, delete_session, disconnect, deleted}
use shex.Server.{is_stuck, handle, Outside, Host, Handler, serve_loop, delete, new_session}
use shex.Server.Sessions.{Session, lookup, remove, nth}
use shex.Server.Script.{Script, scripted, noted, acknowledged, sent}
use shex.Server.Order.{
  Conversation, returns, pings, opens, deletes, left, playing, serve_loop-Conversation,
}
use shex.Server.Whole.{with_shell, Visit, handle-Visit}
use shex.Server.Deletion.{delete-known, new_session-found, new_session-stale}
use shex.Shell
use shex.Tests.Shells.{shell, fresh}

abbrev outside : Result (ShellSession shell) → Outside
outside start = record {
  redis = memory;
  sh = shell;
  lossy = λ b. b;
  sha256 = λ b. b;
  random_id = λ n. n ∷ [];
  spawn = λ n. start;
  display = λ e. codes "failed";
}

abbrev out : Outside
out = outside (ok fresh)

abbrev session : Session
session = record { shell = 0; lookup_key = some (codes "k") }

abbrev host : (start : Result (ShellSession shell)) → Host (outside start)
host start = record {
  hostname = codes "fox";
  sessions = (codes "s", session) ∷ [];
  shells = fresh ∷ [];
  world = record { db = lasting ((codes "k", text (codes "fox")) ∷ []); clock = 0; turns = [] };
  drawn = 4;
  held = [];
  killed = [];
}

abbrev asking : List ClientRequest
asking =
    run (codes "date")
    ∷ ping
    ∷ open_ none true
    ∷ delete_session (codes "s")
    ∷ disconnect
    ∷ ping
    ∷ []

abbrev closing : Error
closing = io unexpected_eof

-- a shell that exits after its answer
abbrev exiting : ShellSession shell
exiting = record fresh { alive = false }

abbrev short_lived : Host out
short_lived = record (host (ok fresh)) { shells = exiting ∷ [] }

serve_loop-Conversation_example :
    Conversation out 0 asking closing [] short_lived
      (serve_loop out scripted 7 0 (playing out asking closing [] short_lived))
unfolding nth is_stuck shex.Shell.run shex.Shell.collect shex.Shell.write_line shex.Shell.read_until
    shex.Shell.split_line shex.Shell.completion_in shex.Shell.find starts_with
    shex.Shell.printed_marker
serve_loop-Conversation_example =
    serve_loop-Conversation out 7 0 asking closing [] short_lived
      (returns {command = codes "date"} {host = short_lived} exiting refl refl
        (pings (opens (deletes (left (ping ∷ []) _)))))
      (omega arith)

abbrev spawned : Outside
spawned = outside (ok exiting)

handle-Visit_example : Visit spawned exiting (codes "key") asking closing [] (host (ok exiting)) (
    handle spawned scripted 7
      (codes "key")
      (playing spawned (open_ none false ∷ asking) closing [] (host (ok exiting))))
unfolding nth is_stuck shex.Shell.run shex.Shell.collect shex.Shell.write_line shex.Shell.read_until
    shex.Shell.split_line shex.Shell.completion_in shex.Shell.find starts_with
    shex.Shell.printed_marker
handle-Visit_example =
    handle-Visit spawned 6 (codes "key") asking closing [] (host (ok exiting)) exiting refl
      (returns {command = codes "date"} {host = with_shell spawned exiting (host (ok exiting))}
        exiting refl refl (pings (opens (deletes (left (ping ∷ []) _)))))
      (omega arith)

abbrev connected : (start : Result (ShellSession shell)) → Handler (outside start) Script
connected start = playing (outside start) [] closing [] (host start)

delete-known_example :
    let (r, h') = delete out scripted (codes "s") (connected (ok fresh)) in
    (r ≡ ok tt)
    × (h'.channel
        ≡ noted (sent (deleted (codes "s"))) (noted acknowledged (connected (ok fresh)).channel))
    × ((i : Bytes)
        → lookup i h'.host.sessions
          ≡ (if eq (codes "s") i then none else lookup i (host (ok fresh)).sessions))
    × ((j : Bytes)
        → memory.lookup h'.host.world.db j
          ≡ (if eq j (codes "k") then none else memory.lookup (host (ok fresh)).world.db j))
    × (h'.host.shells ≡ fresh ∷ [])
    × (h'.host.killed ≡ 0 ∷ [])
unfolding lookup eq remove
delete-known_example = delete-known out (connected (ok fresh)) refl (codes "s") (codes "k") 0 refl

abbrev new_key : Bytes
new_key = session_key (codes "fox") (hex (4 ∷ []))

new_session-found_example :
    let (r, h') = new_session out scripted true (connected (ok fresh)) in
    let made : Session = record { shell = 1; lookup_key = some new_key } in
    (r ≡ ok (4 ∷ [], made))
    × ((i : Bytes)
        → lookup i h'.host.sessions
          ≡ (if eq (4 ∷ []) i then some made else lookup i (host (ok fresh)).sessions))
    × (nth 1 h'.host.shells ≡ ok fresh)
    × ((j : Bytes)
        → memory.lookup h'.host.world.db j ≡ (
            if eq j new_key
            then some (text (codes "fox"))
            else memory.lookup (host (ok fresh)).world.db j))
new_session-found_example = new_session-found out (connected (ok fresh)) refl fresh refl

abbrev failing : Result (ShellSession shell)
failing = err shell_start_failed

new_session-stale_example :
    let (r, h') = new_session (outside failing) scripted true (connected failing) in
    (r ≡ err shell_start_failed)
    × (h'.host.sessions ≡ (codes "s", session) ∷ [])
    × (memory.lookup h'.host.world.db new_key ≡ some (text (codes "fox")))
new_session-stale_example =
    new_session-stale (outside failing) (connected failing) refl shell_start_failed refl
