-- ===== src/Server/Deletion.antt =====
-- `Open` of a new session and `DeleteSession` in `handle` of `src/server.rs`, on the map and in
-- Redis.
use shex.Prelude.{
  ◌≡◌, refl, ℕ, ◌+◌, true, none, some, List, [], ◌∷◌, ◌++◌, Bytes, codes, eq, eq_iff, eq_refl,
  length, if◌then◌else◌, arith, any, ◌||◌, ◌==◌, ap, ◌∙◌,
}
use shex.Result.{Error, ok, err}
use shex.Redis.{text}
use shex.Redis.World.{World, query_quiet}
use shex.Names.{hex}
use shex.Keys.{session_key}
use shex.Shell.{ShellSession}
use shex.Host.{create_session_lookup, delete_session_lookup}
use shex.Protocol.{deleted, error}
use shex.Server.{
  Outside, Handler, draw, unknown_session, delete, delete_removed, lookup_for, spawn, new_session,
}
use shex.Server.Dropping.{let_go-sessions, let_go-world, let_go-shells, let_go-killed}
use shex.Server.Sessions.{Session, lookup, insert, remove, nth}
use shex.Server.Script.{Script, scripted, noted, acknowledged, sent}

lookup-remove :
    (i id : Bytes) (m : List (Bytes × Session))
    → lookup i (remove id m) ≡ (if eq id i then none else lookup i m)
unfolding lookup remove
lookup-remove i id [] = ground arith
lookup-remove i id ((k, s) ∷ m) =
    ground (arith, lookup-remove i id m, eq_iff k id, eq_iff k i, eq_iff id i)

remove-absent : (id : Bytes) (m : List (Bytes × Session)) → lookup id m ≡ none → remove id m ≡ m
unfolding lookup remove
remove-absent id [] h = refl
remove-absent id ((k, s) ∷ m) h = ground (arith, h, remove-absent id m)

lookup-insert :
    (i id : Bytes) (s : Session) (m : List (Bytes × Session))
    → lookup i (insert id s m) ≡ (if eq id i then some s else lookup i m)
unfolding insert lookup
lookup-insert i id s m = ground (arith, lookup-remove i id m)

nth-last {ℓ} : {A : Type ℓ} (xs : List A) (x : A) → nth (length xs) (xs ++ x ∷ []) ≡ ok x
unfolding nth
nth-last [] x = refl
nth-last (y ∷ ys) x = nth-last ys x

module _ (out : Outside) where
  -- Deleting a session that the host does not have is acknowledged, and answered with an error; the
  -- host stays as it was.
  delete-unknown :
      (session : Bytes) (h : Handler out Script)
      → lookup session h.host.sessions ≡ none
      → delete out scripted session h ≡ (
        ok tt,
        record h {
          channel = noted (sent (error (codes "unknown session"))) (noted acknowledged h.channel);
        },
      )
  unfolding delete delete_removed unknown_session
  delete-unknown session h unknown =
      rw (unknown, remove-absent session h.host.sessions unknown) refl

  module _ (h : Handler out Script) (quiet : h.host.world.turns ≡ []) where
    -- Deleting a session that Redis knows, on a quiet network, takes it out of the map and its
    -- lookup out of Redis, both alone, the request is then acknowledged and answered, and the
    -- session's shell is killed, unless a connection still has the session open or another entry of
    -- the map has the same shell.
    pub delete-known :
        (session key : Bytes) (place : ℕ)
        → lookup session h.host.sessions ≡ some (record { shell = place; lookup_key = some key })
        → let (r, h') = delete out scripted session h in
          (r ≡ ok tt)
          × (h'.channel ≡ noted (sent (deleted session)) (noted acknowledged h.channel))
          × ((i : Bytes)
              → lookup i h'.host.sessions
                ≡ (if eq session i then none else lookup i h.host.sessions))
          × ((j : Bytes)
              → out.redis.lookup h'.host.world.db j
                ≡ (if eq j key then none else out.redis.lookup h.host.world.db j))
          × (h'.host.shells ≡ h.host.shells)
          × (h'.host.killed ≡ (
              if any (◌==◌ place) h.host.held
                || any
                    (λ (entry : Bytes × Session). place == entry.1.shell)
                    (remove session h.host.sessions)
              then h.host.killed
              else place ∷ h.host.killed))
    unfolding delete delete_removed delete_session_lookup
    delete-known session key place known =
        rw (known, query_quiet (out.redis.del key) h.host.world quiet, out.redis.del-reply)
          (
            refl,
            refl,
            λ i.
                ap (lookup i) (let_go-sessions out place _)
                ∙ lookup-remove i session h.host.sessions,
            λ j.
                ap (λ (w : World out.redis.Db). out.redis.lookup w.db j) (let_go-world out place _)
                ∙ out.redis.lookup-del key h.host.world.db j,
            let_go-shells out place _,
            let_go-killed out place _,
          )

    abbrev new_id : Bytes
    new_id = out.random_id h.host.drawn

    abbrev new_key : Bytes
    new_key = session_key h.host.hostname (hex (out.sha256 new_id))

    -- A new persistent session, on a quiet network and with a shell that starts, has the next
    -- random id, is found in the map by it, has the shell that was started, and its lookup leads to
    -- the host's name. Other sessions and keys stay as they were.
    pub new_session-found :
        (shell : ShellSession out.sh)
        → out.spawn (h.host.drawn + 1) ≡ ok shell
        → let (r, h') = new_session out scripted true h in
          let session : Session = record {
            shell = length h.host.shells;
            lookup_key = some new_key;
          } in
          (r ≡ ok (new_id, session))
          × ((i : Bytes)
              → lookup i h'.host.sessions
                ≡ (if eq new_id i then some session else lookup i h.host.sessions))
          × (nth session.shell h'.host.shells ≡ ok shell)
          × ((j : Bytes)
              → out.redis.lookup h'.host.world.db j ≡ (
                  if eq j new_key
                  then some (text h.host.hostname)
                  else out.redis.lookup h.host.world.db j))
    unfolding new_session draw lookup_for spawn create_session_lookup
    new_session-found shell starts =
        rw
          (
            query_quiet (out.redis.set new_key h.host.hostname) h.host.world quiet,
            out.redis.set-reply,
            starts,
          )
          (
            refl,
            λ i. lookup-insert i new_id _ h.host.sessions,
            nth-last h.host.shells shell,
            out.redis.lookup-set new_key h.host.hostname h.host.world.db,
          )

    -- When the shell of a new persistent session does not start, on a quiet network, the request
    -- fails with that error and the map is as it was, but Redis keeps a lookup for the id.
    pub new_session-stale :
        (e : Error)
        → out.spawn (h.host.drawn + 1) ≡ err e
        → let (r, h') = new_session out scripted true h in
          (r ≡ err e)
          × (h'.host.sessions ≡ h.host.sessions)
          × (out.redis.lookup h'.host.world.db new_key ≡ some (text h.host.hostname))
    unfolding new_session draw lookup_for spawn create_session_lookup
    new_session-stale e fails =
        rw
          (
            query_quiet (out.redis.set new_key h.host.hostname) h.host.world quiet,
            out.redis.set-reply,
            fails,
          )
          (refl, refl, rw (out.redis.lookup-set, eq_refl new_key) refl)
