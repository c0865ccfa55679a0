-- ===== src/Server/Dropping.antt =====
-- What dropping a session, as the connections of `src/server.rs` do, leaves of the host's state.
use shex.Prelude.{ℕ, ◌≡◌, List, ◌∷◌, if◌then◌else◌, arith}
use shex.Server.{Outside, Host, in_use, let_go, without}

pub without-same : (place : ℕ) (ps : List ℕ) → without place (place ∷ ps) ≡ ps
unfolding without
without-same place ps = ground arith

module _ (out : Outside) where
  -- what the drop of a session leaves alone
  pub let_go-sessions :
      (place : ℕ) (host : Host out) → (let_go out place host).sessions ≡ host.sessions
  unfolding let_go
  let_go-sessions place host = ground arith

  pub let_go-world : (place : ℕ) (host : Host out) → (let_go out place host).world ≡ host.world
  unfolding let_go
  let_go-world place host = ground arith

  pub let_go-shells : (place : ℕ) (host : Host out) → (let_go out place host).shells ≡ host.shells
  unfolding let_go
  let_go-shells place host = ground arith

  pub let_go-killed :
      (place : ℕ) (host : Host out)
      → (let_go out place host).killed
        ≡ (if in_use out place host then host.killed else place ∷ host.killed)
  unfolding let_go
  let_go-killed place host = ground arith
