-- ===== src/Commands.antt =====
-- The commands of `main` in `src/main.rs` that use a saved authentication: auth, connect, exec and close.
pub mod Session
pub mod Servers
pub mod Dial
use shex.Prelude.{
  ℕ, Bool, true, false, ◌&&◌, Option, none, some, is_some, List, [], ◌∷◌, ◌++◌, Bytes, codes, eq,
  length, ◌==◌, not, if◌then◌else◌,
}
use shex.Result.{
  Error, Result, ok, err, demand, context, Exec, pure, raise, lift, zoom, proceed, ◌>>=◌, ◌>>◌,
  no_session, hostname_required, empty_code, server_error, unexpected_reply,
}
use shex.Protocol.{
  ClientRequest, ServerReply, open_, run, delete_session, ping, disconnect, hello, opened, deleted,
  pong, output, error,
}
use shex.Channel.{Crypto, Codec}
use shex.Files.{FilePath}
use shex.Credentials.{Machine, Secrets}
use shex.AuthFile.{
  StoredAuth, Envelope, AuthFile, NewAuth, load, save, load_for_host, create_for_host,
}
use shex.RedisStore.{Marker, resolve, resolve_or_default}
use shex.Client.{
  ClientChannel, Client, ask, recv, complain, greet, open_session, execute, interactive,
  split_exec_args, check_auth_host,
}

-- the machine, and the connection with the host
pub record Shex (K C : Type 0) : Type 0 where
  pub machine : Machine K
  pub client : Client C

module _ {K C : Type 0} where
  abbrev pub on_machine : {A : Type 0} → Exec (Machine K) A → Exec (Shex K C) A
  on_machine = zoom (λ s. s.machine) (λ m s. record s { machine = m })

  abbrev pub on_client : {A : Type 0} → Exec (Client C) A → Exec (Shex K C) A
  on_client = zoom (λ s. s.client) (λ c s. record s { client = c })

-- `command.join(" ")`
abbrev pub join_words : List Bytes → Bytes
join_words [] = []
join_words (word ∷ []) = word
join_words (word ∷ more ∷ words) = word ++ 32 ∷ join_words (more ∷ words)

abbrev pub with_session : Option Bytes → AuthFile → AuthFile
with_session session auth = record auth { stored = record auth.stored { last_session = session } }

-- the session that `exec` asks for
abbrev pub requested_session : Bool → Option Bytes → Option Bytes → Result (Option Bytes)
requested_session false last session = ok session
requested_session true none session = err no_session
requested_session true (some last) session = ok (some last)

-- `or_else`
abbrev pub or_last : Option Bytes → Option Bytes → Option Bytes
or_last none last = last
or_last (some session) last = some session

abbrev pub is_last : Option Bytes → Bytes → Bool
is_last none session = false
is_last (some last) session = eq last session

abbrev pub given : Bytes → Option Bytes → Bytes
given default none = default
given default (some url) = url

module _ {C : Type 0} where
  -- the reply to `delete_session`
  abbrev pub deleted_as : Bytes → ServerReply → Exec (Client C) (Unit {0})
  deleted_as session (deleted name) = if eq name session then pure tt else raise unexpected_reply
  deleted_as session (error message) = raise (server_error message)
  deleted_as session other = raise unexpected_reply

module _ {C : Type 0} (chan : ClientChannel C) where
  -- the part of `close` that deletes
  unfoldable pub ask_deleted : Bytes → Exec (Client C) (Unit {0})
  ask_deleted session = do
    ask chan (delete_session session)
    reply ← recv chan
    deleted_as session reply

  abbrev pub note_session : Bytes → Exec (Client C) (Unit {0})
  note_session session = complain chan (codes "session: " ++ (session ++ 10 ∷ []))

  -- what `connect` does on a channel; `lines` are those of stdin
  abbrev pub converse : Option Bytes → List Bytes → Exec (Client C) (Unit {0})
  converse session lines = do
    name ← open_session chan session (is_some session)
    note_session name
    interactive chan lines

-- `dial` is what `client_channel` does before the host greets: it connects to the host's Redis, logs in
-- with the code and makes the encrypted channel.
module _ {C : Type 0} (chan : ClientChannel C)
    (dial : Bytes → Bytes → Bytes → Exec (Client C) (Unit {0})) where
  unfoldable pub client_channel : Bytes → Bytes → Bytes → Option Bytes → Exec (Client C) Bytes
  client_channel redis_url hostname code expected_signature = do
    dial redis_url hostname code
    greet chan expected_signature

  -- the host of a saved authentication, which must be the one that was saved
  abbrev pub saved_channel : AuthFile → Bytes → Exec (Client C) Bytes
  saved_channel saved redis_url =
      client_channel redis_url saved.stored.hostname saved.stored.code
        (some saved.stored.server_signature)

module _ (crypto : Crypto) (codec : Codec StoredAuth) (envelopes : Codec Envelope) {K : Type 0}
    (secrets : Secrets K) (sha256 : Bytes → Bytes) where
  -- `--auth-file`, or the file of a host
  abbrev pub load_saved : Option FilePath → FilePath → Option Bytes → Exec (Machine K) AuthFile
  load_saved (some path) store_dir hostname = load crypto codec envelopes secrets path
  load_saved none store_dir (some hostname) =
      load_for_host crypto codec envelopes secrets sha256 store_dir hostname
  load_saved none store_dir none = raise hostname_required

  unfoldable pub load_host_auth : Option FilePath → FilePath → Bytes → Exec (Machine K) AuthFile
  load_host_auth auth_path store_dir hostname = do
    auth ← load_saved auth_path store_dir (some hostname)
    lift (check_auth_host (λ auth. auth.stored.hostname) hostname auth)

  -- the end of `close`
  abbrev pub forget_session : AuthFile → Bytes → Bytes → Exec (Machine K) (Unit {0})
  forget_session saved session nonce =
      if is_last saved.stored.last_session session
      then save crypto codec envelopes secrets nonce (with_session none saved)
      else pure tt

  module _ {C : Type 0} (chan : ClientChannel C)
      (dial : Bytes → Bytes → Bytes → Exec (Client C) (Unit {0})) where
    -- `Command::Exec` after the arguments are split
    unfoldable pub exec_saved : AuthFile → Option Bytes → Bytes → Bytes → Exec (Shex K C) (Option ℕ)
    exec_saved saved requested command nonce = do
      on_client (saved_channel chan dial saved saved.stored.redis_url)
      session ← on_client (open_session chan requested true)
      on_machine (save crypto codec envelopes secrets nonce (with_session (some session) saved))
      on_client (note_session chan session)
      on_client (execute chan command)

    unfoldable pub exec_command :
        Option FilePath
        → FilePath
        → Option Bytes
        → Bool
        → List Bytes
        → Bytes
        → Exec (Shex K C) (Option ℕ)
    exec_command auth_path store_dir session past args nonce = do
      (hostname, command) ← lift (split_exec_args args (is_some auth_path))
      saved ← on_machine (load_saved auth_path store_dir hostname)
      requested ← lift (requested_session past saved.stored.last_session session)
      exec_saved saved requested (join_words command) nonce

    unfoldable pub close_command :
        Option Bytes
        → Option FilePath
        → FilePath
        → Option Bytes
        → Bytes
        → Exec (Shex K C) (Unit {0})
    close_command hostname auth_path store_dir session nonce = do
      saved ← on_machine (load_saved auth_path store_dir hostname)
      chosen ← lift (context (or_last session saved.stored.last_session) no_session)
      on_client (saved_channel chan dial saved saved.stored.redis_url)
      on_client (ask_deleted chan chosen)
      on_machine (forget_session saved chosen nonce)

    module _ (markers : Codec Marker) (valid_url : Bytes → Bool) where
      -- `Command::Auth`, with the code that was read
      unfoldable pub auth_command :
          Bytes → Option Bytes → Bytes → FilePath → NewAuth → Exec (Shex K C) AuthFile
      auth_command hostname reference code store_dir drawn = do
        redis_url ←
            on_machine (resolve_or_default markers valid_url secrets sha256 store_dir reference)
        demand (not (length code == 0)) empty_code
        signature ← on_client (client_channel chan dial redis_url hostname code none)
        on_client (ask chan disconnect)
        on_machine (
            create_for_host crypto codec envelopes secrets sha256
              (record {
                redis_url = redis_url;
                hostname = hostname;
                server_signature = signature;
                code = code;
                last_session = none;
              })
              store_dir drawn)

      -- `Command::Connect` with a code from stdin
      unfoldable pub connect_with_code :
          Bytes
          → Option Bytes
          → Bytes
          → FilePath
          → Option Bytes
          → List Bytes
          → Exec (Shex K C) (Unit {0})
      connect_with_code hostname reference code store_dir session lines = do
        demand (not (length code == 0)) empty_code
        redis_url ←
            on_machine (resolve_or_default markers valid_url secrets sha256 store_dir reference)
        on_client (client_channel chan dial redis_url hostname code none)
        on_client (converse chan session lines)

      -- `Command::Connect` with a saved authentication
      unfoldable pub connect_saved :
          Bytes
          → Option Bytes
          → Option FilePath
          → FilePath
          → Option Bytes
          → List Bytes
          → Exec (Shex K C) (Unit {0})
      connect_saved hostname reference auth_path store_dir session lines = do
        saved ← on_machine (load_host_auth auth_path store_dir hostname)
        redis_url ← on_machine (
            resolve markers valid_url secrets sha256 store_dir
              (given saved.stored.redis_url reference))
        on_client (saved_channel chan dial saved redis_url)
        on_client (converse chan session lines)
