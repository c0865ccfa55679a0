-- ===== src/Client.antt =====
-- The client's side of a connection: `split_exec_args`, `client_channel`, `open_session`, `execute` and
-- `interactive` of `src/main.rs`.
pub mod Arguments
pub mod Dialogue
use mathlib.Core.List.{reverse}
use shex.Prelude.{
  ℕ, zero, suc, ◌+◌, Bool, true, false, not, ◌&&◌, ◌||◌, Option, none, some, List, [], ◌∷◌, ◌++◌,
  Bytes, codes, eq, length, ltb, ◌==◌, within, if◌then◌else◌,
}
use shex.Result.{
  Result, ok, err, Exec, pure, raise, lift, gets, modify, zoom, proceed, ◌>>=◌, ◌>>◌, exec_usage,
  command_required, signature_mismatch, expected_identity, unexpected_reply, server_error,
  wrong_auth_file,
}
use shex.Shell.Status.{ℤ, pos, negsuc}
use shex.Protocol.{
  ClientRequest, ServerReply, open_, run, delete_session, ping, disconnect, hello, opened, deleted,
  pong, output, error,
}

-- What the client asks of the encrypted channel.
pub record ClientChannel (C : Type 0) : Type 0 where
  pub send : ClientRequest → Exec C (Unit {0})
  pub recv_unacknowledged : Exec C ServerReply
  pub acknowledge : Exec C (Unit {0})
  pub wait_indefinitely : C → C

-- the channel, and what went to stdout and stderr
pub record Client (C : Type 0) : Type 0 where
  pub channel : C
  pub printed : Bytes
  pub complained : Bytes

abbrev after_hostname : Option Bytes → List Bytes → Result (Option Bytes × List Bytes)
after_hostname hostname [] = err command_required
after_hostname hostname (arg ∷ args) = ok (hostname, arg ∷ args)

abbrev without_dashes : List Bytes → List Bytes
without_dashes [] = []
without_dashes (arg ∷ args) = if eq arg (codes "--") then args else arg ∷ args

unfoldable pub split_exec_args : List Bytes → Bool → Result (Option Bytes × List Bytes)
split_exec_args args true = after_hostname none (without_dashes args)
split_exec_args [] false = err exec_usage
split_exec_args (hostname ∷ []) false = err exec_usage
split_exec_args (hostname ∷ arg ∷ args) false =
    after_hostname (some hostname) (without_dashes (arg ∷ args))

-- the end of `load_host_auth`: the file must belong to the host that was asked for
unfoldable pub check_auth_host : {A : Type 0} → (A → Bytes) → Bytes → A → Result A
check_auth_host hostname_of hostname auth =
    if eq (hostname_of auth) hostname then ok auth else err wrong_auth_file

-- `str::trim_end` on UTF-8, whose characters of white space have up to three bytes
abbrev pub white1 : ℕ → Bool
white1 x = within 9 13 x || x == 32

abbrev pub white2 : ℕ → ℕ → Bool
white2 x y = x == 194 && (y == 133 || y == 160)

abbrev pub white3 : ℕ → ℕ → ℕ → Bool
white3 x y z =
    x == 225 && y == 154 && z == 128
    || x == 226 && y == 128 && (within 128 138 z || within 168 169 z || z == 175)
    || x == 226 && y == 129 && z == 159
    || x == 227 && y == 128 && z == 128

-- the bytes of the white space that a text, given backwards, ends with
abbrev pub white_length : Bytes → ℕ
white_length [] = 0
white_length (x ∷ []) = if white1 x then 1 else 0
white_length (x ∷ y ∷ []) = if white1 x then 1 else if white2 y x then 2 else 0
white_length (x ∷ y ∷ z ∷ rest) =
    if white1 x then 1 else if white2 y x then 2 else if white3 z y x then 3 else 0

-- `n` bytes of a character are still to go
unfoldable pub trim_reversed : ℕ → Bytes → Bytes
trim_reversed n [] = []
trim_reversed (suc n) (x ∷ xs) = trim_reversed n xs
trim_reversed zero (x ∷ xs) = elim (white_length (x ∷ xs)) [
  | zero ↦ x ∷ xs
  | suc n ↦ trim_reversed n xs
]

unfoldable pub trim_end : Bytes → Bytes
unfolding trim_reversed
trim_end text = reverse (trim_reversed 0 (reverse text))

-- `clamp(1, 255)`
abbrev pub clamped : ℤ → ℕ
clamped (pos zero) = 1
clamped (pos (suc n)) = if ltb 254 n then 255 else suc n
clamped (negsuc n) = 1

-- the exit code of the process, where it exits
abbrev pub exit_code : ℤ → Option ℕ
exit_code (pos zero) = none
exit_code (pos (suc n)) = some (clamped (pos (suc n)))
exit_code (negsuc n) = some (clamped (negsuc n))

module _ {C : Type 0} (chan : ClientChannel C) where
  abbrev pub on_channel : {A : Type 0} → Exec C A → Exec (Client C) A
  on_channel = zoom (λ s. s.channel) (λ c s. record s { channel = c })

  abbrev pub ask : ClientRequest → Exec (Client C) (Unit {0})
  ask request = on_channel (chan.send request)

  abbrev pub waiting : Exec (Client C) (Unit {0})
  waiting = modify (λ s. record s { channel = chan.wait_indefinitely s.channel })

  -- `print!`, to a stdout that takes it
  abbrev pub print : Bytes → Exec (Client C) (Unit {0})
  print text = modify (λ s. record s { printed = s.printed ++ text })

  abbrev pub complain : Bytes → Exec (Client C) (Unit {0})
  complain text = modify (λ s. record s { complained = s.complained ++ text })

  abbrev pub recv : Exec (Client C) ServerReply
  recv = on_channel (do reply ← chan.recv_unacknowledged; chan.acknowledge; pure reply)

  abbrev identity : ServerReply → Exec (Client C) Bytes
  identity (hello signature) = pure signature
  identity other = raise expected_identity

  abbrev pinned : Option Bytes → Bytes → Bool
  pinned none signature = true
  pinned (some expected) signature = eq expected signature

  -- `client_channel`, once the client is authenticated
  unfoldable pub greet : Option Bytes → Exec (Client C) Bytes
  greet expected_signature = do
    reply ← recv
    signature ← identity reply
    if pinned expected_signature signature then pure signature else raise signature_mismatch

  abbrev opened_as : ServerReply → Exec (Client C) Bytes
  opened_as (opened session) = pure session
  opened_as (error message) = raise (server_error message)
  opened_as other = raise unexpected_reply

  unfoldable pub open_session : Option Bytes → Bool → Exec (Client C) Bytes
  open_session session persistent = do ask (open_ session persistent); reply ← recv; opened_as reply

  abbrev executed : ServerReply → Exec (Client C) (Option ℕ)
  executed (output text status) = do
    print text
    on_channel chan.acknowledge
    ask disconnect
    pure (exit_code status)
  executed (error message) = do on_channel chan.acknowledge; raise (server_error message)
  executed other = raise unexpected_reply

  -- `some` code exits the process with it.
  unfoldable pub execute : Bytes → Exec (Client C) (Option ℕ)
  execute command = do
    waiting
    ask (run command)
    reply ← on_channel chan.recv_unacknowledged
    executed reply

  abbrev shown : ServerReply → Exec (Client C) (Unit {0})
  shown (output text status) = do print text; on_channel chan.acknowledge
  shown (error message) = do
    complain (codes "server: " ++ message ++ 10 ∷ [])
    on_channel chan.acknowledge
  shown other = raise unexpected_reply

  unfoldable pub run_line : Bytes → Exec (Client C) (Unit {0})
  run_line command = do ask (run command); reply ← on_channel chan.recv_unacknowledged; shown reply

  -- what a line of the user does, with `again` as the rest of the loop
  unfoldable pub on_line : Bytes → Exec (Client C) (Unit {0}) → Exec (Client C) (Unit {0})
  on_line command again =
      if eq command (codes "exit")
      then ask disconnect
      else if eq command []
      then again
      else (do run_line command; again)

  -- the loop of `interactive` on the lines that stdin has
  unfoldable pub read_lines : List Bytes → Exec (Client C) (Unit {0})
  read_lines [] = do complain (codes "shex> "); ask disconnect
  read_lines (line ∷ lines) = do
    complain (codes "shex> ")
    on_line (trim_end line) (read_lines lines)

  unfoldable pub interactive : List Bytes → Exec (Client C) (Unit {0})
  interactive lines = do waiting; read_lines lines
