-- ===== src/Shell.antt =====
-- `ShellSession::run` and `completion_in` of `src/server.rs`: one command is sent to a shell, and
-- its output is read up to a marker that carries the exit status.
pub mod Status
pub mod Completion
pub mod Reading
pub mod Output
use shex.Prelude.{
  not, contains_byte, starts_with, ℕ, zero, suc, ◌+◌, ◌*◌, Bool, Option, none, some, List, [], ◌∷◌,
  ◌++◌, Bytes, codes, ltb, ◌==◌, ◌&&◌, true, false, if◌then◌else◌, length, take, drop,
}
use shex.Result.{
  ErrorKind, io, Error, Result, ok, err, Exec, pure, raise, lift, gets, modify, proceed, ◌>>=◌,
  ◌>>◌, shell_exited, output_too_large, fuel_exhausted, never_returns,
}
use shex.Shell.Status.{ℤ, parse_i32}

abbrev pub map_option {ℓ κ} : {A : Type ℓ} {B : Type κ} → (A → B) → Option A → Option B
map_option f none = none
map_option f (some a) = some (f a)

-- `chunk.windows(prefix.len()).position(|window| window == prefix)`, of a prefix that is not empty
unfoldable pub find : Bytes → Bytes → Option ℕ
unfolding starts_with
find prefix [] = none
find prefix (c ∷ cs) =
    if starts_with prefix (c ∷ cs) then some 0 else map_option suc (find prefix cs)

-- `iter().position(|byte| *byte == b)`
unfoldable pub position : ℕ → Bytes → Option ℕ
position b [] = none
position b (c ∷ cs) = if c == b then some 0 else map_option suc (position b cs)

abbrev pub unit_separator : ℕ
unit_separator = 0x1f

abbrev pub record_separator : ℕ
record_separator = 0x1e

-- the status field, and its end
pub status_at : ℕ → Bytes → Option (ℕ × ℤ)
unfolding position
status_at marker_start field = elim (position unit_separator field) [
  | none ↦ none
  | some len ↦ map_option (λ status. (marker_start, status)) (parse_i32 (take len field))
]

unfoldable pub completion_in : Bytes → Bytes → Option (ℕ × ℤ)
unfolding find status_at
completion_in chunk prefix = elim (find prefix chunk) [
  | none ↦ none
  | some marker_start ↦ status_at marker_start (drop (marker_start + length prefix) chunk)
]

-- a text cut behind its first newline, or at its end
unfoldable pub split_line : Bytes → Bytes × Bytes
split_line [] = ([], [])
split_line (c ∷ cs) =
    let (line, rest) = split_line cs in if c == b'\n' then (c ∷ [], cs) else (c ∷ line, rest)

-- `std::io::Result`
pub data Io {ℓ} (A : Type ℓ) : Type ℓ where
  done : A → Io A
  failed : ErrorKind → Io A

-- The `sh` process: what it prints in answer to a piece of input.
pub record Sh : Type 1 where
  pub Process : Type 0
  pub accept : Bytes → Process → Io (Process × Bytes)

-- `output` is what the shell has printed, or will print unasked, and `run` has not read. Behind it the stream is at its
-- end, or the shell is `alive`: it is silent, or in a line that never ends.
pub record ShellSession (sh : Sh) : Type 0 where
  pub process : sh.Process
  pub output : Bytes
  pub alive : Bool

abbrev pub output_limit : ℕ
output_limit = 16 * 1024 * 1024

-- the line behind a command: `printf` of the marker and of `$?`
unfoldable pub printed_marker : Bytes → Bytes
printed_marker marker = codes "printf '\\036" ++ (marker ++ codes ":%d\\037\\n' \"$?\"")

module _ (sh : Sh) where
  -- `writeln!`, then `flush`
  unfoldable pub write_line : Bytes → Exec (ShellSession sh) (Unit {0})
  write_line text s = elim (sh.accept (text ++ b'\n' ∷ []) s.process) [
    | failed kind ↦ (err (io kind), s)
    | done (process, printed) ↦
        (ok tt, record s { process = process; output = s.output ++ printed })
  ]

  -- `self.output.read_until(b'\n', &mut line)`: it waits for a newline or the end of the stream, and on an open stream
  -- without a newline it never returns.
  unfoldable pub read_until : Exec (ShellSession sh) Bytes
  read_until s =
      let (line, rest) = split_line s.output in
      if s.alive && not (contains_byte b'\n' line)
      then (err never_returns, s)
      else (ok line, record s { output = rest })

  -- what the loop does with a line; `again` is the next round
  abbrev pub after_line :
      Bytes
      → Bytes
      → (Bytes → Exec (ShellSession sh) (Bytes × ℤ))
      → Bytes
      → Exec (ShellSession sh) (Bytes × ℤ)
  after_line prefix collected again line s =
      if length line == 0 then (err shell_exited, s) else elim (completion_in line prefix) [
        | some (output_end, status) ↦ (ok (collected ++ take output_end line, status), s)
        | none ↦
            if ltb output_limit (length (collected ++ line))
            then (err output_too_large, s)
            else again (collected ++ line) s
      ]

  -- The loop of `run`. Each round adds to `collected`, which is bounded.
  unfoldable pub collect : ℕ → Bytes → Bytes → Exec (ShellSession sh) (Bytes × ℤ)
  collect zero prefix collected s = (err fuel_exhausted, s)
  collect (suc fuel) prefix collected s =
      (do line ← read_until; after_line prefix collected (collect fuel prefix) line) s

  -- `marker` is "SHEX-" and a fresh id; `lossy` is `String::from_utf8_lossy`.
  unfoldable pub run : (Bytes → Bytes) → Bytes → Bytes → Exec (ShellSession sh) (Bytes × ℤ)
  run lossy marker command = do
    write_line command
    write_line (printed_marker marker)
    (collected, status) ← collect (output_limit + 2) (record_separator ∷ (marker ++ codes ":")) []
    pure (lossy collected, status)
