-- ===== src/Prompts.antt =====
-- What the prompts of `src/main.rs` make of the lines that the user enters.
pub mod Code
use mathlib.Core.List.{reverse}
use shex.Prelude.{
  ℕ, Bool, true, false, not, ◌&&◌, ◌||◌, List, [], ◌∷◌, Bytes, codes, eq, map, within, ◌==◌, ◌+◌,
  length, if◌then◌else◌,
}
use shex.Result.{Result, ok, err, empty_code, codes_differ, value_required}
use shex.Startup.{trim}

abbrev pub is_break : ℕ → Bool
is_break b = b == 13 || b == 10

-- a text given backwards, without the line breaks that it begins with
unfoldable pub without_breaks : Bytes → Bytes
without_breaks [] = []
without_breaks (b ∷ bytes) =
    let rest = without_breaks bytes in if is_break b then rest else b ∷ bytes

-- `trim_end_matches(['\r', '\n'])`
unfoldable pub trim_breaks : Bytes → Bytes
unfolding without_breaks
trim_breaks line = reverse (without_breaks (reverse line))

-- What is entered: a line of stdin, or a password that the terminal has asked for.
abbrev pub entered : Bool → Bytes → Bytes
entered from_stdin answer = if from_stdin then trim_breaks answer else answer

abbrev is_empty : Bytes → Bool
is_empty text = length text == 0

-- `read_code`; `terminal` says that stdin is one, and `second` answers the second prompt.
unfoldable pub read_code : Bool → Bool → Bool → Bytes → Bytes → Result Bytes
unfolding trim_breaks
read_code force_stdin terminal confirm answer second =
    let code = entered (force_stdin || not terminal) answer in
    if is_empty code
    then err empty_code
    else if (confirm && terminal) && (not force_stdin && not (eq code second))
    then err codes_differ
    else ok code

unfoldable pub prompt_line : Bytes → Result Bytes
prompt_line line = let value = trim line in if is_empty value then err value_required else ok value

-- Both branches of `prompt_redis_url` take an answer as `prompt_line` does.
unfoldable pub prompt_redis_url : Bytes → Result Bytes
unfolding prompt_line
prompt_redis_url answer = prompt_line answer

abbrev pub to_ascii_lowercase : Bytes → Bytes
to_ascii_lowercase text = map (λ b. if within b'A' b'Z' b then b + 32 else b) text

-- `confirm_save_unreachable`
unfoldable pub confirm_save_unreachable : Bytes → Bool
confirm_save_unreachable answer =
    let word = to_ascii_lowercase (trim answer) in eq word (codes "y") || eq word (codes "yes")
