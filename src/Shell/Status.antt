-- ===== src/Shell/Status.antt =====
-- `str::parse::<i32>`, as `completion_in` of `src/server.rs` reads the exit status.
use shex.Prelude.{
  ℕ, zero, suc, ◌+◌, ◌-◌, ◌*◌, ◌^◌, ◌≤◌, ◌≡◌, true, Option, none, some, [], ◌∷◌, arith, Bytes, ltb,
  ◌==◌, within, if◌then◌else◌, all,
}

-- `negsuc n` is -(n + 1).
pub data ℤ : Type 0 where
  pos : ℕ → ℤ
  negsuc : ℕ → ℤ

abbrev negated : ℕ → ℤ
negated zero = pos 0
negated (suc n) = negsuc n

-- the digits of a number that must not pass `limit`
parse_digits : ℕ → ℕ → Bytes → Option ℕ
parse_digits limit n [] = some n
parse_digits limit n (c ∷ cs) =
    let n' = n * 10 + (c - b'0') in
    let rest = parse_digits limit n' cs in
    if within b'0' b'9' c then (if ltb limit n' then none else rest) else none

-- at least one digit
parse_unsigned : ℕ → Bytes → Option ℕ
unfolding parse_digits
parse_unsigned limit [] = none
parse_unsigned limit (c ∷ cs) = parse_digits limit 0 (c ∷ cs)

abbrev signed : (ℕ → ℤ) → Option ℕ → Option ℤ
signed f none = none
signed f (some n) = some (f n)

-- A text with bytes outside ASCII is refused by `from_utf8` or here, with one result.
unfoldable pub parse_i32 : Bytes → Option ℤ
unfolding parse_unsigned
parse_i32 [] = none
parse_i32 (c ∷ cs) =
    if c == b'-'
    then signed negated (parse_unsigned (2 ^ 31) cs)
    else if c == b'+'
    then signed pos (parse_unsigned (2 ^ 31 - 1) cs)
    else signed pos (parse_unsigned (2 ^ 31 - 1) (c ∷ cs))

abbrev pub IsDigits : Bytes → Type 0
IsDigits s = all (within b'0' b'9') s ≡ true

-- the number that decimal digits stand for, behind a number `n`
abbrev pub value_from : ℕ → Bytes → ℕ
value_from n [] = n
value_from n (c ∷ cs) = value_from (n * 10 + (c - b'0')) cs

value_from-ge : (n : ℕ) (s : Bytes) → n ≤ value_from n s
value_from-ge n [] = omega arith
value_from-ge n (c ∷ cs) = omega (arith, value_from-ge (n * 10 + (c - b'0')) cs)

parse_digits-value_from :
    (limit n : ℕ) (s : Bytes)
    → IsDigits s
    → n ≤ limit
    → parse_digits limit n s ≡ (if ltb limit (value_from n s) then none else some (value_from n s))
unfolding parse_digits
parse_digits-value_from limit n [] h le = ground arith
parse_digits-value_from limit n (c ∷ cs) h le = ground (
  arith,
  parse_digits-value_from limit (n * 10 + (c - b'0')) cs,
  value_from-ge (n * 10 + (c - b'0')) cs,
)

-- A status of decimal digits is read as their value if that fits an `i32`, and refused if not.
parse_i32-value_from :
    (c : ℕ) (cs : Bytes)
    → IsDigits (c ∷ cs)
    → parse_i32 (c ∷ cs) ≡ (
        if ltb (2 ^ 31 - 1) (value_from 0 (c ∷ cs))
        then none
        else some (pos (value_from 0 (c ∷ cs))))
unfolding parse_i32
parse_i32-value_from c cs h =
    ground (arith, parse_digits-value_from (2 ^ 31 - 1) 0 (c ∷ cs) h (omega arith))
