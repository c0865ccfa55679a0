-- ===== src/Shell/Reading.antt =====
-- `split_line` on the output of a shell, as `ShellSession::run` of `src/server.rs` uses it.
use shex.Prelude.{
  starts_with, ◌≡◌, refl, ap, true, false, none, some, [], ◌∷◌, ◌++◌, arith, Bytes, ◌==◌, length,
  contains_byte, Bool-cases, inl, inr,
}
use shex.Shell.{find, completion_in, split_line, record_separator}

-- Nothing of a stream is lost.
pub split_line-append : (s : Bytes) → (split_line s).0 ++ (split_line s).1 ≡ s
unfolding split_line
split_line-append [] = refl
split_line-append (c ∷ cs) = elim (Bool-cases (c == b'\n')) [
  | inl end ↦ rw end
  | inr more ↦ rw more (ap (◌∷◌ c) (split_line-append cs))
]

-- Up to a newline, the line ends with it.
pub split_line-line :
    (l r : Bytes)
    → contains_byte b'\n' l ≡ false
    → split_line (l ++ b'\n' ∷ r) ≡ (l ++ b'\n' ∷ [], r)
unfolding split_line
split_line-line [] r h = refl
split_line-line (c ∷ l) r h = ground (arith, split_line-line l r)

-- A text that holds a newline is cut at the first.
pub cut_line :
    (s : Bytes)
    → contains_byte b'\n' s ≡ true
    → (l : Bytes) × (r : Bytes) × (s ≡ l ++ b'\n' ∷ r) × (contains_byte b'\n' l ≡ false)
cut_line [] h = cc
cut_line (c ∷ cs) h = elim (Bool-cases (c == b'\n')) [
  | inl end ↦ ([], cs, ground arith, refl)
  | inr more ↦
      let (l, r, splits, free) = cut_line cs (ground arith) in
      (c ∷ l, r, ap (◌∷◌ c) splits, ground arith)
]

find-none :
    (ps s : Bytes)
    → contains_byte record_separator s ≡ false
    → find (record_separator ∷ ps) s ≡ none
unfolding find
find-none ps [] h = refl
find-none ps (c ∷ cs) h = ground (arith, find-none ps cs)

-- A line without a record separator completes no command.
pub completion_in-none :
    (ps s : Bytes)
    → contains_byte record_separator s ≡ false
    → completion_in s (record_separator ∷ ps) ≡ none
unfolding completion_in
completion_in-none ps s h = rw (find-none ps s h, completion_in)

starts_with_self : (p x : Bytes) → starts_with p (p ++ x) ≡ true
unfolding starts_with
starts_with_self [] x = refl
starts_with_self (c ∷ p) x = ground (arith, starts_with_self p x)

-- The marker behind output without a record separator is found where that ends.
pub find-append :
    (ps out x : Bytes)
    → contains_byte record_separator out ≡ false
    → find (record_separator ∷ ps) (out ++ ((record_separator ∷ ps) ++ x)) ≡ some (length out)
unfolding find
find-append ps [] x h = ground (arith, starts_with_self ps x)
find-append ps (c ∷ out) x h = ground (arith, find-append ps out x)
