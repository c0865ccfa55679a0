-- ===== src/Names/Hostname.antt =====
-- `validate_hostname` and `random_hostname` of `src/redis_transport.rs`, `validate_name` of
-- `src/redis_store.rs`.
use shex.Prelude.{
  ℕ, suc, ◌+◌, ◌*◌, ◌/◌, ◌%◌, ◌<◌, ◌≤◌, ◌≡◌, ◌↔◌, true, List, [], ◌∷◌, ◌++◌, arith, Bytes, length,
  all, all-append, length-append, get_or, contains_byte, contains_byte-append,
}
use shex.Result.{ok}
use shex.Names.{
  hostname_byte, validate_hostname, validate_name, name_byte, left_words, right_words, digit,
  decimal4, random_hostname,
}

-- 1 to 63 bytes, each of them allowed
pub record IsHostname (h : Bytes) : Type 0 where
  pub nonempty : 0 < length h
  pub short : length h ≤ 63
  pub bytes : all hostname_byte h ≡ true

pub record IsName (n : Bytes) : Type 0 where
  pub nonempty : 0 < length n
  pub short : length n ≤ 63
  pub bytes : all name_byte n ≡ true

pub validate_hostname_iff : (h : Bytes) → (validate_hostname h ≡ ok tt) ↔ IsHostname h
unfolding validate_hostname
validate_hostname_iff h = (λ e. ground arith, λ v. ground arith)

pub validate_name_iff : (n : Bytes) → (validate_name n ≡ ok tt) ↔ IsName n
unfolding validate_name
validate_name_iff n = (λ e. ground arith, λ v. ground arith)

-- A word of the lists: at most six allowed bytes.
abbrev IsWord : Bytes → Type 0
IsWord w = (0 < length w) × (length w ≤ 6) × (all hostname_byte w ≡ true)

AllWords : List Bytes → Type 0
AllWords [] = Unit {0}
AllWords (w ∷ ws) = IsWord w × AllWords ws

get_or-IsWord : (ws : List Bytes) (i : ℕ) → AllWords ws → i < length ws → IsWord (get_or ws i [])
unfolding AllWords
get_or-IsWord [] i h lt = absurd (omega arith)
get_or-IsWord (w ∷ ws) ℕ.zero h lt = h.0
get_or-IsWord (w ∷ ws) (suc i) h lt = get_or-IsWord ws i h.1 (omega arith)

left_words-AllWords : AllWords left_words
unfolding AllWords hostname_byte
left_words-AllWords = ground arith

right_words-AllWords : AllWords right_words
unfolding AllWords hostname_byte
right_words-AllWords = ground arith

hostname_byte-digit : (n : ℕ) → hostname_byte (digit n) ≡ true
unfolding hostname_byte
hostname_byte-digit n = ground arith

decimal4-all : (n : ℕ) → all hostname_byte (decimal4 n) ≡ true
unfolding decimal4
decimal4-all n = ground (
  arith,
  hostname_byte-digit (n / 1000),
  hostname_byte-digit (n / 100),
  hostname_byte-digit (n / 10),
  hostname_byte-digit n,
)

left-IsWord : (b : ℕ) → IsWord (get_or left_words (b % 8) [])
left-IsWord b = get_or-IsWord left_words (b % 8) left_words-AllWords (omega arith)

right-IsWord : (b : ℕ) → IsWord (get_or right_words (b % 8) [])
right-IsWord b = get_or-IsWord right_words (b % 8) right_words-AllWords (omega arith)

-- two words and a number, joined
joined : Bytes → Bytes → ℕ → Bytes
joined l r n = l ++ (b'-' ∷ (r ++ (b':' ∷ decimal4 n)))

joined-all :
    (l r : Bytes) (n : ℕ)
    → all hostname_byte l ≡ true
    → all hostname_byte r ≡ true
    → all hostname_byte (joined l r n) ≡ true
unfolding joined hostname_byte
joined-all l r n hl hr = ground (
  arith,
  all-append hostname_byte l (b'-' ∷ (r ++ (b':' ∷ decimal4 n))),
  all-append hostname_byte r (b':' ∷ decimal4 n),
  decimal4-all n,
)

length-joined : (l r : Bytes) (n : ℕ) → length (joined l r n) ≡ length l + length r + 6
unfolding joined decimal4
length-joined l r n = omega (
  arith,
  length-append l (b'-' ∷ (r ++ (b':' ∷ decimal4 n))),
  length-append r (b':' ∷ decimal4 n),
)

joined-IsHostname : (l r : Bytes) (n : ℕ) → IsWord l → IsWord r → IsHostname (joined l r n)
joined-IsHostname l r n hl hr = record {
  nonempty = omega (arith, length-joined l r n, hl.0);
  short = omega (arith, length-joined l r n, hl.1, hr.1);
  bytes = joined-all l r n hl.2 hr.2;
}

joined-contains : (l r : Bytes) (n : ℕ) → contains_byte b':' (joined l r n) ≡ true
unfolding joined
joined-contains l r n = ground (
  arith,
  contains_byte-append b':' l (b'-' ∷ (r ++ (b':' ∷ decimal4 n))),
  contains_byte-append b':' r (b':' ∷ decimal4 n),
)

-- Whatever four bytes are drawn, the generated name passes `validate_hostname`, and holds a colon.
validate_hostname-random_hostname :
    (b0 b1 b2 b3 : ℕ)
    → (validate_hostname (random_hostname b0 b1 b2 b3) ≡ ok tt)
      × (contains_byte b':' (random_hostname b0 b1 b2 b3) ≡ true)
unfolding random_hostname joined
validate_hostname-random_hostname b0 b1 b2 b3 =
    let l = get_or left_words (b0 % 8) [] in
    let r = get_or right_words (b1 % 8) [] in
    let n = (b2 * 256 + b3) % 10_000 in
    (
      (validate_hostname_iff (joined l r n)).1
          (joined-IsHostname l r n (left-IsWord b0) (right-IsWord b1)),
      joined-contains l r n,
    )
