-- ===== src/Names.antt =====
-- Host names, server names and connection ids: what `src/redis_transport.rs` and
-- `src/redis_store.rs` accept, generate and print.
pub mod Hex
pub mod Hostname
use shex.Prelude.{
  ℕ, ◌*◌, ◌+◌, ◌-◌, ◌/◌, ◌%◌, ◌^◌, String, Bool, not, ◌&&◌, ◌||◌, List, [], ◌∷◌, ◌++◌, Bytes, codes,
  ltb, ◌==◌, within, if◌then◌else◌, length, all, get_or,
}
use shex.Result.{Result, ok, err, bad_hostname, bad_server_name}

-- the closure of `validate_hostname`
unfoldable pub hostname_byte : ℕ → Bool
hostname_byte byte =
    within b'a' b'z' byte || within b'0' b'9' byte || (byte == b'-' || byte == b':')

abbrev is_empty : Bytes → Bool
is_empty s = length s == 0

unfoldable pub validate_hostname : Bytes → Result (Unit {0})
unfolding hostname_byte
validate_hostname hostname =
    if is_empty hostname || ltb 63 (length hostname) || not (all hostname_byte hostname)
    then err bad_hostname
    else ok tt

-- the closure of `validate_name`
unfoldable pub name_byte : ℕ → Bool
name_byte byte =
    (within b'a' b'z' byte || within b'A' b'Z' byte || within b'0' b'9' byte)
    || (byte == b'-' || byte == b'_')

unfoldable pub validate_name : Bytes → Result (Unit {0})
unfolding name_byte
validate_name name =
    if is_empty name || ltb 63 (length name) || not (all name_byte name)
    then err bad_server_name
    else ok tt

abbrev pub left_words : List Bytes
left_words =
    codes "quiet"
    ∷ codes "swift"
    ∷ codes "bright"
    ∷ codes "calm"
    ∷ codes "wild"
    ∷ codes "small"
    ∷ codes "blue"
    ∷ codes "green"
    ∷ []

abbrev pub right_words : List Bytes
right_words =
    codes "otter"
    ∷ codes "falcon"
    ∷ codes "cedar"
    ∷ codes "river"
    ∷ codes "lynx"
    ∷ codes "cloud"
    ∷ codes "fox"
    ∷ codes "panda"
    ∷ []

abbrev pub digit : ℕ → ℕ
digit n = b'0' + n % 10

-- `{:04}` of a number below 10000
pub decimal4 : ℕ → Bytes
decimal4 n = digit (n / 1000) ∷ digit (n / 100) ∷ digit (n / 10) ∷ digit n ∷ []

-- `u16::from_be_bytes`
abbrev u16_of : ℕ → ℕ → ℕ
u16_of high low = high * 256 + low

-- `random_hostname`, with the four bytes of `rand::random` as arguments
unfoldable pub random_hostname : ℕ → ℕ → ℕ → ℕ → Bytes
unfolding decimal4
random_hostname b0 b1 b2 b3 =
    get_or left_words (b0 % length left_words) []
    ++ (b'-'
        ∷ (get_or right_words (b1 % length right_words) []
            ++ (b':' ∷ decimal4 (u16_of b2 b3 % 10_000))))

-- one digit of `{:x}`
unfoldable pub hex_digit : ℕ → ℕ
hex_digit n = if ltb n 10 then b'0' + n else b'a' + (n - 10)

-- `bytes.iter().map(|byte| format!("{byte:02x}")).collect()`
unfoldable pub hex : Bytes → Bytes
unfolding hex_digit
hex [] = []
hex (byte ∷ bytes) = hex_digit (byte / 16) ∷ hex_digit (byte % 16) ∷ hex bytes
