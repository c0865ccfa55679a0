-- ===== src/Names/Hex.antt =====
-- `random_hex` of `src/redis_transport.rs` and `random_id` of `src/server.rs`, as printed text.
use shex.Prelude.{
  ℕ, ◌*◌, ◌/◌, ◌%◌, ◌<◌, ◌≡◌, refl, true, [], ◌∷◌, arith, Bytes, cons_heads, cons_tails, length,
  all,
}
use shex.Names.{hex_digit, hex, hostname_byte}

abbrev pub AreBytes : Bytes → Type 0
AreBytes [] = Unit {0}
AreBytes (b ∷ bs) = (b < 256) × AreBytes bs

hex_digit_injective : (m n : ℕ) → m < 16 → n < 16 → hex_digit m ≡ hex_digit n → m ≡ n
unfolding hex_digit
hex_digit_injective m n hm hn e = ground arith

-- Two bytes with the same two digits are equal.
hex_byte_injective :
    (m n : ℕ)
    → m < 256
    → n < 256
    → hex_digit (m / 16) ≡ hex_digit (n / 16)
    → hex_digit (m % 16) ≡ hex_digit (n % 16)
    → m ≡ n
hex_byte_injective m n hm hn e f = omega (
  arith,
  hex_digit_injective (m / 16) (n / 16) (omega arith) (omega arith) e,
  hex_digit_injective (m % 16) (n % 16) (omega arith) (omega arith) f,
)

pub length-hex : (bs : Bytes) → length (hex bs) ≡ 2 * length bs
unfolding hex
length-hex [] = refl
length-hex (b ∷ bs) = omega (arith, length-hex bs)

-- Different byte strings are printed differently.
pub hex_injective : (a b : Bytes) → AreBytes a → AreBytes b → hex a ≡ hex b → a ≡ b
unfolding hex
hex_injective [] [] ha hb e = refl
hex_injective [] (y ∷ b) ha hb e = cc
hex_injective (x ∷ a) [] ha hb e = cc
hex_injective (x ∷ a) (y ∷ b) ha hb e = cc (
  hex_byte_injective x y ha.0 hb.0 (cons_heads e) (cons_heads (cons_tails e)),
  hex_injective a b ha.1 hb.1 (cons_tails (cons_tails e)),
)

hex_digit-hostname_byte : (n : ℕ) → n < 16 → hostname_byte (hex_digit n) ≡ true
unfolding hex_digit hostname_byte
hex_digit-hostname_byte n h = ground arith

-- Printed ids hold letters and digits only.
pub hex-all : (bs : Bytes) → AreBytes bs → all hostname_byte (hex bs) ≡ true
unfolding hex
hex-all [] h = refl
hex-all (b ∷ bs) h = ground (
  arith,
  hex_digit-hostname_byte (b / 16) (omega arith),
  hex_digit-hostname_byte (b % 16) (omega arith),
  hex-all bs h.1,
)
