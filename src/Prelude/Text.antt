-- ===== src/Prelude/Text.antt =====
-- Texts are lists of bytes: the program compares, cuts and joins them byte by byte.
use Prim.Native.Nat.{ℕ, zero, suc}
use Prim.Native.Char.{code}
use Prim.Native.String.{String}
use mathlib.Core.Path.{◌≡◌, refl}
use mathlib.Core.Logic.{◌↔◌, ◌≢◌}
use mathlib.Core.Bool.{Bool, true, false, ◌&&◌, ◌||◌}
use mathlib.Core.List.{List, [], ◌∷◌, ◌++◌}
use native.Mathlib.Omega.{arith}
use mathlib.Core.Option.{Option, none, some}
use shex.Prelude.Tests.{◌==◌, within, if◌then◌else◌}

abbrev pub Bytes : Type 0
Bytes = List ℕ

-- The bytes of an ASCII literal.
abbrev pub codes : String → Bytes
codes String.[] = []
codes (String.◌∷◌ c s) = code c ∷ codes s

-- `==` on `&str` and `&[u8]`
unfoldable pub eq : Bytes → Bytes → Bool
eq [] [] = true
eq (x ∷ xs) (y ∷ ys) = x == y && eq xs ys
eq _ _ = false

pub eq_iff : (a b : Bytes) → (eq a b ≡ true) ↔ (a ≡ b)
unfolding eq
eq_iff (x ∷ a) (y ∷ b) = ground (arith, eq_iff a b)
eq_iff _ _ = ground arith

pub eq_refl : (a : Bytes) → eq a a ≡ true
eq_refl a = (eq_iff a a).1 refl

pub eq-false : (a b : Bytes) → a ≢ b → eq a b ≡ false
eq-false a b h = ground (arith, eq_iff a b)

pub eq-ne : (a b : Bytes) → eq a b ≡ false → a ≢ b
eq-ne a b h = ground (arith, eq_iff a b)

-- a test of the bytes that a text begins with
unfoldable pub starts_with : Bytes → Bytes → Bool
starts_with [] chunk = true
starts_with (p ∷ ps) [] = false
starts_with (p ∷ ps) (c ∷ cs) = p == c && starts_with ps cs

-- `contains` of one byte
abbrev pub contains_byte : ℕ → Bytes → Bool
contains_byte b [] = false
contains_byte b (c ∷ cs) = c == b || contains_byte b cs

pub contains_byte-append :
    (b : ℕ) (xs ys : Bytes)
    → contains_byte b (xs ++ ys) ≡ (contains_byte b xs || contains_byte b ys)
contains_byte-append b [] ys = refl
contains_byte-append b (x ∷ xs) ys = ground (arith, contains_byte-append b xs ys)

pub cons_heads : {x y : ℕ} {a b : Bytes} → ◌≡◌ {A = Bytes} (x ∷ a) (y ∷ b) → x ≡ y
cons_heads e = cc

pub cons_tails : {x y : ℕ} {a b : Bytes} → ◌≡◌ {A = Bytes} (x ∷ a) (y ∷ b) → a ≡ b
cons_tails e = cc

-- `contains` of a text
unfoldable pub contains : Bytes → Bytes → Bool
unfolding starts_with
contains part [] = starts_with part []
contains part (c ∷ cs) = starts_with part (c ∷ cs) || contains part cs

unfoldable pub ends_with : Bytes → Bytes → Bool
unfolding eq
ends_with suffix [] = eq suffix []
ends_with suffix (c ∷ cs) = eq suffix (c ∷ cs) || ends_with suffix cs

-- What a byte begins in UTF-8: how many bytes follow, and the range of the first of them.
unfoldable pub lead : ℕ → Option (ℕ × ℕ × ℕ)
lead b =
    if within 0 0x7F b
    then some (0, 0, 0)
    else if within 0xC2 0xDF b
    then some (1, 0x80, 0xBF)
    else if b == 0xE0
    then some (2, 0xA0, 0xBF)
    else if b == 0xED
    then some (2, 0x80, 0x9F)
    else if within 0xE1 0xEF b
    then some (2, 0x80, 0xBF)
    else if b == 0xF0
    then some (3, 0x90, 0xBF)
    else if within 0xF1 0xF3 b
    then some (3, 0x80, 0xBF)
    else if b == 0xF4
    then some (3, 0x80, 0x8F)
    else none

-- The bytes that are due come, and then whole characters.
unfoldable pub continues : ℕ → ℕ → ℕ → Bytes → Bool
continues zero lo hi [] = true
continues (suc n) lo hi [] = false
continues (suc n) lo hi (b ∷ bs) = within lo hi b && continues n 0x80 0xBF bs
continues zero lo hi (b ∷ bs) = elim (lead b) [
  | none ↦ false
  | some (n, first_lo, first_hi) ↦ continues n first_lo first_hi bs
]

-- `String::from_utf8` takes the bytes.
abbrev pub is_utf8 : Bytes → Bool
is_utf8 bytes = continues 0 0 0 bytes
