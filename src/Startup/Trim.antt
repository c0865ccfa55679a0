-- ===== src/Startup/Trim.antt =====
-- `trim` of `src/server.rs` on the line that keeps a host's name.
use mathlib.Core.List.{reverse, reverse-cons, reverse-append, reverse-reverse}
use shex.Prelude.{
  ℕ, true, false, ◌≡◌, refl, ◌∙◌, ap, arith, [], ◌∷◌, ◌++◌, Bytes, all, all-append, &&_iff, some,
  is_utf8, continues, lead, within,
}
use shex.Names.{hostname_byte}
use shex.Client.{white1, white2, white3, white_length, trim_reversed, trim_end}
use shex.Startup.{trim_from, trim}

-- a text of host name bytes neither begins nor ends with white space
trim_from-same : (h : Bytes) → all hostname_byte h ≡ true → trim_from 0 h ≡ h
unfolding trim_from hostname_byte
trim_from-same [] all_h = refl
trim_from-same (x ∷ []) all_h = ground arith
trim_from-same (x ∷ y ∷ []) all_h = ground arith
trim_from-same (x ∷ y ∷ z ∷ h) all_h = ground arith

plain1 : (x : ℕ) → hostname_byte x ≡ true → white1 x ≡ false
unfolding hostname_byte
plain1 x h = ground arith

plain2 : (y x : ℕ) → hostname_byte x ≡ true → white2 y x ≡ false
unfolding hostname_byte
plain2 y x h = ground arith

plain3 : (z y x : ℕ) → hostname_byte x ≡ true → white3 z y x ≡ false
unfolding hostname_byte
plain3 z y x h = ground arith

plain-end : (x : ℕ) (h : Bytes) → hostname_byte x ≡ true → white_length (x ∷ h) ≡ 0
plain-end x [] plain = rw (plain1 x plain) refl
plain-end x (y ∷ []) plain = rw (plain1 x plain, plain2 y x plain) refl
plain-end x (y ∷ z ∷ h) plain = rw (plain1 x plain, plain2 y x plain, plain3 z y x plain) refl

trim_reversed-same : (h : Bytes) → all hostname_byte h ≡ true → trim_reversed 0 h ≡ h
unfolding trim_reversed
trim_reversed-same [] all_h = refl
trim_reversed-same (x ∷ h) all_h =
    rw (trim_reversed, plain-end x h ((&&_iff (hostname_byte x) (all hostname_byte h)).0 all_h).0)
      refl

-- the line break is taken off
trim_reversed-line : (h : Bytes) → trim_reversed 0 (10 ∷ h) ≡ trim_reversed 0 h
unfolding trim_reversed
trim_reversed-line [] = refl
trim_reversed-line (x ∷ []) = refl
trim_reversed-line (x ∷ y ∷ h) = refl

all-reverse : (h : Bytes) → all hostname_byte (reverse h) ≡ all hostname_byte h
all-reverse [] = refl
all-reverse (x ∷ h) =
    ap (all hostname_byte) (reverse-cons x h)
    ∙ ground (arith, all-append hostname_byte (reverse h) (x ∷ []), all-reverse h)

pub trim-line : (h : Bytes) → all hostname_byte h ≡ true → trim (h ++ 10 ∷ []) ≡ h
unfolding trim trim_end
trim-line h all_h =
    rw
      (
        reverse-append h (10 ∷ []),
        trim_reversed-line (reverse h),
        trim_reversed-same (reverse h) (all-reverse h ∙ all_h),
        reverse-reverse h,
      )
      (trim_from-same h all_h)

lead-plain : (x : ℕ) → hostname_byte x ≡ true → lead x ≡ some (0, 0, 0)
unfolding lead hostname_byte
lead-plain x h = let small : within 0 0x7F x ≡ true = ground arith in rw small refl

pub is_utf8-line : (h : Bytes) → all hostname_byte h ≡ true → is_utf8 (h ++ 10 ∷ []) ≡ true
unfolding continues lead
is_utf8-line [] all_h = refl
is_utf8-line (x ∷ h) all_h =
    let (plain, rest) = (&&_iff (hostname_byte x) (all hostname_byte h)).0 all_h in
    rw (continues, lead-plain x plain) (is_utf8-line h rest)
