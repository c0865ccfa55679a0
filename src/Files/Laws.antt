-- ===== src/Files/Laws.antt =====
-- What is found in a file system after a change.
use shex.Prelude.{
  ◌≡◌, ◌≢◌, ◌↔◌, refl, ℕ, true, false, none, some, is_some, List, [], ◌∷◌, eq_iff, arith,
  if◌then◌else◌, sym, ◌∙◌, ap, length, Bytes,
}
use shex.Files.{FilePath, eq_path, find, without, put, made, File}

pub eq_path_iff : (p q : FilePath) → (eq_path p q ≡ true) ↔ (p ≡ q)
unfolding eq_path
eq_path_iff (a ∷ p) (b ∷ q) = ground (arith, eq_iff a b, eq_path_iff p q)
eq_path_iff _ _ = ground arith

pub eq_path_refl : (p : FilePath) → eq_path p p ≡ true
eq_path_refl p = (eq_path_iff p p).1 refl

pub eq_path-false : (p q : FilePath) → p ≢ q → eq_path p q ≡ false
eq_path-false p q h = ground (arith, eq_path_iff p q)

module _ {ℓ} {A : Type ℓ} where
  pub find-without :
      (p q : FilePath) (m : List (FilePath × A))
      → find q (without p m) ≡ (if eq_path p q then none else find q m)
  unfolding find without
  find-without p q [] = ground arith
  find-without p q ((r, a) ∷ m) =
      ground (arith, find-without p q m, eq_path_iff r p, eq_path_iff r q, eq_path_iff p q)

  pub find-put :
      (p q : FilePath) (a : A) (m : List (FilePath × A))
      → find q (put p a m) ≡ (if eq_path p q then some a else find q m)
  unfolding find put
  find-put p q a m = ground (arith, find-without p q m)

  pub find-put_self : (p : FilePath) (a : A) (m : List (FilePath × A)) → find p (put p a m) ≡ some a
  find-put_self p a m = rw (find-put, eq_path_refl p) refl

  pub find-put_ne :
      (p q : FilePath) (a : A) (m : List (FilePath × A)) → p ≢ q → find q (put p a m) ≡ find q m
  find-put_ne p q a m ne = rw (find-put, eq_path-false p q ne) refl

  pub find-without_self : (p : FilePath) (m : List (FilePath × A)) → find p (without p m) ≡ none
  find-without_self p m = rw (find-without, eq_path_refl p) refl

  pub find-without_ne :
      (p q : FilePath) (m : List (FilePath × A)) → p ≢ q → find q (without p m) ≡ find q m
  find-without_ne p q m ne = rw (find-without, eq_path-false p q ne) refl

-- `create_dir_all` makes the directory.
pub made_there : (p : FilePath) (dirs : List (FilePath × ℕ)) → is_some (find p (made p dirs)) ≡ true
unfolding made
made_there [] dirs = ground (arith, find-put_self [] 0o755 dirs)
made_there (n ∷ p) dirs = ground (arith, find-put_self (n ∷ p) 0o755 (made p dirs))

-- and loses none
pub made_kept :
    (p q : FilePath) (dirs : List (FilePath × ℕ))
    → is_some (find q dirs) ≡ true
    → is_some (find q (made p dirs)) ≡ true
unfolding made
made_kept [] q dirs h = ground (arith, find-put [] q 0o755 dirs)
made_kept (n ∷ p) q dirs h =
    ground (arith, made_kept p q dirs, find-put (n ∷ p) q 0o755 (made p dirs))

-- A directory stays one when another is made and secured.
pub dir_kept :
    (p q : FilePath) (mode : ℕ) (dirs : List (FilePath × ℕ))
    → is_some (find q dirs) ≡ true
    → is_some (find q (put p mode (made p dirs))) ≡ true
dir_kept p q mode dirs h = ground (arith, find-put p q mode (made p dirs), made_kept p q dirs)

pub dir_there :
    (p : FilePath) (mode : ℕ) (dirs : List (FilePath × ℕ))
    → is_some (find p (put p mode (made p dirs))) ≡ true
dir_there p mode dirs = rw (find-put_self p mode (made p dirs)) refl

pub heads : {a b : Bytes} {p q : FilePath} → ◌≡◌ {A = FilePath} (a ∷ p) (b ∷ q) → a ≡ b
heads e = cc

pub tails : {a b : Bytes} {p q : FilePath} → ◌≡◌ {A = FilePath} (a ∷ p) (b ∷ q) → p ≡ q
tails e = cc

-- A path that is longer is another.
pub deeper-ne : (a b c : Bytes) (p : FilePath) → ◌≢◌ {A = FilePath} (a ∷ b ∷ p) (c ∷ p)
deeper-ne a b c p e = absurd (omega (arith, ap (λ (q : FilePath). length q) e))

-- and so is one in another directory
pub apart-ne : {a b c d : Bytes} {p : FilePath} → b ≢ d → ◌≢◌ {A = FilePath} (a ∷ b ∷ p) (c ∷ d ∷ p)
apart-ne ne e = ne (heads (tails e))

-- A file that is written twice leaves the others alone.
pub put_twice :
    (path q : FilePath) (f g : File) (files : List (FilePath × File))
    → q ≢ path
    → find q (put path f (put path g files)) ≡ find q files
put_twice path q f g files ne =
    let ne' = λ (e : path ≡ q). ne (sym e) in
    find-put_ne path q f (put path g files) ne' ∙ find-put_ne path q g files ne'
