-- ===== src/Server/Sessions.antt =====
-- The map of sessions of `src/server.rs`, and the shells that sessions refer to.
use shex.Prelude.{ℕ, zero, suc, Option, none, some, List, [], ◌∷◌, Bytes, eq, if◌then◌else◌}
use shex.Result.{Result, ok, err, shell_start_failed}

pub record Session : Type 0 where
  pub shell : ℕ
  pub lookup_key : Option Bytes

-- `HashMap` with string keys
unfoldable pub lookup : Bytes → List (Bytes × Session) → Option Session
lookup id [] = none
lookup id ((i, s) ∷ m) = if eq i id then some s else lookup id m

unfoldable pub remove : Bytes → List (Bytes × Session) → List (Bytes × Session)
remove id [] = []
remove id ((i, s) ∷ m) = let rest = remove id m in if eq i id then rest else (i, s) ∷ rest

unfoldable pub insert : Bytes → Session → List (Bytes × Session) → List (Bytes × Session)
unfolding remove
insert id s m = (id, s) ∷ remove id m

module _ {ℓ} {A : Type ℓ} where
  -- A session's shell is always there: a place that is not is an error of the model alone.
  unfoldable pub nth : ℕ → List A → Result A
  nth place [] = err shell_start_failed
  nth zero (x ∷ xs) = ok x
  nth (suc place) (x ∷ xs) = nth place xs

  unfoldable pub set_nth : ℕ → A → List A → List A
  set_nth place x [] = []
  set_nth zero x (y ∷ ys) = x ∷ ys
  set_nth (suc place) x (y ∷ ys) = y ∷ set_nth place x ys
