-- ===== src/Files/Beats.antt =====
-- A call between the acts of others: what it did if it succeeded, and what it cannot break.
use shex.Prelude.{ℕ, ◌≡◌, refl, inl, inr, List, [], ◌∷◌}
use shex.Result.{ok, Exec, Result-cases, ◌>>=◌}
use shex.Files.{Tree, Disk, Beat, Fate, fine, denied, torn, attempt, fated}

-- the tree that the next call meets
abbrev met_at : List Beat → Tree → Tree
met_at [] t = t
met_at (b ∷ bs) t = b.others t

abbrev pub met : Disk → Tree
met d = met_at d.beats d.tree

-- Others do not break `P`.
abbrev pub Closed : (Tree → Type 0) → List Beat → Type 0
Closed P [] = Unit
Closed P (b ∷ bs) = ((t : Tree) → P t → P (b.others t)) × Closed P bs

module _ {A : Type 0} (c : Exec Tree A) (part : ℕ → Tree → Tree) where
  fated-ok :
      (f : Fate) (t : Tree) {a : A}
      → (fated f c part t).0 ≡ ok a
      → ((c t).0 ≡ ok a) × ((fated f c part t).1 ≡ (c t).1)
  fated-ok fine t h = (h, refl)
  fated-ok denied t h = absurd (cc)
  fated-ok (torn n) t h = absurd (cc)

  ok_at :
      (t : Tree) (bs : List Beat) {a : A}
      → (attempt c part bs (record { tree = t; beats = bs })).0 ≡ ok a
      → ((c (met_at bs t)).0 ≡ ok a)
        × ((attempt c part bs (record { tree = t; beats = bs })).1.tree ≡ (c (met_at bs t)).1)
  unfolding attempt
  ok_at t [] h = (h, refl)
  ok_at t (b ∷ bs) h = fated-ok b.fate (b.others t) h

  -- A call that succeeds has done its work on the tree that it met.
  pub attempt-ok :
      (d : Disk) {a : A}
      → (attempt c part d.beats d).0 ≡ ok a
      → ((c (met d)).0 ≡ ok a) × ((attempt c part d.beats d).1.tree ≡ (c (met d)).1)
  attempt-ok d h = ok_at d.tree d.beats h

  module _ (P : Tree → Type 0) (whole : (t : Tree) → P t → P (c t).1)
      (some_of : (n : ℕ) (t : Tree) → P t → P (part n t)) where
    fated-P : (f : Fate) (t : Tree) → P t → P (fated f c part t).1
    fated-P fine t p = whole t p
    fated-P denied t p = p
    fated-P (torn n) t p = some_of n t p

    P_at :
        (t : Tree) (bs : List Beat)
        → Closed P bs
        → P t
        → P (attempt c part bs (record { tree = t; beats = bs })).1.tree
          × Closed P (attempt c part bs (record { tree = t; beats = bs })).1.beats
    unfolding attempt
    P_at t [] closed p = (whole t p, tt)
    P_at t (b ∷ bs) closed p = (fated-P b.fate (b.others t) (closed.0 t p), closed.1)

    -- What neither others nor the call break is not broken.
    pub attempt-P :
        (d : Disk)
        → Closed P d.beats
        → P d.tree
        → P (attempt c part d.beats d).1.tree × Closed P (attempt c part d.beats d).1.beats
    attempt-P d closed p = P_at d.tree d.beats closed p

-- A method that does not break `P`, whatever it returns.
abbrev pub Preserves : (Tree → Type 0) → {A : Type 0} → Exec Disk A → Type 0
Preserves P m = (d : Disk) → Closed P d.beats → P d.tree → P (m d).1.tree × Closed P (m d).1.beats

module _ (P : Tree → Type 0) {A B : Type 0} where
  pub bind-Preserves :
      (m : Exec Disk A) (k : A → Exec Disk B)
      → Preserves P m
      → ((a : A) → Preserves P (k a))
      → Preserves P (m >>= k)
  bind-Preserves m k hm hk d closed p =
      let (p1, closed1) = hm d closed p in
      elim (Result-cases (m d).0) [
        | inl (a, done) ↦ rw done (hk a (m d).1 closed1 p1)
        | inr (e, failed) ↦ rw failed (p1, closed1)
      ]

pub met-P : (P : Tree → Type 0) (d : Disk) → Closed P d.beats → P d.tree → P (met d)
met-P P d closed p = met_at-P d.beats d.tree closed p
  where
    met_at-P : (bs : List Beat) (t : Tree) → Closed P bs → P t → P (met_at bs t)
    met_at-P [] t closed p = p
    met_at-P (b ∷ bs) t closed p = closed.0 t p

-- The beats that a call leaves are some of those before.
pub attempt-Closed :
    (P : Tree → Type 0) {A : Type 0} (c : Exec Tree A) (part : ℕ → Tree → Tree) (d : Disk)
    → Closed P d.beats
    → Closed P (attempt c part d.beats d).1.beats
unfolding attempt
attempt-Closed P c part d closed = closed_at d.beats d.tree closed
  where
    closed_at :
        (bs : List Beat) (t : Tree)
        → Closed P bs
        → Closed P (attempt c part bs (record { tree = t; beats = bs })).1.beats
    closed_at [] t closed = tt
    closed_at (b ∷ bs) t closed = closed.1
