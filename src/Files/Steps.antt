-- ===== src/Files/Steps.antt =====
-- Calls to a disk that others use and whose calls may fail, as far as two paths go: a file and the
-- temporary file beside it, which others leave alone.
use shex.Prelude.{ℕ, ◌≡◌, refl, ◌∙◌, Option, List, [], ◌∷◌}
use shex.Result.{Error, Result, ok, err, Exec, ◌>>◌}
use shex.Files.{FilePath, File, Tree, Disk, Beat, Fate, fine, denied, torn, attempt, fated, find}

-- Others leave the file at `p` as it is.
abbrev pub Spares : FilePath → List Beat → Type 0
Spares p [] = Unit
Spares p (b ∷ bs) = ((t : Tree) → find p (b.others t).files ≡ find p t.files) × Spares p bs

module _ (path temp : FilePath) where
  -- `o` and `x` are what the two paths hold.
  pub record State (o x : Option File) (d : Disk) : Type 0 where
    pub spares_path : Spares path d.beats
    pub spares_temp : Spares temp d.beats
    pub at_path : find path d.tree.files ≡ o
    pub at_temp : find temp d.tree.files ≡ x

  pub record Kept (o : Option File) (d : Disk) : Type 0 where
    pub spares_path : Spares path d.beats
    pub spares_temp : Spares temp d.beats
    pub at_path : find path d.tree.files ≡ o

  -- A step has gone well, or failed with the file at `path` as it was.
  pub data Stepped (o o' x' : Option File) (r : Result (Unit {0}) × Disk) : Type 0 where
    went : r.0 ≡ ok tt → State o' x' r.1 → Stepped o o' x' r
    broke : (e : Error) → r.0 ≡ err e → Kept o r.1 → Stepped o o' x' r

  -- the same of a call that nothing disturbs
  pub data Called (o o' x' : Option File) (r : Result (Unit {0}) × Tree) : Type 0 where
    did : r.0 ≡ ok tt → find path r.1.files ≡ o' → find temp r.1.files ≡ x' → Called o o' x' r
    refused : (e : Error) → r.0 ≡ err e → find path r.1.files ≡ o → Called o o' x' r

  after_call :
      {o o' x' : Option File} (r : Result (Unit {0}) × Tree) (bs : List Beat)
      → Spares path bs
      → Spares temp bs
      → Called o o' x' r
      → Stepped o o' x' (r.0, record { tree = r.1; beats = bs })
  after_call r bs p q (did e at_path at_temp) =
      went e (record { spares_path = p; spares_temp = q; at_path = at_path; at_temp = at_temp })
  after_call r bs p q (refused err_is e at_path) =
      broke err_is e (record { spares_path = p; spares_temp = q; at_path = at_path })

  module _ {o x o' x' : Option File} where
    attempt-Stepped_at :
        (c : Exec Tree (Unit {0})) (part : ℕ → Tree → Tree) (t : Tree) (bs : List Beat)
        → ((t : Tree) → find path t.files ≡ o → find temp t.files ≡ x → Called o o' x' (c t))
        → ((n : ℕ) (t : Tree)
            → find path t.files ≡ o
            → find temp t.files ≡ x
            → find path (part n t).files ≡ o)
        → State o x (record { tree = t; beats = bs })
        → Stepped o o' x' (attempt c part bs (record { tree = t; beats = bs }))
    unfolding attempt
    attempt-Stepped_at c part t [] whole some_of s =
        after_call (c t) [] tt tt (whole t s.at_path s.at_temp)
    attempt-Stepped_at c part t (b ∷ bs) whole some_of s =
        disturbed b.fate (b.others t) (s.spares_path.0 t ∙ s.at_path)
          (s.spares_temp.0 t ∙ s.at_temp)
      where
        disturbed :
            (f : Fate) (u : Tree)
            → find path u.files ≡ o
            → find temp u.files ≡ x
            → Stepped o o' x'
                ((fated f c part u).0, record { tree = (fated f c part u).1; beats = bs })
        disturbed fine u p q = after_call (c u) bs s.spares_path.1 s.spares_temp.1 (whole u p q)
        disturbed denied u p q = after_call _ bs s.spares_path.1 s.spares_temp.1 (refused _ refl p)
        disturbed (torn n) u p q =
            after_call _ bs s.spares_path.1 s.spares_temp.1 (refused _ refl (some_of n u p q))

    -- what a call does without disturbance, it does here, or it fails
    pub attempt-Stepped :
        (c : Exec Tree (Unit {0})) (part : ℕ → Tree → Tree) (d : Disk)
        → ((t : Tree) → find path t.files ≡ o → find temp t.files ≡ x → Called o o' x' (c t))
        → ((n : ℕ) (t : Tree)
            → find path t.files ≡ o
            → find temp t.files ≡ x
            → find path (part n t).files ≡ o)
        → State o x d
        → Stepped o o' x' (attempt c part d.beats d)
    attempt-Stepped c part d whole some_of s =
        attempt-Stepped_at c part d.tree d.beats whole some_of s

  -- one step after another
  pub then-Stepped :
      {o x1 o' x' : Option File} (m k : Exec Disk (Unit {0})) (d : Disk)
      → Stepped o o x1 (m d)
      → ((d' : Disk) → State o x1 d' → Stepped o o' x' (k d'))
      → Stepped o o' x' ((m >> k) d)
  then-Stepped m k d (went e s) rest = rw e (rest (m d).1 s)
  then-Stepped m k d (broke x e s) rest = rw e (broke x refl s)

-- A call that leaves the file at `path` alone, and so does the part of it that a torn call does.
module _ (path : FilePath) {o : Option File} {A : Type 0} where
  keeps_at :
      (c : Exec Tree A) (part : ℕ → Tree → Tree) (t : Tree) (bs : List Beat)
      → ((t : Tree) → find path t.files ≡ o → find path (c t).1.files ≡ o)
      → ((n : ℕ) (t : Tree) → find path t.files ≡ o → find path (part n t).files ≡ o)
      → Spares path bs
      → find path t.files ≡ o
      → find path (attempt c part bs (record { tree = t; beats = bs })).1.tree.files ≡ o
  unfolding attempt
  keeps_at c part t [] whole some_of spares p = whole t p
  keeps_at c part t (b ∷ bs) whole some_of spares p = disturbed b.fate (b.others t) (spares.0 t ∙ p)
    where
      disturbed :
          (f : Fate) (u : Tree) → find path u.files ≡ o → find path (fated f c part u).1.files ≡ o
      disturbed fine u q = whole u q
      disturbed denied u q = q
      disturbed (torn n) u q = some_of n u q

  pub attempt-keeps :
      (c : Exec Tree A) (part : ℕ → Tree → Tree) (d : Disk)
      → ((t : Tree) → find path t.files ≡ o → find path (c t).1.files ≡ o)
      → ((n : ℕ) (t : Tree) → find path t.files ≡ o → find path (part n t).files ≡ o)
      → Spares path d.beats
      → find path d.tree.files ≡ o
      → find path (attempt c part d.beats d).1.tree.files ≡ o
  attempt-keeps c part d whole some_of spares p =
      keeps_at c part d.tree d.beats whole some_of spares p
