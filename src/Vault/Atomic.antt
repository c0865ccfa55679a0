-- ===== src/Vault/Atomic.antt =====
-- `write_private_replace` of `src/credential_store.rs` when calls fail at any point.
use shex.Prelude.{
  ℕ, ◌≡◌, ◌≢◌, ◌⊎◌, refl, sym, ◌∙◌, Option, none, some, Bool-cases, is_some, inl, inr, [], ◌∷◌,
  ◌++◌, Bytes, codes,
}
use shex.Result.{
  Error, Result, ok, err, Exec, io, not_found, already_exists, capture, lift, ◌>>◌, ◌>>=◌,
}
use shex.Files.{
  FilePath, File, Tree, Disk, find, without, open_new, write_all, sync_all, rename, remove_file,
  create_dir_all, ensure_private_directory, new_file, deleted,
}
use shex.Files.Laws.{find-put_self, find-put_ne, find-without_ne, find-without_self}
use shex.Files.Steps.{
  Spares, State, Kept, Stepped, went, broke, Called, did, refused, attempt-Stepped, then-Stepped,
  attempt-keeps,
}
use shex.Vault.{temp_path, write_and_rename, write_private_replace, tidy}

module _ (path : FilePath) (name : Bytes) (dir : FilePath)
    (apart : ◌≢◌ {A = FilePath} (name ∷ dir) path) {o : Option File} where
  newly :
      (mode : ℕ) (t : Tree) (x : Option File)
      → find path t.files ≡ o
      → find (name ∷ dir) t.files ≡ x
      → Called path
          (name ∷ dir)
          o
          o
          (some (record { bytes = []; mode = mode }))
          (new_file (name ∷ dir) mode x t)
  newly mode t none p q =
      did refl (find-put_ne (name ∷ dir) path _ t.files apart ∙ p)
        (find-put_self (name ∷ dir) _ t.files)
  newly mode t (some f) p q = refused (io already_exists) refl p

  open_new-Stepped :
      {x : Option File} (mode : ℕ) (d : Disk)
      → State path (name ∷ dir) o x d
      → Stepped path
          (name ∷ dir)
          o
          o
          (some (record { bytes = []; mode = mode }))
          (open_new (name ∷ dir) mode d)
  open_new-Stepped {x} mode d s =
      attempt-Stepped path (name ∷ dir) _ _ d
        (λ t p q. elim (Bool-cases (is_some (find dir t.dirs))) [
          | inl there ↦ rw (there, q) (newly mode t x p q)
          | inr missing ↦ rw missing (refused (io not_found) refl p)
        ])
        (λ n t p q. p) s

  write_all-Stepped :
      (bytes : Bytes) (f : File) (d : Disk)
      → State path (name ∷ dir) o (some f) d
      → Stepped path
          (name ∷ dir)
          o
          o
          (some (record f { bytes = bytes }))
          (write_all (name ∷ dir) bytes d)
  write_all-Stepped bytes f d s =
      attempt-Stepped path (name ∷ dir) _ _ d
        (λ t p q. rw q (
          did refl (find-put_ne (name ∷ dir) path _ t.files apart ∙ p)
            (find-put_self (name ∷ dir) _ t.files)))
        (λ n t p q. rw q (find-put_ne (name ∷ dir) path _ t.files apart ∙ p)) s

  sync_all-Stepped :
      (x : Option File) (d : Disk)
      → State path (name ∷ dir) o x d
      → Stepped path (name ∷ dir) o o x (sync_all d)
  sync_all-Stepped x d s =
      attempt-Stepped path (name ∷ dir) _ _ d (λ t p q. did refl p q) (λ n t p q. p) s

  rename-Stepped :
      (f : File) (d : Disk)
      → State path (name ∷ dir) o (some f) d
      → Stepped path (name ∷ dir) o (some f) none (rename (name ∷ dir) path d)
  rename-Stepped f d s =
      attempt-Stepped path (name ∷ dir) _ _ d
        (λ t p q. rw q (
          did refl (find-put_self path f (without (name ∷ dir) t.files)) (
            find-put_ne path (name ∷ dir) f (without (name ∷ dir) t.files) (λ e. apart (sym e))
            ∙ find-without_self (name ∷ dir) t.files)))
        (λ n t p q. p) s

  write_and_rename-Stepped :
      {x : Option File} (bytes : Bytes) (d : Disk)
      → State path (name ∷ dir) o x d
      → Stepped path
          (name ∷ dir)
          o
          (some (record { bytes = bytes; mode = 0o600 }))
          none
          (write_and_rename (name ∷ dir) path bytes d)
  unfolding write_and_rename
  write_and_rename-Stepped bytes d s =
      then-Stepped path (name ∷ dir) (open_new (name ∷ dir) 0o600) _ d (open_new-Stepped 0o600 d s)
        λ d1 s1.
          then-Stepped path (name ∷ dir) (write_all (name ∷ dir) bytes) _ d1
            (write_all-Stepped bytes _ d1 s1)
            λ d2 s2.
              then-Stepped path (name ∷ dir) sync_all _ d2 (sync_all-Stepped _ d2 s2)
                (rename-Stepped _)

  -- the directories change and the files do not
  secure-Stepped :
      {x : Option File} (place : FilePath) (d : Disk)
      → State path (name ∷ dir) o x d
      → Stepped path (name ∷ dir) o o x (ensure_private_directory place d)
  unfolding ensure_private_directory
  secure-Stepped place d s =
      then-Stepped path (name ∷ dir) (create_dir_all place) _ d
        (attempt-Stepped path (name ∷ dir) _ _ d (λ t p q. did refl p q) (λ n t p q. p) s)
        λ d1 s1. attempt-Stepped path (name ∷ dir) _ _ d1 (λ t p q. did refl p q) (λ n t p q. p) s1

  taken_away :
      (t : Tree) (x : Option File)
      → find path t.files ≡ o
      → find path (deleted (name ∷ dir) x t).1.files ≡ o
  taken_away t none p = p
  taken_away t (some f) p = find-without_ne (name ∷ dir) path t.files apart ∙ p

  remove_file-path :
      (d : Disk)
      → Kept path (name ∷ dir) o d
      → find path (remove_file (name ∷ dir) d).1.tree.files ≡ o
  remove_file-path d k =
      attempt-keeps path _ _ d (λ t p. taken_away t (find (name ∷ dir) t.files) p) (λ n t p. p)
        k.spares_path k.at_path

-- the new file after a success, the old one after a failure
abbrev pub Written : FilePath → Bytes → Option File → Result (Unit {0}) × Disk → Type 0
Written path bytes o (r, d) =
    ((r ≡ ok tt) × (find path d.tree.files ≡ some (record { bytes = bytes; mode = 0o600 })))
    ⊎ ((e : Error) × (r ≡ err e) × (find path d.tree.files ≡ o))

-- what `write_private_replace` does once the directory is there
abbrev tidied : FilePath → FilePath → Bytes → Exec Disk (Unit {0})
tidied temp path bytes = do
  result ← capture (write_and_rename temp path bytes)
  tidy temp result
  lift result

tidied-Written :
    (path dir : FilePath) (bytes name : Bytes) (o x : Option File) (d : Disk)
    → ◌≢◌ {A = FilePath} (name ∷ dir) path
    → State path (name ∷ dir) o x d
    → Written path bytes o (tidied (name ∷ dir) path bytes d)
tidied-Written path dir bytes name o x d apart s =
    by_outcome (write_and_rename-Stepped path name dir apart bytes d s)
  where
    by_outcome :
        Stepped path
          (name ∷ dir)
          o
          (some (record { bytes = bytes; mode = 0o600 }))
          none
          (write_and_rename (name ∷ dir) path bytes d)
        → Written path bytes o (tidied (name ∷ dir) path bytes d)
    by_outcome (went e s') = rw e (inl (refl, s'.at_path))
    by_outcome (broke x e k) = rw e (inr (x, refl, remove_file-path path name dir apart _ k))

-- Whatever calls fail, and wherever a write is torn, the file at the path is the new one when
-- `write_private_replace` succeeds and the old one when it fails, never a part of either. Others
-- leave the file and the temporary file alone, which are different files.
pub write_private_replace-Written :
    (name : Bytes) (dir : FilePath) (bytes temp : Bytes) (d : Disk)
    → temp_path dir temp ≢ name ∷ dir
    → Spares (name ∷ dir) d.beats
    → Spares (temp_path dir temp) d.beats
    → Written
        (name ∷ dir)
        bytes
        (find (name ∷ dir) d.tree.files)
        (write_private_replace (name ∷ dir) bytes temp d)
unfolding write_private_replace
write_private_replace-Written name dir bytes temp d apart p q = by_outcome (
    secure-Stepped path (codes ".credential-" ++ (temp ++ codes ".tmp")) dir apart dir d
      (record { spares_path = p; spares_temp = q; at_path = refl; at_temp = refl }))
  where
    path : FilePath
    path = name ∷ dir

    old : Option File
    old = find path d.tree.files

    by_outcome :
        {x : Option File}
        → Stepped path (temp_path dir temp) old old x (ensure_private_directory dir d)
        → Written path bytes old (write_private_replace path bytes temp d)
    by_outcome (went e s) =
        rw e (tidied-Written path dir bytes _ old _ (ensure_private_directory dir d).1 apart s)
    by_outcome (broke x e k) = rw e (inr (x, refl, k.at_path))
