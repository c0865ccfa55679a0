-- ===== src/Vault/Agreement.antt =====
-- Processes that make the key of `src/credential_store.rs` at the same time get one key.
use shex.Prelude.{
  ◌≡◌, refl, ◌∙◌, true, false, Bool, Bool-cases, Option, none, some, is_some, inl, inr, List, [],
  ◌∷◌, Bytes, length, ◌==◌, if◌then◌else◌, some-inj,
}
use shex.Result.{
  Error, Result, ok, err, Result-cases, Exec, demand, not_private, capture, lift, ◌>>=◌, ◌>>◌,
  ok-inj,
}
use shex.Files.{
  create_dir_all, set_dir_mode, mode_of, read, is_private, check_private_permissions, FilePath,
  File, Tree, Disk, Beat, find, exists, open_new, write_all, sync_all, hard_link, linked, new_file,
  changed, remove_file, in_directory, ensure_private_directory,
}
use shex.Files.Laws.{find-put_self}
use shex.Files.Beats.{Closed, met, met-P, attempt-ok, attempt-Closed}
use shex.Vault.{
  directory, key_path, key_temp_path, is_already_exists, load_file_key, load_or_create_file_key,
  create_file_key, after_link,
}
use shex.Vault.Race.{
  load_or_create_file_key-Preserves, KeyFile, whole_key, load_file_key-KeyFile, Has,
  remove_file-Preserves,
}

-- a method that succeeds has gone through its first part
pub bind-ok :
    {A B : Type 0} (m : Exec Disk A) (k : A → Exec Disk B) (d : Disk) {b : B}
    → ((m >>= k) d).0 ≡ ok b
    → (a : A) × ((m d).0 ≡ ok a) × ((k a (m d).1).0 ≡ ok b) × (((m >>= k) d).1 ≡ (k a (m d).1).1)
bind-ok m k d h = elim (Result-cases (m d).0) [
  | inl (a, done) ↦ (a, done, rw done at h, rw done refl)
  | inr (e, failed) ↦ absurd (cc (rw failed at h))
]

-- what a method leaves of the beats, whatever happens
abbrev Later : (Tree → Type 0) → {A : Type 0} → Exec Disk A → Type 0
Later P m = (d : Disk) → Closed P d.beats → Closed P (m d).1.beats

module _ (P : Tree → Type 0) where
  bind-Later :
      {A B : Type 0} (m : Exec Disk A) (k : A → Exec Disk B)
      → Later P m
      → ((a : A) → Later P (k a))
      → Later P (m >>= k)
  bind-Later m k hm hk d closed = elim (Result-cases (m d).0) [
    | inl (a, done) ↦ rw done (hk a (m d).1 (hm d closed))
    | inr (e, failed) ↦ rw failed (hm d closed)
  ]

  demand-Later : (b : Bool) (e : Error) → Later P (demand b e)
  demand-Later true e d closed = closed
  demand-Later false e d closed = closed

  whole_key-Later : (bytes : Bytes) → Later P (whole_key bytes)
  whole_key-Later bytes = elim (Bool-cases (length bytes == 32)) [
    | inl whole ↦ rw whole (λ d closed. closed)
    | inr short ↦ rw short (λ d closed. closed)
  ]

  ensure-Later : (dir : FilePath) → Later P (ensure_private_directory dir)
  unfolding ensure_private_directory
  ensure-Later dir =
      bind-Later (create_dir_all dir) (λ u. set_dir_mode dir 0o700) (attempt-Closed P _ (λ n t. t))
        (λ u. attempt-Closed P _ (λ n t. t))

  load_file_key-Later : (store_dir : FilePath) → Later P (load_file_key store_dir)
  unfolding load_file_key check_private_permissions
  load_file_key-Later store_dir =
      let path = key_path store_dir in
      let last = λ (u : Unit {0}).
        bind-Later (read path) whole_key (attempt-Closed P _ (λ n t. t)) whole_key-Later in
      bind-Later (check_private_permissions path) (λ u. read path >>= whole_key)
        (bind-Later (mode_of path) (λ mode. demand (is_private mode) not_private)
          (attempt-Closed P _ (λ n t. t)) (λ mode. demand-Later (is_private mode) not_private))
        last

-- the calls that make the temporary file and the link, when they succeed
new_file-made :
    (path : FilePath) (x : Option File) (t : Tree) {u : Unit {0}}
    → (new_file path 0o600 x t).0 ≡ ok u
    → find path (new_file path 0o600 x t).1.files ≡ some (record { bytes = []; mode = 0o600 })
new_file-made path none t h = find-put_self path _ t.files
new_file-made path (some g) t h = absurd (cc)

open_new-made :
    (name : Bytes) (dir : FilePath) (t : Tree) {u : Unit {0}}
    → (in_directory
        (name ∷ dir)
        (λ t. new_file (name ∷ dir) 0o600 (find (name ∷ dir) t.files) t)
        t).0
      ≡ ok u
    → find
        (name ∷ dir)
        (in_directory
          (name ∷ dir)
          (λ t. new_file (name ∷ dir) 0o600 (find (name ∷ dir) t.files) t)
          t).1.files
      ≡ some (record { bytes = []; mode = 0o600 })
open_new-made name dir t h = elim (Bool-cases (is_some (find dir t.dirs))) [
  | inl there ↦ rw there (new_file-made (name ∷ dir) (find (name ∷ dir) t.files) t (rw there at h))
  | inr missing ↦ absurd (cc (rw missing at h))
]

linked-made :
    (to : FilePath) (x y : Option File) (t : Tree) (f : File) {u : Unit {0}}
    → x ≡ some f
    → (linked to x y t).0 ≡ ok u
    → find to (linked to x y t).1.files ≡ some f
linked-made to none y t f there h = absurd (cc)
linked-made to (some g) (some other) t f there h = absurd (cc)
linked-made to (some g) none t f there h = find-put_self to g t.files ∙ there

-- Others neither change nor remove a key file, and leave the temporary file alone.
pub record Fair (store_dir : FilePath) (temp : Bytes) (beats : List Beat) : Type 0 where
  pub keep_key : (f : File) → Closed (Has (key_path store_dir) f) beats
  pub keep_temp : (f : File) → Closed (Has (key_temp_path store_dir temp) f) beats

module _ (store_dir : FilePath) (key temp : Bytes) where
  abbrev key_file : FilePath
  key_file = key_path store_dir

  abbrev temp_file : FilePath
  temp_file = key_temp_path store_dir temp

  abbrev IsFair : Disk → Type 0
  IsFair d = Fair store_dir temp d.beats

  later :
      {A : Type 0} (m : Exec Disk A)
      → ((P : Tree → Type 0) → Later P m)
      → (d : Disk) → IsFair d
      → IsFair (m d).1
  later m h d fair = record {
    keep_key = λ f. h (Has key_file f) d (fair.keep_key f);
    keep_temp = λ f. h (Has temp_file f) d (fair.keep_temp f);
  }

  abbrev written : File
  written = record { bytes = key; mode = 0o600 }

  abbrev removed : Result Bytes → Exec Disk Bytes
  removed result = capture (remove_file temp_file) >> lift result

  abbrev tried : Result (Unit {0}) → Exec Disk Bytes
  tried r = capture (after_link store_dir key r) >>= removed

  abbrev linking : Exec Disk Bytes
  linking = capture (hard_link temp_file key_file) >>= tried

  -- the key file stays while the temporary file is removed
  removed-KeyFile :
      (d : Disk) (k : Bytes)
      → IsFair d
      → KeyFile store_dir k d.tree
      → KeyFile store_dir k (remove_file temp_file d).1.tree
  removed-KeyFile d k fair (f, here, bytes) =
      (f, (remove_file-Preserves store_dir f key temp d (fair.keep_key f) here).0, bytes)

  tried-KeyFile :
      (r : Result (Unit {0})) (d : Disk) {k : Bytes}
      → IsFair d
      → (r ≡ ok tt → Has key_file written d.tree)
      → (tried r d).0 ≡ ok k
      → KeyFile store_dir k (tried r d).1.tree
  tried-KeyFile (ok u) d fair made h = removed-KeyFile d _ fair (written, made refl, ok-inj h)
  tried-KeyFile (err e) d fair made h = elim (Bool-cases (is_already_exists e)) [
    | inr other ↦ absurd (cc (rw other at h))
    | inl lost ↦ rw lost (
        removed-KeyFile (load_file_key store_dir d).1 _
          (later (load_file_key store_dir) (λ P. load_file_key-Later P store_dir) d fair)
          (load_file_key-KeyFile store_dir d (rw lost at h)))
  ]

  linking-KeyFile :
      (d : Disk) {k : Bytes}
      → IsFair d
      → Has temp_file written d.tree
      → (linking d).0 ≡ ok k
      → KeyFile store_dir k (linking d).1.tree
  linking-KeyFile d fair p h =
      let link = hard_link temp_file key_file in
      let fair' = later link (λ P. attempt-Closed P _ (λ n t. t)) d fair in
      tried-KeyFile (link d).0 (link d).1 fair'
        (λ linked_ok.
          let (ran, tree) = attempt-ok _ (λ n t. t) d linked_ok in
          rw tree (
            linked-made key_file _ _ (met d) written
              (met-P (Has temp_file written) d (fair.keep_temp written) p) ran))
        h

  -- the temporary file has the key when it is written and the disk has it
  changed-made :
      (x : Option File) (t : Tree)
      → x ≡ some (record { bytes = []; mode = 0o600 })
      → find temp_file (changed temp_file (λ file. record file { bytes = key }) x t).files
        ≡ some written
  changed-made none t there = absurd (cc)
  changed-made (some file) t there = rw (some-inj there) (find-put_self temp_file written t.files)

  create_file_key-KeyFile :
      (d : Disk) {k : Bytes}
      → IsFair d
      → (create_file_key store_dir key temp d).0 ≡ ok k
      → KeyFile store_dir k (create_file_key store_dir key temp d).1.tree
  unfolding create_file_key
  create_file_key-KeyFile d fair h =
      let empty : File = record { bytes = []; mode = 0o600 } in
      let opens = open_new temp_file 0o600 in
      let write = write_all temp_file key in
      let (u, opened, h1, e1) = bind-ok opens (λ u. write >> (sync_all >> linking)) d h in
      let d1 = (opens d).1 in
      let fair1 = later opens (λ P. attempt-Closed P _ (λ n t. t)) d fair in
      let (ran, tree1) = attempt-ok _ (λ n t. t) d opened in
      let there1 : Has temp_file empty d1.tree = rw tree1 (open_new-made _ store_dir (met d) ran) in
      let (v, wrote, h2, e2) = bind-ok write (λ u. sync_all >> linking) d1 h1 in
      let d2 = (write d1).1 in
      let fair2 = later write (λ P. attempt-Closed P _ _) d1 fair1 in
      let tree2 = (attempt-ok _ _ d1 wrote).1 in
      let there2 : Has temp_file written d2.tree =
        rw tree2 (
          changed-made _ (met d1)
            (met-P (Has temp_file empty) d1 (fair1.keep_temp empty) there1)) in
      let (w, synced, h3, e3) = bind-ok sync_all (λ u. linking) d2 h2 in
      let d3 = (sync_all d2).1 in
      let fair3 = later sync_all (λ P. attempt-Closed P _ (λ n t. t)) d2 fair2 in
      let tree3 = (attempt-ok _ (λ n t. t) d2 synced).1 in
      let there3 : Has temp_file written d3.tree =
        rw tree3 (met-P (Has temp_file written) d2 (fair2.keep_temp written) there2) in
      rw (e1, e2, e3) (linking-KeyFile d3 fair3 there3 h3)

  abbrev load_or_create : Bool → Exec Disk Bytes
  load_or_create there =
      if there then load_file_key store_dir else create_file_key store_dir key temp

  load_or_create-KeyFile :
      (there : Bool) (d : Disk) {k : Bytes}
      → IsFair d
      → (load_or_create there d).0 ≡ ok k
      → KeyFile store_dir k (load_or_create there d).1.tree
  load_or_create-KeyFile true d fair h = load_file_key-KeyFile store_dir d h
  load_or_create-KeyFile false d fair h = create_file_key-KeyFile d fair h

  -- A key that is returned is the one in the key file.
  pub load_or_create_file_key-KeyFile :
      (d : Disk) (k : Bytes)
      → Fair store_dir temp d.beats
      → (load_or_create_file_key store_dir key temp d).0 ≡ ok k
      → KeyFile store_dir k (load_or_create_file_key store_dir key temp d).1.tree
  unfolding load_or_create_file_key
  load_or_create_file_key-KeyFile d k fair h =
      let first = ensure_private_directory store_dir in
      let second = ensure_private_directory (directory store_dir) in
      let test = exists key_file in
      let (u, ok1, h1, e1) = bind-ok first (λ u. second >> (test >>= load_or_create)) d h in
      let d1 = (first d).1 in
      let fair1 = later first (λ P. ensure-Later P store_dir) d fair in
      let (v, ok2, h2, e2) = bind-ok second (λ u. test >>= load_or_create) d1 h1 in
      let d2 = (second d1).1 in
      let fair2 = later second (λ P. ensure-Later P (directory store_dir)) d1 fair1 in
      let (there, ok3, h3, e3) = bind-ok test load_or_create d2 h2 in
      let d3 = (test d2).1 in
      let fair3 = later test (λ P. attempt-Closed P _ (λ n t. t)) d2 fair2 in
      rw (e1, e2, e3) (load_or_create-KeyFile there d3 fair3 h3)

-- When one process has got a key of the vault and another gets one later, with the key file of the
-- first still there, both have the same key: whatever calls fail, wherever writes are torn, and
-- whether the key was loaded, made, or lost to a rival between the test and the link. Others
-- neither change nor remove a key file, and leave the temporary files of the two alone.
pub one_key :
    (store_dir : FilePath) (key temp other other_temp : Bytes) (d e : Disk) (k l : Bytes)
    → Fair store_dir temp d.beats
    → Fair store_dir other_temp e.beats
    → (load_or_create_file_key store_dir key temp d).0 ≡ ok k
    → ((f : File)
        → find (key_path store_dir) (load_or_create_file_key store_dir key temp d).1.tree.files
          ≡ some f
        → find (key_path store_dir) e.tree.files ≡ some f)
    → (load_or_create_file_key store_dir other other_temp e).0 ≡ ok l
    → k ≡ l
one_key store_dir key temp other other_temp d e k l fair fair' first after second =
    let (f, here, bytes) = load_or_create_file_key-KeyFile store_dir key temp d k fair first in
    let kept =
      load_or_create_file_key-Preserves store_dir f other other_temp e (fair'.keep_key f)
        (after f here) in
    let (g, there, bytes') =
      load_or_create_file_key-KeyFile store_dir other other_temp e l fair' second in
    cc
