-- ===== src/Vault/Race.antt =====
-- `load_or_create_file_key` of `src/credential_store.rs` while other processes do the same.
use shex.Vault.Key.{key_temp_path-ne}
use shex.Prelude.{
  ◌≡◌, ◌∙◌, true, false, Bool, Bool-cases, Option, none, some, Option-cases, is_some, inl, inr, [],
  Bytes, take, length, ◌==◌, if◌then◌else◌,
}
use shex.Result.{
  Error, Result, ok, err, Result-cases, Exec, capture, pure, lift, raise, demand, ◌>>=◌, ◌>>◌,
  bad_key_length, not_private, ok-inj,
}
use shex.Files.{
  made, create_dir_all, set_dir_mode, call, write_all, linked, FilePath, File, Tree, Disk, find,
  put, read, mode_of, exists, open_new, write_all, sync_all, hard_link, remove_file,
  ensure_private_directory, check_private_permissions, is_private, new_file, deleted, changed,
}
use shex.Files.Laws.{find-put_ne, find-without_ne}
use shex.Files.Beats.{Closed, Preserves, met, attempt-ok, attempt-P, bind-Preserves}
use shex.Vault.{
  directory, key_path, key_temp_path, is_already_exists, load_file_key, load_or_create_file_key,
  create_file_key, after_link,
}

-- the key that a file holds
abbrev pub KeyFile : FilePath → Bytes → Tree → Type 0
KeyFile store_dir key t =
    (f : File) × (find (key_path store_dir) t.files ≡ some f) × (f.bytes ≡ key)

-- what a read that succeeds has found
found :
    (path : FilePath) (d : Disk) {bytes : Bytes}
    → (read path d).0 ≡ ok bytes
    → (f : File) × (find path (read path d).1.tree.files ≡ some f) × (f.bytes ≡ bytes)
found path d h =
    let (got, tree) = attempt-ok _ _ d h in
    elim (Option-cases (find path (met d).files)) [
      | inl missing ↦ absurd (cc (rw missing at got))
      | inr (f, here) ↦ (f, rw tree here, ok-inj (rw here at got))
    ]

pub load_file_key-KeyFile :
    (store_dir : FilePath) (d : Disk) {key : Bytes}
    → (load_file_key store_dir d).0 ≡ ok key
    → KeyFile store_dir key (load_file_key store_dir d).1.tree
unfolding load_file_key check_private_permissions
load_file_key-KeyFile store_dir d h =
    let path = key_path store_dir in
    let d1 = (mode_of path d).1 in
    elim (Result-cases (mode_of path d).0) [
      | inr (e, failed) ↦ absurd (cc (rw failed at h))
      | inl (mode, told) ↦ elim (Bool-cases (is_private mode)) [
        | inr public ↦ absurd (cc (rw (told, public) at h))
        | inl private ↦ elim (Result-cases (read path d1).0) [
          | inr (e, failed) ↦ absurd (cc (rw (told, private, failed) at h))
          | inl (bytes, got) ↦ elim (Bool-cases (length bytes == 32)) [
            | inr short ↦ absurd (cc (rw (told, private, got, short) at h))
            | inl whole ↦
                rw (told, private, got, whole)
                  (rw (ok-inj (rw (told, private, got, whole) at h)) at (found path d1 got))
          ]
        ]
      ]
    ]

module _ (path : FilePath) (f : File) where
  -- the file is there
  abbrev pub Has : Tree → Type 0
  Has t = find path t.files ≡ some f

  -- a call that may change another file, or none
  call-Preserves :
      {A : Type 0} (c : Exec Tree A) → ((t : Tree) → Has t → Has (c t).1) → Preserves Has (call c)
  call-Preserves c whole d closed p = attempt-P c (λ n t. t) Has whole (λ n t q. q) d closed p

  lift-Preserves : {A : Type 0} (r : Result A) → Preserves Has (lift r)
  lift-Preserves r d closed p = (p, closed)

  demand-Preserves : (b : Bool) (e : Error) → Preserves Has (demand b e)
  demand-Preserves true e d closed p = (p, closed)
  demand-Preserves false e d closed p = (p, closed)

  capture-Preserves : {A : Type 0} (m : Exec Disk A) → Preserves Has m → Preserves Has (capture m)
  capture-Preserves m h d closed p = h d closed p

  ensure-Preserves : (dir : FilePath) → Preserves Has (ensure_private_directory dir)
  unfolding ensure_private_directory
  ensure-Preserves dir =
      bind-Preserves Has (create_dir_all dir) (λ u. set_dir_mode dir 0o700)
        (call-Preserves (λ t. (ok tt, record t { dirs = made dir t.dirs })) (λ t q. q))
        (λ u. call-Preserves (λ t. (ok tt, record t { dirs = put dir 0o700 t.dirs })) (λ t q. q))

  check-Preserves : (other : FilePath) → Preserves Has (check_private_permissions other)
  unfolding check_private_permissions
  check-Preserves other =
      bind-Preserves Has (mode_of other) (λ mode. demand (is_private mode) not_private)
        (λ d closed p. attempt-P _ (λ n t. t) Has (λ t q. q) (λ n t q. q) d closed p)
        (λ mode. demand-Preserves (is_private mode) not_private)

abbrev pub whole_key : Bytes → Exec Disk Bytes
whole_key bytes = if length bytes == 32 then pure bytes else raise bad_key_length

module _ (path : FilePath) (f : File) (store_dir : FilePath) where
  whole_key-Preserves : (bytes : Bytes) → Preserves (Has path f) (whole_key bytes)
  whole_key-Preserves bytes = elim (Bool-cases (length bytes == 32)) [
    | inl whole ↦ rw whole (λ d closed p. (p, closed))
    | inr short ↦ rw short (λ d closed p. (p, closed))
  ]

  load_file_key-Preserves : Preserves (Has path f) (load_file_key store_dir)
  unfolding load_file_key
  load_file_key-Preserves =
      bind-Preserves (Has path f) (check_private_permissions (key_path store_dir))
        (λ u. read (key_path store_dir) >>= whole_key) (check-Preserves path f (key_path store_dir))
        λ u.
          bind-Preserves (Has path f) (read (key_path store_dir)) whole_key
            (λ d closed p. attempt-P _ (λ n t. t) (Has path f) (λ t q. q) (λ n t q. q) d closed p)
            whole_key-Preserves

module _ (store_dir : FilePath) (f : File) (key temp : Bytes) where
  abbrev key_file : FilePath
  key_file = key_path store_dir

  abbrev temp_file : FilePath
  temp_file = key_temp_path store_dir temp

  abbrev HasKeyFile : Tree → Type 0
  HasKeyFile = Has key_file f

  other_file :
      (g : File) (t : Tree) → HasKeyFile t → find key_file (put temp_file g t.files) ≡ some f
  other_file g t p = find-put_ne temp_file key_file g t.files (key_temp_path-ne store_dir temp) ∙ p

  new_file-Has :
      (x : Option File) (t : Tree) → HasKeyFile t → HasKeyFile (new_file temp_file 0o600 x t).1
  new_file-Has none t p = other_file (record { bytes = []; mode = 0o600 }) t p
  new_file-Has (some g) t p = p

  changed-Has :
      (g : File → File) (x : Option File) (t : Tree)
      → HasKeyFile t
      → HasKeyFile (changed temp_file g x t)
  changed-Has g none t p = p
  changed-Has g (some file) t p = other_file (g file) t p

  deleted-Has : (x : Option File) (t : Tree) → HasKeyFile t → HasKeyFile (deleted temp_file x t).1
  deleted-Has none t p = p
  deleted-Has (some g) t p =
      find-without_ne temp_file key_file t.files (key_temp_path-ne store_dir temp) ∙ p

  linked-Has :
      (x y : Option File) (t : Tree)
      → y ≡ some f
      → HasKeyFile t
      → HasKeyFile (linked key_file x y t).1
  linked-Has none y t there p = p
  linked-Has (some g) none t there p = absurd (cc)
  linked-Has (some g) (some h) t there p = p

  open_new-Preserves : Preserves HasKeyFile (open_new temp_file 0o600)
  open_new-Preserves d closed p =
      attempt-P _ (λ n t. t) HasKeyFile
        (λ t q. elim (Bool-cases (is_some (find store_dir t.dirs))) [
          | inl there ↦ rw there (new_file-Has (find temp_file t.files) t q)
          | inr missing ↦ rw missing q
        ])
        (λ n t q. q) d closed p

  write_all-Preserves : (bytes : Bytes) → Preserves HasKeyFile (write_all temp_file bytes)
  write_all-Preserves bytes d closed p =
      attempt-P _ _ HasKeyFile
        (λ t q. changed-Has (λ file. record file { bytes = bytes }) (find temp_file t.files) t q)
        (λ n t q.
          changed-Has (λ file. record file { bytes = take n bytes }) (find temp_file t.files) t q)
        d closed p

  sync_all-Preserves : Preserves HasKeyFile sync_all
  sync_all-Preserves d closed p =
      attempt-P _ (λ n t. t) HasKeyFile (λ t q. q) (λ n t q. q) d closed p

  hard_link-Preserves : Preserves HasKeyFile (hard_link temp_file key_file)
  hard_link-Preserves d closed p =
      attempt-P _ (λ n t. t) HasKeyFile
        (λ t q. linked-Has (find temp_file t.files) (find key_file t.files) t q q) (λ n t q. q) d
        closed p

  pub remove_file-Preserves : Preserves HasKeyFile (remove_file temp_file)
  remove_file-Preserves d closed p =
      attempt-P _ (λ n t. t) HasKeyFile (λ t q. deleted-Has (find temp_file t.files) t q)
        (λ n t q. q) d closed p

  exists-Preserves : Preserves HasKeyFile (exists key_file)
  exists-Preserves d closed p = attempt-P _ (λ n t. t) HasKeyFile (λ t q. q) (λ n t q. q) d closed p

  after_link-Preserves : (r : Result (Unit {0})) → Preserves HasKeyFile (after_link store_dir key r)
  after_link-Preserves (ok u) = λ d closed p. (p, closed)
  after_link-Preserves (err e) = elim (Bool-cases (is_already_exists e)) [
    | inl lost ↦ rw lost (load_file_key-Preserves key_file f store_dir)
    | inr other ↦ rw other (λ d closed p. (p, closed))
  ]

  -- the rests of `create_file_key`
  abbrev removed : Result Bytes → Exec Disk Bytes
  removed result = capture (remove_file temp_file) >> lift result

  abbrev tried : Result (Unit {0}) → Exec Disk Bytes
  tried r = capture (after_link store_dir key r) >>= removed

  abbrev linking : Exec Disk Bytes
  linking = capture (hard_link temp_file key_file) >>= tried

  removed-Preserves : (result : Result Bytes) → Preserves HasKeyFile (removed result)
  removed-Preserves result =
      bind-Preserves HasKeyFile (capture (remove_file temp_file)) (λ u. lift result)
        (capture-Preserves key_file f (remove_file temp_file) remove_file-Preserves)
        (λ u. lift-Preserves key_file f result)

  tried-Preserves : (r : Result (Unit {0})) → Preserves HasKeyFile (tried r)
  tried-Preserves r =
      bind-Preserves HasKeyFile (capture (after_link store_dir key r)) removed
        (capture-Preserves key_file f (after_link store_dir key r) (after_link-Preserves r))
        removed-Preserves

  linking-Preserves : Preserves HasKeyFile linking
  linking-Preserves =
      bind-Preserves HasKeyFile (capture (hard_link temp_file key_file)) tried
        (capture-Preserves key_file f (hard_link temp_file key_file) hard_link-Preserves)
        tried-Preserves

  create_file_key-Preserves : Preserves HasKeyFile (create_file_key store_dir key temp)
  unfolding create_file_key
  create_file_key-Preserves =
      bind-Preserves HasKeyFile (open_new temp_file 0o600)
        (λ u. write_all temp_file key >> (sync_all >> linking)) open_new-Preserves
        λ u.
          bind-Preserves HasKeyFile (write_all temp_file key) (λ u. sync_all >> linking)
            (write_all-Preserves key)
            λ u.
              bind-Preserves HasKeyFile sync_all (λ u. linking) sync_all-Preserves
                (λ u. linking-Preserves)

  abbrev load_or_create : Bool → Exec Disk Bytes
  load_or_create there =
      if there then load_file_key store_dir else create_file_key store_dir key temp

  load_or_create-Preserves : (there : Bool) → Preserves HasKeyFile (load_or_create there)
  load_or_create-Preserves true = load_file_key-Preserves key_file f store_dir
  load_or_create-Preserves false = create_file_key-Preserves

  -- `load_or_create_file_key` does not change a key file that is there, whatever fails and whatever
  -- else others do that keep it.
  pub load_or_create_file_key-Preserves :
      (d : Disk)
      → Closed (Has (key_path store_dir) f) d.beats
      → find (key_path store_dir) d.tree.files ≡ some f
      → find (key_path store_dir) (load_or_create_file_key store_dir key temp d).1.tree.files
        ≡ some f
  unfolding load_or_create_file_key
  load_or_create_file_key-Preserves d closed p =
      (bind-Preserves HasKeyFile (ensure_private_directory store_dir)
        (λ u.
          ensure_private_directory (directory store_dir) >> (exists key_file >>= load_or_create))
        (ensure-Preserves key_file f store_dir)
        (λ u.
          bind-Preserves HasKeyFile (ensure_private_directory (directory store_dir))
            (λ u. exists key_file >>= load_or_create)
            (ensure-Preserves key_file f (directory store_dir))
            (λ u.
              bind-Preserves HasKeyFile (exists key_file) load_or_create exists-Preserves
                load_or_create-Preserves))
        d closed p).0
