-- ===== src/Vault/Key.antt =====
-- The key file of the vault in `src/credential_store.rs`, when nobody else touches the disk.
use shex.Prelude.{
  ℕ, ◌≡◌, ◌≢◌, refl, sym, true, false, none, some, is_some, List, Bytes, length, cons_heads, arith,
}
use shex.Result.{Result, ok}
use shex.Files.{
  FilePath, File, Tree, Disk, still, attempt, is_private, find, put, without, made, eq_path,
  ensure_private_directory, check_private_permissions,
}
use shex.Files.Laws.{
  find-put, find-without, eq_path_iff, eq_path-false, eq_path_refl, dir_kept, dir_there, heads,
}
use shex.Vault.{
  directory, key_path, key_temp_path, load_file_key, load_or_create_file_key, create_file_key,
}

-- The store's key is there, private and of the right length.
pub record HasKey (store_dir : FilePath) (key : Bytes) (t : Tree) : Type 0 where
  pub mode : ℕ
  pub here : find (key_path store_dir) t.files ≡ some (record { bytes = key; mode = mode })
  pub private : is_private mode ≡ true
  pub whole : length key ≡ 32

abbrev pub secured : FilePath → Tree → Tree
secured path t = record t { dirs = put path 0o700 (made path t.dirs) }

pub load_file_key-HasKey :
    (store_dir : FilePath) (key : Bytes) (t : Tree)
    → HasKey store_dir key t
    → load_file_key store_dir (still t) ≡ (ok key, still t)
unfolding load_file_key attempt check_private_permissions
load_file_key-HasKey store_dir key t k = simp (k.here, k.private, k.whole) refl

-- What `load_or_create_file_key` has come to.
pub record Keyed (store_dir : FilePath) (key : Bytes) (t : Tree) (r : Result Bytes × Disk)
    : Type 0 where
  pub tree : Tree
  pub returns : r ≡ (ok key, still tree)
  pub has : HasKey store_dir key tree
  pub others : (q : FilePath) → q ≢ key_path store_dir → find q tree.files ≡ find q t.files
  pub dirs : (q : FilePath) → is_some (find q t.dirs) ≡ true → is_some (find q tree.dirs) ≡ true

secured_twice :
    (store_dir q : FilePath) (t : Tree)
    → is_some (find q t.dirs) ≡ true
    → is_some (find q (secured (directory store_dir) (secured store_dir t)).dirs) ≡ true
secured_twice store_dir q t h =
    dir_kept (directory store_dir) q 0o700 (secured store_dir t).dirs
      (dir_kept store_dir q 0o700 t.dirs h)

pub load_or_create-HasKey :
    (store_dir : FilePath) (key fresh temp : Bytes) (t : Tree)
    → HasKey store_dir key t
    → Keyed store_dir key t (load_or_create_file_key store_dir fresh temp (still t))
unfolding load_or_create_file_key ensure_private_directory attempt
load_or_create-HasKey store_dir key fresh temp t k =
    let t' : Tree = secured (directory store_dir) (secured store_dir t) in
    let k' : HasKey store_dir key t' = record {
      mode = k.mode;
      here = k.here;
      private = k.private;
      whole = k.whole;
    } in
    rw k.here (record {
      tree = t';
      returns = load_file_key-HasKey store_dir key t' k';
      has = k';
      others = λ q ne. refl;
      dirs = λ q. secured_twice store_dir q t;
    })

pub key_temp_path-ne :
    (store_dir : FilePath) (temp : Bytes) → key_temp_path store_dir temp ≢ key_path store_dir
key_temp_path-ne store_dir temp e = absurd (omega (arith, cons_heads (heads e)))

-- the key file and the temporary file are missing, and the draw has the length of a key
pub record NoKey (store_dir : FilePath) (fresh temp : Bytes) (t : Tree) : Type 0 where
  pub missing : find (key_path store_dir) t.files ≡ none
  pub free : find (key_temp_path store_dir temp) t.files ≡ none
  pub whole : length fresh ≡ 32

-- a temporary file that is moved or linked to `path` leaves the other files alone
pub left_alone :
    (temp path q : FilePath) (f g h : File) (files : List (FilePath × File))
    → find temp files ≡ none
    → q ≢ path
    → find q (without temp (put path f (put temp g (put temp h files)))) ≡ find q files
left_alone temp path q f g h files free other = ground (
  arith,
  find-without temp q (put path f (put temp g (put temp h files))),
  find-put path q f (put temp g (put temp h files)),
  find-put temp q g (put temp h files),
  find-put temp q h files,
  eq_path_iff temp q,
  eq_path_iff path q,
)

pub load_or_create-NoKey :
    (store_dir : FilePath) (fresh temp : Bytes) (t : Tree)
    → NoKey store_dir fresh temp t
    → Keyed store_dir fresh t (load_or_create_file_key store_dir fresh temp (still t))
unfolding load_or_create_file_key create_file_key ensure_private_directory attempt
load_or_create-NoKey store_dir fresh temp t k =
    let at_temp = key_temp_path store_dir temp in
    let key = key_path store_dir in
    let t2 : Tree = secured (directory store_dir) (secured store_dir t) in
    let ne : eq_path at_temp key ≡ false =
      eq_path-false at_temp key (key_temp_path-ne store_dir temp) in
    let ne' : eq_path key at_temp ≡ false =
      eq_path-false key at_temp (λ e. key_temp_path-ne store_dir temp (sym e)) in
    let there =
      dir_kept (directory store_dir) store_dir 0o700 (secured store_dir t).dirs
        (dir_there store_dir 0o700 t.dirs) in
    rw k.missing (
      rw there (
        simp (k.free, k.missing, find-put, eq_path_refl, ne, ne')
          (record {
            tree = _;
            returns = refl;
            has = record {
              mode = 0o600;
              here = simp (find-without, find-put, eq_path_refl, ne) refl;
              private = refl;
              whole = k.whole;
            };
            others = λ q other. left_alone at_temp key q _ _ _ t.files k.free other;
            dirs = λ q. secured_twice store_dir q t;
          })))
