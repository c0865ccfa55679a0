-- ===== src/Vault/Secrets.antt =====
-- `FileEntry` of `src/credential_store.rs` as a store of secrets, when nobody else touches the disk.
use shex.Prelude.{
  ◌≡◌, ◌≢◌, refl, true, Option, none, some, is_some, Option-cases, Bool-cases, inl, inr, List, ◌∷◌,
  Bytes, arith, if◌then◌else◌, ◌==◌,
}
use shex.Result.{
  Result, ok, err, io, not_found, not_private, context, invalid_credential, unsupported_credential,
  credential_not_authentic,
}
use shex.Channel.{Crypto, Codec}
use shex.Files.{
  FilePath, File, Tree, Disk, still, attempt, is_private, find, put, without,
  ensure_private_directory, check_private_permissions,
}
use shex.Files.Laws.{
  find-put, find-put_self, find-without, eq_path_iff, eq_path_refl, dir_kept, dir_there,
}
use shex.Vault.{
  FileEnvelope, FileEntry, temp_path, write_and_rename, write_private_replace, sealed, get_secret,
  file_store_version,
}
use shex.Vault.Key.{HasKey, load_file_key-HasKey}

-- a temporary file that is renamed leaves the other files alone
pub renamed_alone :
    (temp path q : FilePath) (f g h : File) (files : List (FilePath × File))
    → find temp files ≡ none
    → q ≢ path
    → find q (put path f (without temp (put temp g (put temp h files)))) ≡ find q files
renamed_alone temp path q f g h files free other = ground (
  arith,
  find-put path q f (without temp (put temp g (put temp h files))),
  find-without temp q (put temp g (put temp h files)),
  find-put temp q g (put temp h files),
  find-put temp q h files,
  eq_path_iff temp q,
  eq_path_iff path q,
)

-- What `write_private_replace` has come to.
pub record Replaced (path : FilePath) (bytes : Bytes) (t : Tree) (r : Result (Unit {0}) × Disk)
    : Type 0 where
  pub tree : Tree
  pub returns : r ≡ (ok tt, still tree)
  pub new : find path tree.files ≡ some (record { bytes = bytes; mode = 0o600 })
  pub others : (q : FilePath) → q ≢ path → find q tree.files ≡ find q t.files
  pub dirs : (q : FilePath) → is_some (find q t.dirs) ≡ true → is_some (find q tree.dirs) ≡ true

pub write_private_replace-Replaced :
    (dir : FilePath) (name bytes temp : Bytes) (t : Tree)
    → find (temp_path dir temp) t.files ≡ none
    → Replaced (name ∷ dir) bytes t (write_private_replace (name ∷ dir) bytes temp (still t))
unfolding write_private_replace write_and_rename ensure_private_directory attempt
write_private_replace-Replaced dir name bytes temp t free =
    let at_temp = temp_path dir temp in
    let there = dir_there dir 0o700 t.dirs in
    rw there (
      simp (free, find-put, eq_path_refl)
        (record {
          tree = _;
          returns = refl;
          new = find-put_self (name ∷ dir) _ _;
          others = λ q other. renamed_alone at_temp (name ∷ dir) q _ _ _ t.files free other;
          dirs = λ q. dir_kept dir q 0o700 t.dirs;
        }))

module _ (crypto : Crypto) (codec : Codec FileEnvelope) where
  abbrev pub opened_envelope : Bytes → Bytes → Option FileEnvelope → Result Bytes
  opened_envelope key aad none = err invalid_credential
  opened_envelope key aad (some envelope) =
      if envelope.version == file_store_version
      then context (crypto.decrypt key envelope.nonce aad envelope.ciphertext)
          credential_not_authentic
      else err unsupported_credential

  -- What `get_secret` needs of an entry's file.
  pub record Holds (entry : FileEntry) (key secret : Bytes) (t : Tree) : Type 0 where
    pub keyed : HasKey entry.store_dir key t
    pub bytes : Bytes
    pub nonce : Bytes
    pub ciphertext : Bytes
    pub here : find entry.path t.files ≡ some (record { bytes = bytes; mode = 0o600 })
    pub read : codec.from_slice bytes ≡ some (sealed nonce ciphertext)
    pub opened : crypto.decrypt key nonce entry.aad ciphertext ≡ some secret

  pub get_secret-Holds :
      (entry : FileEntry) (key secret : Bytes) (t : Tree)
      → Holds entry key secret t
      → get_secret crypto codec entry (still t) ≡ (ok secret, still t)
  unfolding get_secret check_private_permissions attempt
  get_secret-Holds entry key secret t h =
      rw (load_file_key-HasKey entry.store_dir key t h.keyed) (simp (h.here, h.read, h.opened) refl)

  -- what `get_secret` makes of an entry's file
  abbrev pub opened_file : Bytes → Bytes → Option File → Result Bytes
  opened_file key aad none = err (io not_found)
  opened_file key aad (some file) =
      if is_private file.mode
      then opened_envelope key aad (codec.from_slice file.bytes)
      else err not_private

  pub get_secret-opened_file :
      (entry : FileEntry) (key : Bytes) (t : Tree)
      → HasKey entry.store_dir key t
      → (get_secret crypto codec entry (still t)).0
        ≡ opened_file key entry.aad (find entry.path t.files)
  unfolding get_secret check_private_permissions attempt
  get_secret-opened_file entry key t k =
      rw (load_file_key-HasKey entry.store_dir key t k)
        (elim (Option-cases (find entry.path t.files)) [
          | inl missing ↦ simp missing refl
          | inr (file, here) ↦ elim (Bool-cases (is_private file.mode)) [
            | inr public ↦ simp (here, public) refl
            | inl private ↦ elim (Option-cases (codec.from_slice file.bytes)) [
              | inl unread ↦ simp (here, private, unread) refl
              | inr (envelope, found) ↦ elim (Bool-cases (envelope.version == file_store_version)) [
                | inr old ↦ simp (here, private, found, old) refl
                | inl current ↦ simp (here, private, found, current) refl
              ]
            ]
          ]
        ])
