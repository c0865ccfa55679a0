-- ===== src/RedisStore/Saved.antt =====
-- A Redis server that `add` of `src/redis_store.rs` saves is the one that `resolve` finds.
use shex.Prelude.{
  Bool, true, false, ◌≡◌, ◌≢◌, refl, sym, ◌∙◌, ap, inl, inr, arith, none, some, is_some,
  Option-cases, List, [], ◌∷◌, ◌++◌, Bytes, codes, contains, starts_with, is_utf8, eq_refl, all,
  length, length-append, cons_heads,
}
use shex.Result.{Result, ok}
use shex.Names.{validate_name, name_byte}
use shex.Names.Hostname.{validate_name_iff}
use shex.Channel.{Codec}
use shex.Files.{
  FilePath, File, Tree, Disk, still, find, put, attempt, ensure_private_directory,
  check_private_permissions,
}
use shex.Files.Laws.{find-put, find-put_self, find-put_ne, eq_path_refl, dir_there, heads}
use shex.Vault.{Draws}
use shex.Vault.Key.{secured}
use shex.Credentials.{at, Secrets}
use shex.RedisStore.{
  Marker, service, directory, default_path, server_hash, marker_path, store_version, write_private,
  read_marker, add, resolve_name, resolve, resolve_default, resolve_or_default,
}

-- What `write_private` has come to.
record Private (path : FilePath) (bytes : Bytes) (t : Tree) (r : Result (Unit {0}) × Disk)
    : Type 0 where
  tree : Tree
  returns : r ≡ (ok tt, still tree)
  new : find path tree.files ≡ some (record { bytes = bytes; mode = 0o600 })
  others : (q : FilePath) → q ≢ path → find q tree.files ≡ find q t.files
  dirs : tree.dirs ≡ t.dirs

put_thrice :
    (path q : FilePath) (f g h : File) (files : List (FilePath × File))
    → q ≢ path
    → find q (put path f (put path g (put path h files))) ≡ find q files
put_thrice path q f g h files ne =
    let ne' = λ (e : path ≡ q). ne (sym e) in
    find-put_ne path q f (put path g (put path h files)) ne'
    ∙ (find-put_ne path q g (put path h files) ne' ∙ find-put_ne path q h files ne')

write_private-Private :
    (dir : FilePath) (name bytes : Bytes) (t : Tree)
    → is_some (find dir t.dirs) ≡ true
    → Private (name ∷ dir) bytes t (write_private (name ∷ dir) bytes (still t))
unfolding write_private attempt
write_private-Private dir name bytes t there = elim (Option-cases (find (name ∷ dir) t.files)) [
  | inl missing ↦
      simp (there, missing, find-put, eq_path_refl)
        (record {
          tree = _;
          returns = refl;
          new = find-put_self (name ∷ dir) _ _;
          others = λ q ne. put_thrice (name ∷ dir) q _ _ _ t.files ne;
          dirs = refl;
        })
  | inr (file, here) ↦
      simp (there, here, find-put, eq_path_refl)
        (record {
          tree = _;
          returns = refl;
          new = find-put_self (name ∷ dir) _ _;
          others = λ q ne. put_thrice (name ∷ dir) q _ _ _ t.files ne;
          dirs = refl;
        })
]

-- A name is no URL.
name-no_url : (name : Bytes) → all name_byte name ≡ true → contains (codes "://") name ≡ false
unfolding contains starts_with name_byte
name-no_url [] h = refl
name-no_url (c ∷ cs) h = ground (arith, name-no_url cs)

not_default : (hash : Bytes) → hash ++ codes ".server" ≢ codes "default"
not_default [] e = absurd (omega (arith, cons_heads e))
not_default (c ∷ hash) e =
    absurd (omega (arith, ap (λ (b : Bytes). length b) e, length-append hash (codes ".server")))

not_credentials : codes "redis" ≢ codes "credentials"
not_credentials e = absurd (omega (arith, ap (λ (b : Bytes). length b) e))

module _ (markers : Codec Marker) (valid_url : Bytes → Bool) {K : Type 0} (secrets : Secrets K)
    (sha256 : Bytes → Bytes) (store_dir : FilePath) where
  abbrev pub marker_of : Bytes → Marker
  marker_of name = record { version = store_version; name = name }

  -- The directories of the registry are made.
  abbrev pub prepared : Tree → Tree
  prepared t = secured (directory store_dir) (secured store_dir t)

  abbrev RemembersUrl : Bytes → Bytes → Tree → K → Type 0
  RemembersUrl name = secrets.Remembers store_dir service (server_hash sha256 name)

  -- A server is saved, and is the default.
  record IsSaved (name redis_url : Bytes) (t : Tree) (k : K) : Type 0 where
    bytes : Bytes
    named : validate_name name ≡ ok tt
    marked :
        find (marker_path sha256 store_dir name) t.files
        ≡ some (record { bytes = bytes; mode = 0o600 })
    chosen : find (default_path store_dir) t.files ≡ some (record { bytes = bytes; mode = 0o600 })
    read : markers.from_slice bytes ≡ some (marker_of name)
    remembers : RemembersUrl name redis_url t k
    text : is_utf8 redis_url ≡ true
    valid : valid_url redis_url ≡ true

  read_marker_lem :
      (path : FilePath) (name bytes : Bytes) (t : Tree) (k : K)
      → find path t.files ≡ some (record { bytes = bytes; mode = 0o600 })
      → markers.from_slice bytes ≡ some (marker_of name)
      → read_marker markers valid_url secrets sha256 path (at t k) ≡ (ok (marker_of name), at t k)
  unfolding read_marker check_private_permissions attempt
  read_marker_lem path name bytes t k here read = simp (here, read) refl

  resolve-IsSaved :
      (name redis_url : Bytes) (t : Tree) (k : K)
      → IsSaved name redis_url t k
      → resolve markers valid_url secrets sha256 store_dir name (at t k) ≡ (ok redis_url, at t k)
  unfolding resolve resolve_name
  resolve-IsSaved name redis_url t k s =
      let no_url = name-no_url name ((validate_name_iff name).0 s.named).bytes in
      let marked =
        read_marker_lem (marker_path sha256 store_dir name) name s.bytes t k s.marked s.read in
      rw (no_url, s.named, marked)
        (simp
          (
            eq_refl name,
            secrets.get-Remembers store_dir service (server_hash sha256 name) redis_url t k
                s.remembers,
            s.text,
            s.valid,
          )
          refl)

  resolve_default-IsSaved :
      (name redis_url : Bytes) (t : Tree) (k : K)
      → IsSaved name redis_url t k
      → resolve_or_default markers valid_url secrets sha256 store_dir none (at t k)
        ≡ (ok redis_url, at t k)
  unfolding resolve_or_default resolve_default attempt
  resolve_default-IsSaved name redis_url t k s =
      rw (s.chosen, read_marker_lem (default_path store_dir) name s.bytes t k s.chosen s.read)
        (resolve-IsSaved name redis_url t k s)

  -- What `add` needs.
  pub record CanAdd (name redis_url : Bytes) (draws : Draws) (t : Tree) (k : K) : Type 0 where
    pub named : validate_name name ≡ ok tt
    pub text : is_utf8 redis_url ≡ true
    pub valid : valid_url redis_url ≡ true
    pub can_set :
        secrets.CanSet store_dir service (server_hash sha256 name) draws redis_url (prepared t) k
    pub marker : Bytes
    pub writes : markers.to_vec (marker_of name) ≡ some marker

  -- After `add` of a valid name and URL, the name resolves to that URL, and so does the default,
  -- whatever was saved before. Nobody else uses the disk, and the credential store takes the URL.
  pub resolve-add :
      (name redis_url : Bytes) (draws : Draws) (t : Tree) (k : K)
      → CanAdd name redis_url draws t k
      → let (r, m) = add markers valid_url secrets sha256 store_dir name redis_url draws (at t k) in
        (r ≡ ok (marker_path sha256 store_dir name))
        × (resolve markers valid_url secrets sha256 store_dir name m ≡ (ok redis_url, m))
        × (resolve_or_default markers valid_url secrets sha256 store_dir none m ≡ (ok redis_url, m))
  unfolding add ensure_private_directory attempt
  resolve-add name redis_url draws t k can =
      let hash = server_hash sha256 name in
      let file = hash ++ codes ".server" in
      let dir = directory store_dir in
      let s =
        secrets.set-CanSet store_dir service hash redis_url draws (prepared t) k can.can_set in
      let there = s.dirs dir (dir_there dir 0o700 (secured store_dir t).dirs) in
      let w = write_private-Private dir file can.marker s.tree there in
      let there' = ap (λ ds. is_some (find dir ds)) w.dirs ∙ there in
      let d = write_private-Private dir (codes "default") can.marker w.tree there' in
      let apart = λ (e : ◌≡◌ {A = FilePath} (file ∷ dir) (codes "default" ∷ dir)).
        not_default hash (heads e) in
      let saved : IsSaved name redis_url d.tree s.ring = record {
        bytes = can.marker;
        named = can.named;
        marked = d.others (file ∷ dir) apart ∙ w.new;
        chosen = d.new;
        read = markers.from_slice-to_vec (marker_of name) can.writes;
        remembers =
            secrets.Remembers-others store_dir service hash redis_url w.tree d.tree s.ring
              (codes "default") (codes "redis") not_credentials d.others
              (secrets.Remembers-others store_dir service hash redis_url s.tree w.tree s.ring file
                (codes "redis") not_credentials w.others s.remembers);
        text = can.text;
        valid = can.valid;
      } in
      rw (can.named, can.valid, s.returns, can.writes, w.returns, d.returns)
        (
          refl,
          resolve-IsSaved name redis_url d.tree s.ring saved,
          resolve_default-IsSaved name redis_url d.tree s.ring saved,
        )
