-- ===== src/RedisStore/Valid.antt =====
-- Whatever `resolve` of `src/redis_store.rs` returns is a URL that Redis's client takes.
use shex.Prelude.{
  Bool, true, false, Bool-cases, ◌≡◌, refl, inl, inr, Option, none, some, List, [], ◌∷◌, Bytes,
  codes, contains, is_utf8, eq, ◌==◌, ◌&&◌, if◌then◌else◌,
}
use shex.Result.{
  Error, Result, ok, err, Result-cases, Exec, demand, pure, raise, lift, ◌>>=◌, ◌>>◌, capture,
  not_utf8, invalid_redis_url, marker_mismatch, many_servers, ok-inj,
}
use shex.Names.{validate_name}
use shex.Channel.{Codec}
use shex.Files.{FilePath, exists, read_dir}
use shex.Credentials.{Machine, on_disk, Secrets}
use shex.RedisStore.{
  Marker, service, local_url, directory, default_path, server_hash, marker_path, store_version,
  read_marker, resolve_name, resolve, names_of, only, listed, is_not_found, resolve_default,
  resolve_or_default,
}

-- A method returns nothing but what `P` holds of.
abbrev Yields : {S A : Type 0} → (A → Type 0) → Exec S A → Type 0
Yields {S} {A} P m = (s : S) (a : A) → (m s).0 ≡ ok a → P a

module _ {S A B : Type 0} (P : B → Type 0) where
  bind-Yields : (m : Exec S A) (f : A → Exec S B) → ((a : A) → Yields P (f a)) → Yields P (m >>= f)
  bind-Yields m f h s b returned = elim (Result-cases (m s).0) [
    | inl (a, done) ↦ h a (m s).1 b (rw done at returned)
    | inr (e, failed) ↦ absurd (cc (rw failed at returned))
  ]

module _ {S B : Type 0} (P : B → Type 0) where
  -- what comes behind a check may use that it held
  demand-Yields :
      (b : Bool) (e : Error) (f : Exec S B) → (b ≡ true → Yields P f) → Yields P (demand b e >> f)
  demand-Yields true e f h s b returned = h refl s b returned
  demand-Yields false e f h s b returned = absurd (cc)

  raise-Yields : (e : Error) → Yields P (raise {S = S} e)
  raise-Yields e s b returned = absurd (cc)

  pure-Yields : (b : B) → P b → Yields P (pure {S = S} b)
  pure-Yields b p s b' returned = rw (← ok-inj returned) p

module _ (markers : Codec Marker) (valid_url : Bytes → Bool) {K : Type 0} (secrets : Secrets K)
    (sha256 : Bytes → Bytes) (store_dir : FilePath) where
  abbrev pub IsValid : Bytes → Type 0
  IsValid url = valid_url url ≡ true

  -- the rests of `resolve_name`
  abbrev with_secret : Bytes → Exec (Machine K) Bytes
  with_secret secret =
      demand (is_utf8 secret) not_utf8
      >> (demand (valid_url secret) invalid_redis_url >> pure secret)

  abbrev with_marker : Bytes → Marker → Exec (Machine K) Bytes
  with_marker reference marker =
      demand (marker.version == store_version && eq marker.name reference) marker_mismatch
      >> (secrets.get store_dir service (server_hash sha256 reference) >>= with_secret)

  checked_url-IsValid :
      (url : Bytes)
      → Yields IsValid (demand {S = Machine K} (valid_url url) invalid_redis_url >> pure url)
  checked_url-IsValid url =
      demand-Yields IsValid (valid_url url) invalid_redis_url (pure url) (pure-Yields IsValid url)

  with_secret-IsValid : (secret : Bytes) → Yields IsValid (with_secret secret)
  with_secret-IsValid secret =
      demand-Yields IsValid (is_utf8 secret) not_utf8
        (demand (valid_url secret) invalid_redis_url >> pure secret)
        (λ text. checked_url-IsValid secret)

  with_marker-IsValid :
      (reference : Bytes) (marker : Marker) → Yields IsValid (with_marker reference marker)
  with_marker-IsValid reference marker =
      let get = secrets.get store_dir service (server_hash sha256 reference) in
      demand-Yields IsValid (marker.version == store_version && eq marker.name reference)
        marker_mismatch (get >>= with_secret)
        (λ same. bind-Yields IsValid get with_secret with_secret-IsValid)

  resolve-IsValid :
      (reference : Bytes)
      → Yields IsValid (resolve markers valid_url secrets sha256 store_dir reference)
  unfolding resolve resolve_name
  resolve-IsValid reference =
      let marked =
        read_marker markers valid_url secrets sha256 (marker_path sha256 store_dir reference) in
      elim (Bool-cases (contains (codes "://") reference)) [
        | inl url ↦ rw url (checked_url-IsValid reference)
        | inr name ↦ rw name (
            bind-Yields IsValid (lift (validate_name reference))
              (λ u. marked >>= with_marker reference)
              (λ u.
                bind-Yields IsValid marked (with_marker reference) (with_marker-IsValid reference)))
      ]

  module _ (local-IsValid : IsValid local_url) where
    only-IsValid :
        (names : List Bytes)
        → Yields IsValid (only markers valid_url secrets sha256 store_dir names)
    only-IsValid [] = pure-Yields IsValid local_url local-IsValid
    only-IsValid (name ∷ []) = resolve-IsValid name
    only-IsValid (name ∷ more ∷ names) = raise-Yields IsValid many_servers

    listed-IsValid :
        (entries : Result (List FilePath))
        → Yields IsValid (listed markers valid_url secrets sha256 store_dir entries)
    listed-IsValid (ok paths) =
        bind-Yields IsValid (names_of markers valid_url secrets sha256 paths)
          (only markers valid_url secrets sha256 store_dir) only-IsValid
    listed-IsValid (err e) = elim (Bool-cases (is_not_found e)) [
      | inl missing ↦ rw missing (pure-Yields IsValid local_url local-IsValid)
      | inr other ↦ rw other (raise-Yields IsValid e)
    ]

    resolve_default-IsValid :
        Yields IsValid (resolve_default markers valid_url secrets sha256 store_dir)
    unfolding resolve_default
    resolve_default-IsValid =
        let marked = read_marker markers valid_url secrets sha256 (default_path store_dir) in
        let entries = capture (on_disk (read_dir (directory store_dir))) in
        let by_name = λ (m : Marker). resolve markers valid_url secrets sha256 store_dir m.name in
        let from_list = listed markers valid_url secrets sha256 store_dir in
        let rest =
          λ (there : Bool). if there then marked >>= by_name else (entries >>= from_list) in
        bind-Yields IsValid (on_disk (exists (default_path store_dir))) rest λ there.
          elim (Bool-cases there) [
            | inl found ↦
                rw found (bind-Yields IsValid marked by_name (λ m. resolve-IsValid m.name))
            | inr missing ↦ rw missing (bind-Yields IsValid entries from_list listed-IsValid)
          ]

    -- Whatever the disk and the credential store hold, and whatever others do, a URL that
    -- `resolve_or_default` returns is one that Redis's client takes, as the URL of the local Redis
    -- is.
    pub resolve_or_default-IsValid :
        (reference : Option Bytes) (s : Machine K) (url : Bytes)
        → (resolve_or_default markers valid_url secrets sha256 store_dir reference s).0 ≡ ok url
        → valid_url url ≡ true
    unfolding resolve_or_default
    resolve_or_default-IsValid (some reference) = resolve-IsValid reference
    resolve_or_default-IsValid none = resolve_default-IsValid
