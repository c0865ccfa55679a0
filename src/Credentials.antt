-- ===== src/Credentials.antt =====
-- `src/credential_store.rs`: which credential store keeps the secrets, and its entries.
pub mod Probe
pub mod Laws
use shex.Prelude.{
  ℕ, ◌≡◌, ◌≢◌, true, false, Bool, Option, none, some, is_some, List, [], ◌∷◌, ◌++◌, Bytes, codes,
  eq, if◌then◌else◌,
}
use shex.Result.{
  Error, Result, ok, err, is_ok, demand, capture, Exec, pure, raise, lift, zoom, proceed, ◌>>=◌,
  ◌>>◌, no_backend, probe_mismatch,
}
use shex.Channel.{Crypto, Codec}
use shex.Files.{FilePath, File, Tree, Disk, still, find}
use shex.Vault.{FileEnvelope, FileEntry, Draws, new}
use shex.Vault as Vault

-- the stores of the operating system that the program tries on Linux
pub data SystemStore : Type 0 where
  secret_service kernel_keyring : SystemStore

-- The library `keyring_core`: its default store, and entries of that store by service and user.
pub record Keyring (K : Type 0) : Type 0 where
  pub set_default_store : SystemStore → Exec K (Unit {0})
  pub new_entry : Bytes → Bytes → Exec K (Unit {0})
  pub set_secret : Bytes → Bytes → Bytes → Exec K (Unit {0})
  pub get_secret : Bytes → Bytes → Exec K Bytes
  pub delete_credential : Bytes → Bytes → Exec K (Unit {0})

pub data Backend : Type 0 where
  system linux_kernel encrypted_file : Backend

pub data Entry : Type 0 where
  system_entry : Bytes → Bytes → Entry
  file_entry : FileEntry → Entry

abbrev pub probe_service : Bytes
probe_service = codes "shex-probe"

-- the random user and secret of a probe
pub record Drawn : Type 0 where
  pub user : Bytes
  pub secret : Bytes

-- what the program sees of the machine
pub record Machine (K : Type 0) : Type 0 where
  pub disk : Disk
  pub ring : K

module _ {K : Type 0} where
  abbrev pub on_disk : {A : Type 0} → Exec Disk A → Exec (Machine K) A
  on_disk = zoom (λ m. m.disk) (λ d m. record m { disk = d })

  abbrev pub on_ring : {A : Type 0} → Exec K A → Exec (Machine K) A
  on_ring = zoom (λ m. m.ring) (λ k m. record m { ring = k })

  -- a machine whose disk nobody else uses
  abbrev pub at : Tree → K → Machine K
  at t k = record { disk = still t; ring = k }

module _ {K : Type 0} (keyring : Keyring K) where
  -- The secret is what was stored.
  abbrev pub read_back : Bytes → Result Bytes → Result (Unit {0})
  read_back secret (ok stored) = if eq stored secret then ok tt else err probe_mismatch
  read_back secret (err e) = err e

  unfoldable pub probe_current_store : Drawn → Exec K (Unit {0})
  probe_current_store drawn = do
    keyring.new_entry probe_service drawn.user
    keyring.set_secret probe_service drawn.user drawn.secret
    stored ← capture (keyring.get_secret probe_service drawn.user)
    capture (keyring.delete_credential probe_service drawn.user)
    lift (read_back drawn.secret stored)

  -- a store that opens, and whose probe is good
  unfoldable pub try_store : SystemStore → Drawn → Exec K (Unit {0})
  try_store store drawn = do keyring.set_default_store store; probe_current_store drawn

  abbrev pub or_kernel : Drawn → Result (Unit {0}) → Exec K Backend
  or_kernel drawn (ok u) = pure system
  or_kernel drawn (err e) = do
    kernel ← capture (try_store kernel_keyring drawn)
    pure (if is_ok kernel then linux_kernel else encrypted_file)

  -- `configure_backend` on Linux; `bus` says that `DBUS_SESSION_BUS_ADDRESS` is set.
  unfoldable pub configure_backend : Bool → Drawn → Drawn → Exec K Backend
  configure_backend bus first second = do
    desktop ← capture (if bus then try_store secret_service first else raise no_backend)
    or_kernel second desktop

  module _ (crypto : Crypto) (codec : Codec FileEnvelope) (sha256 : Bytes → Bytes) where
    abbrev pub entry_in : Backend → FilePath → Bytes → Bytes → Exec (Machine K) Entry
    entry_in encrypted_file store_dir service user =
        pure (file_entry (new sha256 store_dir service user))
    entry_in system store_dir service user = do
      on_ring (keyring.new_entry service user)
      pure (system_entry service user)
    entry_in linux_kernel store_dir service user = do
      on_ring (keyring.new_entry service user)
      pure (system_entry service user)

    -- `backend` is the value of `BACKEND`.
    unfoldable pub entry : Result Backend → FilePath → Bytes → Bytes → Exec (Machine K) Entry
    entry backend store_dir service user = do
      chosen ← lift backend
      entry_in chosen store_dir service user

    abbrev pub set_secret : Entry → Draws → Bytes → Exec (Machine K) (Unit {0})
    set_secret (system_entry service user) draws secret =
        on_ring (keyring.set_secret service user secret)
    set_secret (file_entry file) draws secret =
        on_disk (Vault.set_secret crypto codec file draws secret)

    abbrev pub get_secret : Entry → Exec (Machine K) Bytes
    get_secret (system_entry service user) = on_ring (keyring.get_secret service user)
    get_secret (file_entry file) = on_disk (Vault.get_secret crypto codec file)

    abbrev pub delete_credential : Entry → Exec (Machine K) (Unit {0})
    delete_credential (system_entry service user) = on_ring (keyring.delete_credential service user)
    delete_credential (file_entry file) = on_disk (Vault.delete_credential file)

-- What setting a secret has come to: it is set, and the files of the other directories of the store are
-- as they were.
pub record Stores {K : Type 0} (Remembers : Tree → K → Type 0) (store_dir : FilePath) (t : Tree)
    (r : Result (Unit {0}) × Machine K) : Type 0 where
  pub tree : Tree
  pub ring : K
  pub returns : r ≡ (ok tt, at tree ring)
  pub remembers : Remembers tree ring
  pub others :
      (name sub : Bytes)
      → sub ≢ codes "credentials"
      → find (name ∷ sub ∷ store_dir) tree.files ≡ find (name ∷ sub ∷ store_dir) t.files
  pub dirs : (q : FilePath) → is_some (find q t.dirs) ≡ true → is_some (find q tree.dirs) ≡ true

-- What the other parts use of the credential store: `keyring_entry` and one operation of the entry.
pub record Secrets (K : Type 0) : Type 1 where
  pub set : FilePath → Bytes → Bytes → Draws → Bytes → Exec (Machine K) (Unit {0})
  pub get : FilePath → Bytes → Bytes → Exec (Machine K) Bytes
  pub delete : FilePath → Bytes → Bytes → Exec (Machine K) (Unit {0})
  pub CanSet : FilePath → Bytes → Bytes → Draws → Bytes → Tree → K → Type 0
  pub Remembers : FilePath → Bytes → Bytes → Bytes → Tree → K → Type 0
  pub get-Remembers :
      (store_dir : FilePath) (service user secret : Bytes) (t : Tree) (k : K)
      → Remembers store_dir service user secret t k
      → get store_dir service user (at t k) ≡ (ok secret, at t k)
  pub set-CanSet :
      (store_dir : FilePath) (service user secret : Bytes) (draws : Draws) (t : Tree) (k : K)
      → CanSet store_dir service user draws secret t k
      → Stores
          (Remembers store_dir service user secret)
          store_dir
          t
          (set store_dir service user draws secret (at t k))
  pub Remembers-others :
      (store_dir : FilePath) (service user secret : Bytes) (t t' : Tree) (k : K) (name sub : Bytes)
      → sub ≢ codes "credentials"
      → ((q : FilePath) → q ≢ name ∷ sub ∷ store_dir → find q t'.files ≡ find q t.files)
      → Remembers store_dir service user secret t k
      → Remembers store_dir service user secret t' k
