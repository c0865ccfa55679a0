-- ===== src/Credentials/Laws.antt =====
-- The entries of `src/credential_store.rs` keep what the other parts ask of them.
use shex.Files.Laws.{deeper-ne, apart-ne}
use shex.Prelude.{◌≡◌, ◌≢◌, refl, sym, ◌∙◌, ◌∷◌, Bytes, codes}
use shex.Result.{ok, Exec, ◌>>=◌}
use shex.Channel.{Crypto, Codec}
use shex.Files.{FilePath, Tree, find}
use shex.Vault.{FileEnvelope, Draws, new, key_path}
use shex.Vault.Secrets.{Holds, get_secret-Holds}
use shex.Vault.Refinement.{Set, set_secret-Set, KeyReady}
use shex.Vault.Refinement as Vault
use shex.Credentials.{
  Keyring, Machine, at, Backend, system, linux_kernel, encrypted_file, Entry, entry, set_secret,
  get_secret, delete_credential, Stores, Secrets,
}

module _ {K : Type 0} (keyring : Keyring K) (crypto : Crypto) (codec : Codec FileEnvelope)
    (sha256 : Bytes → Bytes) where
  abbrev pub opened : Backend → FilePath → Bytes → Bytes → Exec (Machine K) Entry
  opened backend = entry keyring crypto codec sha256 (ok backend)

  -- A store of the system opens the entry and has the secret.
  abbrev pub InRing : Bytes → Bytes → Bytes → K → Type 0
  InRing service user secret k =
      (keyring.new_entry service user k ≡ (ok tt, k))
      × (keyring.get_secret service user k ≡ (ok secret, k))

  abbrev pub Remembers : Backend → FilePath → Bytes → Bytes → Bytes → Tree → K → Type 0
  Remembers encrypted_file store_dir service user secret t k =
      (key : Bytes) × Holds crypto codec (new sha256 store_dir service user) key secret t
  Remembers system store_dir service user secret t k = InRing service user secret k
  Remembers linux_kernel store_dir service user secret t k = InRing service user secret k

  abbrev pub RingTakes : Bytes → Bytes → Bytes → K → Type 0
  RingTakes service user secret k =
      (keyring.new_entry service user k ≡ (ok tt, k))
      × ((k' : K) × (keyring.set_secret service user secret k ≡ (ok tt, k'))
          × InRing service user secret k')

  abbrev pub CanSet : Backend → FilePath → Bytes → Bytes → Draws → Bytes → Tree → K → Type 0
  CanSet encrypted_file store_dir service user draws secret t k =
      (key : Bytes) × Vault.CanSet crypto codec sha256 store_dir service user secret key draws t
  CanSet system store_dir service user draws secret t k = RingTakes service user secret k
  CanSet linux_kernel store_dir service user draws secret t k = RingTakes service user secret k

  abbrev pub set : Backend → FilePath → Bytes → Bytes → Draws → Bytes → Exec (Machine K) (Unit {0})
  set backend store_dir service user draws secret = do
    e ← opened backend store_dir service user
    set_secret keyring crypto codec sha256 e draws secret

  abbrev pub get : Backend → FilePath → Bytes → Bytes → Exec (Machine K) Bytes
  get backend store_dir service user = do
    e ← opened backend store_dir service user
    get_secret keyring crypto codec sha256 e

  abbrev pub delete : Backend → FilePath → Bytes → Bytes → Exec (Machine K) (Unit {0})
  delete backend store_dir service user = do
    e ← opened backend store_dir service user
    delete_credential keyring crypto codec sha256 e

  pub get-Remembers :
      (backend : Backend) (store_dir : FilePath) (service user secret : Bytes) (t : Tree) (k : K)
      → Remembers backend store_dir service user secret t k
      → get backend store_dir service user (at t k) ≡ (ok secret, at t k)
  unfolding entry
  get-Remembers system store_dir service user secret t k h = rw (h.0, h.1) refl
  get-Remembers linux_kernel store_dir service user secret t k h = rw (h.0, h.1) refl
  get-Remembers encrypted_file store_dir service user secret t k h =
      rw (get_secret-Holds crypto codec (new sha256 store_dir service user) h.0 secret t h.1) refl

  pub set-CanSet :
      (backend : Backend) (store_dir : FilePath) (service user secret : Bytes) (draws : Draws)
      (t : Tree) (k : K)
      → CanSet backend store_dir service user draws secret t k
      → Stores
          (Remembers backend store_dir service user secret)
          store_dir
          t
          (set backend store_dir service user draws secret (at t k))
  unfolding entry
  set-CanSet system store_dir service user secret draws t k (opens, (k', stored, in_ring)) =
      rw (opens, stored)
        (record {
          tree = t;
          ring = k';
          returns = refl;
          remembers = in_ring;
          others = λ name sub ne. refl;
          dirs = λ q there. there;
        })
  set-CanSet linux_kernel store_dir service user secret draws t k (opens, (k', stored, in_ring)) =
      rw (opens, stored)
        (record {
          tree = t;
          ring = k';
          returns = refl;
          remembers = in_ring;
          others = λ name sub ne. refl;
          dirs = λ q there. there;
        })
  set-CanSet encrypted_file store_dir service user secret draws t k h =
      let s = set_secret-Set crypto codec sha256 store_dir service user secret h.0 draws t h.1 in
      rw s.returns (record {
        tree = s.tree;
        ring = k;
        returns = refl;
        remembers = (h.0, s.holds);
        others = λ name sub ne.
            s.others (name ∷ sub ∷ store_dir) (apart-ne ne) (deeper-ne name sub _ store_dir);
        dirs = s.dirs;
      })

  pub Remembers-others :
      (backend : Backend) (store_dir : FilePath) (service user secret : Bytes) (t t' : Tree) (k : K)
      (name sub : Bytes)
      → sub ≢ codes "credentials"
      → ((q : FilePath) → q ≢ name ∷ sub ∷ store_dir → find q t'.files ≡ find q t.files)
      → Remembers backend store_dir service user secret t k
      → Remembers backend store_dir service user secret t' k
  Remembers-others system store_dir service user secret t t' k name sub ne others h = h
  Remembers-others linux_kernel store_dir service user secret t t' k name sub ne others h = h
  Remembers-others encrypted_file store_dir service user secret t t' k name sub ne others (key, h) =
      (
        key,
        record {
          keyed = record {
            mode = h.keyed.mode;
            here =
                others (key_path store_dir) (λ e. deeper-ne name sub _ store_dir (sym e))
                ∙ h.keyed.here;
            private = h.keyed.private;
            whole = h.keyed.whole;
          };
          bytes = h.bytes;
          nonce = h.nonce;
          ciphertext = h.ciphertext;
          here =
              others (new sha256 store_dir service user).path (apart-ne (λ e. ne (sym e))) ∙ h.here;
          read = h.read;
          opened = h.opened;
        },
      )

  -- The credential store with the backend that was chosen keeps secrets.
  abbrev pub credentials : Backend → Secrets K
  credentials backend = record {
    set = set backend;
    get = get backend;
    delete = delete backend;
    CanSet = CanSet backend;
    Remembers = Remembers backend;
    get-Remembers = get-Remembers backend;
    set-CanSet = set-CanSet backend;
    Remembers-others = Remembers-others backend;
  }
