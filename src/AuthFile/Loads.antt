-- ===== src/AuthFile/Loads.antt =====
-- What `AuthFile::load` of `src/auth_file.rs` needs, and what it gives.
use shex.Prelude.{ℕ, ◌≡◌, refl, true, some, ◌∷◌, Bytes, length}
use shex.Result.{ok}
use shex.Channel.{Crypto, Codec}
use shex.Files.{FilePath, Tree, find, is_private, attempt, check_private_permissions}
use shex.Credentials.{at, Secrets}
use shex.AuthFile.{StoredAuth, Envelope, AuthFile, service, enveloped, load, encrypt, decrypt}

module _ (crypto : Crypto) (codec : Codec StoredAuth) (envelopes : Codec Envelope) {K : Type 0}
    (secrets : Secrets K) (store_dir : FilePath) (sub name : Bytes) where
  abbrev path : FilePath
  path = name ∷ sub ∷ store_dir

  pub record Loads (key : Bytes) (auth : AuthFile) (t : Tree) (k : K) : Type 0 where
    pub remembers : secrets.Remembers store_dir service auth.key_id key t k
    pub whole : length key ≡ 32
    pub at_path : auth.path ≡ path
    pub bytes : Bytes
    pub nonce : Bytes
    pub ciphertext : Bytes
    pub plain : Bytes
    pub mode : ℕ
    pub here : find path t.files ≡ some (record { bytes = bytes; mode = mode })
    pub private : is_private mode ≡ true
    pub read : envelopes.from_slice bytes ≡ some (enveloped auth.key_id nonce ciphertext)
    pub opened : crypto.decrypt key nonce auth.key_id ciphertext ≡ some plain
    pub parsed : codec.from_slice plain ≡ some auth.stored

  pub load-Loads :
      (key : Bytes) (auth : AuthFile) (t : Tree) (k : K)
      → Loads key auth t k
      → load crypto codec envelopes secrets path (at t k) ≡ (ok auth, at t k)
  unfolding load decrypt check_private_permissions attempt
  load-Loads key auth t k l = rw l.at_path (
      simp
        (
          l.here,
          l.private,
          l.read,
          l.whole,
          l.opened,
          l.parsed,
          secrets.get-Remembers store_dir service auth.key_id key t k l.remembers,
        )
        refl)

  -- The cipher and the codecs take an auth file.
  pub record CanEncrypt (auth : AuthFile) (key nonce : Bytes) : Type 0 where
    pub whole : length key ≡ 32
    pub plain : Bytes
    pub ciphertext : Bytes
    pub bytes : Bytes
    pub serialises : codec.to_vec auth.stored ≡ some plain
    pub encrypts : crypto.encrypt key nonce auth.key_id plain ≡ some ciphertext
    pub writes : envelopes.to_vec (enveloped auth.key_id nonce ciphertext) ≡ some bytes

  pub encrypt-CanEncrypt :
      {S : Type 0} (auth : AuthFile) (key nonce : Bytes) (s : S) (can : CanEncrypt auth key nonce)
      → encrypt crypto codec envelopes nonce auth.stored auth.key_id key s ≡ (ok can.bytes, s)
  unfolding encrypt
  encrypt-CanEncrypt auth key nonce s can =
      simp (can.whole, can.serialises, can.encrypts, can.writes) refl

  -- The file that was encrypted can be loaded once it is in place.
  pub written-Loads :
      (auth : AuthFile) (key nonce : Bytes) (t : Tree) (k : K) (mode : ℕ)
      (can : CanEncrypt auth key nonce)
      → auth.path ≡ path
      → is_private mode ≡ true
      → secrets.Remembers store_dir service auth.key_id key t k
      → find path t.files ≡ some (record { bytes = can.bytes; mode = mode })
      → Loads key auth t k
  written-Loads auth key nonce t k mode can at_path private remembers here = record {
    remembers = remembers;
    whole = can.whole;
    at_path = at_path;
    bytes = can.bytes;
    nonce = nonce;
    ciphertext = can.ciphertext;
    plain = can.plain;
    mode = mode;
    here = here;
    private = private;
    read = envelopes.from_slice-to_vec _ can.writes;
    opened = crypto.decrypt-encrypt key nonce auth.key_id can.plain can.encrypts;
    parsed = codec.from_slice-to_vec _ can.serialises;
  }
