-- ===== src/Vault/Refinement.antt =====
-- `FileEntry` of `src/credential_store.rs` against a map from identities to secrets.
use mathlib.Core.List.{append_cancel_right}
use shex.Prelude.{
  ◌≡◌, ◌≢◌, refl, sym, ◌∙◌, ap, true, false, Option, none, some, is_some, Bool-cases, Option-cases,
  inl, inr, ◌++◌, Bytes, codes, eq, eq_iff, arith, if◌then◌else◌,
}
use shex.Result.{Result, ok, is_ok}
use shex.Names.{hex}
use shex.Channel.{Crypto, Codec}
use shex.Files.{FilePath, join, Tree, Disk, still, find, without, attempt}
use shex.Files.Laws.{find-without_ne, find-without_self, heads, deeper-ne}
use shex.Vault.{
  FileEnvelope, FileEntry, Draws, new, identity, directory, key_path, temp_path, sealed, set_secret,
  get_secret, delete_credential, load_or_create_file_key,
}
use shex.Vault.Key.{HasKey, Keyed, NoKey, load_or_create-HasKey, load_or_create-NoKey}
use shex.Vault.Secrets.{
  write_private_replace-Replaced, Holds, get_secret-Holds, opened_file, get_secret-opened_file,
}

-- The key that `set_secret` will use: the one that is there, or a new one.
pub data KeyReady (store_dir : FilePath) (draws : Draws) (t : Tree) : Bytes → Type 0 where
  old : {key : Bytes} → HasKey store_dir key t → KeyReady store_dir draws t key
  fresh : NoKey store_dir draws.key draws.key_temp t → KeyReady store_dir draws t draws.key

ready-Keyed :
    (store_dir : FilePath) (draws : Draws) (t : Tree) {key : Bytes}
    → KeyReady store_dir draws t key
    → Keyed store_dir key t (load_or_create_file_key store_dir draws.key draws.key_temp (still t))
ready-Keyed store_dir draws t (old k) =
    load_or_create-HasKey store_dir _ draws.key draws.key_temp t k
ready-Keyed store_dir draws t (fresh k) =
    load_or_create-NoKey store_dir draws.key draws.key_temp t k

module _ (crypto : Crypto) (codec : Codec FileEnvelope) (sha256 : Bytes → Bytes)
    (store_dir : FilePath) where
  abbrev pub entry_of : Bytes → Bytes → FileEntry
  entry_of = new sha256 store_dir

  -- What `set_secret` needs: a key, a temporary file that is not taken, and a cipher and a codec that
  -- take the secret.
  pub record CanSet (service user secret key : Bytes) (draws : Draws) (t : Tree) : Type 0 where
    pub ready : KeyReady store_dir draws t key
    pub free : find (temp_path (directory store_dir) draws.temp) t.files ≡ none
    pub ciphertext : Bytes
    pub bytes : Bytes
    pub encrypts : crypto.encrypt key draws.nonce (identity service user) secret ≡ some ciphertext
    pub writes : codec.to_vec (sealed draws.nonce ciphertext) ≡ some bytes

  -- What `set_secret` has come to.
  pub record Set (service user secret key : Bytes) (t : Tree) (r : Result (Unit {0}) × Disk)
      : Type 0 where
    pub tree : Tree
    pub returns : r ≡ (ok tt, still tree)
    pub holds : Holds crypto codec (entry_of service user) key secret tree
    pub dirs : (q : FilePath) → is_some (find q t.dirs) ≡ true → is_some (find q tree.dirs) ≡ true
    pub others :
        (q : FilePath)
        → q ≢ (entry_of service user).path
        → q ≢ key_path store_dir
        → find q tree.files ≡ find q t.files

  pub set_secret-Set :
      (service user secret key : Bytes) (draws : Draws) (t : Tree)
      → CanSet service user secret key draws t
      → Set service user secret key t
          (set_secret crypto codec (entry_of service user) draws secret (still t))
  unfolding set_secret
  set_secret-Set service user secret key draws t can =
      let k = ready-Keyed store_dir draws t can.ready in
      let name = hex (sha256 (identity service user)) ++ codes ".secret" in
      let free = k.others _ (deeper-ne _ _ _ store_dir) ∙ can.free in
      let w =
        write_private_replace-Replaced (directory store_dir) name can.bytes draws.temp k.tree
          free in
      let kept = w.others (key_path store_dir) (λ e. deeper-ne _ _ _ store_dir (sym e)) in
      rw (k.returns, can.encrypts, can.writes)
        (record {
          tree = w.tree;
          returns = w.returns;
          holds = record {
            keyed = record {
              mode = k.has.mode;
              here = kept ∙ k.has.here;
              private = k.has.private;
              whole = k.has.whole;
            };
            bytes = can.bytes;
            nonce = draws.nonce;
            ciphertext = can.ciphertext;
            here = w.new;
            read = codec.from_slice-to_vec _ can.writes;
            opened =
                crypto.decrypt-encrypt key draws.nonce (identity service user) secret can.encrypts;
          };
          dirs = λ q h. w.dirs q (k.dirs q h);
          others = λ q other nokey. w.others q other ∙ k.others q nokey;
        })

  -- A secret that is set is what is got back.
  pub get-set_secret :
      (service user secret key : Bytes) (draws : Draws) (t : Tree)
      → CanSet service user secret key draws t
      → let (r, d) = set_secret crypto codec (entry_of service user) draws secret (still t) in
        (r ≡ ok tt) × ((get_secret crypto codec (entry_of service user) d).0 ≡ ok secret)
  get-set_secret service user secret key draws t can =
      let s = set_secret-Set service user secret key draws t can in
      rw
        (s.returns, get_secret-Holds crypto codec (entry_of service user) key secret s.tree s.holds)
        (refl, refl)

  -- the specification: a map from identities to secrets
  abbrev pub Secrets : Type 0
  Secrets = Bytes → Option Bytes

  abbrev pub with_secret : Bytes → Option Bytes → Secrets → Secrets
  with_secret id secret secrets i = if eq id i then secret else secrets i

  -- a secret is got where the map has one, and an error where it has none
  abbrev pub Gives : Option Bytes → Result Bytes → Type 0
  Gives (some secret) r = r ≡ ok secret
  Gives none r = is_ok r ≡ false

  module _ (Known : Bytes → Type 0)
      (collision_free : (i j : Bytes)
        → Known i
        → Known j
        → hex (sha256 i) ≡ hex (sha256 j)
        → i ≡ j) where
    -- The files of the vault stand for a map, as far as the known identities go.
    pub record Represents (key : Bytes) (t : Tree) (secrets : Secrets) : Type 0 where
      pub keyed : HasKey store_dir key t
      pub gives :
          (service user : Bytes)
          → Known (identity service user)
          → Gives
              (secrets (identity service user))
              (get_secret crypto codec (entry_of service user) (still t)).0

    path-ne :
        (service user other_service other_user : Bytes)
        → Known (identity service user)
        → Known (identity other_service other_user)
        → eq (identity service user) (identity other_service other_user) ≡ false
        → (entry_of other_service other_user).path ≢ (entry_of service user).path
    path-ne s u s' u' k k' differ e =
        let same = collision_free (identity s u) (identity s' u') k k' (
          append_cancel_right (hex (sha256 (identity s u))) (hex (sha256 (identity s' u')))
            (codes ".secret") (sym (heads e))) in
        absurd (ground (arith, eq_iff (identity s u) (identity s' u')))

    -- entries whose files and key are the same give the same
    same_file :
        (service user key : Bytes) (t t' : Tree)
        → HasKey store_dir key t
        → HasKey store_dir key t'
        → find (entry_of service user).path t'.files ≡ find (entry_of service user).path t.files
        → (get_secret crypto codec (entry_of service user) (still t')).0
          ≡ (get_secret crypto codec (entry_of service user) (still t)).0
    same_file s u key t t' k k' same =
        get_secret-opened_file crypto codec (entry_of s u) key t' k'
        ∙ ap (opened_file crypto codec key (identity s u)) same
        ∙ sym (get_secret-opened_file crypto codec (entry_of s u) key t k)

    abbrev entry_for : Bytes → FileEntry
    entry_for i = record {
      store_dir = store_dir;
      path = join (directory store_dir) (hex (sha256 i) ++ codes ".secret");
      aad = i;
    }

    -- the entry of one identity, under another spelling of it
    same_entry : (s u s' u' : Bytes) → identity s u ≡ identity s' u' → entry_of s u ≡ entry_of s' u'
    same_entry s u s' u' e = ap entry_for e

    -- `set_secret` of a known identity succeeds and does to the files of the vault what an update
    -- does to a map from identities to secrets. Nobody else uses the disk, there is a key, the
    -- cipher and the codec take the secret, the temporary file is free, and the digests of known
    -- identities differ.
    pub set_secret_refines :
        (service user secret key : Bytes) (draws : Draws) (t : Tree) (secrets : Secrets)
        → Known (identity service user)
        → Represents key t secrets
        → CanSet service user secret key draws t
        → (t' : Tree) × (set_secret crypto codec (entry_of service user) draws secret (still t)
            ≡ (ok tt, still t'))
          × Represents key t' (with_secret (identity service user) (some secret) secrets)
    set_secret_refines service user secret key draws t secrets known r can =
        let s = set_secret-Set service user secret key draws t can in
        let id = identity service user in
        let got = get_secret-Holds crypto codec (entry_of service user) key secret s.tree s.holds in
        (
          s.tree,
          s.returns,
          record {
            keyed = s.holds.keyed;
            gives = λ service' user' known'. elim (Bool-cases (eq id (identity service' user'))) [
              | inl same ↦
                  let e =
                    same_entry service user service' user'
                      ((eq_iff id (identity service' user')).0 same) in
                  rw (same, ← e, got) refl
              | inr differ ↦
                  let away = path-ne service user service' user' known known' differ in
                  rw
                    (
                      differ,
                      same_file service' user' key t s.tree r.keyed s.holds.keyed
                          (s.others _ away (deeper-ne _ _ _ store_dir)),
                    )
                    (r.gives service' user' known')
            ];
          },
        )

    removed-Represents :
        (service user key : Bytes) (t t' : Tree) (secrets : Secrets)
        → Known (identity service user)
        → Represents key t secrets
        → find (entry_of service user).path t'.files ≡ none
        → ((q : FilePath) → q ≢ (entry_of service user).path → find q t'.files ≡ find q t.files)
        → Represents key t' (with_secret (identity service user) none secrets)
    removed-Represents service user key t t' secrets known r gone others =
        let id = identity service user in
        let kept = others (key_path store_dir) (λ e. deeper-ne _ _ _ store_dir (sym e)) in
        let k : HasKey store_dir key t' = record {
          mode = r.keyed.mode;
          here = kept ∙ r.keyed.here;
          private = r.keyed.private;
          whole = r.keyed.whole;
        } in
        record {
          keyed = k;
          gives = λ service' user' known'. elim (Bool-cases (eq id (identity service' user'))) [
            | inl same ↦
                let e =
                  same_entry service user service' user'
                    ((eq_iff id (identity service' user')).0 same) in
                rw
                  (
                    same,
                    ← e,
                    get_secret-opened_file crypto codec (entry_of service user) key t' k,
                    gone,
                  )
                  refl
            | inr differ ↦
                let away = path-ne service user service' user' known known' differ in
                rw (differ, same_file service' user' key t t' r.keyed k (others _ away))
                  (r.gives service' user' known')
          ];
        }

    -- `delete_credential` of a known identity does to the files of the vault what removing the
    -- identity does to a map from identities to secrets, whether the map has it or not. Nobody else
    -- uses the disk, and the digests of known identities differ.
    pub delete_credential_refines :
        (service user key : Bytes) (t : Tree) (secrets : Secrets)
        → Known (identity service user)
        → Represents key t secrets
        → (t' : Tree) × ((delete_credential (entry_of service user) (still t)).1 ≡ still t')
          × Represents key t' (with_secret (identity service user) none secrets)
    unfolding delete_credential attempt
    delete_credential_refines service user key t secrets known r =
        let path = (entry_of service user).path in
        elim (Option-cases (find path t.files)) [
          | inl missing ↦ rw missing (
            t,
            refl,
            removed-Represents service user key t t secrets known r missing (λ q other. refl),
          )
          | inr (file, here) ↦
              let t' : Tree = record t { files = without path t.files } in
              rw here (
                t',
                refl,
                removed-Represents service user key t t' secrets known r
                    (find-without_self path t.files)
                    (λ q other. find-without_ne path q t.files (λ e. other (sym e))),
              )
        ]
