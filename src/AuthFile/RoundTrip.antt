-- ===== src/AuthFile/RoundTrip.antt =====
-- What `save` and `create_for_host` of `src/auth_file.rs` write is what `load_for_host` reads.
use shex.Prelude.{
  ◌≡◌, ◌≢◌, refl, ◌∙◌, ap, true, none, some, is_some, [], ◌∷◌, Bytes, codes, length, arith,
}
use shex.Result.{Result, ok}
use shex.Channel.{Crypto, Codec}
use shex.Files.{FilePath, File, Tree, find, put, is_private, attempt}
use shex.Files.Laws.{find-put_self, find-put, eq_path_refl, put_twice}
use shex.Credentials.{Machine, at, Secrets}
use shex.AuthFile.{
  StoredAuth, Envelope, AuthFile, NewAuth, service, auth_directory, continued, save,
  write_private_new, write_private_replace, write_new, update, create,
}
use shex.AuthFile.Loads.{Loads, load-Loads, CanEncrypt, encrypt-CanEncrypt, written-Loads}

abbrev pub with_stored : StoredAuth → AuthFile → AuthFile
with_stored stored auth = record auth { stored = stored }

not_credentials : codes "auth" ≢ codes "credentials"
not_credentials e = absurd (omega (arith, ap (λ (b : Bytes). length b) e))

abbrev new_file : Bytes → File
new_file bytes = record { bytes = bytes; mode = 0o600 }

module _ (crypto : Crypto) (codec : Codec StoredAuth) (envelopes : Codec Envelope) {K : Type 0}
    (secrets : Secrets K) (store_dir : FilePath) (name : Bytes) where
  abbrev path : FilePath
  path = name ∷ codes "auth" ∷ store_dir

  abbrev LoadsHere : Bytes → AuthFile → Tree → K → Type 0
  LoadsHere = Loads crypto codec envelopes secrets store_dir (codes "auth") name

  abbrev Can : AuthFile → Bytes → Bytes → Type 0
  Can = CanEncrypt crypto codec envelopes secrets store_dir (codes "auth") name

  -- What a method that writes an auth file has come to.
  pub record Saved {A : Type 0} (a : A) (key : Bytes) (auth : AuthFile) (k : K)
      (r : Result A × Machine K) : Type 0 where
    pub tree : Tree
    pub returns : r ≡ (ok a, at tree k)
    pub loads : LoadsHere key auth tree k

  pub save-Saved :
      (auth : AuthFile) (key nonce : Bytes) (file : File) (t : Tree) (k : K)
      → Can auth key nonce
      → auth.path ≡ path
      → is_private file.mode ≡ true
      → find path t.files ≡ some file
      → secrets.Remembers store_dir service auth.key_id key t k
      → Saved tt key auth k (save crypto codec envelopes secrets nonce auth (at t k))
  unfolding save write_private_replace attempt
  save-Saved auth key nonce file t k can at_path private here remembers =
      let written : File = record { bytes = can.bytes; mode = file.mode } in
      let empty : File = record { bytes = []; mode = file.mode } in
      let t' : Tree = record t { files = put path written (put path empty t.files) } in
      let same = λ (q : FilePath) (ne : q ≢ path). put_twice path q written empty t.files ne in
      simp
        (
          at_path,
          secrets.get-Remembers store_dir service auth.key_id key t k remembers,
          encrypt-CanEncrypt crypto codec envelopes secrets store_dir (codes "auth") name auth key
              nonce (at t k) can,
          here,
          find-put,
          eq_path_refl,
        )
        (record {
          tree = t';
          returns = refl;
          loads =
              written-Loads crypto codec envelopes secrets store_dir (codes "auth") name auth key
                nonce t' k file.mode can at_path private
                (secrets.Remembers-others store_dir service auth.key_id key t t' k name
                  (codes "auth") not_credentials same remembers)
                (find-put_self path written (put path empty t.files));
        })

  write_new-Saved :
      (auth : AuthFile) (key nonce : Bytes) (t : Tree) (k : K)
      → Can auth key nonce
      → auth.path ≡ path
      → find path t.files ≡ none
      → is_some (find (auth_directory store_dir) t.dirs) ≡ true
      → secrets.Remembers store_dir service auth.key_id key t k
      → Saved tt key auth k (write_new crypto codec envelopes secrets nonce auth key (at t k))
  unfolding write_new write_private_new attempt
  write_new-Saved auth key nonce t k can at_path missing there remembers =
      let written = new_file can.bytes in
      let empty = new_file [] in
      let t' : Tree = record t { files = put path written (put path empty t.files) } in
      let same = λ (q : FilePath) (ne : q ≢ path). put_twice path q written empty t.files ne in
      simp
        (
          at_path,
          encrypt-CanEncrypt crypto codec envelopes secrets store_dir (codes "auth") name auth key
              nonce (at t k) can,
          missing,
          there,
          find-put,
          eq_path_refl,
        )
        (record {
          tree = t';
          returns = refl;
          loads =
              written-Loads crypto codec envelopes secrets store_dir (codes "auth") name auth key
                nonce t' k 0o600 can at_path refl
                (secrets.Remembers-others store_dir service auth.key_id key t t' k name
                  (codes "auth") not_credentials same remembers)
                (find-put_self path written (put path empty t.files));
        })

  pub update-Saved :
      (existing : AuthFile) (stored : StoredAuth) (key nonce : Bytes) (t : Tree) (k : K)
      → LoadsHere key existing t k
      → Can (with_stored (continued existing.stored stored) existing) key nonce
      → let updated = with_stored (continued existing.stored stored) existing in
        Saved updated key updated k
          (update crypto codec envelopes secrets path stored nonce (at t k))
  unfolding update
  update-Saved existing stored key nonce t k l can =
      let updated = with_stored (continued existing.stored stored) existing in
      let s = save-Saved updated key nonce _ t k can l.at_path l.private l.here l.remembers in
      rw
        (
          load-Loads crypto codec envelopes secrets store_dir (codes "auth") name key existing t k
              l,
          s.returns,
        )
        (record { tree = s.tree; returns = refl; loads = s.loads })

  pub create-Saved :
      (stored : StoredAuth) (drawn : NewAuth) (t : Tree) (k : K)
      → secrets.CanSet store_dir service drawn.key_id drawn.secret drawn.key t k
      → Can (record { stored = stored; path = path; key_id = drawn.key_id }) drawn.key drawn.nonce
      → find path t.files ≡ none
      → is_some (find (auth_directory store_dir) t.dirs) ≡ true
      → (k' : K) × Saved
          (record { stored = stored; path = path; key_id = drawn.key_id })
          drawn.key
          (record { stored = stored; path = path; key_id = drawn.key_id })
          k'
          (create crypto codec envelopes secrets store_dir path stored drawn (at t k))
  unfolding create
  create-Saved stored drawn t k can_set can missing there =
      let auth : AuthFile = record { stored = stored; path = path; key_id = drawn.key_id } in
      let s =
        secrets.set-CanSet store_dir service drawn.key_id drawn.key drawn.secret t k can_set in
      let missing' = s.others name (codes "auth") not_credentials ∙ missing in
      let w =
        write_new-Saved auth drawn.key drawn.nonce s.tree s.ring can refl missing' (s.dirs _ there)
          s.remembers in
      (
        s.ring,
        rw (s.returns, w.returns) (record { tree = w.tree; returns = refl; loads = w.loads }),
      )
