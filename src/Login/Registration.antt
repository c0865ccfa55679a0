-- ===== src/Login/Registration.antt =====
-- `initialize` and `ServerCredentials::load` of `src/auth.rs`: the code is registered, and what is kept
-- of it lets a client with that code log in.
use shex.Prelude.{
  ℕ, ◌≡◌, ◌≢◌, refl, ◌∙◌, ap, arith, true, some, is_some, Option-cases, inl, inr, ◌∷◌, Bytes, codes,
  length,
}
use shex.Result.{Result, ok, Exec, pure, lift, ◌>>=◌, ◌>>◌}
use shex.Names.{hex}
use shex.Files.{
  FilePath, join, Tree, Disk, still, find, made, attempt, read, open_create, write_all,
  create_dir_all,
}
use shex.Files.Laws.{find-put, find-put_self, eq_path_refl, made_there, heads, put_twice}
use shex.Login.{user_identity, Opaque}

-- The registration of the library `opaque_ke`. Randomness that a step draws is its first argument. What
-- all of its steps give registers the code.
pub record Registration (opaque : Opaque) : Type 1 where
  pub Setup : Type 0
  pub Record : Type 0
  pub ClientState : Type 0
  pub Request : Type 0
  pub Response : Type 0
  pub Upload : Type 0
  pub new_setup : ℕ → Setup
  -- `ClientRegistration::start`
  pub start : ℕ → Bytes → Result (ClientState × Request)
  -- `ServerRegistration::start`
  pub respond : Setup → Request → Bytes → Result Response
  -- `ClientRegistration::finish`
  pub finish : ℕ → ClientState → Bytes → Response → Result Upload
  -- `ServerRegistration::finish`
  pub complete : Upload → Record
  pub serialize_setup : Setup → Bytes
  pub serialize_record : Record → Bytes
  pub read_setup : Bytes → Result Setup
  pub read_record : Bytes → Result Record
  pub credentials : Setup → Record → opaque.Credentials
  pub read-serialize_setup : (s : Setup) → read_setup (serialize_setup s) ≡ ok s
  pub read-serialize_record : (r : Record) → read_record (serialize_record r) ≡ ok r
  pub registers :
      (setup : Setup) (code : Bytes) (r1 r2 : ℕ) {c : ClientState} {q : Request} {a : Response}
      {u : Upload}
      → start r1 code ≡ ok (c, q)
      → respond setup q (codes "shex-user-v1") ≡ ok a
      → finish r2 c code a ≡ ok u
      → opaque.Registered (credentials setup (complete u)) code

abbrev pub setup_path : FilePath → FilePath
setup_path data_dir = join data_dir (codes "server.setup")

abbrev pub record_path : FilePath → FilePath
record_path data_dir = join data_dir (codes "password.record")

-- `write_private`, which leaves the mode of a file that is there
unfoldable pub write_private : FilePath → Bytes → Exec Disk (Unit {0})
write_private path bytes = do open_create path 0o600; write_all path bytes

module _ (opaque : Opaque) (registration : Registration opaque) where
  pub record ServerCredentials : Type 0 where
    pub setup : registration.Setup
    pub password : registration.Record
    pub signature : Bytes

  -- The randomness is what `OsRng` gives.
  unfoldable pub initialize : FilePath → Bytes → ℕ → ℕ → ℕ → Exec Disk (Unit {0})
  initialize data_dir code r0 r1 r2 = do
    create_dir_all data_dir
    (state, message) ← lift (registration.start r1 code)
    answer ← lift (registration.respond (registration.new_setup r0) message user_identity)
    upload ← lift (registration.finish r2 state code answer)
    write_private (setup_path data_dir) (registration.serialize_setup (registration.new_setup r0))
    write_private (record_path data_dir)
        (registration.serialize_record (registration.complete upload))

  -- `ServerCredentials::load`; `sha256` is the digest.
  unfoldable pub load : (Bytes → Bytes) → FilePath → Exec Disk ServerCredentials
  load sha256 data_dir = do
    setup ← read (setup_path data_dir)
    password ← read (record_path data_dir)
    opened ← lift (registration.read_setup setup)
    kept ← lift (registration.read_record password)
    pure (record { setup = opened; password = kept; signature = hex (sha256 setup) })

-- What `write_private` has come to.
record Written (path : FilePath) (bytes : Bytes) (t : Tree) (r : Result (Unit {0}) × Disk)
    : Type 0 where
  tree : Tree
  mode : ℕ
  returns : r ≡ (ok tt, still tree)
  new : find path tree.files ≡ some (record { bytes = bytes; mode = mode })
  others : (q : FilePath) → q ≢ path → find q tree.files ≡ find q t.files
  dirs : tree.dirs ≡ t.dirs

write_private-Written :
    (dir : FilePath) (name bytes : Bytes) (t : Tree)
    → is_some (find dir t.dirs) ≡ true
    → Written (name ∷ dir) bytes t (write_private (name ∷ dir) bytes (still t))
unfolding write_private attempt
write_private-Written dir name bytes t there = elim (Option-cases (find (name ∷ dir) t.files)) [
  | inl missing ↦
      simp (there, missing, find-put, eq_path_refl)
        (record {
          tree = _;
          mode = 0o600;
          returns = refl;
          new = find-put_self (name ∷ dir) _ _;
          others = λ q ne. put_twice (name ∷ dir) q _ _ t.files ne;
          dirs = refl;
        })
  | inr (file, here) ↦
      simp (there, here, find-put, eq_path_refl)
        (record {
          tree = _;
          mode = file.mode;
          returns = refl;
          new = find-put_self (name ∷ dir) _ _;
          others = λ q ne. put_twice (name ∷ dir) q _ _ t.files ne;
          dirs = refl;
        })
]

setup_path-ne : (data_dir : FilePath) → setup_path data_dir ≢ record_path data_dir
setup_path-ne data_dir e = absurd (omega (arith, ap (λ (b : Bytes). length b) (heads e)))

module _ (opaque : Opaque) (registration : Registration opaque) (sha256 : Bytes → Bytes) where
  -- the steps of a registration of a code
  pub record Registers (code : Bytes) (r0 r1 r2 : ℕ) : Type 0 where
    pub state : registration.ClientState
    pub message : registration.Request
    pub answer : registration.Response
    pub upload : registration.Upload
    pub started : registration.start r1 code ≡ ok (state, message)
    pub answered :
        registration.respond (registration.new_setup r0) message user_identity ≡ ok answer
    pub finished : registration.finish r2 state code answer ≡ ok upload

  -- After `initialize` with a code, over whatever files were there, `ServerCredentials::load`
  -- returns credentials that the code is registered with, and the digest of the setup as the
  -- signature. The steps of the registration succeed, and nobody else uses the disk.
  pub load-initialize :
      (data_dir : FilePath) (code : Bytes) (r0 r1 r2 : ℕ) (t : Tree)
      → Registers code r0 r1 r2
      → let (r, d) = initialize opaque registration data_dir code r0 r1 r2 (still t) in
        (r ≡ ok tt)
        × ((c : ServerCredentials opaque registration) × (load opaque registration sha256 data_dir d
              ≡ (ok c, d))
            × opaque.Registered (registration.credentials c.setup c.password) code
            × (c.signature
                ≡ hex (sha256 (registration.serialize_setup (registration.new_setup r0)))))
  unfolding initialize load attempt
  load-initialize data_dir code r0 r1 r2 t s =
      let setup = registration.new_setup r0 in
      let password = registration.complete s.upload in
      let t1 : Tree = record t { dirs = made data_dir t.dirs } in
      let there = made_there data_dir t.dirs in
      let w =
        write_private-Written data_dir (codes "server.setup") (registration.serialize_setup setup)
          t1 there in
      let there' = ap (λ ds. is_some (find data_dir ds)) w.dirs ∙ there in
      let p =
        write_private-Written data_dir (codes "password.record")
          (registration.serialize_record password) w.tree there' in
      let kept = p.others (setup_path data_dir) (setup_path-ne data_dir) ∙ w.new in
      rw (s.started, s.answered, s.finished, w.returns, p.returns)
        (
          refl,
          (
            record {
              setup = setup;
              password = password;
              signature = hex (sha256 (registration.serialize_setup setup));
            },
            simp
                (
                  kept,
                  p.new,
                  registration.read-serialize_setup setup,
                  registration.read-serialize_record password,
                )
                refl,
            registration.registers setup code r1 r2 s.started s.answered s.finished,
            refl,
          ),
        )
