-- ===== src/Startup/Again.antt =====
-- A host that is started again, as `serve` of `src/server.rs` starts it, has its name back.
use shex.Prelude.{
  ℕ, ◌<◌, true, Bool-cases, ◌≡◌, ◌≢◌, refl, ◌∙◌, inl, inr, arith, none, some, is_some, Option-cases,
  [], ◌∷◌, ◌++◌, Bytes, length, eq, eq_refl,
}
use shex.Result.{Result, ok, Result-cases, context, wrong_type}
use shex.Names.{validate_hostname}
use shex.Names.Hostname.{IsHostname, validate_hostname_iff}
use shex.Keys.{host_key}
use shex.Files.{FilePath, Tree, Disk, still, find, attempt}
use shex.Files.Laws.{find-put, find-put_self, eq_path_refl, put_twice}
use shex.Redis.{Redis, text}
use shex.Redis.World.{World, query_quiet}
use shex.Host.{register, check_owner}
use shex.Host.Ownership.{register-free, register-taken}
use shex.Startup.{hostname_path, or_random, resolve_hostname, persist_hostname}
use shex.Startup.Trim.{trim-line, is_utf8-line}

module _ (R : Redis) (hostname signature : Bytes) where
  check_owner-turns :
      (v : World R.Db) → v.turns ≡ [] → (check_owner R (host_key hostname) signature v).1.turns ≡ []
  unfolding check_owner
  check_owner-turns v quiet =
      rw (query_quiet (R.get (host_key hostname)) v quiet)
        (elim (Result-cases (R.get (host_key hostname) v.db).0) [
          | inr (e, failed) ↦ rw failed quiet
          | inl (found, got) ↦ rw got (elim (Result-cases (context found wrong_type)) [
            | inr (e, failed) ↦ rw failed quiet
            | inl (owner, is_text) ↦ rw is_text (elim (Bool-cases (eq owner signature)) [
              | inl same ↦ rw same quiet
              | inr other ↦ rw other quiet
            ])
          ])
        ])

  register-turns :
      (w : World R.Db)
      → validate_hostname hostname ≡ ok tt
      → w.turns ≡ []
      → (register R hostname signature w).1.turns ≡ []
  unfolding register
  register-turns w named quiet =
      let claiming = R.setnx (host_key hostname) signature in
      let v : World R.Db = record w { db = (claiming w.db).1 } in
      rw (named, query_quiet claiming w quiet)
        (elim (Result-cases (claiming w.db).0) [
          | inr (e, failed) ↦ rw failed quiet
          | inl (created, replied) ↦ rw replied (elim (Bool-cases created) [
            | inl new ↦ rw new quiet
            | inr taken ↦
                rw taken (elim (Result-cases (check_owner R (host_key hostname) signature v).0) [
                  | inl (u, owned) ↦ rw owned (check_owner-turns v quiet)
                  | inr (e, refused) ↦ rw refused (check_owner-turns v quiet)
                ])
          ])
        ])

  -- The name is free, or the host has it.
  pub data Available (w : World R.Db) : Type 0 where
    free : R.lookup w.db (host_key hostname) ≡ none → Available w
    own : R.lookup w.db (host_key hostname) ≡ some (text signature) → Available w

  -- What registering an available name has come to.
  pub record Owned (w : World R.Db) : Type 0 where
    pub after : World R.Db
    pub returns :
        register R hostname signature w
        ≡ (ok (record { hostname = hostname; connection = after }), after)
    pub quiet : after.turns ≡ []
    pub owner : R.lookup after.db (host_key hostname) ≡ some (text signature)

  pub register-Owned : (w : World R.Db) → IsHostname hostname → w.turns ≡ [] → Available w → Owned w
  register-Owned w named quiet (free none_there) =
      let (answer, keys) = register-free R hostname signature w quiet named none_there in
      record {
        after = (register R hostname signature w).1;
        returns = rw answer refl;
        quiet = register-turns w ((validate_hostname_iff hostname).1 named) quiet;
        owner = keys (host_key hostname) ∙ rw (eq_refl (host_key hostname)) refl;
      }
  register-Owned w named quiet (own there) =
      let (answer, keys) = register-taken R hostname signature w quiet named signature there in
      record {
        after = (register R hostname signature w).1;
        returns = rw (answer, eq_refl signature) refl;
        quiet = register-turns w ((validate_hostname_iff hostname).1 named) quiet;
        owner = keys (host_key hostname) ∙ there;
      }

-- What `persist_hostname` has come to.
pub record Persisted (data_dir : FilePath) (hostname : Bytes) (t : Tree)
    (r : Result (Unit {0}) × Disk) : Type 0 where
  pub tree : Tree
  pub mode : ℕ
  pub returns : r ≡ (ok tt, still tree)
  pub kept :
      find (hostname_path data_dir) tree.files
      ≡ some (record { bytes = hostname ++ 10 ∷ []; mode = mode })
  pub others : (q : FilePath) → q ≢ hostname_path data_dir → find q tree.files ≡ find q t.files
  pub dirs : tree.dirs ≡ t.dirs

pub persist_hostname-Persisted :
    (data_dir : FilePath) (hostname : Bytes) (t : Tree)
    → is_some (find data_dir t.dirs) ≡ true
    → Persisted data_dir hostname t (persist_hostname data_dir hostname (still t))
unfolding persist_hostname attempt
persist_hostname-Persisted data_dir hostname t there =
    elim (Option-cases (find (hostname_path data_dir) t.files)) [
      | inl missing ↦
          simp (there, missing, find-put, eq_path_refl)
            (record {
              tree = _;
              mode = 0o644;
              returns = refl;
              kept = find-put_self (hostname_path data_dir) _ _;
              others = λ q ne. put_twice (hostname_path data_dir) q _ _ t.files ne;
              dirs = refl;
            })
      | inr (file, here) ↦
          simp (there, here, find-put, eq_path_refl)
            (record {
              tree = _;
              mode = file.mode;
              returns = refl;
              kept = find-put_self (hostname_path data_dir) _ _;
              others = λ q ne. put_twice (hostname_path data_dir) q _ _ t.files ne;
              dirs = refl;
            })
    ]

pub resolve_hostname-kept :
    (data_dir : FilePath) (hostname random : Bytes) (t : Tree) (mode : ℕ)
    → IsHostname hostname
    → find (hostname_path data_dir) t.files
      ≡ some (record { bytes = hostname ++ 10 ∷ []; mode = mode })
    → resolve_hostname data_dir none random (still t) ≡ (ok hostname, still t)
unfolding resolve_hostname attempt
resolve_hostname-kept data_dir hostname random t mode named kept =
    rw (kept, is_utf8-line hostname named.bytes, trim-line hostname named.bytes)
      (given hostname named.nonempty)
  where
    given :
        (name : Bytes)
        → 0 < length name
        → ◌≡◌ {A = Result Bytes × Disk} (ok (or_random random name), still t) (ok name, still t)
    given [] nonempty = absurd (omega arith)
    given (c ∷ name) nonempty = refl
