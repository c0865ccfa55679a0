-- ===== src/Startup/Restart.antt =====
-- Two starts of one host, as `serve` of `src/server.rs` begins.
use shex.Prelude.{
  ℕ, ◌≡◌, ◌≢◌, refl, sym, ◌∙◌, ap, arith, true, Option, none, some, is_some, [], ◌∷◌, ◌++◌, Bytes,
  length,
}
use shex.Result.{Result, ok}
use shex.Names.{hex}
use shex.Names.Hostname.{IsHostname}
use shex.Files.{FilePath, File, Tree, Disk, still, find, attempt}
use shex.Files.Laws.{heads}
use shex.Keys.{host_key}
use shex.Redis.{Redis, text}
use shex.Redis.World.{World}
use shex.Login.{Opaque}
use shex.Login.Registration.{Registration, ServerCredentials, setup_path, record_path, load}
use shex.Startup.{hostname_path, resolve_hostname, Site, claim}
use shex.Startup.Again.{
  Available, own, register-Owned, persist_hostname-Persisted, resolve_hostname-kept,
}

module _ (opaque : Opaque) (registration : Registration opaque) (sha256 : Bytes → Bytes)
    (data_dir : FilePath) where
  -- The data directory has the files of `shex init`.
  pub record Initialized (c : ServerCredentials opaque registration) (t : Tree) : Type 0 where
    pub there : is_some (find data_dir t.dirs) ≡ true
    pub setup : File
    pub password : File
    pub setup_here : find (setup_path data_dir) t.files ≡ some setup
    pub password_here : find (record_path data_dir) t.files ≡ some password
    pub reads_setup : registration.read_setup setup.bytes ≡ ok c.setup
    pub reads_password : registration.read_record password.bytes ≡ ok c.password
    pub signed : c.signature ≡ hex (sha256 setup.bytes)

  abbrev with_signature :
      ServerCredentials opaque registration
      → Tree
      → Bytes
      → Result (ServerCredentials opaque registration) × Disk
  with_signature c t signature = (ok (record c { signature = signature }), still t)

  load-Initialized :
      (c : ServerCredentials opaque registration) (t : Tree)
      → Initialized c t
      → load opaque registration sha256 data_dir (still t) ≡ (ok c, still t)
  unfolding load attempt
  load-Initialized c t i =
      simp (i.setup_here, i.password_here, i.reads_setup, i.reads_password)
        (ap (with_signature c t) (sym i.signed))

  named_otherwise : (name : Bytes) → length name ≢ 8 → name ∷ data_dir ≢ hostname_path data_dir
  named_otherwise name other e = other (ap (λ (b : Bytes). length b) (heads e))

  module _ (R : Redis) where
    abbrev pub site : Tree → World R.Db → Site R.Db
    site t w = record { disk = still t; redis = w }

    -- What `claim` has come to.
    record Claimed (c : ServerCredentials opaque registration) (hostname : Bytes)
        (r : Result Bytes × Site R.Db) : Type 0 where
      tree : Tree
      mode : ℕ
      redis : World R.Db
      returns : r ≡ (ok hostname, site tree redis)
      initialized : Initialized c tree
      kept :
          find (hostname_path data_dir) tree.files
          ≡ some (record { bytes = hostname ++ 10 ∷ []; mode = mode })
      quiet : redis.turns ≡ []
      owned : R.lookup redis.db (host_key hostname) ≡ some (text c.signature)

    claim-Claimed :
        (requested : Option Bytes) (random hostname : Bytes)
        (c : ServerCredentials opaque registration) (t : Tree) (w : World R.Db)
        → Initialized c t
        → resolve_hostname data_dir requested random (still t) ≡ (ok hostname, still t)
        → IsHostname hostname
        → w.turns ≡ []
        → Available R hostname c.signature w
        → Claimed c hostname
            (claim opaque registration sha256 R data_dir requested random (site t w))
    unfolding claim
    claim-Claimed requested random hostname c t w i resolved named quiet available =
        let o = register-Owned R hostname c.signature w named quiet available in
        let p = persist_hostname-Persisted data_dir hostname t i.there in
        rw (load-Initialized c t i, resolved, o.returns, p.returns)
          (record {
            tree = p.tree;
            mode = p.mode;
            redis = o.after;
            returns = refl;
            initialized = record {
              there = ap (λ ds. is_some (find data_dir ds)) p.dirs ∙ i.there;
              setup = i.setup;
              password = i.password;
              setup_here =
                  p.others (setup_path data_dir) (named_otherwise _ (λ e. absurd (omega arith)))
                  ∙ i.setup_here;
              password_here =
                  p.others (record_path data_dir) (named_otherwise _ (λ e. absurd (omega arith)))
                  ∙ i.password_here;
              reads_setup = i.reads_setup;
              reads_password = i.reads_password;
              signed = i.signed;
            };
            kept = p.kept;
            quiet = o.quiet;
            owned = o.owner;
          })

    -- A host that is initialised and starts under a valid name, which is free or its own, has that
    -- name registered with its signature in Redis, and when it is started again without a name it
    -- gets the same name, whatever name would be drawn. The network is quiet and nobody else uses
    -- the disk.
    pub claim-claim :
        (requested : Option Bytes) (random other hostname : Bytes)
        (c : ServerCredentials opaque registration) (t : Tree) (w : World R.Db)
        → Initialized c t
        → resolve_hostname data_dir requested random (still t) ≡ (ok hostname, still t)
        → IsHostname hostname
        → w.turns ≡ []
        → Available R hostname c.signature w
        → let (r, s) = claim opaque registration sha256 R data_dir requested random (site t w) in
          (r ≡ ok hostname)
          × (R.lookup s.redis.db (host_key hostname) ≡ some (text c.signature))
          × ((claim opaque registration sha256 R data_dir none other s).0 ≡ ok hostname)
    claim-claim requested random other hostname c t w i resolved named quiet available =
        let first =
          claim-Claimed requested random hostname c t w i resolved named quiet available in
        let again =
          resolve_hostname-kept data_dir hostname other first.tree first.mode named first.kept in
        let second =
          claim-Claimed none other hostname c first.tree first.redis first.initialized again named
            first.quiet (own first.owned) in
        rw (first.returns, second.returns) (refl, first.owned, refl)
