-- ===== src/Commands/Servers.antt =====
-- The redis and latency commands of `main` in `src/main.rs`.
use shex.Prelude.{
  ℕ, ◌-◌, Bool, true, false, ◌≡◌, refl, Bool-cases, Option, none, some, inl, inr, Bytes, eq,
  if◌then◌else◌,
}
use shex.Result.{
  Error, Result, ok, err, demand, capture, Exec, pure, zoom, ◌>>=◌, ◌>>◌, invalid_redis_url,
  wrong_auth_file,
}
use shex.Channel.{Crypto, Codec}
use shex.Files.{FilePath}
use shex.Vault.{Draws}
use shex.Redis.{Redis}
use shex.Redis.World.{World}
use shex.Latency.{LatencyStats, measure_latency, measure_host_latency}
use shex.Credentials.{Machine, Secrets}
use shex.AuthFile.{StoredAuth, Envelope, AuthFile}
use shex.RedisStore.{Marker, add, resolve_or_default}
use shex.Client.{ClientChannel, Client}
use shex.Commands.{Shex, on_machine, on_client, load_saved, saved_channel}
use shex.Prompts.{confirm_save_unreachable}

-- the program, with a fresh connection to the Redis server that it measures
pub record Bench (K C Db : Type 0) : Type 0 where
  pub shex : Shex K C
  pub redis : World Db

module _ {K C Db : Type 0} where
  abbrev pub on_shex : {A : Type 0} → Exec (Shex K C) A → Exec (Bench K C Db) A
  on_shex = zoom (λ b. b.shex) (λ s b. record b { shex = s })

  abbrev pub on_redis : {A : Type 0} → Exec (World Db) A → Exec (Bench K C Db) A
  on_redis = zoom (λ b. b.redis) (λ w b. record b { redis = w })

-- A server that does not answer is saved only if the user says so.
abbrev pub may_save : Result LatencyStats → Bytes → Bool
may_save (ok stats) answer = true
may_save (err e) answer = confirm_save_unreachable answer

module _ (markers : Codec Marker) (valid_url : Bytes → Bool) {K C : Type 0} (secrets : Secrets K)
    (sha256 : Bytes → Bytes) (R : Redis) where
  -- `Command::Redis` with the name and the URL that were given or asked for; `none` means that the server
  -- was not saved.
  unfoldable pub redis_command :
      Bytes → Bytes → FilePath → Draws → Bytes → Exec (Bench K C R.Db) (Option FilePath)
  redis_command name redis_url store_dir draws answer = do
    demand (valid_url redis_url) invalid_redis_url
    measured ← capture (on_redis (measure_latency R 1))
    if may_save measured answer
        then (do
          path ←
              on_shex
                (on_machine (add markers valid_url secrets sha256 store_dir name redis_url draws))
          pure (some path))
        else pure none

-- what was measured: Redis, the host if one is saved, and the difference
pub record Report : Type 0 where
  pub redis_stats : LatencyStats
  pub host_stats : Option LatencyStats

-- `saturating_sub` of the averages
abbrev pub host_path_estimate : LatencyStats → LatencyStats → ℕ
host_path_estimate host_stats redis_stats = host_stats.average - redis_stats.average

abbrev pub belongs : Option Bytes → Option AuthFile → Bool
belongs (some requested) (some saved) = eq requested saved.stored.hostname
belongs _ _ = true

-- `or_else`
abbrev pub reference_of : Option Bytes → Option AuthFile → Option Bytes
reference_of (some redis_url) saved = some redis_url
reference_of none (some saved) = some saved.stored.redis_url
reference_of none none = none

module _ (crypto : Crypto) (codec : Codec StoredAuth) (envelopes : Codec Envelope)
    (markers : Codec Marker) (valid_url : Bytes → Bool) {K : Type 0} (secrets : Secrets K)
    (sha256 : Bytes → Bytes) {C : Type 0} (chan : ClientChannel C)
    (dial : Bytes → Bytes → Bytes → Exec (Client C) (Unit {0})) (now : Client C → ℕ)
    (R : Redis) where
  abbrev just : {S : Type 0} → Exec S AuthFile → Exec S (Option AuthFile)
  just m = do saved ← m; pure (some saved)

  -- the saved authentication of the host, if the user names one
  abbrev pub chosen_auth :
      Option FilePath → Option Bytes → FilePath → Exec (Machine K) (Option AuthFile)
  chosen_auth none none store_dir = pure none
  chosen_auth (some path) hostname store_dir =
      just (load_saved crypto codec envelopes secrets sha256 (some path) store_dir hostname)
  chosen_auth none (some hostname) store_dir =
      just (load_saved crypto codec envelopes secrets sha256 none store_dir (some hostname))

  abbrev pub host_latency : Option AuthFile → Bytes → ℕ → Exec (Client C) (Option LatencyStats)
  host_latency none redis_url count = pure none
  host_latency (some saved) redis_url count = do
    saved_channel chan dial saved redis_url
    stats ← measure_host_latency chan now count
    pure (some stats)

  -- `Command::Latency`
  unfoldable pub latency_command :
      Option FilePath → Option Bytes → FilePath → Option Bytes → ℕ → Exec (Bench K C R.Db) Report
  latency_command auth_path hostname store_dir redis_url count = do
    saved ← on_shex (on_machine (chosen_auth auth_path hostname store_dir))
    demand (belongs hostname saved) wrong_auth_file
    url ← on_shex (
        on_machine (
          resolve_or_default markers valid_url secrets sha256 store_dir
            (reference_of redis_url saved)))
    redis_stats ← on_redis (measure_latency R count)
    host_stats ← on_shex (on_client (host_latency saved url count))
    pure (record { redis_stats = redis_stats; host_stats = host_stats })

-- A server that does not answer is saved only with the user's consent: without it the files, the credential
-- store and the connection with the host stay as they are.
redis_command-unconfirmed :
    (markers : Codec Marker) (valid_url : Bytes → Bool) {K C : Type 0} (secrets : Secrets K)
    (sha256 : Bytes → Bytes) (R : Redis) (name redis_url : Bytes) (store_dir : FilePath)
    (draws : Draws) (answer : Bytes) (b : Bench K C R.Db) (e : Error)
    → (measure_latency R 1 b.redis).0 ≡ err e
    → confirm_save_unreachable answer ≡ false
    → let (r, after) =
        redis_command markers valid_url secrets sha256 R name redis_url store_dir draws answer b in
      (r ≡ (if valid_url redis_url then ok none else err invalid_redis_url)) × (after.shex ≡ b.shex)
unfolding redis_command
redis_command-unconfirmed markers valid_url secrets sha256 R name redis_url store_dir draws answer b
      e failed refused =
    elim (Bool-cases (valid_url redis_url)) [
      | inr invalid ↦ rw invalid (refl, refl)
      | inl valid ↦ rw (valid, failed, refused) (refl, refl)
    ]
