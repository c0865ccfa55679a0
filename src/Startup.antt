-- ===== src/Startup.antt =====
-- The start of `serve` in `src/server.rs`: the host's credentials, its name, and the file that keeps it.
pub mod Trim
pub mod Again
pub mod Restart
use shex.Prelude.{
  ℕ, zero, suc, Bool, true, false, Option, none, some, List, [], ◌∷◌, ◌++◌, Bytes, codes, length,
  is_utf8, ◌==◌, ◌&&◌, not, if◌then◌else◌,
}
use shex.Result.{Result, ok, err, Exec, capture, pure, lift, zoom, proceed, ◌>>=◌, ◌>>◌}
use shex.Names.{random_hostname}
use shex.Files.{FilePath, join, Disk, read, open_create, write_all}
use shex.Redis.{Redis}
use shex.Redis.World.{World}
use shex.Host.{HostListener, register, clear_session_lookups}
use shex.Login.{Opaque}
use shex.Login.Registration.{Registration, ServerCredentials, load}
use shex.Client.{white1, white2, white3, trim_end}

-- the bytes of the white space that a text begins with
abbrev pub white_start : Bytes → ℕ
white_start [] = 0
white_start (x ∷ []) = if white1 x then 1 else 0
white_start (x ∷ y ∷ []) = if white1 x then 1 else if white2 x y then 2 else 0
white_start (x ∷ y ∷ z ∷ rest) =
    if white1 x then 1 else if white2 x y then 2 else if white3 x y z then 3 else 0

-- `n` bytes of a character are still to go
unfoldable pub trim_from : ℕ → Bytes → Bytes
trim_from n [] = []
trim_from (suc n) (x ∷ xs) = trim_from n xs
trim_from zero (x ∷ xs) = elim (white_start (x ∷ xs)) [ zero ↦ x ∷ xs | suc n ↦ trim_from n xs ]

-- `str::trim`
unfoldable pub trim : Bytes → Bytes
unfolding trim_from
trim text = trim_from 0 (trim_end text)

abbrev pub hostname_path : FilePath → FilePath
hostname_path data_dir = join data_dir (codes "hostname")

-- the name in the file, if it has one
abbrev pub name_in : Result Bytes → Bytes
name_in (err e) = []
name_in (ok bytes) = if is_utf8 bytes then trim bytes else []

abbrev pub or_random : Bytes → Bytes → Bytes
or_random random [] = random
or_random random (c ∷ name) = c ∷ name

-- `random` is the name that `random_hostname` gives.
unfoldable pub resolve_hostname : FilePath → Option Bytes → Bytes → Exec Disk Bytes
resolve_hostname data_dir (some hostname) random = pure hostname
resolve_hostname data_dir none random = do
  found ← capture (read (hostname_path data_dir))
  pure (or_random random (name_in found))

unfoldable pub persist_hostname : FilePath → Bytes → Exec Disk (Unit {0})
persist_hostname data_dir hostname = do
  open_create (hostname_path data_dir) 0o644
  write_all (hostname_path data_dir) (hostname ++ 10 ∷ [])

-- what the start of a host sees: its disk, and Redis through a fresh connection
pub record Site (Db : Type 0) : Type 0 where
  pub disk : Disk
  pub redis : World Db

module _ {Db : Type 0} where
  abbrev pub on_disk : {A : Type 0} → Exec Disk A → Exec (Site Db) A
  on_disk = zoom (λ s. s.disk) (λ d s. record s { disk = d })

  abbrev pub on_redis : {A : Type 0} → Exec (World Db) A → Exec (Site Db) A
  on_redis = zoom (λ s. s.redis) (λ w s. record s { redis = w })

module _ (opaque : Opaque) (registration : Registration opaque) (sha256 : Bytes → Bytes)
    (R : Redis) where
  -- `serve` up to the name that is kept
  unfoldable pub claim : FilePath → Option Bytes → Bytes → Exec (Site R.Db) Bytes
  claim data_dir requested random = do
    credentials ← on_disk (load opaque registration sha256 data_dir)
    hostname ← on_disk (resolve_hostname data_dir requested random)
    on_redis (register R hostname credentials.signature)
    on_disk (persist_hostname data_dir hostname)
    pure hostname

  -- `serve` up to its loop, with at most `fuel` rounds of the SCAN loop
  unfoldable pub start : ℕ → FilePath → Option Bytes → Bytes → Exec (Site R.Db) Bytes
  start fuel data_dir requested random = do
    hostname ← claim data_dir requested random
    on_redis (clear_session_lookups R fuel hostname)
    pure hostname
