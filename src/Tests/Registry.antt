-- ===== src/Tests/Registry.antt =====
-- A keyring that keeps what it is given, with a Redis server that is saved, and a host that is set up.
use shex.Prelude.{
  ℕ, ◌≡◌, refl, true, Bool, Option, none, some, List, [], ◌∷◌, Bytes, codes, starts_with, eq,
  continues, lead,
}
use shex.Result.{ok, io, not_found, context}
use shex.Names.{hex, validate_name}
use shex.Files.{FilePath, Tree, still, find, put, without, eq_path}
use shex.Vault.{Draws}
use shex.Credentials.{Keyring, system, Drawn, at, Secrets, configure_backend}
use shex.Credentials.Laws.{credentials}
use shex.Credentials.Probe.{Found, configure_backend-Probed}
use shex.RedisStore.{Marker, add, marker_path, local_url, resolve, resolve_or_default}
use shex.RedisStore.Saved.{CanAdd, resolve-add}
use shex.RedisStore.Valid.{resolve_or_default-IsValid}
use shex.Login.Registration.{
  Registration, ServerCredentials, initialize, load, Registers, load-initialize,
}
use shex.Tests.Coding.{crypto, file_envelopes, markers}
use shex.Tests.Vault.{home}
use shex.Tests.Meeting.{opaque}

-- A keyring is a list of secrets by user and service.
abbrev pub Ring : Type 0
Ring = List (FilePath × Bytes)

abbrev pub keyring : Keyring Ring
keyring = record {
  set_default_store = λ store k. (ok tt, k);
  new_entry = λ service user k. (ok tt, k);
  set_secret = λ service user secret k. (ok tt, put (user ∷ service ∷ []) secret k);
  get_secret = λ service user k. (context (find (user ∷ service ∷ []) k) (io not_found), k);
  delete_credential = λ service user k. (ok tt, without (user ∷ service ∷ []) k);
}

abbrev pub digest : Bytes → Bytes
digest b = b

abbrev pub secrets : Secrets Ring
secrets = credentials keyring crypto file_envelopes digest system

abbrev drawn : Drawn
drawn = record { user = codes "probe-1"; secret = codes "x" }

configure_backend-Probed_example :
    Found keyring drawn drawn (configure_backend keyring true drawn drawn []).0
configure_backend-Probed_example = configure_backend-Probed keyring true drawn drawn []

abbrev pub empty : Tree
empty = record { files = []; dirs = [] }

abbrev pub draws : Draws
draws = record { key = []; key_temp = []; nonce = []; temp = [] }

abbrev valid_url : Bytes → Bool
valid_url url = true

abbrev url : Bytes
url = codes "redis://r/"

can_add : CanAdd markers valid_url secrets digest home (codes "a-1") url draws empty []
unfolding validate_name shex.Names.name_byte find put eq_path eq continues lead hex
can_add = record {
  named = refl;
  text = refl;
  valid = refl;
  can_set = (refl, (_, refl, (refl, refl)));
  marker = _;
  writes = refl;
}

resolve-add_example :
    let (r, m) = add markers valid_url secrets digest home (codes "a-1") url draws (at empty []) in
    (r ≡ ok (marker_path digest home (codes "a-1")))
    × (resolve markers valid_url secrets digest home (codes "a-1") m ≡ (ok url, m))
    × (resolve_or_default markers valid_url secrets digest home none m ≡ (ok url, m))
resolve-add_example =
    resolve-add markers valid_url secrets digest home (codes "a-1") url draws empty [] can_add

abbrev redis_url : Bytes → Bool
redis_url url = starts_with (codes "redis://") url

local-valid : redis_url local_url ≡ true
unfolding starts_with
local-valid = refl

local_run :
    (resolve_or_default markers redis_url secrets digest home none (at empty [])).0 ≡ ok local_url
unfolding resolve_or_default shex.RedisStore.resolve_default shex.Files.attempt find
local_run = refl

resolve_or_default-IsValid_example : redis_url local_url ≡ true
resolve_or_default-IsValid_example =
    resolve_or_default-IsValid markers redis_url secrets digest home local-valid none (at empty [])
      local_url local_run

abbrev pub first : Bytes → Option ℕ
first [] = none
first (n ∷ b) = some n

-- the registration of a login that tells the code
abbrev pub registration : Registration opaque
registration = record {
  Setup = ℕ;
  Record = Bytes;
  ClientState = Unit {0};
  Request = Bytes;
  Response = Bytes;
  Upload = Bytes;
  new_setup = λ n. n;
  start = λ r code. ok (tt, code);
  respond = λ setup request identity. ok request;
  finish = λ r state code answer. ok code;
  complete = λ upload. upload;
  serialize_setup = λ n. n ∷ [];
  serialize_record = λ b. b;
  read_setup = λ b. context (first b) (io not_found);
  read_record = λ b. ok b;
  credentials = λ setup password. password;
  read-serialize_setup = λ n. refl;
  read-serialize_record = λ b. refl;
  registers = λ setup code r1 r2 started answered finished. cc;
}

registers : Registers opaque registration digest (codes "code") 5 0 0
registers = record {
  state = tt;
  message = codes "code";
  answer = codes "code";
  upload = codes "code";
  started = refl;
  answered = refl;
  finished = refl;
}

load-initialize_example :
    let (r, d) = initialize opaque registration home (codes "code") 5 0 0 (still empty) in
    (r ≡ ok tt)
    × ((c : ServerCredentials opaque registration) × (load opaque registration digest home d
          ≡ (ok c, d))
        × opaque.Registered (registration.credentials c.setup c.password) (codes "code")
        × (c.signature ≡ hex (digest (registration.serialize_setup (registration.new_setup 5)))))
load-initialize_example =
    load-initialize opaque registration digest home (codes "code") 5 0 0 empty registers
