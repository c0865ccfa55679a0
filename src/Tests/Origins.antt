-- ===== src/Tests/Origins.antt =====
-- A host that is set up, started with a name, and started again.
use shex.Prelude.{◌≡◌, refl, none, some, [], ◌∷◌, Bytes, codes, arith, eq}
use shex.Result.{ok}
use shex.Names.{hex, hostname_byte}
use shex.Names.Hostname.{IsHostname}
use shex.Files.{File, Tree, still, find, eq_path}
use shex.Keys.{host_key}
use shex.Redis.{text}
use shex.Redis.Memory.{memory, lasting}
use shex.Login.Registration.{ServerCredentials, setup_path, record_path}
use shex.Startup.{resolve_hostname, claim}
use shex.Startup.Again.{free}
use shex.Startup.Restart.{Initialized, site, claim-claim}
use shex.Tests.Mailbox.{world}
use shex.Tests.Meeting.{opaque}
use shex.Tests.Registry.{digest, registration}
use shex.Tests.Vault.{home}

abbrev private : Bytes → File
private bytes = record { bytes = bytes; mode = 0o600 }

abbrev tree : Tree
tree = record {
  files = (setup_path home, private (5 ∷ [])) ∷ (record_path home, private (codes "code")) ∷ [];
  dirs = (home, 0o700) ∷ [];
}

abbrev credentials : ServerCredentials opaque registration
credentials = record { setup = 5; password = codes "code"; signature = hex (5 ∷ []) }

initialized : Initialized opaque registration digest home credentials tree
unfolding find eq_path eq
initialized = record {
  there = refl;
  setup = private (5 ∷ []);
  password = private (codes "code");
  setup_here = refl;
  password_here = refl;
  reads_setup = refl;
  reads_password = refl;
  signed = refl;
}

fox-IsHostname : IsHostname (codes "fox")
unfolding hostname_byte
fox-IsHostname = record { nonempty = omega arith; short = omega arith; bytes = refl }

resolved :
    resolve_hostname home (some (codes "fox")) (codes "red-owl:0001") (still tree)
    ≡ (ok (codes "fox"), still tree)
unfolding resolve_hostname
resolved = refl

unclaimed : memory.lookup (lasting []) (host_key (codes "fox")) ≡ none
unfolding shex.Redis.Memory.find
unclaimed = refl

claim-claim_example :
    let (r, s) =
      claim opaque registration digest memory home
        (some (codes "fox"))
        (codes "red-owl:0001")
        (site opaque registration digest home memory tree (world [])) in
    (r ≡ ok (codes "fox"))
    × (memory.lookup s.redis.db (host_key (codes "fox")) ≡ some (text credentials.signature))
    × ((claim opaque registration digest memory home none (codes "shy-elk:0002") s).0
        ≡ ok (codes "fox"))
claim-claim_example =
    claim-claim opaque registration digest home memory (some (codes "fox")) (codes "red-owl:0001")
      (codes "shy-elk:0002") (codes "fox") credentials tree (world []) initialized resolved
      fox-IsHostname refl (free unclaimed)
