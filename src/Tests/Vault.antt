-- ===== src/Tests/Vault.antt =====
-- The vault of `src/credential_store.rs` with two secrets, torn writes and a rival process.
use shex.Prelude.{
  ℕ, ◌≡◌, ◌≢◌, refl, sym, ◌∙◌, arith, Option, none, some, [], ◌∷◌, Bytes, codes, eq, length, ap,
}
use shex.Result.{ok}
use shex.Names.Hex.{AreBytes, hex_injective}
use shex.Files.{
  FilePath, File, Tree, Disk, Beat, fine, torn, still, attempt, find, put, eq_path, made,
}
use shex.Files.Laws.{find-put_ne}
use shex.Vault.{
  Draws, new, identity, key_path, key_temp_path, temp_path, set_secret, delete_credential,
  write_private_replace, load_file_key, create_file_key, load_or_create_file_key,
}
use shex.Vault.Key.{HasKey, key_temp_path-ne}
use shex.Vault.Secrets.{get_secret-opened_file}
use shex.Vault.Refinement.{
  old, CanSet, Secrets, with_secret, Represents, set_secret_refines, delete_credential_refines,
}
use shex.Vault.Atomic.{Written, write_private_replace-Written}
use shex.Vault.Race.{Has, load_or_create_file_key-Preserves}
use shex.Vault.Agreement.{Fair, one_key}
use shex.Tests.Coding.{crypto, file_envelopes}

abbrev pub home : FilePath
home = codes ".shex" ∷ []

abbrev key : Bytes
key = codes "0123456789abcdef0123456789abcdef"

abbrev key_file : File
key_file = record { bytes = key; mode = 0o600 }

abbrev tree : Tree
tree = record { files = put (key_path home) key_file []; dirs = [] }

abbrev draws : Draws
draws = record { key = codes "k"; key_temp = codes "t"; nonce = codes "n"; temp = codes "00" }

abbrev secret : Bytes
secret = codes "pw"

has_key : HasKey home key tree
unfolding find put eq_path eq
has_key = record { mode = 0o600; here = refl; private = refl; whole = refl }

abbrev digest : Bytes → Bytes
digest b = b

abbrev nothing : Secrets crypto file_envelopes digest home
nothing i = none

no_file : (service user : Bytes) → find (new digest home service user).path tree.files ≡ none
unfolding find
no_file service user =
    find-put_ne (key_path home) (new digest home service user).path key_file [] (λ e. shorter e)
  where
    shorter : {a b c : Bytes} → ◌≢◌ {A = FilePath} (a ∷ home) (b ∷ c ∷ home)
    shorter e = absurd (omega (arith, ap (λ (q : FilePath). length q) e))

represents : Represents crypto file_envelopes digest home AreBytes hex_injective key tree nothing
represents = record {
  keyed = has_key;
  gives = λ service user known.
      rw
        (
          get_secret-opened_file crypto file_envelopes (new digest home service user) key tree
              has_key,
          no_file service user,
        )
        refl;
}

can_set : CanSet crypto file_envelopes digest home (codes "s") (codes "u") secret key draws tree
unfolding find put eq_path eq
can_set = record {
  ready = old has_key;
  free = refl;
  ciphertext = secret;
  bytes = _;
  encrypts = refl;
  writes = refl;
}

known : AreBytes (identity (codes "s") (codes "u"))
known = (omega arith, (omega arith, (omega arith, tt)))

set_secret_refines_example :
    (t' : Tree) × (set_secret crypto file_envelopes
        (new digest home (codes "s") (codes "u"))
        draws
        secret
        (still tree)
      ≡ (ok tt, still t'))
    × Represents crypto file_envelopes digest home AreBytes hex_injective key t' (
        with_secret crypto file_envelopes digest home
          (identity (codes "s") (codes "u"))
          (some secret)
          nothing)
set_secret_refines_example =
    set_secret_refines crypto file_envelopes digest home AreBytes hex_injective (codes "s")
      (codes "u") secret key draws tree nothing known represents can_set

delete_credential_refines_example :
    (t' : Tree) × ((delete_credential (new digest home (codes "s") (codes "u")) (still tree)).1
      ≡ still t')
    × Represents crypto file_envelopes digest home AreBytes hex_injective key t' (
        with_secret crypto file_envelopes digest home
          (identity (codes "s") (codes "u"))
          none
          nothing)
delete_credential_refines_example =
    delete_credential_refines crypto file_envelopes digest home AreBytes hex_injective (codes "s")
      (codes "u") key tree nothing known represents

abbrev quiet : Beat
quiet = record { others = λ t. t; fate = fine }

-- A write that is torn after one byte.
abbrev tearing : Disk
tearing = record {
  tree = tree;
  beats = quiet ∷ quiet ∷ quiet ∷ record { others = λ t. t; fate = torn 1 } ∷ [];
}

abbrev kept_path : FilePath
kept_path = codes "a.secret" ∷ home

temp-apart : temp_path home (codes "00") ≢ kept_path
temp-apart e = absurd (omega (arith, ap (λ (p : FilePath). total p) e))
  where
    total : FilePath → ℕ
    total [] = 0
    total (name ∷ p) = length name

write_private_replace-Written_example :
    Written kept_path secret
      (find kept_path tree.files)
      (write_private_replace kept_path secret (codes "00") tearing)
write_private_replace-Written_example =
    write_private_replace-Written (codes "a.secret") home secret (codes "00") tearing temp-apart
      ((λ t. refl), ((λ t. refl), ((λ t. refl), ((λ t. refl), tt))))
      ((λ t. refl), ((λ t. refl), ((λ t. refl), ((λ t. refl), tt))))

-- A rival that makes the key file when there is none.
abbrev rival_at : Option File → Tree → Tree
rival_at none t = record t { files = put (key_path home) key_file t.files }
rival_at (some f) t = t

abbrev rival : Tree → Tree
rival t = rival_at (find (key_path home) t.files) t

rival-keeps_key : (f : File) (t : Tree) → Has (key_path home) f t → Has (key_path home) f (rival t)
rival-keeps_key f t here = at (find (key_path home) t.files) here
  where
    at : (x : Option File) → x ≡ some f → Has (key_path home) f (rival_at x t)
    at none h = absurd (cc)
    at (some g) h = here

rival-keeps_temp :
    (f : File) (t : Tree)
    → Has (key_temp_path home (codes "t")) f t
    → Has (key_temp_path home (codes "t")) f (rival t)
rival-keeps_temp f t here = at (find (key_path home) t.files)
  where
    at : (x : Option File) → Has (key_temp_path home (codes "t")) f (rival_at x t)
    at none =
        find-put_ne (key_path home) (key_temp_path home (codes "t")) key_file t.files
          (λ e. key_temp_path-ne home (codes "t") (sym e))
        ∙ here
    at (some g) = here

-- The rival acts before the link.
abbrev racing : Disk
racing = record {
  tree = record { files = []; dirs = [] };
  beats =
      quiet
      ∷ quiet
      ∷ quiet
      ∷ quiet
      ∷ quiet
      ∷ quiet
      ∷ quiet
      ∷ quiet
      ∷ record { others = rival; fate = fine }
      ∷ [];
}

racing-Fair : Fair home (codes "t") racing.beats
racing-Fair = record {
  keep_key = λ f. (
    (λ t h. h),
    (
      (λ t h. h),
      (
        (λ t h. h),
        (
          (λ t h. h),
          ((λ t h. h), ((λ t h. h), ((λ t h. h), ((λ t h. h), (rival-keeps_key f, tt))))),
        ),
      ),
    ),
  );
  keep_temp = λ f. (
    (λ t h. h),
    (
      (λ t h. h),
      (
        (λ t h. h),
        (
          (λ t h. h),
          ((λ t h. h), ((λ t h. h), ((λ t h. h), ((λ t h. h), (rival-keeps_temp f, tt))))),
        ),
      ),
    ),
  );
}

abbrev own : Bytes
own = codes "ffffffffffffffffffffffffffffffff"

abbrev later : Disk
later = still (load_or_create_file_key home own (codes "t") racing).1.tree

-- The loser of the race returns the key of the rival.
loser_run : (load_or_create_file_key home own (codes "t") racing).0 ≡ ok key
unfolding load_or_create_file_key create_file_key load_file_key shex.Files.ensure_private_directory
    shex.Files.check_private_permissions attempt find put eq_path eq made
loser_run = refl

later_run : (load_or_create_file_key home own (codes "v") later).0 ≡ ok key
unfolding load_or_create_file_key create_file_key load_file_key shex.Files.ensure_private_directory
    shex.Files.check_private_permissions attempt find put eq_path eq made
later_run = refl

one_key_example : key ≡ key
one_key_example =
    one_key home own (codes "t") own (codes "v") racing later key key racing-Fair
      (record { keep_key = λ f. tt; keep_temp = λ f. tt }) loser_run (λ f h. h) later_run

key_there : find (key_path home) tree.files ≡ some key_file
unfolding find put eq_path eq
key_there = refl

load_or_create_file_key-Preserves_example :
    find (key_path home) (load_or_create_file_key home own (codes "t") (still tree)).1.tree.files
    ≡ some key_file
load_or_create_file_key-Preserves_example =
    load_or_create_file_key-Preserves home key_file own (codes "t") (still tree) tt key_there
