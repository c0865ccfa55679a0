-- ===== src/Tests/Accounts.antt =====
-- An account: the auth file of one host, and the commands that use it.
use shex.Prelude.{
  ◌≡◌, refl, true, false, Option, none, some, List, [], ◌∷◌, ◌++◌, Bytes, codes, eq, ap, ℕ,
}
use shex.Result.{Result, ok, receive_timeout, Exec, ◌>>◌}
use shex.Names.{hex}
use shex.Shell.Status.{pos}
use shex.Protocol.{ServerReply, hello, opened, deleted, output}
use shex.Files.{File, Tree, find, put, eq_path}
use shex.Credentials.{at}
use shex.AuthFile.{
  StoredAuth, Envelope, AuthFile, NewAuth, service, enveloped, create_for_host, load_for_host,
}
use shex.AuthFile.Loads.{CanEncrypt}
use shex.AuthFile.Host.{CanCreate, anew, first_auth, load_for_host-create_for_host}
use shex.Client.{Client, greet, open_session, execute, split_exec_args}
use shex.Client.Dialogue.{Script, scripted}
use shex.Commands.{
  client_channel, saved_channel, ask_deleted, with_session, note_session, join_words, exec_command,
  close_command, Shex,
}
use shex.Commands.Session.{LoadsHere, closed, exec_command-Loads, close_command-Loads, exec-close}
use shex.Tests.Coding.{crypto, envelopes, auths, field, fields}
use shex.Tests.Vault.{home}
use shex.Tests.Registry.{Ring, digest, secrets, empty, draws}

abbrev key : Bytes
key = codes "0123456789abcdef0123456789abcdef"

abbrev stored : StoredAuth
stored = record {
  redis_url = codes "redis://r/";
  hostname = codes "fox";
  server_signature = codes "sig";
  code = codes "code";
  last_session = none;
}

abbrev drawn : NewAuth
drawn = record { key_id = codes "id"; key = key; nonce = codes "n"; secret = draws }

abbrev auth : AuthFile
auth = first_auth crypto auths envelopes secrets digest home stored drawn

can_create : CanCreate crypto auths envelopes secrets digest home stored drawn empty [] auth
unfolding find put eq_path eq
can_create =
    anew refl (refl, (_, refl, (refl, refl)))
      (record {
        whole = refl;
        plain = _;
        ciphertext = _;
        bytes = _;
        serialises = refl;
        encrypts = refl;
        writes = refl;
      })

load_for_host-create_for_host_example :
    let (r, m) =
      create_for_host crypto auths envelopes secrets digest stored home drawn (at empty []) in
    (r ≡ ok auth)
    × (load_for_host crypto auths envelopes secrets digest home (codes "fox") m ≡ (ok auth, m))
load_for_host-create_for_host_example =
    load_for_host-create_for_host crypto auths envelopes secrets digest home stored drawn empty []
      can_create

-- the file of the host, encrypted
abbrev envelope : Envelope
envelope = enveloped (codes "id") (codes "n") (codes "plain")

-- The same host with its key in the keyring.
abbrev name : Bytes
name = hex (codes "fox") ++ codes ".auth"

abbrev saved : AuthFile
saved = record { stored = stored; path = name ∷ codes "auth" ∷ home; key_id = codes "id" }

abbrev saved_file : File
saved_file = record {
  bytes = 2 ∷ field (codes "id") (field (codes "n") (fields stored));
  mode = 0o600;
}

abbrev kept : Tree
kept = record { files = put (name ∷ codes "auth" ∷ home) saved_file []; dirs = [] }

abbrev ring : Ring
ring = put (codes "id" ∷ service ∷ []) key []

abbrev dial : Bytes → Bytes → Bytes → Exec (Client Script) (Unit {0})
dial redis_url hostname code s = (ok tt, s)

abbrev talking : List ServerReply → Client Script
talking replies = record {
  channel = record { incoming = replies; closing = receive_timeout; log = [] };
  printed = [];
  complained = [];
}

abbrev start : Client Script
start = talking (hello (codes "sig") ∷ opened (codes "s1") ∷ output (codes "out") (pos 0) ∷ [])

abbrev dialled : Client Script → Result Bytes × Client Script
dialled = saved_channel scripted dial saved (codes "redis://r/")

abbrev session_opened : Result Bytes × Client Script
session_opened = open_session scripted none true (dialled start).1

loads : LoadsHere scripted dial crypto auths envelopes secrets digest home name key saved kept ring
unfolding find put eq_path eq hex
loads = record {
  remembers = (refl, refl);
  whole = refl;
  at_path = refl;
  bytes = _;
  nonce = codes "n";
  ciphertext = fields stored;
  plain = fields stored;
  mode = _;
  here = refl;
  private = refl;
  read = refl;
  opened = refl;
  parsed = refl;
}

can_save_with :
    (nonce : Bytes) (session : Option Bytes)
    → CanEncrypt crypto auths envelopes secrets home
        (codes "auth")
        name
        (with_session session saved)
        key
        nonce
can_save_with nonce session = record {
  whole = refl;
  plain = _;
  ciphertext = _;
  bytes = _;
  serialises = refl;
  encrypts = refl;
  writes = refl;
}

can_save :
    (session : Option Bytes)
    → CanEncrypt crypto auths envelopes secrets home
        (codes "auth")
        name
        (with_session session saved)
        key
        (codes "m")
can_save = can_save_with (codes "m")

dialled_run : dialled start ≡ (ok (codes "sig"), (dialled start).1)
unfolding client_channel greet eq
dialled_run = refl

opened_run : session_opened ≡ (ok (codes "s1"), session_opened.1)
unfolding client_channel greet open_session eq
opened_run = refl

arguments_run :
    split_exec_args (codes "fox" ∷ codes "ls" ∷ []) false ≡ ok (some (codes "fox"), codes "ls" ∷ [])
unfolding split_exec_args eq
arguments_run = refl

exec_command-Loads_example :
    let (r, s) =
      exec_command crypto auths envelopes secrets digest scripted dial none home none false
        (codes "fox" ∷ codes "ls" ∷ [])
        (codes "m")
        (record { machine = at kept ring; client = start }) in
    (t' : Tree) × (s.machine ≡ at t' ring)
    × LoadsHere scripted dial crypto auths envelopes secrets digest home name key
        (with_session (some (codes "s1")) saved)
        t'
        ring
    × ((r, s.client)
        ≡ (note_session scripted (codes "s1") >> execute scripted (join_words (codes "ls" ∷ [])))
            session_opened.1)
exec_command-Loads_example =
    exec_command-Loads scripted dial crypto auths envelopes secrets digest home name none
      (some (codes "fox")) none false (codes "fox" ∷ codes "ls" ∷ []) (codes "ls" ∷ []) none key
      (codes "m") (codes "sig") (codes "s1") saved kept ring start (dialled start).1
      session_opened.1 arguments_run refl loads refl dialled_run opened_run
      (can_save (some (codes "s1")))

abbrev closing : Client Script
closing = talking (hello (codes "sig") ∷ deleted (codes "s9") ∷ [])

abbrev told : Result (Unit {0}) × Client Script
told = ask_deleted scripted (codes "s9") (dialled closing).1

closing_run : dialled closing ≡ (ok (codes "sig"), (dialled closing).1)
unfolding client_channel greet eq
closing_run = refl

told_run : told ≡ (ok tt, told.1)
unfolding client_channel greet ask_deleted eq
told_run = refl

close_command-Loads_example :
    let (r, s) =
      close_command crypto auths envelopes secrets digest scripted dial
        (some (codes "fox"))
        none
        home
        (some (codes "s9"))
        (codes "m")
        (record { machine = at kept ring; client = closing }) in
    (r ≡ ok tt)
    × ((t' : Tree) × (s.machine ≡ at t' ring)
        × LoadsHere scripted dial crypto auths envelopes secrets digest home name key
            (closed scripted dial crypto auths envelopes secrets digest home name
              (ok tt)
              saved
              (codes "s9"))
            t'
            ring)
close_command-Loads_example =
    close_command-Loads scripted dial crypto auths envelopes secrets digest home name none
      (some (codes "fox")) (some (codes "s9")) key (codes "m") (codes "sig") (codes "s9") saved kept
      ring closing (dialled closing).1 told.1 (ok tt) refl loads refl closing_run told_run
      (can_save none)

-- The host that runs a command and then deletes its session.
abbrev both : Client Script
both = talking (
    hello (codes "sig")
    ∷ opened (codes "s1")
    ∷ output (codes "out") (pos 0)
    ∷ hello (codes "sig")
    ∷ deleted (codes "s1")
    ∷ [])

abbrev session : Result Bytes × Client Script
session = open_session scripted none true (dialled both).1

both_run : dialled both ≡ (ok (codes "sig"), (dialled both).1)
unfolding client_channel greet eq
both_run = refl

session_run : session ≡ (ok (codes "s1"), session.1)
unfolding client_channel greet open_session eq
session_run = refl

abbrev after : Result (Option ℕ) × Shex Ring Script
after =
    exec_command crypto auths envelopes secrets digest scripted dial none home none false
      (codes "fox" ∷ codes "ls" ∷ []) (codes "m") (record { machine = at kept ring; client = both })

abbrev ran : Result (Option ℕ) × Client Script
ran =
    (note_session scripted (codes "s1") >> execute scripted (join_words (codes "ls" ∷ [])))
      session.1

after_client : after.1.client ≡ ran.1
after_client =
    ap (λ (r : Result (Option ℕ) × Client Script). r.1)
      (exec_command-Loads scripted dial crypto auths envelopes secrets digest home name none
        (some (codes "fox")) none false (codes "fox" ∷ codes "ls" ∷ []) (codes "ls" ∷ []) none key
        (codes "m") (codes "sig") (codes "s1") saved kept ring both (dialled both).1 session.1
        arguments_run refl loads refl both_run session_run (can_save (some (codes "s1")))).3

again_run : dialled after.1.client ≡ (ok (codes "sig"), (dialled ran.1).1)
unfolding client_channel greet open_session execute eq
again_run = rw after_client refl

abbrev told_again : Result (Unit {0}) × Client Script
told_again = ask_deleted scripted (codes "s1") (dialled ran.1).1

told_again_run : told_again ≡ (ok tt, told_again.1)
unfolding client_channel greet open_session execute ask_deleted eq
told_again_run = refl

exec-close_example :
    let (r, s) =
      close_command crypto auths envelopes secrets digest scripted dial
        (some (codes "fox"))
        none
        home
        none
        (codes "m2")
        after.1 in
    (r ≡ ok tt)
    × ((t' : Tree) × (s.machine ≡ at t' ring)
        × LoadsHere scripted dial crypto auths envelopes secrets digest home name key
            (with_session none saved)
            t'
            ring)
exec-close_example =
    exec-close scripted dial crypto auths envelopes secrets digest home name none
      (some (codes "fox")) none false (codes "fox" ∷ codes "ls" ∷ []) (codes "ls" ∷ []) none key
      (codes "m") (codes "m2") (codes "sig") (codes "sig") (codes "s1") saved kept ring both
      (dialled both).1 session.1 (dialled ran.1).1 told_again.1 (ok tt) arguments_run refl loads
      refl both_run session_run (can_save (some (codes "s1"))) (can_save_with (codes "m2") none)
      again_run told_again_run
