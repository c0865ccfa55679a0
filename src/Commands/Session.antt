-- ===== src/Commands/Session.antt =====
-- The last session of a saved authentication through the commands `exec` and `close` of `src/main.rs`.
use shex.Prelude.{
  Bool, true, Bool-cases, ◌&&◌, ◌≡◌, refl, inl, inr, Option, none, some, is_some, List, ◌∷◌, Bytes,
  codes, if◌then◌else◌, some-inj, eq_refl, ap,
}
use shex.Result.{Result, ok, err, is_ok, Exec, ◌>>◌}
use shex.Channel.{Crypto, Codec}
use shex.Files.{FilePath, Tree}
use shex.Credentials.{Machine, at, Secrets}
use shex.AuthFile.{StoredAuth, Envelope, AuthFile, host_path, load_for_host}
use shex.AuthFile.Loads.{Loads, load-Loads, CanEncrypt}
use shex.AuthFile.RoundTrip.{save-Saved}
use shex.Client.{ClientChannel, Client, open_session, execute, split_exec_args}
use shex.Commands.{
  join_words, with_session, ask_deleted, requested_session, or_last, is_last, saved_channel,
  load_saved, note_session, exec_saved, exec_command, close_command, Shex,
}

module _ {C : Type 0} (chan : ClientChannel C)
    (dial : Bytes → Bytes → Bytes → Exec (Client C) (Unit {0})) (crypto : Crypto)
    (codec : Codec StoredAuth) (envelopes : Codec Envelope) {K : Type 0} (secrets : Secrets K)
    (sha256 : Bytes → Bytes) (store_dir : FilePath) (name : Bytes) where
  abbrev pub path : FilePath
  path = name ∷ codes "auth" ∷ store_dir

  abbrev pub LoadsHere : Bytes → AuthFile → Tree → K → Type 0
  LoadsHere = Loads crypto codec envelopes secrets store_dir (codes "auth") name

  abbrev pub Can : AuthFile → Bytes → Bytes → Type 0
  Can = CanEncrypt crypto codec envelopes secrets store_dir (codes "auth") name

  -- where `exec` and `close` look for the auth file
  abbrev pub path_of : Option FilePath → Option Bytes → Option FilePath
  path_of (some file) hostname = some file
  path_of none (some hostname) = some (host_path sha256 store_dir hostname)
  path_of none none = none

  abbrev pub dialled : AuthFile → Exec (Client C) Bytes
  dialled saved = saved_channel chan dial saved saved.stored.redis_url

  abbrev pub loaded : Option FilePath → Option Bytes → Exec (Machine K) AuthFile
  loaded auth_path hostname =
      load_saved crypto codec envelopes secrets sha256 auth_path store_dir hostname

  loaded-Loads :
      (auth_path : Option FilePath) (hostname : Option Bytes) (key : Bytes) (saved : AuthFile)
      (t : Tree) (k : K)
      → path_of auth_path hostname ≡ some path
      → LoadsHere key saved t k
      → loaded auth_path hostname (at t k) ≡ (ok saved, at t k)
  unfolding load_for_host
  loaded-Loads (some file) hostname key saved t k at_path l =
      rw (some-inj at_path)
        (load-Loads crypto codec envelopes secrets store_dir (codes "auth") name key saved t k l)
  loaded-Loads none (some hostname) key saved t k at_path l =
      rw (some-inj at_path)
        (load-Loads crypto codec envelopes secrets store_dir (codes "auth") name key saved t k l)
  loaded-Loads none none key saved t k at_path l = absurd (cc)

  -- `exec` with a saved authentication, whose host greets and opens a session, saves that session
  -- as the last one before the command runs, whatever becomes of the command, and then runs the
  -- words of the command. Nobody else uses the disk, and the cipher and the codecs take the data.
  pub exec_command-Loads :
      (auth_path : Option FilePath) (hostname session : Option Bytes) (past : Bool)
      (args words : List Bytes) (requested : Option Bytes) (key nonce signature opened : Bytes)
      (saved : AuthFile) (t : Tree) (k : K) (c c1 c2 : Client C)
      → split_exec_args args (is_some auth_path) ≡ ok (hostname, words)
      → path_of auth_path hostname ≡ some path
      → LoadsHere key saved t k
      → requested_session past saved.stored.last_session session ≡ ok requested
      → dialled saved c ≡ (ok signature, c1)
      → open_session chan requested true c1 ≡ (ok opened, c2)
      → Can (with_session (some opened) saved) key nonce
      → let (r, s) =
          exec_command crypto codec envelopes secrets sha256 chan dial auth_path store_dir session
            past args nonce
            (record { machine = at t k; client = c }) in
        (t' : Tree) × (s.machine ≡ at t' k)
        × LoadsHere key (with_session (some opened) saved) t' k
        × ((r, s.client) ≡ (note_session chan opened >> execute chan (join_words words)) c2)
  unfolding exec_command exec_saved
  exec_command-Loads auth_path hostname session past args words requested key nonce signature opened
        saved t k c c1 c2 split at_path l asked dial_ok open_ok can =
      let updated = with_session (some opened) saved in
      let s =
        save-Saved crypto codec envelopes secrets store_dir name updated key nonce _ t k can
          l.at_path l.private l.here l.remembers in
      rw
        (
          split,
          loaded-Loads auth_path hostname key saved t k at_path l,
          asked,
          dial_ok,
          open_ok,
          s.returns,
        )
        (s.tree, refl, s.loads, refl)

  -- what `close` leaves as the last session
  abbrev pub closed : Result (Unit {0}) → AuthFile → Bytes → AuthFile
  closed r saved chosen =
      if is_ok r && is_last saved.stored.last_session chosen then with_session none saved else saved

  -- `close` ends as the host's answer to the deletion does. When the session was deleted and was
  -- the last session of the auth file, the file has no last session any more; in every other case
  -- the file stays as it was. The host of the file greets, nobody else uses the disk, and the
  -- cipher and the codecs take the data.
  pub close_command-Loads :
      (auth_path : Option FilePath) (hostname session : Option Bytes)
      (key nonce signature chosen : Bytes) (saved : AuthFile) (t : Tree) (k : K)
      (c c1 c2 : Client C) (answer : Result (Unit {0}))
      → path_of auth_path hostname ≡ some path
      → LoadsHere key saved t k
      → or_last session saved.stored.last_session ≡ some chosen
      → dialled saved c ≡ (ok signature, c1)
      → ask_deleted chan chosen c1 ≡ (answer, c2)
      → Can (with_session none saved) key nonce
      → let (r, s) =
          close_command crypto codec envelopes secrets sha256 chan dial hostname auth_path store_dir
            session nonce
            (record { machine = at t k; client = c }) in
        (r ≡ answer)
        × ((t' : Tree) × (s.machine ≡ at t' k) × LoadsHere key (closed answer saved chosen) t' k)
  unfolding close_command
  close_command-Loads auth_path hostname session key nonce signature chosen saved t k c c1 c2
        (err e) at_path l asked dial_ok told can =
      rw (loaded-Loads auth_path hostname key saved t k at_path l, asked, dial_ok, told)
        (refl, (t, refl, l))
  close_command-Loads auth_path hostname session key nonce signature chosen saved t k c c1 c2 (ok u)
        at_path l asked dial_ok told can =
      let updated = with_session none saved in
      let s =
        save-Saved crypto codec envelopes secrets store_dir name updated key nonce _ t k can
          l.at_path l.private l.here l.remembers in
      let start = loaded-Loads auth_path hostname key saved t k at_path l in
      elim (Bool-cases (is_last saved.stored.last_session chosen)) [
        | inl last ↦
            rw (start, asked, dial_ok, told, last, s.returns) (refl, (s.tree, refl, s.loads))
        | inr other ↦ rw (start, asked, dial_ok, told, other) (refl, (t, refl, l))
      ]

  left_session :
      (answer : Result (Unit {0})) (saved : AuthFile) (opened : Bytes)
      → closed answer (with_session (some opened) saved) opened
        ≡ with_session (if is_ok answer then none else some opened) saved
  left_session (ok u) saved opened = rw (eq_refl opened) refl
  left_session (err e) saved opened = refl

  close_later :
      (auth_path : Option FilePath) (hostname : Option Bytes) (key nonce signature opened : Bytes)
      (saved : AuthFile) (t : Tree) (k : K) (s : Shex K C) (c1 c2 : Client C)
      (answer : Result (Unit {0}))
      → path_of auth_path hostname ≡ some path
      → LoadsHere key (with_session (some opened) saved) t k
      → s.machine ≡ at t k
      → dialled saved s.client ≡ (ok signature, c1)
      → ask_deleted chan opened c1 ≡ (answer, c2)
      → Can (with_session none saved) key nonce
      → let (r, after) =
          close_command crypto codec envelopes secrets sha256 chan dial hostname auth_path store_dir
            none nonce s in
        (r ≡ answer)
        × ((t' : Tree) × (after.machine ≡ at t' k)
            × LoadsHere key (with_session (if is_ok answer then none else some opened) saved) t' k)
  close_later auth_path hostname key nonce signature opened saved t k s c1 c2 answer at_path l kept
        dial_ok told can =
      let whole : s ≡ record { machine = at t k; client = s.client } =
        ap (λ (m : Machine K). record s { machine = m }) kept in
      let (ends, (t', stays, l')) =
        close_command-Loads auth_path hostname none key nonce signature opened
          (with_session (some opened) saved) t k s.client c1 c2 answer at_path l refl dial_ok told
          can in
      rw whole (ends, (t', stays, rw⁻¹ (left_session answer saved opened) l'))

  -- `close` without a session, after `exec` on the same auth file, asks the host to delete the
  -- session that `exec` opened and ends as the host's answer does. The file then has no last
  -- session if it was deleted, and that session if not. The host greets both times and opens a
  -- session, nobody else uses the disk, and the cipher and the codecs take the data.
  pub exec-close :
      (auth_path : Option FilePath) (hostname session : Option Bytes) (past : Bool)
      (args words : List Bytes) (requested : Option Bytes)
      (key nonce later_nonce signature later_signature opened : Bytes) (saved : AuthFile) (t : Tree)
      (k : K) (c c1 c2 d1 d2 : Client C) (answer : Result (Unit {0}))
      → split_exec_args args (is_some auth_path) ≡ ok (hostname, words)
      → path_of auth_path hostname ≡ some path
      → LoadsHere key saved t k
      → requested_session past saved.stored.last_session session ≡ ok requested
      → dialled saved c ≡ (ok signature, c1)
      → open_session chan requested true c1 ≡ (ok opened, c2)
      → Can (with_session (some opened) saved) key nonce
      → Can (with_session none saved) key later_nonce
      → let after =
          (exec_command crypto codec envelopes secrets sha256 chan dial auth_path store_dir session
            past args nonce
            (record { machine = at t k; client = c })).1 in
        dialled saved after.client ≡ (ok later_signature, d1)
        → ask_deleted chan opened d1 ≡ (answer, d2)
        → let (r, s) =
            close_command crypto codec envelopes secrets sha256 chan dial hostname auth_path
              store_dir none later_nonce after in
          (r ≡ answer)
          × ((t' : Tree) × (s.machine ≡ at t' k)
              × LoadsHere key
                  (with_session (if is_ok answer then none else some opened) saved)
                  t'
                  k)
  exec-close auth_path hostname session past args words requested key nonce later_nonce signature
        later_signature opened saved t k c c1 c2 d1 d2 answer split at_path l asked dial_ok open_ok
        can later_can again told =
      let (t1, kept, l1, ran) =
        exec_command-Loads auth_path hostname session past args words requested key nonce signature
          opened saved t k c c1 c2 split at_path l asked dial_ok open_ok can in
      close_later auth_path hostname key later_nonce later_signature opened saved t1 k _ d1 d2
        answer at_path l1 kept again told later_can
