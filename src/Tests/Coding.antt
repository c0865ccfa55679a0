-- ===== src/Tests/Coding.antt =====
-- Ciphers and codecs for the runs on files: a cipher that hides nothing, and fields behind their lengths.
use shex.Prelude.{
  ◌≡◌, refl, sym, Bytes, [], ◌∷◌, ◌++◌, Option, none, some, length, take, drop, take-length,
  drop-length, some-inj,
}
use shex.Channel.{Crypto, Codec}
use shex.Vault.{FileEnvelope}
use shex.AuthFile.{StoredAuth, Envelope}
use shex.RedisStore.{Marker}

abbrev pub crypto : Crypto
crypto = record {
  expand = λ key label. some (key ++ label);
  encrypt = λ key nonce aad plain. some plain;
  decrypt = λ key nonce aad encrypted. some encrypted;
  decrypt-encrypt = λ key nonce aad plain e. sym e;
}

abbrev pub field : Bytes → Bytes → Bytes
field b rest = length b ∷ (b ++ rest)

abbrev pub next : Bytes → Bytes × Bytes
next [] = ([], [])
next (n ∷ rest) = (take n rest, drop n rest)

abbrev read_file_envelope : Bytes → Option FileEnvelope
read_file_envelope [] = none
read_file_envelope (version ∷ bytes) =
    let (nonce, ciphertext) = next bytes in
    some (record { version = version; nonce = nonce; ciphertext = ciphertext })

abbrev pub file_envelopes : Codec FileEnvelope
file_envelopes = record {
  to_vec = λ e. some (e.version ∷ field e.nonce e.ciphertext);
  from_slice = read_file_envelope;
  from_slice-to_vec = λ e h. rw (sym (some-inj h)) (simp (take-length, drop-length) refl);
}

abbrev read_envelope : Bytes → Option Envelope
read_envelope [] = none
read_envelope (version ∷ bytes) =
    let (key_id, rest) = next bytes in
    let (nonce, ciphertext) = next rest in
    some (record { version = version; key_id = key_id; nonce = nonce; ciphertext = ciphertext })

abbrev pub envelopes : Codec Envelope
envelopes = record {
  to_vec = λ e. some (e.version ∷ field e.key_id (field e.nonce e.ciphertext));
  from_slice = read_envelope;
  from_slice-to_vec = λ e h. rw (sym (some-inj h)) (simp (take-length, drop-length) refl);
}

abbrev pub session_bytes : Option Bytes → Bytes
session_bytes none = []
session_bytes (some session) = 1 ∷ session

abbrev read_session : Bytes → Option Bytes
read_session [] = none
read_session (b ∷ session) = some session

pub read-session_bytes : (s : Option Bytes) → read_session (session_bytes s) ≡ s
read-session_bytes none = refl
read-session_bytes (some session) = refl

abbrev pub fields : StoredAuth → Bytes
fields a =
    field a.redis_url
      (field a.hostname (field a.server_signature (field a.code (session_bytes a.last_session))))

abbrev read_fields : Bytes → Option StoredAuth
read_fields bytes =
    let (redis_url, r1) = next bytes in
    let (hostname, r2) = next r1 in
    let (signature, r3) = next r2 in
    let (code, r4) = next r3 in
    some (record {
      redis_url = redis_url;
      hostname = hostname;
      server_signature = signature;
      code = code;
      last_session = read_session r4;
    })

abbrev pub auths : Codec StoredAuth
auths = record {
  to_vec = λ a. some (fields a);
  from_slice = read_fields;
  from_slice-to_vec =
      λ a h. rw (sym (some-inj h)) (simp (take-length, drop-length, read-session_bytes) refl);
}

abbrev read_marker_bytes : Bytes → Option Marker
read_marker_bytes [] = none
read_marker_bytes (version ∷ name) = some (record { version = version; name = name })

abbrev pub markers : Codec Marker
markers = record {
  to_vec = λ m. some (m.version ∷ m.name);
  from_slice = read_marker_bytes;
  from_slice-to_vec = λ m h. rw (sym (some-inj h)) refl;
}
