-- ===== src/Result.antt =====
-- `anyhow::Result`, and methods that change a state and may fail with `?`.
-- An error is the innermost message of its chain; `io` keeps the kind that the server looks at.
use shex.Prelude.{Bool, true, false, ◌≡◌, ◌≢◌, refl, ◌∙◌, ◌⊎◌, inl, inr, Bytes, Option, none, some}

-- `std::io::ErrorKind`, as far as the program tells kinds apart
pub data ErrorKind : Type 0 where
  unexpected_eof connection_reset broken_pipe not_found already_exists other_kind : ErrorKind

pub data Error : Type 0 where
  io : ErrorKind → Error
  -- redis_transport.rs
  bad_hostname unknown_host hostname_owned : Error
  request_lost reply_lost wrong_type : Error
  message_too_large not_acknowledged : Error
  pending_message receive_timeout message_expired : Error
  nothing_to_acknowledge message_changed never_returns : Error
  invalid_connection_key listener_ended scan_unfinished : Error
  zero_samples invalid_ping : Error
  -- channel.rs
  hkdf_failure encryption_failed invalid_message counter_exhausted : Error
  serialization_failed deserialization_failed : Error
  -- auth.rs
  protocol_error : Error
  -- credential_store.rs
  no_backend probe_mismatch not_private : Error
  bad_key_length credential_not_encrypted invalid_credential : Error
  unsupported_credential credential_not_authentic no_parent : Error
  -- auth_file.rs
  invalid_auth_file unsupported_auth_file no_store_directory : Error
  auth_not_encrypted auth_not_authentic invalid_auth_data : Error
  -- redis_store.rs
  bad_server_name invalid_redis_url invalid_marker unsupported_marker : Error
  marker_mismatch not_utf8 many_servers : Error
  -- server.rs
  unopened_run shell_start_failed shell_exited output_too_large : Error
  fuel_exhausted : Error
  -- main.rs
  exec_usage command_required wrong_auth_file signature_mismatch expected_identity : Error
  unexpected_reply no_session hostname_required empty_code : Error
  codes_differ value_required not_connected : Error
  server_error : Bytes → Error

pub data Result {ℓ} (A : Type ℓ) : Type ℓ where
  ok : A → Result A
  err : Error → Result A

abbrev pub is_ok {ℓ} : {A : Type ℓ} → Result A → Bool
is_ok (ok a) = true
is_ok (err e) = false

-- `Option::context`
abbrev pub context {ℓ} : {A : Type ℓ} → Option A → Error → Result A
context none e = err e
context (some a) e = ok a

pub Result-cases {ℓ} :
    {A : Type ℓ} (r : Result A) → ((a : A) × (r ≡ ok a)) ⊎ ((e : Error) × (r ≡ err e))
Result-cases (ok a) = inl (a, refl)
Result-cases (err e) = inr (e, refl)

pub ok-inj {ℓ} : {A : Type ℓ} {a b : A} → ◌≡◌ {A = Result A} (ok a) (ok b) → a ≡ b
ok-inj e = cc

-- What was written before a failure stays written, so the state comes back beside an error too.
abbrev pub Exec {ℓ κ} : Type ℓ → Type κ → Type (ℓ ⊔ κ)
Exec S A = S → Result A × S

module _ {ℓ κ} {S : Type ℓ} {A : Type κ} where
  abbrev pub pure : A → Exec S A
  pure a s = (ok a, s)

  -- `bail!`
  abbrev pub raise : Error → Exec S A
  raise e s = (err e, s)

  abbrev pub lift : Result A → Exec S A
  lift r s = (r, s)

  abbrev pub gets : (S → A) → Exec S A
  gets f s = (ok (f s), s)

abbrev pub modify {ℓ} : {S : Type ℓ} → (S → S) → Exec S (Unit {0})
modify f s = (ok tt, f s)

module _ {ℓ κ μ} {S : Type ℓ} {A : Type κ} {B : Type μ} where
  -- the rest of a method behind a `?`
  abbrev pub proceed : Result A → (A → Exec S B) → Exec S B
  proceed (ok a) f s = f a s
  proceed (err e) f s = (err e, s)

  infixl 5 ◌>>=◌ ◌>>◌
  abbrev pub ◌>>=◌ : Exec S A → (A → Exec S B) → Exec S B
  ◌>>=◌ m f s = let (r, s') = m s in proceed r f s'

  abbrev pub ◌>>◌ : Exec S A → Exec S B → Exec S B
  m >> k = m >>= λ _. k

-- A method of a part of the state.
abbrev pub zoom {ℓ κ μ} :
    {S : Type ℓ} {T : Type κ} {A : Type μ} → (S → T) → (T → S → S) → Exec T A → Exec S A
zoom get put m s = let (r, t) = m (get s) in (r, put t s)

-- `if !holds { bail!(..) }`
abbrev pub demand {ℓ} : {S : Type ℓ} → Bool → Error → Exec S (Unit {0})
demand true e s = (ok tt, s)
demand false e s = (err e, s)

-- the outcome of a method as a value
abbrev pub capture {ℓ κ} : {S : Type ℓ} {A : Type κ} → Exec S A → Exec S (Result A)
capture m s = let (r, s') = m s in (ok r, s')

-- What neither part of a method fails with, the whole does not fail with.
pub bind-ne {ℓ κ μ} :
    {S : Type ℓ} {A : Type κ} {B : Type μ} {e : Error} (m : Exec S A) (f : A → Exec S B)
    → ((s : S) → (m s).0 ≢ err e)
    → ((a : A) (s : S) → (f a s).0 ≢ err e)
    → (s : S) → ((m >>= f) s).0 ≢ err e
bind-ne m f hm hf s = elim (Result-cases (m s).0) [
  | inl (a, returned) ↦ rw returned (hf a (m s).1)
  | inr (x, raised) ↦ rw raised (λ h. hm s (raised ∙ cc h))
]
