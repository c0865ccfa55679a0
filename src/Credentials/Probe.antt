-- ===== src/Credentials/Probe.antt =====
-- `configure_backend` of `src/credential_store.rs`.
use shex.Prelude.{◌≡◌, refl, true, false, Bool, Bool-cases, inl, inr, eq, eq_iff}
use shex.Result.{Error, Result, ok, err, Result-cases, no_backend}
use shex.Credentials.{
  Keyring, SystemStore, secret_service, kernel_keyring, Backend, system, linux_kernel,
  encrypted_file, Drawn, probe_service, probe_current_store, try_store, or_kernel,
  configure_backend,
}

module _ {K : Type 0} (keyring : Keyring K) where
  -- A store gave back the secret of its probe.
  abbrev pub ReadsBack : Drawn → K → Type 0
  ReadsBack drawn k =
      let (r, k') = keyring.set_secret probe_service drawn.user drawn.secret k in
      (r ≡ ok tt) × ((keyring.get_secret probe_service drawn.user k').0 ≡ ok drawn.secret)

  probe-ReadsBack :
      (drawn : Drawn) (k : K)
      → (probe_current_store keyring drawn k).0 ≡ ok tt
      → ReadsBack drawn (keyring.new_entry probe_service drawn.user k).1
  unfolding probe_current_store
  probe-ReadsBack drawn k h =
      let k1 = (keyring.new_entry probe_service drawn.user k).1 in
      let k2 = (keyring.set_secret probe_service drawn.user drawn.secret k1).1 in
      elim (Result-cases (keyring.new_entry probe_service drawn.user k).0) [
        | inr (e, failed) ↦ absurd (cc (rw failed at h))
        | inl (u, opens) ↦
            elim (Result-cases (keyring.set_secret probe_service drawn.user drawn.secret k1).0) [
              | inr (e, failed) ↦ absurd (cc (rw (opens, failed) at h))
              | inl (u, stored) ↦
                  elim (Result-cases (keyring.get_secret probe_service drawn.user k2).0) [
                    | inr (e, failed) ↦ absurd (cc (rw (opens, stored, failed) at h))
                    | inl (secret, got) ↦ elim (Bool-cases (eq secret drawn.secret)) [
                      | inr differ ↦ absurd (cc (rw (opens, stored, got, differ) at h))
                      | inl same ↦ (stored, rw got (rw ((eq_iff secret drawn.secret).0 same) refl))
                    ]
                  ]
            ]
      ]

  -- The store has opened, and as the default store it gave back the secret of its probe.
  abbrev pub Good : SystemStore → Drawn → Type 0
  Good store drawn =
      (k : K) × ((keyring.set_default_store store k).0 ≡ ok tt)
      × ReadsBack drawn
          (keyring.new_entry probe_service drawn.user (keyring.set_default_store store k).1).1

  -- A backend of the system is one whose store is good; the encrypted files need none.
  abbrev pub Probed : Drawn → Drawn → Backend → Type 0
  Probed first second system = Good secret_service first
  Probed first second linux_kernel = Good kernel_keyring second
  Probed first second encrypted_file = Unit {0}

  try_store-ReadsBack :
      (store : SystemStore) (drawn : Drawn) (k : K)
      → (try_store keyring store drawn k).0 ≡ ok tt
      → Good store drawn
  unfolding try_store
  try_store-ReadsBack store drawn k h = elim (Result-cases (keyring.set_default_store store k).0) [
    | inr (e, failed) ↦ absurd (cc (rw failed at h))
    | inl (u, opens) ↦
        (k, opens, probe-ReadsBack drawn (keyring.set_default_store store k).1 (rw opens at h))
  ]

  -- What the search for a backend has come to.
  abbrev pub Found : Drawn → Drawn → Result Backend → Type 0
  Found first second r = (backend : Backend) × (r ≡ ok backend) × Probed first second backend

  or_kernel-Found :
      (first second : Drawn) (e : Error) (k : K)
      → Found first second (or_kernel keyring second (err e) k).0
  or_kernel-Found first second e k =
      elim (Result-cases (try_store keyring kernel_keyring second k).0) [
        | inl (u, good) ↦
            (linux_kernel, rw good refl, try_store-ReadsBack kernel_keyring second k good)
        | inr (e, failed) ↦ (encrypted_file, rw failed refl, tt)
      ]

  -- On Linux a backend is always found. It is the Secret Service or the kernel keyring only if that
  -- store, opened and set as the default, gave back the secret that was written to it as a probe.
  pub configure_backend-Probed :
      (bus : Bool) (first second : Drawn) (k : K)
      → Found first second (configure_backend keyring bus first second k).0
  unfolding configure_backend
  configure_backend-Probed false first second k = or_kernel-Found first second no_backend k
  configure_backend-Probed true first second k =
      elim (Result-cases (try_store keyring secret_service first k).0) [
        | inl (u, good) ↦ (system, rw good refl, try_store-ReadsBack secret_service first k good)
        | inr (e, failed) ↦
            rw failed (or_kernel-Found first second e (try_store keyring secret_service first k).1)
      ]
