-- ===== src/Host/Ownership.antt =====
-- `HostListener::register` of `src/redis_transport.rs`.
use shex.Prelude.{◌≡◌, refl, ◌∙◌, none, some, [], Bytes, eq, if◌then◌else◌, Bool-cases, inl, inr}
use shex.Result.{ok, err, hostname_owned}
use shex.Names.{validate_hostname}
use shex.Names.Hostname.{IsHostname, validate_hostname_iff}
use shex.Keys.{host_key}
use shex.Redis.{Redis, text}
use shex.Redis.World.{World, query_quiet}
use shex.Host.{HostListener, register, check_owner}

module _ (R : Redis) (hostname signature : Bytes) (w : World R.Db) (quiet : w.turns ≡ [])
    (named : IsHostname hostname) where
  accepted : validate_hostname hostname ≡ ok tt
  accepted = (validate_hostname_iff hostname).1 named

  -- the listener that `register` makes, with the connection that it has used
  abbrev pub registered : HostListener R.Db
  registered = record { hostname = hostname; connection = (register R hostname signature w).1 }

  -- On a quiet network a free, valid name is registered with the host's signature, and no other key
  -- changes.
  pub register-free :
      R.lookup w.db (host_key hostname) ≡ none
      → ((register R hostname signature w).0 ≡ ok registered)
        × ((j : Bytes)
            → R.lookup (register R hostname signature w).1.db j
              ≡ (if eq j (host_key hostname) then some (text signature) else R.lookup w.db j))
  unfolding register
  register-free free =
      rw
        (accepted, query_quiet (R.setnx (host_key hostname) signature) w quiet, R.setnx-reply, free)
        (refl, λ j. rw (R.lookup-setnx, free))

  checked :
      (owner : Bytes) (v : World R.Db)
      → v.turns ≡ []
      → R.lookup v.db (host_key hostname) ≡ some (text owner)
      → ((check_owner R (host_key hostname) signature v).0
          ≡ (if eq owner signature then ok tt else err hostname_owned))
        × ((j : Bytes)
            → R.lookup (check_owner R (host_key hostname) signature v).1.db j ≡ R.lookup v.db j)
  unfolding check_owner
  checked owner v still taken =
      rw (query_quiet (R.get (host_key hostname)) v still, R.get-reply, taken)
        (elim (Bool-cases (eq owner signature)) [
          | inl same ↦ rw same (refl, R.lookup-get (host_key hostname) v.db)
          | inr other ↦ rw other (refl, R.lookup-get (host_key hostname) v.db)
        ])

  -- On a quiet network a valid name that is taken is accepted from the host that holds it, refused
  -- to any other, and stays as it is.
  pub register-taken :
      (owner : Bytes)
      → R.lookup w.db (host_key hostname) ≡ some (text owner)
      → ((register R hostname signature w).0
          ≡ (if eq owner signature then ok registered else err hostname_owned))
        × ((j : Bytes) → R.lookup (register R hostname signature w).1.db j ≡ R.lookup w.db j)
  unfolding register
  register-taken owner taken =
      let claim = R.setnx (host_key hostname) signature in
      let v : World R.Db = record w { db = (claim w.db).1 } in
      let unclaimed : (j : Bytes) → R.lookup v.db j ≡ R.lookup w.db j =
        λ j. rw (R.lookup-setnx, taken) in
      let (answer, kept) = checked owner v quiet (unclaimed (host_key hostname) ∙ taken) in
      rw (accepted, query_quiet claim w quiet, R.setnx-reply, taken)
        (elim (Bool-cases (eq owner signature)) [
          | inl same ↦ rw (answer, same) (refl, λ j. kept j ∙ unclaimed j)
          | inr other ↦ rw (answer, other) (refl, λ j. kept j ∙ unclaimed j)
        ])
