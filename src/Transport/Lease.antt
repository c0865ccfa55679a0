-- ===== src/Transport/Lease.antt =====
-- The thread of `start_processing_lease` in `src/redis_transport.rs`.
use shex.Prelude.{
  ◌≡◌, refl, ◌∙◌, Bool, false, List, [], ◌∷◌, Bytes, ◌==◌, if◌then◌else◌, ℕ, arith, Bool-cases, inl,
  inr,
}
use shex.Result.{Result, ok, err}
use shex.Redis.{Redis}
use shex.Redis.Scripts.{renew_script, lookup-renew_script}
use shex.Redis.World.{World, query, query_quiet}
use shex.Transport.{message_ttl_ms}

-- What `stopped.recv_timeout(LEASE_INTERVAL)` returns.
pub data LeaseEvent : Type 0 where
  stop disconnected timeout : LeaseEvent

-- `matches!(renewed, Ok(1))`
abbrev renewed_one : Result ℕ → Bool
renewed_one (ok n) = n == 1
renewed_one (err e) = false

module _ (R : Redis) where
  -- The world after the rounds that `events` tell of.
  unfoldable pub lease : List LeaseEvent → Bytes → Bytes → World R.Db → World R.Db
  lease [] key value w = w
  lease (stop ∷ events) key value w = w
  lease (disconnected ∷ events) key value w = w
  lease (timeout ∷ events) key value w =
      let (renewed, w') = query (renew_script R key value message_ttl_ms) w in
      let rest = lease events key value w' in if renewed_one renewed then rest else w'

  -- On a quiet network a lease changes the value of no key, for however long it runs.
  lookup-lease :
      (events : List LeaseEvent) (key value : Bytes) (w : World R.Db)
      → w.turns ≡ []
      → (j : Bytes) → R.lookup (lease events key value w).db j ≡ R.lookup w.db j
  unfolding lease
  lookup-lease [] key value w quiet j = refl
  lookup-lease (stop ∷ events) key value w quiet j = refl
  lookup-lease (disconnected ∷ events) key value w quiet j = refl
  lookup-lease (timeout ∷ events) key value w quiet j =
      let script = renew_script R key value message_ttl_ms in
      let w' : World R.Db = record w { db = (script w.db).1 } in
      let kept = lookup-renew_script R key value message_ttl_ms w.db j (omega arith) in
      rw (query_quiet script w quiet) (elim (Bool-cases (renewed_one (script w.db).0)) [
        | inl more ↦ rw more (lookup-lease events key value w' quiet j ∙ kept)
        | inr over ↦ rw over kept
      ])
