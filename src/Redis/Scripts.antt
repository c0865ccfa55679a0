-- ===== src/Redis/Scripts.antt =====
-- SEND_SCRIPT, ACK_SCRIPT and RENEW_SCRIPT of `src/redis_transport.rs`. Redis runs a script as one
-- step; what a script wrote before an error stays written.
use shex.Prelude.{
  ℕ, ◌<◌, ◌≡◌, ◌≢◌, refl, sym, ◌∙◌, Bool, true, false, Option, none, some, Bytes, codes, eq,
  eq-false, eq_refl, ap, if◌then◌else◌, arith,
}
use shex.Result.{fuel_exhausted, ok, err, Exec, pure, ◌>>=◌, ◌>>◌}
use shex.Redis.{Redis, Value, text, pushed, not_text, as_text}

-- the test of ACK_SCRIPT and RENEW_SCRIPT: a missing key is no text
abbrev pub holds : Option Bytes → Bytes → Bool
holds none value = false
holds (some found) value = eq found value

abbrev as_count : Bool → ℕ
as_count true = 1
as_count false = 0

pub holds-false :
    (found : Option Bytes) (value : Bytes) → found ≢ some value → holds found value ≡ false
holds-false none value h = refl
holds-false (some f) value h = eq-false f value (λ e. h (ap some e))

module _ (R : Redis) where
  open R use {Db}

  unfoldable pub send_script : Bytes → Bytes → Bytes → ℕ → Exec Db ℕ
  send_script key ready value ttl = do
    stored ← R.set_nx_px key value ttl
    if stored then (do R.rpush ready (codes "1"); R.pexpire ready ttl; pure 1) else pure 0

  unfoldable pub ack_script : Bytes → Bytes → Exec Db ℕ
  ack_script key value = do
    found ← R.get key
    if holds found value then (do removed ← R.del key; pure (as_count removed)) else pure 0

  unfoldable pub renew_script : Bytes → Bytes → ℕ → Exec Db ℕ
  renew_script key value ttl = do
    found ← R.get key
    if holds found value then (do set ← R.pexpire key ttl; pure (as_count set)) else pure 0

  -- A message is stored in an empty mailbox, with one signal, and an occupied one stays as it is.
  pub send_script-free :
      (key ready value : Bytes) (ttl : ℕ) (db : Db)
      → 0 < ttl
      → ready ≢ key
      → R.lookup db key ≡ none
      → not_text (R.lookup db ready) ≡ ok tt
      → ((send_script key ready value ttl db).0 ≡ ok 1)
        × ((j : Bytes)
            → R.lookup (send_script key ready value ttl db).1 j ≡ (
                if eq j ready
                then pushed (codes "1") (R.lookup db ready)
                else if eq j key
                then some (text value)
                else R.lookup db j))
  unfolding send_script
  send_script-free key ready value ttl db pos apart free list =
      let ne : eq ready key ≡ false = eq-false ready key apart in
      simp (R.set_nx_px-reply, free, R.rpush-reply, R.lookup-set_nx_px, ne, list, R.pexpire-reply)
        (
          refl,
          λ j.
              rw (R.lookup-pexpire ready ttl _ j pos)
                (simp (R.lookup-rpush, R.lookup-set_nx_px, free, ne)),
        )

  pub send_script-occupied :
      (key ready value : Bytes) (ttl : ℕ) (db : Db) {held : Value}
      → R.lookup db key ≡ some held
      → ((send_script key ready value ttl db).0 ≡ ok 0)
        × ((j : Bytes) → R.lookup (send_script key ready value ttl db).1 j ≡ R.lookup db j)
  unfolding send_script
  send_script-occupied key ready value ttl db full =
      simp (R.set_nx_px-reply, full) (refl, λ j. simp (R.lookup-set_nx_px, full))

  -- The message that was read is removed.
  pub ack_script-same :
      (key value : Bytes) (db : Db)
      → R.lookup db key ≡ some (text value)
      → ((ack_script key value db).0 ≡ ok 1)
        × ((j : Bytes)
            → R.lookup (ack_script key value db).1 j ≡ (if eq j key then none else R.lookup db j))
  unfolding ack_script
  ack_script-same key value db here =
      simp (R.get-reply, here, eq_refl, R.del-reply, R.lookup-get)
        (refl, λ j. simp (R.lookup-del, R.lookup-get))

  -- Whatever else the mailbox holds stays there.
  pub ack_script-other :
      (key value : Bytes) (db : Db) {found : Option Bytes}
      → as_text (R.lookup db key) ≡ ok found
      → found ≢ some value
      → ((ack_script key value db).0 ≡ ok 0)
        × ((j : Bytes) → R.lookup (ack_script key value db).1 j ≡ R.lookup db j)
  unfolding ack_script
  ack_script-other key value db {found} here other =
      simp (R.get-reply, here, holds-false found value other) (refl, λ j. R.lookup-get key db j)

  -- A renewal changes no value, whether it finds the message or not.
  pub lookup-renew_script :
      (key value : Bytes) (ttl : ℕ) (db : Db) (j : Bytes)
      → 0 < ttl
      → R.lookup (renew_script key value ttl db).1 j ≡ R.lookup db j
  unfolding renew_script
  lookup-renew_script key value ttl db j pos =
      let got = (R.get key db).1 in
      ground (
        arith,
        R.lookup-get key db j,
        R.lookup-pexpire key ttl got j pos,
        R.pexpire-reply key ttl got,
      )

  not_text-ne : (v : Option Value) → not_text v ≢ err fuel_exhausted
  not_text-ne v = ground arith

  rpush-ne : (k v : Bytes) (db : Db) → (R.rpush k v db).0 ≢ err fuel_exhausted
  rpush-ne k v db e = not_text-ne (R.lookup db k) (sym (R.rpush-reply k v db) ∙ e)

  pub send_script-ne :
      (key ready value : Bytes) (ttl : ℕ) (db : Db)
      → (send_script key ready value ttl db).0 ≢ err fuel_exhausted
  unfolding send_script
  send_script-ne key ready value ttl db =
      let stored = (R.set_nx_px key value ttl db).1 in
      let signalled = (R.rpush ready (codes "1") stored).1 in
      ground (
        arith,
        R.set_nx_px-reply key value ttl db,
        rpush-ne ready (codes "1") stored,
        R.pexpire-reply ready ttl signalled,
      )
