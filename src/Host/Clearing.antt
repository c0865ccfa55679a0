-- ===== src/Host/Clearing.antt =====
-- `clear_session_lookups` of `src/redis_transport.rs`.
use shex.Prelude.{
  ◌≡◌, refl, ◌∙◌, ℕ, zero, suc, true, false, inl, inr, List, [], ◌∷◌, Bytes, eq, eq_iff, all, any,
  starts_with, arith, ◌++◌, Bool, ◌||◌, codes, Bool-cases, Option-cases, none, ◌⊎◌, ◌≢◌, ◌<◌,
  if◌then◌else◌,
}
use shex.Result.{Result, ok, Result-cases, Exec}
use shex.Keys.{session_prefix}
use shex.Names.{hostname_byte}
use shex.Names.Hostname.{IsHostname}
use shex.Redis.{Redis, glob_byte}
use shex.Redis.World.{World, query_quiet}
use shex.Host.{delete_found, scan_on, clear_loop, clear_session_lookups}

-- a key without the prefix is none of those that have it
any-eq :
    (p j : Bytes) (keys : List Bytes)
    → all (starts_with p) keys ≡ true
    → starts_with p j ≡ false
    → any (eq j) keys ≡ false
any-eq p j [] h n = refl
any-eq p j (k ∷ keys) h n = ground (arith, eq_iff j k, any-eq p j keys)

any-append : (f : ℕ → Bool) (xs ys : Bytes) → any f (xs ++ ys) ≡ (any f xs || any f ys)
any-append f [] ys = refl
any-append f (x ∷ xs) ys = ground (arith, any-append f xs ys)

hostname-plain : (h : Bytes) → all hostname_byte h ≡ true → any glob_byte h ≡ false
unfolding hostname_byte
hostname-plain [] named = refl
hostname-plain (c ∷ h) named = ground (arith, hostname-plain h)

-- The names of hosts have no special characters of a pattern.
session_prefix-plain : (h : Bytes) → IsHostname h → any glob_byte (session_prefix h) ≡ false
unfolding session_prefix
session_prefix-plain h named =
    rw (any-append glob_byte h (codes ":session:"), hostname-plain h named.bytes) refl

starts_with_self : (p : Bytes) → starts_with p p ≡ true
unfolding starts_with
starts_with_self [] = refl
starts_with_self (c ∷ p) = ground (arith, starts_with_self p)

module _ (R : Redis) where
  -- a step on a quiet network that does not touch the key `j`
  record Spares (j : Bytes) (w : World R.Db) (r : Result (Unit {0}) × World R.Db) : Type 0 where
    quiet : r.1.turns ≡ []
    kept : R.lookup r.1.db j ≡ R.lookup w.db j

  delete_found-Spares :
      (p j : Bytes) (keys : List Bytes) (w : World R.Db)
      → w.turns ≡ []
      → all (starts_with p) keys ≡ true
      → starts_with p j ≡ false
      → Spares j w (delete_found R keys w)
  delete_found-Spares p j [] w quiet h n = record { quiet = quiet; kept = refl }
  delete_found-Spares p j (k ∷ keys) w quiet h n =
      rw (query_quiet (R.del_all (k ∷ keys)) w quiet)
        (elim (Result-cases (R.del_all (k ∷ keys) w.db).0) [
          | inl (count, done) ↦ rw done (record {
            quiet = quiet;
            kept = rw (R.lookup-del_all, any-eq p j (k ∷ keys) h n) refl;
          })
          | inr (e, failed) ↦ rw failed (record {
            quiet = quiet;
            kept = rw (R.lookup-del_all, any-eq p j (k ∷ keys) h n) refl;
          })
        ])

  scan_on-Spares :
      (next : ℕ) (again : Exec (World R.Db) (Unit {0})) (j : Bytes) (w v : World R.Db)
      → v.turns ≡ []
      → R.lookup v.db j ≡ R.lookup w.db j
      → Spares j v (again v)
      → Spares j w (scan_on R next again v)
  scan_on-Spares zero again j w v quiet kept s = record { quiet = quiet; kept = kept }
  scan_on-Spares (suc n) again j w v quiet kept s = record { quiet = s.quiet; kept = s.kept ∙ kept }

  clear_loop-Spares :
      (fuel cursor : ℕ) (p j : Bytes) (w : World R.Db)
      → w.turns ≡ []
      → any glob_byte p ≡ false
      → starts_with p j ≡ false
      → Spares j w (clear_loop R fuel (p ++ b'*' ∷ []) cursor w)
  unfolding clear_loop
  clear_loop-Spares zero cursor p j w quiet plain n = record { quiet = quiet; kept = refl }
  clear_loop-Spares (suc fuel) cursor p j w quiet plain n =
      let scanning = R.scan cursor (p ++ b'*' ∷ []) 100 in
      let w1 : World R.Db = record w { db = (scanning w.db).1 } in
      let seen = R.lookup-scan cursor (p ++ b'*' ∷ []) 100 w.db j in
      rw (query_quiet scanning w quiet) (elim (Result-cases (scanning w.db).0) [
        | inr (e, failed) ↦ rw failed (record { quiet = quiet; kept = seen })
        | inl ((next, keys), scanned) ↦
            let deleted =
              delete_found-Spares p j keys w1 quiet (R.scan-prefix cursor p 100 w.db plain scanned)
                n in
            let w2 = (delete_found R keys w1).1 in
            rw scanned (elim (Result-cases (delete_found R keys w1).0) [
              | inr (e, failed) ↦
                  rw failed (record { quiet = deleted.quiet; kept = deleted.kept ∙ seen })
              | inl (u, done) ↦ rw done (
                  scan_on-Spares next (clear_loop R fuel (p ++ b'*' ∷ []) next) j w w2 deleted.quiet
                    (deleted.kept ∙ seen)
                    (clear_loop-Spares fuel next p j w2 deleted.quiet plain n))
            ])
      ])

  -- Redis after some keys are deleted, on a quiet network
  record Deleted (keys : List Bytes) (w : World R.Db) (r : Result (Unit {0}) × World R.Db)
      : Type 0 where
    done : r.0 ≡ ok tt
    quiet : r.1.turns ≡ []
    keys_left :
        (j : Bytes) → R.lookup r.1.db j ≡ (if any (eq j) keys then none else R.lookup w.db j)

  delete_found-Deleted :
      (keys : List Bytes) (w : World R.Db) → w.turns ≡ [] → Deleted keys w (delete_found R keys w)
  delete_found-Deleted [] w quiet = record { done = refl; quiet = quiet; keys_left = λ j. refl }
  delete_found-Deleted (k ∷ keys) w quiet =
      let answers = R.del_all-answers (k ∷ keys) w.db in
      rw (query_quiet (R.del_all (k ∷ keys)) w quiet)
        (elim (Result-cases (R.del_all (k ∷ keys) w.db).0) [
          | inl (count, done) ↦
              rw done (record {
                done = refl;
                quiet = quiet;
                keys_left = R.lookup-del_all (k ∷ keys) w.db;
              })
          | inr (e, failed) ↦ absurd (cc (rw failed at answers))
        ])

  -- a key that is gone, or that the iteration has still to come to
  abbrev Due : ℕ → Bytes → World R.Db → Type 0
  Due cursor j w = (R.lookup w.db j ≡ none) ⊎ (R.unseen cursor j ≡ true)

  -- one round: the key is gone, or the iteration goes on and has still to come to it
  round-Due :
      (cursor next : ℕ) (p j : Bytes) (keys : List Bytes) (w v : World R.Db)
      → any glob_byte p ≡ false
      → starts_with p j ≡ true
      → (R.scan cursor (p ++ b'*' ∷ []) 100 w.db).0 ≡ ok (next, keys)
      → R.lookup v.db j ≡ (if any (eq j) keys then none else R.lookup w.db j)
      → Due cursor j w
      → (R.lookup v.db j ≡ none) ⊎ ((next ≢ 0) × (R.unseen next j ≡ true))
  round-Due cursor next p j keys w v plain starts scanned left due =
      elim (Bool-cases (any (eq j) keys)) [
        | inl found ↦ inl (left ∙ rw found refl)
        | inr missed ↦ elim (Option-cases (R.lookup w.db j)) [
          | inl gone ↦ inl (left ∙ rw missed gone)
          | inr (value, here) ↦ elim due [
            | inl gone ↦ absurd (cc (rw here at gone))
            | inr unseen ↦ inr (
                R.scan-visits cursor p 100 w.db j plain scanned starts (rw here refl) unseen missed)
          ]
        ]
      ]

  -- What the loop has come to, for a key with the prefix.
  record Cleared (j : Bytes) (r : Result (Unit {0}) × World R.Db) : Type 0 where
    done : r.0 ≡ ok tt
    gone : R.lookup r.1.db j ≡ none

  scan_on-Cleared :
      (next : ℕ) (again : Exec (World R.Db) (Unit {0})) (j : Bytes) (v : World R.Db)
      → (R.lookup v.db j ≡ none) ⊎ ((next ≢ 0) × (R.unseen next j ≡ true))
      → ((next ≢ 0) → Due next j v → Cleared j (again v))
      → Cleared j (scan_on R next again v)
  scan_on-Cleared zero again j v (inl gone) more = record { done = refl; gone = gone }
  scan_on-Cleared zero again j v (inr (more_to_come, unseen)) more = absurd (more_to_come refl)
  scan_on-Cleared (suc n) again j v (inl gone) more = more (λ e. cc) (inl gone)
  scan_on-Cleared (suc n) again j v (inr (more_to_come, unseen)) more =
      more more_to_come (inr unseen)

  clear_loop-Cleared :
      (fuel cursor : ℕ) (p j : Bytes) (w : World R.Db)
      → w.turns ≡ []
      → any glob_byte p ≡ false
      → starts_with p j ≡ true
      → Due cursor j w
      → R.to_come cursor < fuel
      → Cleared j (clear_loop R fuel (p ++ b'*' ∷ []) cursor w)
  unfolding clear_loop
  clear_loop-Cleared zero cursor p j w quiet plain starts due enough = absurd (omega arith)
  clear_loop-Cleared (suc fuel) cursor p j w quiet plain starts due enough =
      let pattern = p ++ b'*' ∷ [] in
      let scanning = R.scan cursor pattern 100 in
      let w1 : World R.Db = record w { db = (scanning w.db).1 } in
      let answers = R.scan-answers cursor pattern 100 w.db in
      rw (query_quiet scanning w quiet) (elim (Result-cases (scanning w.db).0) [
        | inr (e, failed) ↦ absurd (cc (rw failed at answers))
        | inl ((next, keys), scanned) ↦
            let d = delete_found-Deleted keys w1 quiet in
            let w2 = (delete_found R keys w1).1 in
            let left : R.lookup w2.db j ≡ (if any (eq j) keys then none else R.lookup w.db j) =
              d.keys_left j ∙ rw (R.lookup-scan cursor pattern 100 w.db j) refl in
            rw (scanned, d.done)
              (scan_on-Cleared next (clear_loop R fuel pattern next) j w2
                (round-Due cursor next p j keys w w2 plain starts scanned left due)
                (λ more due'.
                  let fewer : R.to_come next < R.to_come cursor =
                    R.scan-ends cursor pattern 100 w.db scanned more in
                  clear_loop-Cleared fuel next p j w2 d.quiet plain starts due' (omega arith)))
      ])

  -- On a quiet network, and with a round for every call of SCAN, `clear_session_lookups` of a valid
  -- host name succeeds: every key that begins as the session keys of that host do is gone, and all
  -- others are as they were.
  pub lookup-clear_session_lookups :
      (fuel : ℕ) (hostname j : Bytes) (w : World R.Db)
      → w.turns ≡ []
      → IsHostname hostname
      → R.to_come 0 < fuel
      → let (r, after) = clear_session_lookups R fuel hostname w in
        (r ≡ ok tt)
        × (R.lookup after.db j
            ≡ (if starts_with (session_prefix hostname) j then none else R.lookup w.db j))
  unfolding clear_session_lookups
  lookup-clear_session_lookups fuel hostname j w quiet named enough =
      let p = session_prefix hostname in
      let plain = session_prefix-plain hostname named in
      let own =
        clear_loop-Cleared fuel 0 p p w quiet plain (starts_with_self p) (inr (R.unseen-start p))
          enough in
      elim (Bool-cases (starts_with p j)) [
        | inl starts ↦ rw starts (
          own.done,
          (clear_loop-Cleared fuel 0 p j w quiet plain starts (inr (R.unseen-start j)) enough).gone,
        )
        | inr other ↦ rw other (own.done, (clear_loop-Spares fuel 0 p j w quiet plain other).kept)
      ]
