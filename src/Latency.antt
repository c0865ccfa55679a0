-- ===== src/Latency.antt =====
-- `measure_latency` of `src/redis_transport.rs` and `measure_host_latency` of `src/main.rs`. A duration is a
-- number in the unit of the clock, and an average is rounded down.
pub mod Bounds
use shex.Prelude.{
  ℕ, zero, suc, ◌+◌, ◌-◌, ◌/◌, Bool, List, [], ◌∷◌, Bytes, codes, eq, ltb, ◌==◌, if◌then◌else◌,
}
use shex.Result.{
  Result, ok, err, Exec, pure, raise, lift, gets, proceed, ◌>>=◌, ◌>>◌, zero_samples, invalid_ping,
  unexpected_reply,
}
use shex.Redis.{Redis}
use shex.Redis.World.{World, query}
use shex.Protocol.{ServerReply, hello, opened, deleted, pong, output, error, ping, disconnect}
use shex.Client.{ClientChannel, Client, ask, recv}

pub record LatencyStats : Type 0 where
  pub minimum : ℕ
  pub average : ℕ
  pub maximum : ℕ

-- `iter().min()`, `iter().max()` and `iter().sum()`
unfoldable pub least : ℕ → List ℕ → ℕ
least x [] = x
least x (y ∷ ys) = let rest = least y ys in if ltb rest x then rest else x

unfoldable pub greatest : ℕ → List ℕ → ℕ
greatest x [] = x
greatest x (y ∷ ys) = let rest = greatest y ys in if ltb rest x then x else rest

unfoldable pub sum : List ℕ → ℕ
sum [] = 0
sum (x ∷ xs) = x + sum xs

-- Without samples the code panics; both callers have one.
unfoldable pub stats : ℕ → List ℕ → Result LatencyStats
unfolding least greatest sum
stats count [] = err zero_samples
stats count (x ∷ xs) =
    ok (record { minimum = least x xs; average = sum (x ∷ xs) / count; maximum = greatest x xs })

-- the loop of both, on what takes one sample
unfoldable pub samples : {S : Type 0} → Exec S ℕ → ℕ → Exec S (List ℕ)
samples sample zero = pure []
samples sample (suc n) = do elapsed ← sample; rest ← samples sample n; pure (elapsed ∷ rest)

module _ (R : Redis) where
  unfoldable pub redis_ping : Exec (World R.Db) (Unit {0})
  redis_ping = do
    answer ← query R.ping
    if eq answer (codes "PONG") then pure tt else raise invalid_ping

  unfoldable pub redis_sample : Exec (World R.Db) ℕ
  redis_sample = do
    started ← gets (λ w. w.clock)
    redis_ping
    ended ← gets (λ w. w.clock)
    pure (ended - started)

  unfoldable pub measured : ℕ → Exec (World R.Db) LatencyStats
  measured count = do redis_ping; taken ← samples redis_sample count; lift (stats count taken)

  -- on a fresh connection
  unfoldable pub measure_latency : ℕ → Exec (World R.Db) LatencyStats
  measure_latency count = if count == 0 then raise zero_samples else measured count

module _ {C : Type 0} (chan : ClientChannel C) (now : Client C → ℕ) where
  abbrev expect_pong : ServerReply → Exec (Client C) (Unit {0})
  expect_pong pong = pure tt
  expect_pong other = raise unexpected_reply

  unfoldable pub host_ping : Exec (Client C) (Unit {0})
  host_ping = do ask chan ping; reply ← recv chan; expect_pong reply

  unfoldable pub host_sample : Exec (Client C) ℕ
  host_sample = do started ← gets now; host_ping; ended ← gets now; pure (ended - started)

  -- `measure_host_latency`, once the host has greeted; `now` is the clock.
  unfoldable pub measure_host_latency : ℕ → Exec (Client C) LatencyStats
  measure_host_latency count = do
    host_ping
    taken ← samples host_sample count
    ask chan disconnect
    lift (stats count taken)
