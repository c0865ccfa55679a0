-- ===== src/Redis/World.antt =====
-- What a party of the program sees of Redis: a database that others change between its queries,
-- a network that may lose a query or its reply, and a clock.
use shex.Prelude.{◌≢◌, ◌⊎◌, ℕ, ◌+◌, ◌≤◌, ◌≡◌, refl, List, [], ◌∷◌, arith}
use shex.Result.{Result, ok, err, Exec, request_lost, reply_lost, fuel_exhausted}

pub data Fate : Type 0 where
  answered no_request no_reply : Fate

-- What happens at one query: what others do to the database before Redis takes it, among it the keys whose time is
-- up, the milliseconds until the reply, and the fate of the query on the network.
pub record Turn (Db : Type 0) : Type 0 where
  pub others : Db → Db
  pub elapsed : ℕ
  pub fate : Fate

-- With no turns left nobody else acts, and the network works.
pub record World (Db : Type 0) : Type 0 where
  pub db : Db
  pub clock : ℕ
  pub turns : List (Turn Db)

abbrev after_fate {ℓ} : {A : Type ℓ} → Fate → Result A → Result A
after_fate answered r = r
after_fate no_request r = err request_lost
after_fate no_reply r = err reply_lost

-- the database after a command that may not have arrived
abbrev committed : {Db : Type 0} → Fate → Db → Db → Db
committed no_request before after = before
committed answered before after = after
committed no_reply before after = after

-- the database that Redis has when it takes the query
abbrev pub before_turn : {Db : Type 0} → List (Turn Db) → Db → Db
before_turn [] db = db
before_turn (t ∷ ts) db = t.others db

module _ {ℓ} {A : Type ℓ} {Db : Type 0} where
  unfoldable pub perform : Exec Db A → List (Turn Db) → World Db → Result A × World Db
  perform command [] w = let (r, db) = command w.db in (r, record w { db = db; turns = [] })
  perform command (t ∷ ts) w =
      let before = t.others w.db in
      let (r, after) = command before in
      (
        after_fate t.fate r,
        record { db = committed t.fate before after; clock = w.clock + t.elapsed; turns = ts },
      )

  -- `query` of a connection
  unfoldable pub query : Exec Db A → Exec (World Db) A
  unfolding perform
  query command w = perform command w.turns w

  -- On a quiet network a query is its command.
  pub query_quiet :
      (command : Exec Db A) (w : World Db)
      → w.turns ≡ []
      → query command w ≡ ((command w.db).0, record w { db = (command w.db).1 })
  unfolding query
  query_quiet command w quiet = ground (arith, quiet)

  perform_clock :
      (command : Exec Db A) (ts : List (Turn Db)) (w : World Db)
      → w.clock ≤ (perform command ts w).1.clock
  unfolding perform
  perform_clock command [] w = omega arith
  perform_clock command (t ∷ ts) w = omega arith

  -- Time does not run backwards.
  pub query_clock : (command : Exec Db A) (w : World Db) → w.clock ≤ (query command w).1.clock
  unfolding query
  query_clock command w = perform_clock command w.turns w

  perform-ok :
      (command : Exec Db A) (ts : List (Turn Db)) (w : World Db) {a : A}
      → (perform command ts w).0 ≡ ok a
      → ((command (before_turn ts w.db)).0 ≡ ok a)
        × ((perform command ts w).1.db ≡ (command (before_turn ts w.db)).1)
  unfolding perform
  perform-ok command [] w h = (h, refl)
  perform-ok command (t ∷ ts) w h = ground arith

  perform-ne :
      (command : Exec Db A) (ts : List (Turn Db)) (w : World Db)
      → ((db : Db) → (command db).0 ≢ err fuel_exhausted)
      → (perform command ts w).0 ≢ err fuel_exhausted
  unfolding perform
  perform-ne command [] w h = h w.db
  perform-ne command (t ∷ ts) w h = ground (arith, h (t.others w.db))

  -- A reply is that of the command, which was carried out.
  pub query-ok :
      (command : Exec Db A) (w : World Db) {a : A}
      → (query command w).0 ≡ ok a
      → ((command (before_turn w.turns w.db)).0 ≡ ok a)
        × ((query command w).1.db ≡ (command (before_turn w.turns w.db)).1)
  unfolding query
  query-ok command w h = perform-ok command w.turns w h

  -- Whatever becomes of a query, the command was carried out once, or not at all.
  pub query_db :
      (command : Exec Db A) (w : World Db)
      → ((query command w).1.db ≡ before_turn w.turns w.db)
        ⊎ ((query command w).1.db ≡ (command (before_turn w.turns w.db)).1)
  unfolding query perform
  query_db command w = ground arith

  -- The network runs out of no fuel of its own.
  pub query-ne :
      (command : Exec Db A) (w : World Db)
      → ((db : Db) → (command db).0 ≢ err fuel_exhausted)
      → (query command w).0 ≢ err fuel_exhausted
  unfolding query
  query-ne command w h = perform-ne command w.turns w h
