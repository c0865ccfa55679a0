-- ===== src/Redis.antt =====
-- The Redis server, as the program uses it: a parameter with the documented effect of each command
-- on the keys. The scripts that the program sends are in Redis/Scripts.antt, and the network that
-- the commands travel over in Redis/World.antt.
pub mod Scripts
pub mod World
pub mod Memory
use shex.Prelude.{
  ℕ, ◌≡◌, ◌≢◌, ◌<◌, Bool, true, false, ◌&&◌, Option, none, some, List, [], ◌∷◌, ◌++◌, Bytes, eq,
  is_some, is_none, if◌then◌else◌, all, any, starts_with, leb, ◌-◌, ◌==◌, ◌||◌,
}
use shex.Result.{Result, ok, err, is_ok, Exec, wrong_type}

-- What a key holds. A list is removed with its last item.
pub data Value : Type 0 where
  text : Bytes → Value
  items : List Bytes → Value

-- RPUSH
abbrev pub pushed : Bytes → Option Value → Option Value
pushed v none = some (items (v ∷ []))
pushed v (some (text t)) = some (text t)
pushed v (some (items xs)) = some (items (xs ++ v ∷ []))

abbrev pub not_text : Option Value → Result (Unit {0})
not_text none = ok tt
not_text (some (text t)) = err wrong_type
not_text (some (items xs)) = ok tt

-- LPOP, and BLPOP when it does not wait
abbrev pub popped : Option Value → Option Value
popped none = none
popped (some (text t)) = some (text t)
popped (some (items [])) = none
popped (some (items (x ∷ []))) = none
popped (some (items (x ∷ y ∷ xs))) = some (items (y ∷ xs))

abbrev pub first_item : Option Value → Result (Option Bytes)
first_item none = ok none
first_item (some (text t)) = err wrong_type
first_item (some (items [])) = ok none
first_item (some (items (x ∷ xs))) = ok (some x)

-- GET
abbrev pub as_text : Option Value → Result (Option Bytes)
as_text none = ok none
as_text (some (text t)) = ok (some t)
as_text (some (items xs)) = err wrong_type

-- the characters that a pattern reads otherwise than as themselves: * ? [ and the backslash
abbrev pub glob_byte : ℕ → Bool
glob_byte c = (c == 42) || ((c == 63) || ((c == 91) || (c == 92)))

-- Whether a key's time is up after `n` milliseconds, and what is left of it.
abbrev pub lapsed : ℕ → Option ℕ → Bool
lapsed n none = false
lapsed n (some t) = leb t n

abbrev pub left : ℕ → Option ℕ → Option ℕ
left n none = none
left n (some t) = if leb t n then none else some (t - n)

pub record Redis : Type 1 where
  pub Db : Type 0
  pub lookup : Db → Bytes → Option Value
  -- the milliseconds that a key still has, if its life is limited
  pub ttl : Db → Bytes → Option ℕ
  -- the database some milliseconds later, without the keys whose time is up
  pub pass : ℕ → Db → Db
  pub lookup-pass :
      (n : ℕ) (db : Db) (j : Bytes)
      → lookup (pass n db) j ≡ (if lapsed n (ttl db j) then none else lookup db j)
  pub ttl-pass : (n : ℕ) (db : Db) (j : Bytes) → ttl (pass n db) j ≡ left n (ttl db j)
  -- SET key value NX PX ttl
  pub set_nx_px : Bytes → Bytes → ℕ → Exec Db Bool
  pub set_nx_px-reply :
      (k v : Bytes) (ttl : ℕ) (db : Db) → (set_nx_px k v ttl db).0 ≡ ok (is_none (lookup db k))
  pub lookup-set_nx_px :
      (k v : Bytes) (ttl : ℕ) (db : Db) (j : Bytes)
      → lookup (set_nx_px k v ttl db).1 j
        ≡ (if is_none (lookup db k) && eq j k then some (text v) else lookup db j)
  pub ttl-set_nx_px :
      (k v : Bytes) (n : ℕ) (db : Db) (j : Bytes)
      → ttl (set_nx_px k v n db).1 j
        ≡ (if is_none (lookup db k) && eq j k then some n else ttl db j)
  -- RPUSH key value
  pub rpush : Bytes → Bytes → Exec Db (Unit {0})
  pub rpush-reply : (k v : Bytes) (db : Db) → (rpush k v db).0 ≡ not_text (lookup db k)
  pub lookup-rpush :
      (k v : Bytes) (db : Db) (j : Bytes)
      → lookup (rpush k v db).1 j ≡ (if eq j k then pushed v (lookup db k) else lookup db j)
  -- PEXPIRE key ttl
  pub pexpire : Bytes → ℕ → Exec Db Bool
  pub pexpire-reply :
      (k : Bytes) (ttl : ℕ) (db : Db) → (pexpire k ttl db).0 ≡ ok (is_some (lookup db k))
  pub lookup-pexpire :
      (k : Bytes) (ttl : ℕ) (db : Db) (j : Bytes)
      → 0 < ttl
      → lookup (pexpire k ttl db).1 j ≡ lookup db j
  pub ttl-pexpire :
      (k : Bytes) (n : ℕ) (db : Db) (j : Bytes)
      → ttl (pexpire k n db).1 j ≡ (if is_some (lookup db k) && eq j k then some n else ttl db j)
  -- GET key
  pub get : Bytes → Exec Db (Option Bytes)
  pub get-reply : (k : Bytes) (db : Db) → (get k db).0 ≡ as_text (lookup db k)
  pub lookup-get : (k : Bytes) (db : Db) (j : Bytes) → lookup (get k db).1 j ≡ lookup db j
  -- DEL key
  pub del : Bytes → Exec Db Bool
  pub del-reply : (k : Bytes) (db : Db) → (del k db).0 ≡ ok (is_some (lookup db k))
  pub lookup-del :
      (k : Bytes) (db : Db) (j : Bytes)
      → lookup (del k db).1 j ≡ (if eq j k then none else lookup db j)
  -- BLPOP key, at the moment when it returns
  pub blpop : Bytes → Exec Db (Option Bytes)
  pub blpop-reply : (k : Bytes) (db : Db) → (blpop k db).0 ≡ first_item (lookup db k)
  pub lookup-blpop :
      (k : Bytes) (db : Db) (j : Bytes)
      → lookup (blpop k db).1 j ≡ (if eq j k then popped (lookup db k) else lookup db j)
  -- SET key value
  pub set : Bytes → Bytes → Exec Db (Unit {0})
  pub set-reply : (k v : Bytes) (db : Db) → (set k v db).0 ≡ ok tt
  pub lookup-set :
      (k v : Bytes) (db : Db) (j : Bytes)
      → lookup (set k v db).1 j ≡ (if eq j k then some (text v) else lookup db j)
  -- SETNX key value
  pub setnx : Bytes → Bytes → Exec Db Bool
  pub setnx-reply : (k v : Bytes) (db : Db) → (setnx k v db).0 ≡ ok (is_none (lookup db k))
  pub lookup-setnx :
      (k v : Bytes) (db : Db) (j : Bytes)
      → lookup (setnx k v db).1 j
        ≡ (if is_none (lookup db k) && eq j k then some (text v) else lookup db j)
  -- EXISTS key
  pub exists : Bytes → Exec Db Bool
  pub exists-reply : (k : Bytes) (db : Db) → (exists k db).0 ≡ ok (is_some (lookup db k))
  pub lookup-exists : (k : Bytes) (db : Db) (j : Bytes) → lookup (exists k db).1 j ≡ lookup db j
  -- PING
  pub ping : Exec Db Bytes
  pub lookup-ping : (db : Db) (j : Bytes) → lookup (ping db).1 j ≡ lookup db j
  -- SCAN cursor MATCH pattern COUNT count: the next cursor, and some of the keys that match. Only a prefix without
  -- the special characters of a pattern stands for itself.
  pub scan : ℕ → Bytes → ℕ → Exec Db (ℕ × List Bytes)
  pub scan-prefix :
      (cursor : ℕ) (prefix : Bytes) (count : ℕ) (db : Db) {next : ℕ} {keys : List Bytes}
      → any glob_byte prefix ≡ false
      → (scan cursor (prefix ++ b'*' ∷ []) count db).0 ≡ ok (next, keys)
      → all (starts_with prefix) keys ≡ true
  -- how many calls an iteration at a cursor still takes, at most
  pub to_come : ℕ → ℕ
  pub scan-answers :
      (cursor : ℕ) (pattern : Bytes) (count : ℕ) (db : Db)
      → is_ok (scan cursor pattern count db).0 ≡ true
  pub scan-ends :
      (cursor : ℕ) (pattern : Bytes) (count : ℕ) (db : Db) {next : ℕ} {keys : List Bytes}
      → (scan cursor pattern count db).0 ≡ ok (next, keys)
      → next ≢ 0
      → to_come next < to_come cursor
  -- the keys that an iteration which has come to a cursor has still to visit; a full one visits every key
  pub unseen : ℕ → Bytes → Bool
  pub unseen-start : (j : Bytes) → unseen 0 j ≡ true
  pub scan-visits :
      (cursor : ℕ) (prefix : Bytes) (count : ℕ) (db : Db) (j : Bytes) {next : ℕ} {keys : List Bytes}
      → any glob_byte prefix ≡ false
      → (scan cursor (prefix ++ b'*' ∷ []) count db).0 ≡ ok (next, keys)
      → starts_with prefix j ≡ true
      → is_some (lookup db j) ≡ true
      → unseen cursor j ≡ true
      → any (eq j) keys ≡ false
      → (next ≢ 0) × (unseen next j ≡ true)
  pub lookup-scan :
      (cursor : ℕ) (pattern : Bytes) (count : ℕ) (db : Db) (j : Bytes)
      → lookup (scan cursor pattern count db).1 j ≡ lookup db j
  -- DEL of several keys
  pub del_all : List Bytes → Exec Db ℕ
  pub del_all-answers : (keys : List Bytes) (db : Db) → is_ok (del_all keys db).0 ≡ true
  pub lookup-del_all :
      (keys : List Bytes) (db : Db) (j : Bytes)
      → lookup (del_all keys db).1 j ≡ (if any (eq j) keys then none else lookup db j)
