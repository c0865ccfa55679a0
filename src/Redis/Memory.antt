-- ===== src/Redis/Memory.antt =====
-- A store in memory that answers as Redis does: an instance of the interface, for tests.
use shex.Prelude.{
  sym, ◌≡◌, ◌≢◌, refl, ◌&&◌, Option, none, some, List, [], ◌∷◌, arith, Bytes, eq, eq_iff, is_some,
  is_none, if◌then◌else◌, all, any, starts_with, codes, ◌++◌, ◌==◌, false, Bool, Bool-cases, inl,
  inr, eq_refl, length, ℕ, true,
}
use shex.Result.{Result, ok}
use shex.Redis.{
  Redis, lapsed, left, glob_byte, Value, text, pushed, popped, not_text, first_item, as_text,
}

abbrev pub Store : Type 0
Store = List (Bytes × Value)

unfoldable pub find : Store → Bytes → Option Value
find [] j = none
find ((k, v) ∷ m) j = if eq j k then some v else find m j

unfoldable pub remove : Bytes → Store → Store
remove k [] = []
remove k ((i, v) ∷ m) = let rest = remove k m in if eq i k then rest else (i, v) ∷ rest

unfoldable pub write : Bytes → Option Value → Store → Store
unfolding remove
write k none m = remove k m
write k (some v) m = (k, v) ∷ m

find-remove :
    (k : Bytes) (m : Store) (j : Bytes) → find (remove k m) j ≡ (if eq j k then none else find m j)
unfolding find remove
find-remove k [] j = ground arith
find-remove k ((i, v) ∷ m) j = ground (arith, find-remove k m j, eq_iff i k, eq_iff j i, eq_iff j k)

pub find-write :
    (k : Bytes) (o : Option Value) (m : Store) (j : Bytes)
    → find (write k o m) j ≡ (if eq j k then o else find m j)
unfolding find write
find-write k none m j = find-remove k m j
find-write k (some v) m j = refl

-- a write that takes place only at a missing key
unfoldable pub write_new : Bytes → Bytes → Store → Store
write_new k v m = if is_none (find m k) then write k (some (text v)) m else m

pub find-write_new :
    (k v : Bytes) (m : Store) (j : Bytes)
    → find (write_new k v m) j ≡ (if is_none (find m k) && eq j k then some (text v) else find m j)
unfolding write_new
find-write_new k v m j = ground (arith, find-write k (some (text v)) m j)

abbrev pub keys_from : Bytes → Store → List Bytes
keys_from prefix [] = []
keys_from prefix ((k, v) ∷ m) =
    let rest = keys_from prefix m in if starts_with prefix k then k ∷ rest else rest

keys_from-all : (prefix : Bytes) (m : Store) → all (starts_with prefix) (keys_from prefix m) ≡ true
keys_from-all prefix [] = refl
keys_from-all prefix ((k, v) ∷ m) = ground (arith, keys_from-all prefix m)

abbrev pub remove_all : List Bytes → Store → Store
remove_all [] m = m
remove_all (k ∷ ks) m = remove k (remove_all ks m)

pub find-remove_all :
    (ks : List Bytes) (m : Store) (j : Bytes)
    → find (remove_all ks m) j ≡ (if any (eq j) ks then none else find m j)
find-remove_all [] m j = refl
find-remove_all (k ∷ ks) m j =
    ground (arith, find-remove k (remove_all ks m) j, find-remove_all ks m j)

pub keys_from-has :
    (prefix : Bytes) (m : Store) (j : Bytes)
    → starts_with prefix j ≡ true
    → is_some (find m j) ≡ true
    → any (eq j) (keys_from prefix m) ≢ false
unfolding find
keys_from-has prefix [] j starts here = λ e. cc
keys_from-has prefix ((k, v) ∷ m) j starts here =
    ground (arith, keys_from-has prefix m j starts, eq_iff j k)

pub same_keys :
    {a b : ℕ} {xs ys : List Bytes}
    → ◌≡◌ {A = Result (ℕ × List Bytes)} (ok (a, xs)) (ok (b, ys))
    → xs ≡ ys
same_keys e = cc

pub same_cursor :
    {a b : ℕ} {xs ys : List Bytes}
    → ◌≡◌ {A = Result (ℕ × List Bytes)} (ok (a, xs)) (ok (b, ys))
    → a ≡ b
same_cursor e = cc

pub scanned-all :
    (prefix : Bytes) (m : Store) {next : ℕ} {keys : List Bytes}
    → ◌≡◌ {A = Result (ℕ × List Bytes)} (ok (0, keys_from prefix m)) (ok (next, keys))
    → all (starts_with prefix) keys ≡ true
scanned-all prefix m e = rw (← same_keys e) (keys_from-all prefix m)

-- the text before the first star
abbrev pub prefix_of : Bytes → Bytes
prefix_of [] = []
prefix_of (c ∷ cs) = let rest = prefix_of cs in if c == b'*' then [] else c ∷ rest

pub prefix_of-append : (p : Bytes) → any glob_byte p ≡ false → prefix_of (p ++ b'*' ∷ []) ≡ p
prefix_of-append [] h = refl
prefix_of-append (c ∷ p) h = ground (arith, prefix_of-append p)

-- the keys, and how long those have whose life is limited
pub record Memory : Type 0 where
  pub keys : Store
  pub lives : Bytes → Option ℕ

abbrev pub lasting : Store → Memory
lasting keys = record { keys = keys; lives = λ j. none }

-- a life that is set, or taken away
abbrev pub limit : Bool → Bytes → Option ℕ → Memory → Memory
limit b k t m = record m { lives = λ j. if b && eq j k then t else m.lives j }

abbrev pub expire : ℕ → (Bytes → Option ℕ) → Store → Store
expire n lives [] = []
expire n lives ((k, v) ∷ m) =
    let rest = expire n lives m in if lapsed n (lives k) then rest else (k, v) ∷ rest

pub find-expire :
    (n : ℕ) (lives : Bytes → Option ℕ) (m : Store) (j : Bytes)
    → find (expire n lives m) j ≡ (if lapsed n (lives j) then none else find m j)
unfolding find
find-expire n lives [] j = ground arith
find-expire n lives ((k, v) ∷ m) j = elim (Bool-cases (eq j k)) [
  | inl same ↦ elim (Bool-cases (lapsed n (lives j))) [
    | inl gone ↦ rw (← (eq_iff j k).0 same, gone, find-expire n lives m j, gone) refl
    | inr there ↦ rw (← (eq_iff j k).0 same, there, eq_refl j) refl
  ]
  | inr other ↦ elim (Bool-cases (lapsed n (lives k))) [
    | inl gone ↦ rw (gone, other) (find-expire n lives m j)
    | inr there ↦ rw (there, other) (find-expire n lives m j)
  ]
]

abbrev pub memory : Redis
memory = record {
  Db = Memory;
  lookup = λ m. find m.keys;
  ttl = λ m. m.lives;
  pass = λ n m. record { keys = expire n m.lives m.keys; lives = λ j. left n (m.lives j) };
  lookup-pass = λ n m. find-expire n m.lives m.keys;
  ttl-pass = λ n m j. refl;
  set_nx_px = λ k v ttl m. (
    ok (is_none (find m.keys k)),
    limit (is_none (find m.keys k)) k (some ttl) (record m { keys = write_new k v m.keys }),
  );
  ttl-set_nx_px = λ k v ttl m j. refl;
  set_nx_px-reply = λ k v ttl m. refl;
  lookup-set_nx_px = λ k v ttl m. find-write_new k v m.keys;
  rpush = λ k v m.
      (not_text (find m.keys k), record m { keys = write k (pushed v (find m.keys k)) m.keys });
  rpush-reply = λ k v m. refl;
  lookup-rpush = λ k v m. find-write k (pushed v (find m.keys k)) m.keys;
  pexpire =
      λ k ttl m. (ok (is_some (find m.keys k)), limit (is_some (find m.keys k)) k (some ttl) m);
  ttl-pexpire = λ k ttl m j. refl;
  pexpire-reply = λ k ttl m. refl;
  lookup-pexpire = λ k ttl m j pos. refl;
  get = λ k m. (as_text (find m.keys k), m);
  get-reply = λ k m. refl;
  lookup-get = λ k m j. refl;
  del = λ k m.
      (ok (is_some (find m.keys k)), limit true k none (record m { keys = write k none m.keys }));
  del-reply = λ k m. refl;
  lookup-del = λ k m. find-write k none m.keys;
  blpop = λ k m.
      (first_item (find m.keys k), record m { keys = write k (popped (find m.keys k)) m.keys });
  blpop-reply = λ k m. refl;
  lookup-blpop = λ k m. find-write k (popped (find m.keys k)) m.keys;
  set = λ k v m. (ok tt, limit true k none (record m { keys = write k (some (text v)) m.keys }));
  set-reply = λ k v m. refl;
  lookup-set = λ k v m. find-write k (some (text v)) m.keys;
  setnx = λ k v m. (ok (is_none (find m.keys k)), record m { keys = write_new k v m.keys });
  setnx-reply = λ k v m. refl;
  lookup-setnx = λ k v m. find-write_new k v m.keys;
  exists = λ k m. (ok (is_some (find m.keys k)), m);
  exists-reply = λ k m. refl;
  lookup-exists = λ k m j. refl;
  ping = λ m. (ok (codes "PONG"), m);
  lookup-ping = λ m j. refl;
  scan = λ cursor pattern count m. (ok (0, keys_from (prefix_of pattern) m.keys), m);
  scan-prefix = λ cursor prefix count m plain e.
      scanned-all prefix m.keys (rw (prefix_of-append prefix plain) at e);
  to_come = λ cursor. cursor;
  scan-answers = λ cursor pattern count m. refl;
  scan-ends = λ cursor pattern count m e more. absurd (more (sym (same_cursor e)));
  unseen = λ cursor j. true;
  unseen-start = λ j. refl;
  scan-visits = λ cursor prefix count m j plain e starts here unseen missed. absurd (
      keys_from-has prefix m.keys j starts here
        (rw (← prefix_of-append prefix plain) (rw (← same_keys e) at missed)));
  lookup-scan = λ cursor pattern count m j. refl;
  del_all = λ ks m. (ok (length ks), record m { keys = remove_all ks m.keys });
  del_all-answers = λ ks m. refl;
  lookup-del_all = λ ks m. find-remove_all ks m.keys;
}
