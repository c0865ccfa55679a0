-- ===== src/Shell/Completion.antt =====
-- `completion_in` of `src/server.rs` against what a completion line is.
use shex.Prelude.{
  starts_with, ℕ, suc, ◌+◌, ◌≤◌, ◌≡◌, refl, ap, sym, ◌∙◌, ◌↔◌, true, false, Option, none, some, [],
  ◌∷◌, ◌++◌, arith, Bytes, ◌==◌, length, take, drop, take-length, drop-length, contains_byte,
  append_assoc, length-append, Bool-cases, Option-cases, inl, inr,
}
use shex.Shell.{find, position, status_at, completion_in, map_option, unit_separator}
use shex.Shell.Status.{ℤ, parse_i32}

-- `text` stands in `chunk` behind `n` bytes.
pub record OccursAt (text chunk : Bytes) (n : ℕ) : Type 0 where
  pub before : Bytes
  pub after : Bytes
  pub splits : chunk ≡ before ++ (text ++ after)
  pub place : length before ≡ n

starts_with-append : (p x : Bytes) → starts_with p (p ++ x) ≡ true
unfolding starts_with
starts_with-append [] x = refl
starts_with-append (c ∷ p) x = ground (arith, starts_with-append p x)

starts_with-split : (p chunk : Bytes) → starts_with p chunk ≡ true → (x : Bytes) × (chunk ≡ p ++ x)
unfolding starts_with
starts_with-split [] chunk h = (chunk, refl)
starts_with-split (c ∷ p) [] h = cc
starts_with-split (c ∷ p) (d ∷ chunk) h =
    let (x, e) = starts_with-split p chunk (ground arith) in
    let same : c ≡ d = ground arith in (x, cc (same, e))

map_option-suc :
    (o : Option ℕ) (n : ℕ) → map_option suc o ≡ some n → (m : ℕ) × (o ≡ some m) × (n ≡ suc m)
map_option-suc none n h = cc
map_option-suc (some m) n h = (m, refl, cc)

-- A found place is an occurrence.
find-OccursAt : (p chunk : Bytes) (n : ℕ) → find p chunk ≡ some n → OccursAt p chunk n
unfolding find
find-OccursAt p [] n h = cc
find-OccursAt p (c ∷ cs) n h = elim (Bool-cases (starts_with p (c ∷ cs))) [
  | inl here ↦
      let (x, e) = starts_with-split p (c ∷ cs) here in
      record { before = []; after = x; splits = e; place = ground arith }
  | inr later ↦
      let (m, found, e) = map_option-suc (find p cs) n (ground arith) in
      let o = find-OccursAt p cs m found in
      record {
        before = c ∷ o.before;
        after = o.after;
        splits = ap (◌∷◌ c) o.splits;
        place = ap suc o.place ∙ sym e;
      }
]

-- An occurrence makes `find` succeed, no later than there.
find-le :
    (c : ℕ) (ps before after : Bytes)
    → (n : ℕ) × (find (c ∷ ps) (before ++ ((c ∷ ps) ++ after)) ≡ some n) × (n ≤ length before)
unfolding find
find-le c ps [] after = (0, rw (starts_with-append (c ∷ ps) after), omega arith)
find-le c ps (b ∷ before) after =
    let (n, found, le) = find-le c ps before after in
    elim (Bool-cases (starts_with (c ∷ ps) (b ∷ (before ++ ((c ∷ ps) ++ after))))) [
      | inl here ↦ (0, rw here, omega arith)
      | inr later ↦ (suc n, rw (later, found), omega arith)
    ]

-- The place found is the first one.
find-first :
    (c : ℕ) (ps chunk : Bytes) (n m : ℕ)
    → find (c ∷ ps) chunk ≡ some n
    → OccursAt (c ∷ ps) chunk m
    → n ≤ m
find-first c ps chunk n m found o =
    let (f, found', le) = find-le c ps o.before o.after in
    let again : find (c ∷ ps) chunk ≡ some f = rw o.splits found' in
    let same : n ≡ f = ground arith in omega (arith, o.place)

position-append :
    (b : ℕ) (s x : Bytes) → contains_byte b s ≡ false → position b (s ++ b ∷ x) ≡ some (length s)
unfolding position
position-append b [] x h = ground arith
position-append b (c ∷ cs) x h = ground (arith, position-append b cs x)

position-split :
    (b : ℕ) (s : Bytes) (n : ℕ)
    → position b s ≡ some n
    → (x : Bytes) × (s ≡ take n s ++ b ∷ x) × (contains_byte b (take n s) ≡ false)
unfolding position
position-split b [] n h = cc
position-split b (c ∷ cs) n h = elim (Bool-cases (c == b)) [
  | inl here ↦
      let start : 0 ≡ n = ground arith in
      let same : c ≡ b = ground arith in (cs, rw (← start) (cc same), rw (← start))
  | inr later ↦
      let (m, found, e) = map_option-suc (position b cs) n (ground arith) in
      let (x, splits, free) = position-split b cs m found in
      (x, rw e (ap (◌∷◌ c) splits), rw e (ground arith))
]

-- `chunk` is output, the marker, a status field and its end, and `n` bytes stand before the first
-- marker.
pub record Completes (prefix chunk : Bytes) (n : ℕ) (status : ℤ) : Type 0 where
  pub before : Bytes
  pub field : Bytes
  pub after : Bytes
  pub splits : chunk ≡ before ++ (prefix ++ (field ++ unit_separator ∷ after))
  pub place : length before ≡ n
  pub first : (m : ℕ) → OccursAt prefix chunk m → n ≤ m
  pub unbroken : contains_byte unit_separator field ≡ false
  pub parsed : parse_i32 field ≡ some status

drop-append : (a p x : Bytes) → drop (length a + length p) (a ++ (p ++ x)) ≡ x
drop-append a p x =
    let e : length a + length p ≡ length (a ++ p) = sym (length-append a p) in
    rw (e, ← append_assoc) (drop-length (a ++ p) x)

pub status_at-append :
    (n : ℕ) (field after : Bytes)
    → contains_byte unit_separator field ≡ false
    → status_at n (field ++ unit_separator ∷ after)
      ≡ map_option (λ status. (n, status)) (parse_i32 field)
unfolding status_at
status_at-append n field after h = rw (
  position-append unit_separator field after h,
  status_at,
  take-length field (unit_separator ∷ after),
)

-- with the first marker behind `before`, the status is looked for in `tail`
pub completion_in-found :
    (c : ℕ) (ps chunk before tail : Bytes) (n : ℕ)
    → length before ≡ n
    → chunk ≡ before ++ ((c ∷ ps) ++ tail)
    → find (c ∷ ps) chunk ≡ some n
    → completion_in chunk (c ∷ ps) ≡ status_at n tail
unfolding completion_in
completion_in-found c ps chunk before tail n place splits found =
    let rest : drop (n + length (c ∷ ps)) chunk ≡ tail =
      rw (← place, splits) (drop-append before (c ∷ ps) tail) in
    rw (found, completion_in, rest)

Completes-completion_in :
    (c : ℕ) (ps chunk : Bytes) (n : ℕ) (status : ℤ)
    → Completes (c ∷ ps) chunk n status
    → completion_in chunk (c ∷ ps) ≡ some (n, status)
Completes-completion_in c ps chunk n status k =
    let tail = k.field ++ unit_separator ∷ k.after in
    let (m, found, le) = find-le c ps k.before tail in
    let found' : find (c ∷ ps) chunk ≡ some m = rw k.splits found in
    let same : m ≡ n = omega (arith, k.first m (find-OccursAt (c ∷ ps) chunk m found'), k.place) in
    completion_in-found c ps chunk k.before tail n k.place k.splits (rw same at found')
    ∙ status_at-append n k.field k.after k.unbroken
    ∙ rw k.parsed

status_at-eq-some :
    (start : ℕ) (s : Bytes) (n : ℕ) (status : ℤ)
    → status_at start s ≡ some (n, status)
    → (len : ℕ) × (position unit_separator s ≡ some len)
      × (parse_i32 (take len s) ≡ some status)
      × (start ≡ n)
unfolding status_at
status_at-eq-some start s n status h = elim (Option-cases (position unit_separator s)) [
  | inl missing ↦ absurd (ground arith)
  | inr (len, found) ↦ (len, found, ground arith, ground arith)
]

completion_in-Completes :
    (c : ℕ) (ps chunk : Bytes) (n : ℕ) (status : ℤ)
    → completion_in chunk (c ∷ ps) ≡ some (n, status)
    → Completes (c ∷ ps) chunk n status
completion_in-Completes c ps chunk n status h = elim (Option-cases (find (c ∷ ps) chunk)) [
  | inl missing ↦ absurd (unfold completion_in in ground arith)
  | inr (m, found) ↦
      let o = find-OccursAt (c ∷ ps) chunk m found in
      let at_tail = completion_in-found c ps chunk o.before o.after m o.place o.splits found in
      let (len, ended, parsed, same) = status_at-eq-some m o.after n status (sym at_tail ∙ h) in
      let (x, splits, free) = position-split unit_separator o.after len ended in
      record {
        before = o.before;
        field = take len o.after;
        after = x;
        splits = o.splits ∙ ap (λ t. o.before ++ ((c ∷ ps) ++ t)) splits;
        place = o.place ∙ same;
        first = λ k o'. rw same at (find-first c ps chunk m k found o');
        unbroken = free;
        parsed = parsed;
      }
]

-- `completion_in`, of a prefix that is not empty, finds exactly the completions: the first marker,
-- if a status field follows it.
pub completion_in_iff :
    (c : ℕ) (ps chunk : Bytes) (n : ℕ) (status : ℤ)
    → (completion_in chunk (c ∷ ps) ≡ some (n, status)) ↔ Completes (c ∷ ps) chunk n status
completion_in_iff c ps chunk n status = (
  completion_in-Completes c ps chunk n status,
  λ k. Completes-completion_in c ps chunk n status k,
)
