-- ===== src/Keys/Unique.antt =====
-- Keys of `src/redis_transport.rs` for different hosts, ids and kinds.
use shex.Prelude.{
  ◌≡◌, refl, ap, ◌∙◌, sym, ◌≢◌, true, false, [], ◌∷◌, ◌++◌, arith, Bytes, codes, contains_byte,
  contains_byte-append, cons_heads, cons_tails, append_assoc,
}
use mathlib.Core.Bool.{false≢true}
use mathlib.Core.List.{append_cancel_left, append_cancel_right}
use shex.Keys.{client_message_key, host_message_key, ready_key, session_key, last_segment}

abbrev pub NoColon : Bytes → Type 0
NoColon s = contains_byte b':' s ≡ false

has_colon : (b y : Bytes) → contains_byte b':' (b ++ b':' ∷ y) ≡ true
has_colon b y = ground (arith, contains_byte-append b':' b (b':' ∷ y))

-- A text is cut in one way at its last colon.
cut_at_last :
    (a b x y : Bytes) → NoColon x → NoColon y → a ++ b':' ∷ x ≡ b ++ b':' ∷ y → (a ≡ b) × (x ≡ y)
cut_at_last [] [] x y hx hy e = (refl, cc)
cut_at_last [] (c ∷ b) x y hx hy e =
    absurd (false≢true (sym hx ∙ ap (contains_byte b':') (cons_tails e) ∙ has_colon b y))
cut_at_last (c ∷ a) [] x y hx hy e =
    absurd (false≢true (sym hy ∙ ap (contains_byte b':') (sym (cons_tails e)) ∙ has_colon a x))
cut_at_last (c ∷ a) (d ∷ b) x y hx hy e =
    let (same, ids) = cut_at_last a b x y hx hy (cons_tails e) in (cc (cons_heads e, same), ids)

last_segment-append : (a x : Bytes) → NoColon x → last_segment (a ++ b':' ∷ x) ≡ x
unfolding last_segment
last_segment-append [] x h = ground arith
last_segment-append (c ∷ a) x h =
    ground (arith, contains_byte-append b':' a (b':' ∷ x), last_segment-append a x h)

abbrev scope : Bytes
scope = codes "shex:v2:"

-- `p`, a name, `s` and `x`, joined, and cut before `x`
joined-cut : (p h s x : Bytes) → p ++ (h ++ (s ++ x)) ≡ (p ++ (h ++ s)) ++ x
joined-cut p h s x = simp append_assoc

-- The id that `notify_host` takes from the client's message key is the connection's id, which holds
-- no colon.
last_segment-client_message_key :
    (hostname id : Bytes) → NoColon id → last_segment (client_message_key hostname id) ≡ id
unfolding client_message_key
last_segment-client_message_key h id n =
    ap last_segment (joined-cut scope h (codes ":message:c2h") (b':' ∷ id))
    ∙ last_segment-append (scope ++ (h ++ codes ":message:c2h")) id n

-- the kinds of keys that a host has for an id
pub data Kind : Type 0 where
  to_host to_client session : Kind

abbrev pub key_of : Kind → Bytes → Bytes → Bytes
key_of to_host = client_message_key
key_of to_client = host_message_key
key_of session = session_key

-- what stands between the host name and the id, and the last part of it
abbrev head : Kind → Bytes
head to_host = codes ":message"
head to_client = codes ":message"
head session = []

abbrev tail : Kind → Bytes
tail to_host = codes "c2h"
tail to_client = codes "h2c"
tail session = codes "session"

key_of-cut :
    (k : Kind) (h i : Bytes)
    → key_of k h i ≡ (scope ++ (h ++ head k)) ++ b':' ∷ (tail k ++ b':' ∷ i)
unfolding client_message_key host_message_key session_key
key_of-cut to_host h i = joined-cut scope h (codes ":message") (codes ":c2h:" ++ i)
key_of-cut to_client h i = joined-cut scope h (codes ":message") (codes ":h2c:" ++ i)
key_of-cut session h i = joined-cut scope h [] (codes ":session:" ++ i)

tail_injective : (k k' : Kind) → tail k ≡ tail k' → k ≡ k'
tail_injective to_host to_host e = refl
tail_injective to_client to_client e = refl
tail_injective session session e = refl
tail_injective to_host to_client e = absurd (omega (arith, cons_heads e))
tail_injective to_host session e = absurd (omega (arith, cons_heads e))
tail_injective to_client to_host e = absurd (omega (arith, cons_heads e))
tail_injective to_client session e = absurd (omega (arith, cons_heads e))
tail_injective session to_host e = absurd (omega (arith, cons_heads e))
tail_injective session to_client e = absurd (omega (arith, cons_heads e))

tail-NoColon : (k : Kind) → NoColon (tail k)
tail-NoColon to_host = refl
tail-NoColon to_client = refl
tail-NoColon session = refl

-- The message keys of both directions and the session keys are all different for different hosts,
-- ids or kinds, where ids hold no colon.
pub key_of_injective :
    (k k' : Kind) (h h' i i' : Bytes)
    → NoColon i
    → NoColon i'
    → key_of k h i ≡ key_of k' h' i'
    → (k ≡ k') × (h ≡ h') × (i ≡ i')
key_of_injective k k' h h' i i' n n' e =
    let e' = sym (key_of-cut k h i) ∙ e ∙ key_of-cut k' h' i' in
    let (front, ids) =
      cut_at_last ((scope ++ (h ++ head k)) ++ b':' ∷ tail k)
        ((scope ++ (h' ++ head k')) ++ b':' ∷ tail k') i i' n n'
        (append_assoc (scope ++ (h ++ head k)) (b':' ∷ tail k) (b':' ∷ i)
          ∙ e'
          ∙ sym (append_assoc (scope ++ (h' ++ head k')) (b':' ∷ tail k') (b':' ∷ i'))) in
    let (hosts, tails) =
      cut_at_last (scope ++ (h ++ head k)) (scope ++ (h' ++ head k')) (tail k) (tail k')
        (tail-NoColon k) (tail-NoColon k') front in
    let kinds = tail_injective k k' tails in
    (
      kinds,
      append_cancel_right h h' (head k')
          (ap (λ x. h ++ head x) (sym kinds) ∙ append_cancel_left scope _ _ hosts),
      ids,
    )

last_segment-host_message_key :
    (hostname id : Bytes) → NoColon id → last_segment (host_message_key hostname id) ≡ id
unfolding host_message_key
last_segment-host_message_key h id n =
    ap last_segment (joined-cut scope h (codes ":message:h2c") (b':' ∷ id))
    ∙ last_segment-append (scope ++ (h ++ codes ":message:h2c")) id n

last_segment-ready_key : (k : Bytes) → last_segment (ready_key k) ≡ codes "ready"
unfolding ready_key
last_segment-ready_key k = last_segment-append k (codes "ready") refl

-- No signal list is a mailbox, of whatever hosts and connections, where the mailbox's id holds no
-- colon and is not the word "ready".
ready_key-ne :
    (h i k : Bytes)
    → NoColon i
    → i ≢ codes "ready"
    → (ready_key k ≢ client_message_key h i) × (ready_key k ≢ host_message_key h i)
ready_key-ne h i k n r = (
  λ e. r (
      sym (last_segment-client_message_key h i n)
      ∙ ap last_segment (sym e)
      ∙ last_segment-ready_key k),
  λ e. r (
      sym (last_segment-host_message_key h i n)
      ∙ ap last_segment (sym e)
      ∙ last_segment-ready_key k),
)
