-- ===== src/Host/Overlap.antt =====
-- `clear_session_lookups` of `src/redis_transport.rs` and the mailboxes of a host whose name holds another's.
use shex.Prelude.{
  ◌≡◌, refl, ◌∙◌, ℕ, ◌+◌, ◌≤◌, ◌<◌, true, none, [], ◌∷◌, ◌++◌, Bytes, codes, length, length-append,
  all, all-append, starts_with, arith, append_assoc,
}
use shex.Result.{ok}
use shex.Names.{hostname_byte}
use shex.Names.Hostname.{IsHostname}
use shex.Keys.{client_message_key, session_prefix}
use shex.Redis.{Redis}
use shex.Redis.World.{World}
use shex.Host.{clear_session_lookups}
use shex.Host.Clearing.{lookup-clear_session_lookups}

-- The name "h:session:x".
abbrev pub nested : Bytes → Bytes → Bytes
nested h x = h ++ (codes ":session:" ++ x)

nested-IsHostname :
    (h x : Bytes)
    → IsHostname h
    → all hostname_byte x ≡ true
    → length h + length x ≤ 54
    → IsHostname (nested h x)
unfolding hostname_byte
nested-IsHostname h x named bytes short = record {
  nonempty = omega (arith, length-append h (codes ":session:" ++ x));
  short = omega (arith, length-append h (codes ":session:" ++ x));
  bytes = rw (all-append hostname_byte h (codes ":session:" ++ x), named.bytes) (ground (arith));
}

starts_with-append : (p x : Bytes) → starts_with p (p ++ x) ≡ true
unfolding starts_with
starts_with-append [] x = refl
starts_with-append (c ∷ p) x = ground (arith, starts_with-append p x)

mailbox-split :
    (h x id : Bytes)
    → client_message_key (nested h x) id ≡ session_prefix h ++ (x ++ (codes ":message:c2h:" ++ id))
unfolding client_message_key session_prefix
mailbox-split h x id = simp append_assoc

-- For a valid host name `h` and a text `x` of host name bytes, together short enough, `h:session:x`
-- is a valid host name too, and when the host `h` clears its session lookups, on a quiet network
-- and with a round for every call of SCAN, the mailboxes of all clients of `h:session:x` are gone.
pub clear_session_lookups-nested :
    (R : Redis) (fuel : ℕ) (h x id : Bytes) (w : World R.Db)
    → w.turns ≡ []
    → IsHostname h
    → all hostname_byte x ≡ true
    → length h + length x ≤ 54
    → R.to_come 0 < fuel
    → let (r, after) = clear_session_lookups R fuel h w in
      IsHostname (nested h x)
      × (r ≡ ok tt)
      × (R.lookup after.db (client_message_key (nested h x) id) ≡ none)
clear_session_lookups-nested R fuel h x id w quiet named bytes short enough =
    let key = client_message_key (nested h x) id in
    let starts : starts_with (session_prefix h) key ≡ true =
      rw (mailbox-split h x id)
        (starts_with-append (session_prefix h) (x ++ (codes ":message:c2h:" ++ id))) in
    let (done, left) = lookup-clear_session_lookups R fuel h key w quiet named enough in
    (nested-IsHostname h x named bytes short, done, left ∙ rw starts refl)
