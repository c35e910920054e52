-- ===== src/Nonce/Stale.antt =====
-- What the node's answer does to a nonce that it does not count yet.
use diamond_bot_v.Base.{
  ℕ, ◌+◌, ◌^◌, ◌<◌, ◌≡◌, refl, ap, ◌∙◌, Bool, true, false, not, ◌||◌, some, arith, ltb, lookup,
  insert, is_some, lookup-insert_self,
}
use diamond_bot_v.Nonce.{NonceManager, ok, is_stale, needs_refresh, with_nonce, get_next_nonce}

stale_refresh :
    (now address c : ℕ) (m : NonceManager)
    → needs_refresh now address m ≡ true
    → c + 1 < 2 ^ 256
    → get_next_nonce now address (some c) m ≡ (
      ok c,
      record (with_nonce now address c m) {
        nonces = insert address (c + 1) (insert address c m.nonces);
      },
    )
stale_refresh now address c m b small =
    let fits : ltb (c + 1) (2 ^ 256) ≡ true = ground arith in
    rw b (rw (lookup-insert_self address c m.nonces) (rw fits refl))

stale_again :
    (address now later c : ℕ) (m : NonceManager)
    → now + m.cache_duration < later
    → is_stale later m.cache_duration (lookup address (insert address now m.last_updates)) ≡ true
stale_again address now later c m late =
    ap (is_stale later m.cache_duration) (lookup-insert_self address now m.last_updates)
    ∙ ground arith

or-right : (a b : Bool) → b ≡ true → (a || b) ≡ true
or-right true b e = refl
or-right false b e = e

-- An answer of the node that does not count pending transactions brings a nonce back: if the cache
-- asks the node, hands out its answer, and asks again once the cache's duration has passed, the same
-- answer is handed out again.
pub unconfirmed_nonce_again :
    (address now later c : ℕ) (m : NonceManager)
    → needs_refresh now address m ≡ true
    → now + m.cache_duration < later
    → c + 1 < 2 ^ 256
    → ((get_next_nonce now address (some c) m).0 ≡ ok c)
      × ((get_next_nonce later address (some c) (get_next_nonce now address (some c) m).1).0 ≡ ok c)
unconfirmed_nonce_again address now later c m b late small =
    let first = stale_refresh now address c m b small in
    let m' : NonceManager = record (with_nonce now address c m) {
      nonces = insert address (c + 1) (insert address c m.nonces);
    } in
    let stale =
      or-right (not (is_some (lookup address m'.nonces)))
        (is_stale later m.cache_duration (lookup address m'.last_updates))
        (stale_again address now later c m late) in
    (
      ap (λ y. y.0) first,
      ap (λ y. (get_next_nonce later address (some c) y.1).0) first
          ∙ ap (λ y. y.0) (stale_refresh later address c m' stale small),
    )
