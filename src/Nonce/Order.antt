-- ===== src/Nonce/Order.antt =====
-- The order in which the nonces of an address are handed out.
use diamond_bot_v.Base.{
  ℕ, ◌+◌, ◌≤◌, ◌≡◌, ◌≢◌, ◌⊎◌, refl, ap, sym, ◌∙◌, inl, inr, true, false, Option, some, arith,
  lookup, Bool-cases,
}
use diamond_bot_v.Nonce.{
  NonceManager, ok, new, needs_refresh, get_next_nonce, updated, update_nonce, reset_nonce,
  expired_addresses, cleanup_cache,
}
use diamond_bot_v.Nonce.Steps.{
  recounted, kept, IsAhead, refresh-ok, fresh-ok, insert-IsAhead, other-IsAhead,
  get_next_nonce-other, get_next_nonce-failed, remove_all-IsAhead, updated-le, reset_nonce-IsAhead,
  reset_nonce-other,
}

-- A history of any calls, after which `h` is above the nonces that were handed out for an address
-- since its cached nonce was last taken from the node's answer, or put where nothing was cached.
pub data Handed (address : ℕ) : NonceManager → ℕ → Type 0 where
  start : (cache_duration : ℕ) → Handed address (new cache_duration) 0
  hands :
      {m : NonceManager} {h : ℕ} (now : ℕ) (chain : Option ℕ) (nonce : ℕ)
      → Handed address m h
      → (get_next_nonce now address chain m).0 ≡ ok nonce
      → Handed address (get_next_nonce now address chain m).1 (nonce + 1)
  fails :
      {m : NonceManager} {h : ℕ} (now : ℕ) (chain : Option ℕ)
      → Handed address m h
      → ((nonce : ℕ) → (get_next_nonce now address chain m).0 ≢ ok nonce)
      → Handed address (get_next_nonce now address chain m).1 (recounted h chain)
  updates :
      {m : NonceManager} {h : ℕ} (now new_nonce : ℕ)
      → Handed address m h
      → Handed address (update_nonce now address new_nonce m) (kept h (lookup address m.nonces))
  resets :
      {m : NonceManager} {h : ℕ} (now : ℕ) (chain : Option ℕ)
      → Handed address m h
      → Handed address (reset_nonce now address chain m).1 (recounted h chain)
  hands_to_other :
      {m : NonceManager} {h : ℕ} (now other : ℕ) (chain : Option ℕ)
      → Handed address m h
      → other ≢ address
      → Handed address (get_next_nonce now other chain m).1 h
  updates_other :
      {m : NonceManager} {h : ℕ} (now other new_nonce : ℕ)
      → Handed address m h
      → other ≢ address
      → Handed address (update_nonce now other new_nonce m) h
  resets_other :
      {m : NonceManager} {h : ℕ} (now other : ℕ) (chain : Option ℕ)
      → Handed address m h
      → other ≢ address
      → Handed address (reset_nonce now other chain m).1 h
  cleans :
      {m : NonceManager} {h : ℕ} (now : ℕ)
      → Handed address m h
      → Handed address (cleanup_cache now m) h

get_next_nonce-IsAhead :
    (address now h nonce : ℕ) (chain : Option ℕ) (m m' : NonceManager)
    → IsAhead address h m
    → get_next_nonce now address chain m ≡ (ok nonce, m')
    → IsAhead address (nonce + 1) m'
      × (((needs_refresh now address m ≡ true) × (chain ≡ some nonce))
          ⊎ ((needs_refresh now address m ≡ false) × (h ≤ nonce)))
get_next_nonce-IsAhead address now h nonce chain m m' x e =
    elim (Bool-cases (needs_refresh now address m)) [
      | inl b ↦
          let (is, a) = refresh-ok now address nonce chain m m' x.once (sym (rw b refl) ∙ e) in
          (a, inl (b, is))
      | inr b ↦
          let (le, a) = fresh-ok address h nonce m m' x (sym (rw b refl) ∙ e) in (a, inr (b, le))
    ]

Handed-IsAhead : (address h : ℕ) (m : NonceManager) → Handed address m h → IsAhead address h m
Handed-IsAhead address h m (start d) = record { once = tt; ahead = λ n e. absurd (ground arith) }
Handed-IsAhead address h m (hands {m = m0} {h = h0} now chain nonce r e) =
    (get_next_nonce-IsAhead address now h0 nonce chain m0 m (Handed-IsAhead address h0 m0 r)
      (ap (λ y. (y, m)) e)).0
Handed-IsAhead address h m (fails {m = m0} {h = h0} now chain r q) =
    get_next_nonce-failed now address h0 chain m0 (Handed-IsAhead address h0 m0 r) q
Handed-IsAhead address h m (updates {m = m0} {h = h0} now new_nonce r) =
    let x = Handed-IsAhead address h0 m0 r in
    let o = lookup address m0.nonces in
    insert-IsAhead address h (updated new_nonce o) m0 m refl (updated-le h0 new_nonce o x.ahead)
      x.once
Handed-IsAhead address h m (resets {m = m0} {h = h0} now chain r) =
    reset_nonce-IsAhead now address h0 chain m0 (Handed-IsAhead address h0 m0 r)
Handed-IsAhead address h m (hands_to_other {m = m0} now other chain r ne) =
    get_next_nonce-other now address other h chain m0 ne (Handed-IsAhead address h m0 r)
Handed-IsAhead address h m (updates_other {m = m0} now other new_nonce r ne) =
    other-IsAhead address other h (updated new_nonce (lookup other m0.nonces)) m0 m refl ne
      (Handed-IsAhead address h m0 r)
Handed-IsAhead address h m (resets_other {m = m0} now other chain r ne) =
    reset_nonce-other now address other h chain m0 ne (Handed-IsAhead address h m0 r)
Handed-IsAhead address h m (cleans {m = m0} now r) =
    remove_all-IsAhead address h (expired_addresses now m0.cache_duration m0.last_updates) m0
      (Handed-IsAhead address h m0 r)

-- After any calls, failed ones and those for other addresses included, a `get_next_nonce` that gives a
-- nonce either takes the node's answer, as nothing is cached or the cache is stale, and gives just
-- that; or it gives a nonce above all those handed out for the address since the cached nonce was last
-- taken from the node's answer or put by an update where nothing was cached, so that none of them is
-- handed out twice.
pub nonces_grow :
    (address now h nonce : ℕ) (chain : Option ℕ) (m : NonceManager)
    → Handed address m h
    → (get_next_nonce now address chain m).0 ≡ ok nonce
    → (((needs_refresh now address m ≡ true) × (chain ≡ some nonce))
        ⊎ ((needs_refresh now address m ≡ false) × (h ≤ nonce)))
      × Handed address (get_next_nonce now address chain m).1 (nonce + 1)
nonces_grow address now h nonce chain m r e = (
  (get_next_nonce-IsAhead address now h nonce chain m (get_next_nonce now address chain m).1
      (Handed-IsAhead address h m r) (ap (λ y. (y, (get_next_nonce now address chain m).1)) e)).1,
  hands now chain nonce r e,
)
