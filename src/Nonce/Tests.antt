-- ===== src/Nonce/Tests.antt =====
-- Tests of the nonces of an address 7, whose cache lasts for ten seconds.
use diamond_bot_v.Base.{Option, ℕ, ◌⊎◌, ◌≡◌, ◌≤◌, refl, false, true, none, some}
use diamond_bot_v.Nonce.{
  NonceManager, ok, new, needs_refresh, get_next_nonce, update_nonce, reset_nonce, has_cached_nonce,
  cleanup_cache, remove_all,
}
use diamond_bot_v.Nonce.Order.{Handed, start, hands, nonces_grow}

abbrev one : NonceManager
one = (get_next_nonce 100 7 (some 4) (new 10)).1

abbrev two : NonceManager
two = (get_next_nonce 105 7 none one).1

run-update_nonce : (get_next_nonce 106 7 none (update_nonce 106 7 9 two)).0 ≡ ok 9
run-update_nonce = refl

run-reset_nonce : (get_next_nonce 106 7 none (reset_nonce 106 7 (some 5) two).1).0 ≡ ok 5
run-reset_nonce = refl

run-cleanup_cache :
    (has_cached_nonce 7 (cleanup_cache 111 two) ≡ false)
    × (has_cached_nonce 7 (cleanup_cache 110 two) ≡ true)
unfolding remove_all
run-cleanup_cache = (refl, refl)

nonces_grow_example :
    (((needs_refresh 105 7 one ≡ true) × (◌≡◌ {A = Option ℕ} none (some 5)))
      ⊎ ((needs_refresh 105 7 one ≡ false) × (5 ≤ 5)))
    × Handed 7 two 6
nonces_grow_example = nonces_grow 7 105 5 5 none one (hands 100 (some 4) 4 (start 10) refl) refl
