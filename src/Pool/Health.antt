-- ===== src/Pool/Health.antt =====
-- What becomes of an endpoint that is down.
use diamond_bot_v.Base.{ℕ, ◌+◌, ◌≡◌, false, not, ◌&&◌, List, [], ◌∷◌, arith}
use diamond_bot_v.Pool.{
  down, EndpointInfo, record_success, record_error, is_available, count_up, above_half, above_tenth,
}

-- Requests and health checks of an endpoint, by time.
pub data Event : Type 0 where
  succeeds fails : ℕ → Event

abbrev pub handle : Event → EndpointInfo → EndpointInfo
handle (succeeds now) e = record_success now e
handle (fails now) e = record_error now e

abbrev pub run : EndpointInfo → List Event → EndpointInfo
run e [] = e
run e (x ∷ xs) = run (handle x e) xs

abbrev pub AllSucceed : List Event → Type 0
AllSucceed [] = Unit {0}
AllSucceed (succeeds now ∷ xs) = AllSucceed xs
AllSucceed (fails now ∷ xs) = ⊥

run-down :
    (xs : List Event) (e : EndpointInfo)
    → e.status ≡ down
    → AllSucceed xs
    → (run e xs).status ≡ down
run-down [] e d a = d
run-down (succeeds now ∷ xs) e d a = run-down xs (record_success now e) (ground arith) a
run-down (fails now ∷ xs) e d a = absurd a

-- An endpoint that is down is not revived by answers: after any number of successes, of health checks
-- too, it is not available. The next failure revives it exactly if at most half of the requests have
-- failed by then, and more than a tenth.
pub only_failure_revives :
    (xs : List Event) (e : EndpointInfo) (now : ℕ)
    → e.status ≡ down
    → AllSucceed xs
    → (is_available (run e xs) ≡ false)
      × (is_available (record_error now (run e xs)) ≡ (
          let errors = count_up (run e xs).error_count in
          let total = (run e xs).success_count + errors in
          not (above_half errors total) && above_tenth errors total))
only_failure_revives xs e now d a = let still = run-down xs e d a in (ground arith, ground arith)
