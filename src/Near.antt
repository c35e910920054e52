-- ===== src/Near.antt =====
-- What the NEAR contracts of blockchain/src share: the call's environment, panics as values, checked
-- machine arithmetic (the contracts are built with `overflow-checks = true`) and promises.
use diamond_bot_v.Base.{
  ◌≡◌, refl, ◌⊎◌, inl, inr, Option, none, some, ℕ, ◌+◌, ◌-◌, ◌*◌, ◌^◌, Bool, true, false, ltb, leb,
  if◌then◌else◌,
}

abbrev pub AccountId : Type 0
AccountId = ℕ

-- What `env` and `SystemTime` tell a method: the caller, the contract's own account, the block's
-- time in nanoseconds and its height, the system clock in seconds, the gas and the deposit, and
-- whether promise result 0 is `Successful`.
pub record Env : Type 0 where
  pub predecessor : AccountId
  pub current_account : AccountId
  pub block_timestamp : ℕ
  pub block_height : ℕ
  pub now : ℕ
  pub attached_deposit : ℕ
  pub prepaid_gas : ℕ
  pub used_gas : ℕ
  pub promise_successful : Bool

-- Why a method panics.
pub data Fault : Type 0 where
  overflow only_owner only_admin only_endpoint private_method : Fault
  exceeds_max_supply exceeds_global_max_supply : Fault
  chain_not_supported bridge_disabled insufficient_fee : Fault
  invalid_threshold transaction_exists signer_not_authorized threshold_unachievable : Fault
  owner_stays_admin module_not_found module_not_active : Fault
  amount_zero no_stake insufficient_stake still_locked no_rewards : Fault
  unwrap_none token_fault : Fault

-- A panic reverts every change of the call.
pub data Result {ℓ} (A : Type ℓ) : Type ℓ where
  ok : A → Result A
  panic : Fault → Result A

infixl 5 ◌>>=◌
abbrev pub ◌>>=◌ {ℓ κ} : {S : Type ℓ} {T : Type κ} → Result S → (S → Result T) → Result T
panic fault >>= next = panic fault
ok s >>= next = next s

-- `require!`
abbrev pub require : Bool → Fault → Result (Unit {0})
require true e = ok tt
require false e = panic e

infixl 5 ◌>>◌
abbrev pub ◌>>◌ {κ} : {T : Type κ} → Result (Unit {0}) → Result T → Result T
panic fault >> rest = panic fault
ok u >> rest = rest

abbrev pub u128_size : ℕ
u128_size = 2 ^ 128

abbrev pub u64_size : ℕ
u64_size = 2 ^ 64

abbrev pub fit : ℕ → ℕ → Result ℕ
fit size n = if ltb n size then ok n else panic overflow

-- `a + b`, `a - b` and `a * b` on u128, and the same on u64.
abbrev pub add128 : ℕ → ℕ → Result ℕ
add128 a b = fit u128_size (a + b)

abbrev pub mul128 : ℕ → ℕ → Result ℕ
mul128 a b = fit u128_size (a * b)

abbrev pub add64 : ℕ → ℕ → Result ℕ
add64 a b = fit u64_size (a + b)

abbrev pub checked_sub : ℕ → ℕ → Result ℕ
checked_sub a b = if leb b a then ok (a - b) else panic overflow

-- The state after a call: a panic leaves it as it was.
abbrev pub settle {ℓ} : {S : Type ℓ} → S → Result S → S
settle s (ok t) = t
settle s (panic e) = s

-- `expect` and `unwrap`
abbrev pub or_panic {ℓ} : {A : Type ℓ} → Option A → Fault → Result A
or_panic none e = panic e
or_panic (some a) e = ok a

-- What a chain of steps that succeeds has passed through.
pub >>=-eq-ok {ℓ κ} :
    {S : Type ℓ} {T : Type κ} (first : Result S) (next : S → Result T) {end : T}
    → (first >>= next) ≡ ok end
    → (s : S) × (first ≡ ok s) × (next s ≡ ok end)
>>=-eq-ok (panic fault) next e = cc
>>=-eq-ok (ok s) next e = (s, refl, e)

pub Result-cases {ℓ} :
    {A : Type ℓ} (r : Result A) → ((a : A) × (r ≡ ok a)) ⊎ ((e : Fault) × (r ≡ panic e))
Result-cases (ok a) = inl (a, refl)
Result-cases (panic e) = inr (e, refl)
