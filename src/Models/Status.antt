-- ===== src/Models/Status.antt =====
-- The status of a wallet over its life.
use diamond_bot_v.Base.{ℕ, ◌≡◌, refl, List, [], ◌∷◌}
use diamond_bot_v.Models.Transaction.{Birth}
use diamond_bot_v.Models.Wallet.{
  Wallet, WalletType, WalletStatus, active, locked, deleted, Details, new, lock, unlock, delete,
  update_balance, update_nonce, add_token, remove_token, add_contract, remove_contract,
  add_metadata, remove_metadata, update_gas,
}

pub data Call : Type 0 where
  locks unlocks deletes : ℕ → Call
  sets_balance sets_nonce : ℕ → ℕ → Call
  adds_token adds_metadata sets_gas : ℕ → ℕ → ℕ → Call
  removes_token adds_contract removes_contract removes_metadata : ℕ → ℕ → Call

abbrev pub call : Call → Wallet → Wallet
call (locks now) w = lock now w
call (unlocks now) w = unlock now w
call (deletes now) w = delete now w
call (sets_balance now balance) w = update_balance now balance w
call (sets_nonce now nonce) w = update_nonce now nonce w
call (adds_token now symbol balance) w = add_token now symbol balance w
call (adds_metadata now key value) w = add_metadata now key value w
call (sets_gas now price limit) w = update_gas now price limit w
call (removes_token now symbol) w = remove_token now symbol w
call (adds_contract now contract) w = add_contract now contract w
call (removes_contract now contract) w = remove_contract now contract w
call (removes_metadata now key) w = remove_metadata now key w

abbrev pub run : List Call → Wallet → Wallet
run [] w = w
run (c ∷ cs) w = run cs (call c w)

-- What the last of the calls that say something of the status says, `s` if there is none.
abbrev pub last_status : List Call → WalletStatus → WalletStatus
last_status [] s = s
last_status (locks now ∷ cs) s = last_status cs locked
last_status (unlocks now ∷ cs) s = last_status cs active
last_status (deletes now ∷ cs) s = last_status cs deleted
last_status (c ∷ cs) s = last_status cs s

run-last_status : (cs : List Call) (w : Wallet) → (run cs w).status ≡ last_status cs w.status
run-last_status [] w = refl
run-last_status (locks now ∷ cs) w = run-last_status cs (lock now w)
run-last_status (unlocks now ∷ cs) w = run-last_status cs (unlock now w)
run-last_status (deletes now ∷ cs) w = run-last_status cs (delete now w)
run-last_status (c ∷ cs) w = run-last_status cs (call c w)

-- Over any calls of a new wallet, its status is what the last of `lock`, `unlock` and `delete` says,
-- and active if there was none: so a deleted wallet is active again after `unlock`.
pub run-new_status :
    (birth : Birth) (address : ℕ) (wallet_type : WalletType) (details : Details) (cs : List Call)
    → (run cs (new birth address wallet_type details)).status ≡ last_status cs active
run-new_status birth address wallet_type details cs =
    run-last_status cs (new birth address wallet_type details)
