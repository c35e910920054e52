-- ===== src/Ft.antt =====
-- The token ledger that the contract uses, `near_contract_standards::fungible_token::FungibleToken`: a
-- parameter, with the documented effect of each call that goes through; and its metadata.
use diamond_bot_v.Base.{ℕ, ◌+◌, ◌≤◌, ◌≡◌, Bool, true, false, String, Option}
use diamond_bot_v.Near.{AccountId, Env, Result, ok}

pub record FungibleTokenMetadata : Type 0 where
  pub spec : String
  pub name : String
  pub symbol : String
  pub icon : Option String
  pub reference : Option String
  pub reference_hash : Option String
  pub decimals : ℕ

-- The other calls that `impl_fungible_token_core!` and `impl_fungible_token_storage!` add to the
-- contract and that write the ledger.
pub data StandardCall : Type 0 where
  transfers_and_calls : AccountId → ℕ → Option String → String → StandardCall
  resolves_transfer : AccountId → AccountId → ℕ → StandardCall
  deposits_storage : Option AccountId → Bool → StandardCall
  withdraws_storage : Option ℕ → StandardCall
  unregisters_storage : Bool → StandardCall

-- A refund to an account that is gone, and an account that is closed with a balance, burn tokens.
abbrev pub may_burn : StandardCall → Bool
may_burn (resolves_transfer sender receiver amount) = true
may_burn (unregisters_storage force) = true
may_burn c = false

pub record FungibleToken : Type 1 where
  pub Token : Type 0
  pub ft_metadata_spec : String
  pub empty : Token
  pub register : AccountId → Token → Result Token
  pub deposit : AccountId → ℕ → Token → Result Token
  pub withdraw : AccountId → ℕ → Token → Result Token
  pub transfer : AccountId → AccountId → ℕ → Option String → Token → Result Token
  pub standard : Env → StandardCall → Token → Result Token
  pub total_supply : Token → ℕ
  pub balance_of : AccountId → Token → ℕ
  pub has_account : AccountId → Token → Bool
  pub total-empty : total_supply empty ≡ 0
  pub total-register :
      (a : AccountId) (t t' : Token) → register a t ≡ ok t' → total_supply t' ≡ total_supply t
  pub total-deposit :
      (a : AccountId) (n : ℕ) (t t' : Token)
      → deposit a n t ≡ ok t'
      → total_supply t' ≡ total_supply t + n
  pub total-withdraw :
      (a : AccountId) (n : ℕ) (t t' : Token)
      → withdraw a n t ≡ ok t'
      → total_supply t' + n ≡ total_supply t
  pub total-transfer :
      (a b : AccountId) (n : ℕ) (memo : Option String) (t t' : Token)
      → transfer a b n memo t ≡ ok t'
      → total_supply t' ≡ total_supply t
  pub total-standard :
      (env : Env) (c : StandardCall) (t t' : Token)
      → standard env c t ≡ ok t'
      → total_supply t' ≤ total_supply t
  pub total-unburnt :
      (env : Env) (c : StandardCall) (t t' : Token)
      → may_burn c ≡ false
      → standard env c t ≡ ok t'
      → total_supply t' ≡ total_supply t
  pub balance-register :
      (a b : AccountId) (t t' : Token) → register a t ≡ ok t' → balance_of b t' ≡ balance_of b t
  pub balance-deposit :
      (a : AccountId) (n : ℕ) (t t' : Token)
      → deposit a n t ≡ ok t'
      → balance_of a t' ≡ balance_of a t + n
  pub balance-withdraw :
      (a : AccountId) (n : ℕ) (t t' : Token)
      → withdraw a n t ≡ ok t'
      → balance_of a t' + n ≡ balance_of a t
