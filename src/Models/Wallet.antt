-- ===== src/Models/Wallet.antt =====
-- `Wallet` of common/src/models/wallet.rs. The address of a private key, which ethers finds, is a
-- parameter.
use diamond_bot_v.Base.{
  ℕ, Bool, true, false, Option, none, some, List, [], leb, Dict, lookup, insert, erase, push,
  without,
}
use diamond_bot_v.Words.{◌>>=◌}
use diamond_bot_v.Models.Transaction.{Birth}

pub data WalletType : Type 0 where
  standard multi_sig hardware : WalletType

pub data WalletStatus : Type 0 where
  active locked deleted : WalletStatus

pub record Wallet : Type 0 where
  pub id : ℕ
  pub address : ℕ
  pub wallet_type : WalletType
  pub status : WalletStatus
  pub balance : ℕ
  pub nonce : ℕ
  pub created_at : ℕ
  pub updated_at : ℕ
  pub encrypted_private_key : Option ℕ
  pub name : ℕ
  pub description : Option ℕ
  pub tokens : Dict ℕ
  pub contracts : List ℕ
  pub metadata : Dict ℕ
  pub chain_id : ℕ
  pub gas_price : ℕ
  pub gas_limit : ℕ

-- Name, description, chain, gas price and gas limit of a new wallet.
pub record Details : Type 0 where
  pub name : ℕ
  pub description : Option ℕ
  pub chain_id : ℕ
  pub gas_price : ℕ
  pub gas_limit : ℕ

abbrev pub new : Birth → ℕ → WalletType → Details → Wallet
new birth address wallet_type details = record {
  id = birth.id;
  address = address;
  wallet_type = wallet_type;
  status = active;
  balance = 0;
  nonce = 0;
  created_at = birth.created;
  updated_at = birth.updated;
  encrypted_private_key = none;
  name = details.name;
  description = details.description;
  tokens = [];
  contracts = [];
  metadata = [];
  chain_id = details.chain_id;
  gas_price = details.gas_price;
  gas_limit = details.gas_limit;
}

-- `none` where the key is not one.
abbrev pub from_private_key : (ℕ → Option ℕ) → Birth → ℕ → Details → Option Wallet
from_private_key address_of birth private_key details = do
  address ← address_of private_key
  some (new birth address standard details)

abbrev pub update_balance : ℕ → ℕ → Wallet → Wallet
update_balance now balance w = record w { balance = balance; updated_at = now }

abbrev pub update_nonce : ℕ → ℕ → Wallet → Wallet
update_nonce now nonce w = record w { nonce = nonce; updated_at = now }

abbrev pub lock : ℕ → Wallet → Wallet
lock now w = record w { status = locked; updated_at = now }

abbrev pub unlock : ℕ → Wallet → Wallet
unlock now w = record w { status = active; updated_at = now }

abbrev pub delete : ℕ → Wallet → Wallet
delete now w = record w { status = deleted; updated_at = now }

abbrev pub is_active_at : WalletStatus → Bool
is_active_at active = true
is_active_at locked = false
is_active_at deleted = false

abbrev pub is_active : Wallet → Bool
is_active w = is_active_at w.status

abbrev pub has_sufficient_balance : ℕ → Wallet → Bool
has_sufficient_balance amount w = leb amount w.balance

abbrev pub add_token : ℕ → ℕ → ℕ → Wallet → Wallet
add_token now symbol balance w = record w {
  tokens = insert symbol balance w.tokens;
  updated_at = now;
}

abbrev pub remove_token : ℕ → ℕ → Wallet → Wallet
remove_token now symbol w = record w { tokens = erase symbol w.tokens; updated_at = now }

abbrev pub add_contract : ℕ → ℕ → Wallet → Wallet
add_contract now contract w = record w { contracts = push w.contracts contract; updated_at = now }

abbrev pub remove_contract : ℕ → ℕ → Wallet → Wallet
remove_contract now contract w = record w {
  contracts = without contract w.contracts;
  updated_at = now;
}

abbrev pub add_metadata : ℕ → ℕ → ℕ → Wallet → Wallet
add_metadata now key value w = record w { metadata = insert key value w.metadata; updated_at = now }

abbrev pub remove_metadata : ℕ → ℕ → Wallet → Wallet
remove_metadata now key w = record w { metadata = erase key w.metadata; updated_at = now }

abbrev pub get_metadata : ℕ → Wallet → Option ℕ
get_metadata key w = lookup key w.metadata

abbrev pub update_gas : ℕ → ℕ → ℕ → Wallet → Wallet
update_gas now gas_price gas_limit w = record w {
  gas_price = gas_price;
  gas_limit = gas_limit;
  updated_at = now;
}
