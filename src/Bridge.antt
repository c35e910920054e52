-- ===== src/Bridge.antt =====
-- The bridge's types and its message to the LayerZero endpoint, of
-- blockchain/src/diamond_token/src/bridge.rs. A JSON payload is the record of its fields.
use diamond_bot_v.Base.{ℕ, Bool, String, Option, List}
use diamond_bot_v.Near.{AccountId}

pub record LayerZeroParams : Type 0 where
  pub dest_chain_id : ℕ
  pub adapter_params : List ℕ
  pub fees : ℕ

pub record ChainConfig : Type 0 where
  pub remote_chain_id : ℕ
  pub remote_bridge_address : String
  pub chain_name : String
  pub enabled : Bool
  pub fee_basis_points : ℕ
  pub min_fee : ℕ
  pub max_fee : ℕ
  pub supply_oracle : Option AccountId

pub record Payload : Type 0 where
  pub from : AccountId
  pub to : String
  pub amount : ℕ

-- The promise of `lz_send`: a call of the endpoint with the fees attached.
pub record LzSend : Type 0 where
  pub endpoint : AccountId
  pub dest_chain_id : ℕ
  pub dest_address : String
  pub payload : Payload
  pub refund_address : AccountId
  pub adapter_params : List ℕ
  pub deposit : ℕ
  pub gas : ℕ

unfoldable pub lz_send : AccountId → ℕ → String → Payload → AccountId → List ℕ → ℕ → LzSend
lz_send lz_endpoint dest_chain_id dest_address payload refund_address adapter_params fees = record {
  endpoint = lz_endpoint;
  dest_chain_id = dest_chain_id;
  dest_address = dest_address;
  payload = payload;
  refund_address = refund_address;
  adapter_params = adapter_params;
  deposit = fees;
  gas = 5_000_000_000_000;
}
