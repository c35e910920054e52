-- ===== src/Token/Calls.antt =====
-- The calls that change the token contract, those that the macros of the standard add to it
-- included, and histories of them. A call that panics changes nothing.
use diamond_bot_v.Base.{ℕ, String, Option, List, [], ◌∷◌}
use diamond_bot_v.Near.{AccountId, Env, Result, ok, ◌>>=◌, settle}
use diamond_bot_v.Ft.{FungibleToken, StandardCall}
use diamond_bot_v.Bridge.{LayerZeroParams, ChainConfig}
use diamond_bot_v.Modules.{Module}
use diamond_bot_v.Token.{DiamondToken, ft_transfer, mint, burn, bridge_out, bridge_in}
use diamond_bot_v.Token.Settings.{
  set_lz_endpoint, add_module_admin, add_module, transfer_ownership, set_chain_config,
  update_remote_chain_supply, set_supply_oracle,
}

pub data Call : Type 0 where
  transfers : AccountId → ℕ → Option String → Call
  mints : AccountId → ℕ → Call
  burns : ℕ → Call
  bridges_out : String → ℕ → LayerZeroParams → Call
  bridges_in : ℕ → String → AccountId → ℕ → Call
  sets_lz_endpoint adds_module_admin transfers_ownership : AccountId → Call
  adds_module : Module → Call
  sets_chain_config : ℕ → ChainConfig → Call
  updates_remote_supply : ℕ → ℕ → Call
  sets_supply_oracle : ℕ → AccountId → Call
  calls_standard : StandardCall → Call

abbrev pub first {ℓ κ} : {A : Type ℓ} {B : Type κ} → Result (A × B) → Result A
first r = r >>= λ p. ok p.0

module _ (ft : FungibleToken) where
  open ft use {Token, standard}

  unfoldable pub call : Env → Call → DiamondToken Token → Result (DiamondToken Token)
  call env (transfers receiver amount memo) t = ft_transfer ft env receiver amount memo t
  call env (mints account amount) t = mint ft env account amount t
  call env (burns amount) t = burn ft env amount t
  call env (bridges_out to amount lz) t = first (bridge_out ft env to amount lz t)
  call env (bridges_in chain sender receiver amount) t =
      first (bridge_in ft env chain sender receiver amount t)
  call env (sets_lz_endpoint endpoint) t = set_lz_endpoint env endpoint t
  call env (adds_module_admin admin) t = first (add_module_admin env admin t)
  call env (transfers_ownership owner) t = transfer_ownership env owner t
  call env (adds_module module_) t = first (add_module env module_ t)
  call env (sets_chain_config chain config) t = set_chain_config env chain config t
  call env (updates_remote_supply chain supply) t =
      ok (update_remote_chain_supply env chain supply t).0
  call env (sets_supply_oracle chain oracle) t = first (set_supply_oracle env chain oracle t)
  call env (calls_standard c) t =
      standard env c t.token >>= λ token. ok (record t { token = token })

  unfoldable pub run : DiamondToken Token → List (Env × Call) → DiamondToken Token
  run t [] = t
  run t ((env, c) ∷ cs) = run (settle t (call env c t)) cs
