-- ===== src/Token/Fees.antt =====
-- Bridge fees: basis points of the amount between the chain's bounds, and what `bridge_out` sends.
use diamond_bot_v.Base.{
  ℕ, ◌+◌, ◌*◌, ◌/◌, ◌≤◌, ◌≡◌, inl, inr, true, false, String, some, arith, leb, lookup, Option-cases,
  ◌⊎◌,
}
use native.Mathlib.Nat.{mul-le-mul_right}
use diamond_bot_v.Near.{Env, ok, Result-cases}
use diamond_bot_v.Ft.{FungibleToken}
use diamond_bot_v.Bridge.{LayerZeroParams, ChainConfig, LzSend, lz_send}
use diamond_bot_v.Token.{DiamondToken, bridge_out, estimate_bridge_fee, clamp_fee}

fee_value :
    {T : Type 0} (t : DiamondToken T) (dest amount fee : ℕ) (c : ChainConfig)
    → lookup dest t.chain_configs ≡ some c
    → estimate_bridge_fee dest amount t ≡ ok fee
    → fee ≡ clamp_fee c (amount * c.fee_basis_points / 10000)
unfolding estimate_bridge_fee
fee_value t dest amount fee c e h = ground arith

-- For a configured chain whose bounds are in order the fee lies between them; where the basis points
-- of the amount, rounded down, lie between them, that is the fee.
pub estimate_bridge_fee_bounds :
    {T : Type 0} (t : DiamondToken T) (dest amount fee : ℕ) (c : ChainConfig)
    → lookup dest t.chain_configs ≡ some c
    → c.min_fee ≤ c.max_fee
    → estimate_bridge_fee dest amount t ≡ ok fee
    → (c.min_fee ≤ fee)
      × (fee ≤ c.max_fee)
      × ((leb c.min_fee (amount * c.fee_basis_points / 10000) ≡ false)
          ⊎ (leb (amount * c.fee_basis_points / 10000) c.max_fee ≡ false)
          ⊎ (fee ≡ amount * c.fee_basis_points / 10000))
estimate_bridge_fee_bounds t dest amount fee c e order h =
    ground (arith, fee_value t dest amount fee c e h)

clamp_fee_mono :
    (c : ChainConfig) (x y : ℕ) → c.min_fee ≤ c.max_fee → x ≤ y → clamp_fee c x ≤ clamp_fee c y
clamp_fee_mono c x y order h = ground arith

div_mono : (x y : ℕ) → x ≤ y → x / 10000 ≤ y / 10000
div_mono x y h = omega arith

-- A larger amount never costs a smaller fee, where the chain's bounds are in order.
pub estimate_bridge_fee_mono :
    {T : Type 0} (t : DiamondToken T) (dest amount amount' fee fee' : ℕ) (c : ChainConfig)
    → lookup dest t.chain_configs ≡ some c
    → c.min_fee ≤ c.max_fee
    → amount ≤ amount'
    → estimate_bridge_fee dest amount t ≡ ok fee
    → estimate_bridge_fee dest amount' t ≡ ok fee'
    → fee ≤ fee'
estimate_bridge_fee_mono t dest amount amount' fee fee' c e order le h h' =
    let scaled = div_mono _ _ (mul-le-mul_right c.fee_basis_points le) in
    let clamped = clamp_fee_mono c _ _ order scaled in
    omega (arith, clamped, fee_value t dest amount fee c e h, fee_value t dest amount' fee' c e h')

-- A `bridge_out` that goes through found the chain configured and enabled, and sends the endpoint a
-- message for exactly the amount that it withdrew from the caller, with the offered fees, which are
-- at least the estimate.
pub bridge_out_sends :
    (ft : FungibleToken) (env : Env) (to : String) (amount : ℕ) (lz : LayerZeroParams)
    (t t' : DiamondToken ft.Token) (p : LzSend)
    → bridge_out ft env to amount lz t ≡ ok (t', p)
    → (c : ChainConfig) × (fee : ℕ) × (lookup lz.dest_chain_id t.chain_configs ≡ some c)
      × (c.enabled ≡ true)
      × (estimate_bridge_fee lz.dest_chain_id amount t ≡ ok fee)
      × (fee ≤ p.deposit)
      × (p.endpoint ≡ t.lz_endpoint)
      × (p.dest_chain_id ≡ lz.dest_chain_id)
      × (p.refund_address ≡ env.predecessor)
      × (ft.balance_of env.predecessor t'.token + p.payload.amount
          ≡ ft.balance_of env.predecessor t.token)
      × (ft.total_supply t'.token + p.payload.amount ≡ ft.total_supply t.token)
unfolding bridge_out lz_send
bridge_out_sends ft env to amount lz t t' p h =
    elim (Option-cases (lookup lz.dest_chain_id t.chain_configs)) [
      | inl e ↦ absurd (ground arith)
      | inr (c, e) ↦ elim (Result-cases (estimate_bridge_fee lz.dest_chain_id amount t)) [
        | inl (fee, k) ↦
            let taken : ft.withdraw env.predecessor amount t.token ≡ ok t'.token = ground arith in
            let sent : p.payload.amount ≡ amount = ground arith in
            (
              c,
              fee,
              e,
              ground arith,
              k,
              ground arith,
              ground arith,
              ground arith,
              ground arith,
              rw sent (ft.balance-withdraw env.predecessor amount t.token t'.token taken),
              rw sent (ft.total-withdraw env.predecessor amount t.token t'.token taken),
            )
        | inr (x, k) ↦ absurd (ground arith)
      ]
    ]
