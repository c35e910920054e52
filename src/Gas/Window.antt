-- ===== src/Gas/Window.antt =====
-- The samples of `GasOptimizer` lie in the window of its configuration.
use diamond_bot_v.Base.{
  ℕ, ◌-◌, ◌^◌, ◌≤◌, ◌<◌, ◌≡◌, sym, ap, ◌∙◌, inl, inr, Option, none, some, List, [], ◌∷◌, ltb,
  Bool-cases, Option-cases, push, arith,
}
use diamond_bot_v.Words.{sub64, ◌>>=◌}
use diamond_bot_v.Gas.{
  GasOptimizer, GasPriceCache, NetworkCongestion, BlockReply, failed, missing, found, new,
  set_chain_id, set_network_congestion, set_sample_interval, set_gas_price_limit,
  set_max_boost_percent,
}
use diamond_bot_v.Gas.History.{
  drop_old, push_base_fee, trimmed, sampled, finish, add_sample, update_network_congestion, Updated,
  update_gas_price_history, measured, recent,
}

-- The times of the samples ascend from `lo` to `hi`.
abbrev pub Ascends : ℕ → ℕ → List (ℕ × ℕ) → Type 0
Ascends lo hi [] = lo ≤ hi
Ascends lo hi ((t, p) ∷ h) = (lo ≤ t) × Ascends t hi h

Ascends-le : (lo hi : ℕ) (h : List (ℕ × ℕ)) → Ascends lo hi h → lo ≤ hi
Ascends-le lo hi [] a = a
Ascends-le lo hi ((t, p) ∷ h) a = omega (arith, Ascends-le t hi h a.1)

Ascends-later :
    (lo hi later : ℕ) (h : List (ℕ × ℕ)) → hi ≤ later → Ascends lo hi h → Ascends lo later h
Ascends-later lo hi later [] l a = omega arith
Ascends-later lo hi later ((t, p) ∷ h) l a = (a.0, Ascends-later t hi later h l a.1)

Ascends-push : (lo hi p : ℕ) (h : List (ℕ × ℕ)) → Ascends lo hi h → Ascends lo hi (push h (hi, p))
Ascends-push lo hi p [] a = (a, omega arith)
Ascends-push lo hi p ((t, q) ∷ h) a = (a.0, Ascends-push t hi p h a.1)

drop_old-Ascends :
    (now window lo : ℕ) (h : List (ℕ × ℕ))
    → now < 2 ^ 64
    → Ascends lo now h
    → Ascends (now - window) now (drop_old now window h)
unfolding drop_old
drop_old-Ascends now window lo [] l a = omega arith
drop_old-Ascends now window lo ((t, p) ∷ h) l a =
    ground (arith, drop_old-Ascends now window t h l a.1, Ascends-le t now h a.1)

push_base_fee-Ascends :
    (lo now : ℕ) (block : BlockReply) (h : List (ℕ × ℕ))
    → Ascends lo now h
    → Ascends lo now (push_base_fee now block h)
push_base_fee-Ascends lo now failed h a = a
push_base_fee-Ascends lo now missing h a = a
push_base_fee-Ascends lo now (found none) h a = a
push_base_fee-Ascends lo now (found (some fee)) h a = Ascends-push lo now fee h a

-- Both histories lie in the window before the last update, in the order of time.
pub record InWindow (o : GasOptimizer) : Type 0 where
  pub gas_prices :
      Ascends (o.last_update - o.config.history_window) o.last_update o.gas_price_history
  pub base_fees : Ascends (o.last_update - o.config.history_window) o.last_update o.base_fee_history

trimmed-InWindow :
    (now : ℕ) (o : GasOptimizer)
    → o.last_update ≤ now
    → now < 2 ^ 64
    → InWindow o
    → InWindow (trimmed now o)
trimmed-InWindow now o l k w =
    let lo = o.last_update - o.config.history_window in
    record {
      gas_prices =
          drop_old-Ascends now o.config.history_window lo o.gas_price_history k
            (Ascends-later lo o.last_update now o.gas_price_history l w.gas_prices);
      base_fees =
          drop_old-Ascends now o.config.history_window lo o.base_fee_history k
            (Ascends-later lo o.last_update now o.base_fee_history l w.base_fees);
    }

sampled-InWindow :
    (price : ℕ) (block : BlockReply) (o : GasOptimizer)
    → InWindow o
    → InWindow (sampled o.last_update price block o)
sampled-InWindow price block o w =
    let lo = o.last_update - o.config.history_window in
    record {
      gas_prices = Ascends-push lo o.last_update price o.gas_price_history w.gas_prices;
      base_fees = push_base_fee-Ascends lo o.last_update block o.base_fee_history w.base_fees;
    }

-- Only the level of congestion changes.
congestion-InWindow :
    (o o' : GasOptimizer) → update_network_congestion o ≡ some o' → InWindow o → InWindow o'
unfolding update_network_congestion
congestion-InWindow o o' e w = elim (Option-cases (measured (recent o.gas_price_history))) [
  | inl m ↦ ground (arith, m)
  | inr (c, m) ↦ ground (arith, m)
]

finish-InWindow :
    (now' price : ℕ) (cache : GasPriceCache) (o : GasOptimizer) (u : Updated)
    → finish now' price cache o ≡ some u
    → InWindow o
    → InWindow u.optimizer
finish-InWindow now' price cache o u e w = ground arith

add_sample-InWindow :
    (now' : ℕ) (price : Option ℕ) (block : BlockReply) (cache : GasPriceCache) (o : GasOptimizer)
    (u : Updated)
    → add_sample o.last_update now' price block cache o ≡ some u
    → InWindow o
    → InWindow u.optimizer
add_sample-InWindow now' none block cache o u e w = ground arith
add_sample-InWindow now' (some p) block cache o u e w =
    let s = sampled o.last_update p block o in
    elim (Option-cases (update_network_congestion s)) [
      | inl m ↦ ground (arith, m)
      | inr (o', m) ↦
          finish-InWindow now' p cache o' u (sym (ap (λ r. r >>= finish now' p cache) m) ∙ e)
            (congestion-InWindow s o' m (sampled-InWindow p block o w))
    ]

update-InWindow :
    (now now' : ℕ) (price : Option ℕ) (block : BlockReply) (cache : GasPriceCache)
    (o : GasOptimizer) (u : Updated)
    → update_gas_price_history now now' price block cache o ≡ some u
    → o.last_update ≤ now
    → now < 2 ^ 64
    → InWindow o
    → InWindow u.optimizer
unfolding update_gas_price_history
update-InWindow now now' price block cache o u e l k w =
    elim (Bool-cases (ltb (sub64 now o.last_update) o.config.sample_interval)) [
      | inl b ↦ ground (arith, b)
      | inr b ↦
          add_sample-InWindow now' price block cache (trimmed now o) u (rw b at e)
            (trimmed-InWindow now o l k w)
    ]

-- A step of the life of a `GasOptimizer`: an update at a time that is not before the last one, however
-- the node answers, or a setting. An update that panics is no step.
pub data Step : GasOptimizer → GasOptimizer → Type 0 where
  updates :
      {o : GasOptimizer} (now now' : ℕ) (price : Option ℕ) (block : BlockReply)
      (cache : GasPriceCache) (u : Updated)
      → update_gas_price_history now now' price block cache o ≡ some u
      → o.last_update ≤ now
      → now < 2 ^ 64
      → Step o u.optimizer
  sets_chain : {o : GasOptimizer} (chain_id : ℕ) → Step o (set_chain_id chain_id o)
  sets_congestion :
      {o : GasOptimizer} (congestion : NetworkCongestion)
      → Step o (set_network_congestion congestion o)
  sets_interval : {o : GasOptimizer} (interval : ℕ) → Step o (set_sample_interval interval o)
  sets_limit : {o : GasOptimizer} (limit : ℕ) → Step o (set_gas_price_limit limit o)
  sets_boost : {o : GasOptimizer} (percent : ℕ) → Step o (set_max_boost_percent percent o)

pub data Reach (start : GasOptimizer) : GasOptimizer → Type 0 where
  here : Reach start start
  next : {o o' : GasOptimizer} → Reach start o → Step o o' → Reach start o'

Step-InWindow : {o o' : GasOptimizer} → Step o o' → InWindow o → InWindow o'
Step-InWindow (updates {o} now now' price block cache u e l k) w =
    update-InWindow now now' price block cache o u e l k w
Step-InWindow (sets_chain chain_id) w = record {
  gas_prices = w.gas_prices;
  base_fees = w.base_fees;
}
Step-InWindow (sets_congestion congestion) w = record {
  gas_prices = w.gas_prices;
  base_fees = w.base_fees;
}
Step-InWindow (sets_interval interval) w = record {
  gas_prices = w.gas_prices;
  base_fees = w.base_fees;
}
Step-InWindow (sets_limit limit) w = record { gas_prices = w.gas_prices; base_fees = w.base_fees }
Step-InWindow (sets_boost percent) w = record { gas_prices = w.gas_prices; base_fees = w.base_fees }

-- After any updates of a new optimizer that do not panic and whose clock, a `u64`, does not go
-- back, and any settings, the samples of both histories stand in the order of time, none later than
-- the last update and none older than the window before it.
pub Reach-InWindow : (limit boost : ℕ) {o : GasOptimizer} → Reach (new limit boost) o → InWindow o
Reach-InWindow limit boost here = omega arith
Reach-InWindow limit boost (next r s) = Step-InWindow s (Reach-InWindow limit boost r)
