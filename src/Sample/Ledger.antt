-- ===== src/Sample/Ledger.antt =====
-- A small ledger for the tests of the token contract: balances by account, and their total.
use diamond_bot_v.Base.{
  ℕ, ◌+◌, ◌-◌, ◌≤◌, ◌≡◌, refl, Bool, false, String, Option, none, some, [], arith, if◌then◌else◌,
  Dict, lookup, insert, is_some, lookup-insert_self, lookup-insert,
}
use diamond_bot_v.Near.{
  AccountId, Env, Result, ok, panic, ◌>>=◌, or_panic, token_fault, add128, checked_sub,
}
use diamond_bot_v.Ft.{
  FungibleToken, StandardCall, transfers_and_calls, resolves_transfer, deposits_storage,
  withdraws_storage, unregisters_storage, may_burn,
}

pub record Ledger : Type 0 where
  pub balances : Dict ℕ
  pub total : ℕ

abbrev pub balance : AccountId → Ledger → ℕ
balance a l = elim (lookup a l.balances) [ none ↦ 0 | some n ↦ n ]

abbrev pub known : AccountId → Ledger → Bool
known a l = is_some (lookup a l.balances)

abbrev pub register : AccountId → Ledger → Result Ledger
register a l =
    if known a l then panic token_fault else ok (record l { balances = insert a 0 l.balances })

abbrev pub deposit : AccountId → ℕ → Ledger → Result Ledger
deposit a n l = do
  old ← or_panic (lookup a l.balances) token_fault
  total ← add128 l.total n
  ok (record { balances = insert a (old + n) l.balances; total = total })

abbrev pub withdraw : AccountId → ℕ → Ledger → Result Ledger
withdraw a n l = do
  old ← or_panic (lookup a l.balances) token_fault
  rest ← checked_sub old n
  total ← checked_sub l.total n
  ok (record { balances = insert a rest l.balances; total = total })

abbrev pub transfer : AccountId → AccountId → ℕ → Option String → Ledger → Result Ledger
transfer a b n memo l = do taken ← withdraw a n l; deposit b n taken

pub register_total : (a : AccountId) (l l' : Ledger) → register a l ≡ ok l' → l'.total ≡ l.total
register_total a l l' h = ground arith

pub deposit_total :
    (a : AccountId) (n : ℕ) (l l' : Ledger) → deposit a n l ≡ ok l' → l'.total ≡ l.total + n
deposit_total a n l l' h = ground arith

pub withdraw_total :
    (a : AccountId) (n : ℕ) (l l' : Ledger) → withdraw a n l ≡ ok l' → l'.total + n ≡ l.total
withdraw_total a n l l' h = ground arith

pub transfer_total :
    (a b : AccountId) (n : ℕ) (memo : Option String) (l l' : Ledger)
    → transfer a b n memo l ≡ ok l'
    → l'.total ≡ l.total
transfer_total a b n memo l l' h = ground arith

pub register_balance :
    (a b : AccountId) (l l' : Ledger) → register a l ≡ ok l' → balance b l' ≡ balance b l
register_balance a b l l' h = ground (arith, lookup-insert a b 0 l.balances)

pub deposit_balance :
    (a : AccountId) (n : ℕ) (l l' : Ledger) → deposit a n l ≡ ok l' → balance a l' ≡ balance a l + n
deposit_balance a n l l' h = ground (arith, lookup-insert_self a (balance a l + n) l.balances)

pub withdraw_balance :
    (a : AccountId) (n : ℕ) (l l' : Ledger)
    → withdraw a n l ≡ ok l'
    → balance a l' + n ≡ balance a l
withdraw_balance a n l l' h = ground (arith, lookup-insert_self a (balance a l - n) l.balances)

-- A refund is burned; an account that is closed loses what it has.
abbrev pub standard : Env → StandardCall → Ledger → Result Ledger
standard env (transfers_and_calls receiver amount memo msg) l =
    transfer env.predecessor receiver amount memo l
standard env (resolves_transfer sender receiver amount) l = withdraw receiver amount l
standard env (deposits_storage account only) l = ok l
standard env (withdraws_storage amount) l = ok l
standard env (unregisters_storage force) l = withdraw env.predecessor (balance env.predecessor l) l

pub standard_le :
    (env : Env) (c : StandardCall) (l l' : Ledger) → standard env c l ≡ ok l' → l'.total ≤ l.total
standard_le env (transfers_and_calls receiver amount memo msg) l l' e =
    omega (arith, transfer_total env.predecessor receiver amount memo l l' e)
standard_le env (resolves_transfer sender receiver amount) l l' e =
    omega (arith, withdraw_total receiver amount l l' e)
standard_le env (deposits_storage account only) l l' e = ground arith
standard_le env (withdraws_storage amount) l l' e = ground arith
standard_le env (unregisters_storage force) l l' e =
    omega (arith, withdraw_total env.predecessor (balance env.predecessor l) l l' e)

pub standard_unburnt :
    (env : Env) (c : StandardCall) (l l' : Ledger)
    → may_burn c ≡ false
    → standard env c l ≡ ok l'
    → l'.total ≡ l.total
standard_unburnt env (transfers_and_calls receiver amount memo msg) l l' b e =
    transfer_total env.predecessor receiver amount memo l l' e
standard_unburnt env (resolves_transfer sender receiver amount) l l' b e = absurd (ground arith)
standard_unburnt env (deposits_storage account only) l l' b e = ground arith
standard_unburnt env (withdraws_storage amount) l l' b e = ground arith
standard_unburnt env (unregisters_storage force) l l' b e = absurd (ground arith)

abbrev pub ledger : FungibleToken
ledger = record {
  Token = Ledger;
  ft_metadata_spec = "ft-1.0.0";
  empty = record { balances = []; total = 0 };
  register = register;
  deposit = deposit;
  withdraw = withdraw;
  transfer = transfer;
  standard = standard;
  total_supply = λ l. l.total;
  balance_of = balance;
  has_account = known;
  total-empty = refl;
  total-register = register_total;
  total-deposit = deposit_total;
  total-withdraw = withdraw_total;
  total-transfer = transfer_total;
  total-standard = standard_le;
  total-unburnt = standard_unburnt;
  balance-register = register_balance;
  balance-deposit = deposit_balance;
  balance-withdraw = withdraw_balance;
}
