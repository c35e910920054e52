-- ===== src/Modules.antt =====
-- The module manager, blockchain/src/diamond_token/src/module_manager.rs: a registry of modules with
-- an ordered list of their names, permissions of callers, and the admins. Names and permissions are
-- strings that are only compared, here numbers.
pub mod Registry
pub mod Admins
pub mod Permissions
mod Tests
use diamond_bot_v.Base.{
  ℕ, Bool, true, false, not, String, Option, none, some, List, [], ◌∷◌, ◌==◌, if◌then◌else◌, Dict,
  lookup, insert, erase, push, retain, contains, length,
}
use diamond_bot_v.Near.{
  AccountId, Env, only_owner, only_admin, owner_stays_admin, module_not_found, module_not_active,
  unwrap_none, Result, ok, panic, ◌>>=◌, ◌>>◌, require, or_panic,
}

abbrev pub Name : Type 0
Name = ℕ

pub data ModuleStatus : Type 0 where
  active paused deprecated : ModuleStatus

pub record Module : Type 0 where
  pub name : Name
  pub contract_id : AccountId
  pub version : String
  pub status : ModuleStatus
  pub added_timestamp : ℕ
  pub last_updated : ℕ
  pub metadata : String

pub record ModuleManager : Type 0 where
  pub modules : Dict Module
  pub module_keys : List Name
  pub authorized_callers : Dict (List Name)
  pub owner_id : AccountId
  pub admins : List AccountId

-- `if !v.contains(&a) { v.push(a) }`
abbrev pub push_new : List ℕ → ℕ → List ℕ
push_new xs a = if contains xs a then xs else push xs a

abbrev pub is_active : ModuleStatus → Bool
is_active ModuleStatus.active = true
is_active _ = false

abbrev pub init_list : Option (List AccountId) → List AccountId
init_list none = []
init_list (some admins) = admins

unfoldable pub new : AccountId → Option (List AccountId) → ModuleManager
new owner_id init_admins = record {
  modules = [];
  module_keys = [];
  authorized_callers = [];
  owner_id = owner_id;
  admins = push_new (init_list init_admins) owner_id;
}

unfoldable pub is_admin : AccountId → ModuleManager → Bool
is_admin account m = contains m.admins account

unfoldable pub assert_admin : Env → ModuleManager → Result (Unit {0})
unfolding is_admin
assert_admin env m = require (is_admin env.predecessor m) only_admin

unfoldable pub add_module : Env → Module → ModuleManager → Result (ModuleManager × Bool)
unfolding assert_admin
add_module env module_ m = do
  assert_admin env m
  ok (elim (lookup module_.name m.modules) [
    | some old ↦ (m, false)
    | none ↦ (
      record m {
        modules = insert module_.name module_ m.modules;
        module_keys = push m.module_keys module_.name;
      },
      true,
    )
  ])

pub update_module : Env → Name → Module → ModuleManager → Result (ModuleManager × Bool)
unfolding assert_admin
update_module env name updated_module m = do
  assert_admin env m
  ok (elim (lookup name m.modules) [
    | none ↦ (m, false)
    | some old ↦ (record m { modules = insert name updated_module m.modules }, true)
  ])

pub update_module_status : Env → Name → ModuleStatus → ModuleManager → Result (ModuleManager × Bool)
unfolding assert_admin
update_module_status env name status m = do
  assert_admin env m
  ok (elim (lookup name m.modules) [
    | none ↦ (m, false)
    | some old ↦ (
      record m {
        modules =
            insert name (record old { status = status; last_updated = env.block_timestamp })
              m.modules;
      },
      true,
    )
  ])

pub remove_module : Env → Name → ModuleManager → Result (ModuleManager × Bool)
unfolding assert_admin
remove_module env name m = do
  assert_admin env m
  ok (elim (lookup name m.modules) [
    | none ↦ (m, false)
    | some old ↦ (
      record m {
        modules = erase name m.modules;
        module_keys = retain (λ key. not (key == name)) m.module_keys;
      },
      true,
    )
  ])

-- The permissions of a contract, `unwrap_or_else(Vec::new)`.
abbrev pub or_empty : Option (List Name) → List Name
or_empty none = []
or_empty (some ps) = ps

abbrev pub permissions_of : AccountId → ModuleManager → List Name
permissions_of contract_id m = or_empty (lookup contract_id m.authorized_callers)

pub add_permissions : List Name → List Name → List Name
add_permissions current [] = current
add_permissions current (p ∷ ps) = add_permissions (push_new current p) ps

pub authorize_caller : Env → AccountId → List Name → ModuleManager → Result (ModuleManager × Bool)
unfolding assert_admin
authorize_caller env contract_id permissions m = do
  assert_admin env m
  let current = add_permissions (permissions_of contract_id m) permissions
  ok (record m { authorized_callers = insert contract_id current m.authorized_callers }, true)

-- The permissions that are left: an empty list is removed from the map.
abbrev pub write_permissions : AccountId → List Name → Dict (List Name) → Dict (List Name)
write_permissions contract_id [] d = erase contract_id d
write_permissions contract_id (p ∷ ps) d = insert contract_id (p ∷ ps) d

revoke : AccountId → Option (List Name) → Option (List Name) → ModuleManager → ModuleManager × Bool
revoke contract_id permissions none m = (m, false)
revoke contract_id (some perms) (some current) m = (
  record m {
    authorized_callers =
        write_permissions contract_id (retain (λ p. not (contains perms p)) current)
          m.authorized_callers;
  },
  true,
)
revoke contract_id none (some current) m =
    (record m { authorized_callers = erase contract_id m.authorized_callers }, true)

pub revoke_caller :
    Env → AccountId → Option (List Name) → ModuleManager → Result (ModuleManager × Bool)
unfolding assert_admin revoke
revoke_caller env contract_id permissions m = do
  assert_admin env m
  ok (revoke contract_id permissions (lookup contract_id m.authorized_callers) m)

pub has_permission : AccountId → Name → ModuleManager → Bool
has_permission contract_id permission m =
    if contains m.admins contract_id
    then true
    else contains (permissions_of contract_id m) permission

-- The loops over `module_keys`, whose `unwrap` panics at a name without a module.
pub modules_at : List Name → Dict Module → Result (List Module)
modules_at [] d = ok []
modules_at (k ∷ ks) d = do
  module_ ← or_panic (lookup k d) unwrap_none
  rest ← modules_at ks d
  ok (module_ ∷ rest)

pub get_all_modules : ModuleManager → Result (List Module)
get_all_modules m = modules_at m.module_keys m.modules

unfoldable pub active_at : List Name → Dict Module → Result (List Module)
active_at [] d = ok []
active_at (k ∷ ks) d = do
  module_ ← or_panic (lookup k d) unwrap_none
  rest ← active_at ks d
  ok (if is_active module_.status then module_ ∷ rest else rest)

unfoldable pub get_active_modules : ModuleManager → Result (List Module)
get_active_modules m = active_at m.module_keys m.modules

-- `Promise::new(contract).function_call(method, args, deposit, gas)`
pub record FunctionCall : Type 0 where
  pub contract : AccountId
  pub method : Name
  pub args : String
  pub deposit : ℕ
  pub gas : ℕ

unfoldable pub call_module_function :
    Env → Name → Name → String → ℕ → ℕ → ModuleManager → Result FunctionCall
unfolding assert_admin
call_module_function env module_name function_name args deposit gas m = do
  assert_admin env m
  module_ ← or_panic (lookup module_name m.modules) module_not_found
  require (is_active module_.status) module_not_active
  ok (record {
    contract = module_.contract_id;
    method = function_name;
    args = args;
    deposit = deposit;
    gas = gas;
  })

unfoldable pub add_admin : Env → AccountId → ModuleManager → Result (ModuleManager × Bool)
add_admin env admin_id m = do
  require (env.predecessor == m.owner_id) only_owner
  ok (
      if contains m.admins admin_id
      then (m, false)
      else (record m { admins = push m.admins admin_id }, true))

pub remove_admin : Env → AccountId → ModuleManager → Result (ModuleManager × Bool)
remove_admin env admin_id m = do
  require (env.predecessor == m.owner_id) only_owner
  require (not (admin_id == m.owner_id)) owner_stays_admin
  let admins = retain (λ id. not (id == admin_id)) m.admins
  ok (record m { admins = admins }, not (length m.admins == length admins))

pub get_admins : ModuleManager → List AccountId
get_admins m = m.admins

unfoldable pub transfer_ownership : Env → AccountId → ModuleManager → Result ModuleManager
transfer_ownership env new_owner_id m = do
  require (env.predecessor == m.owner_id) only_owner
  ok (record m { admins = push_new m.admins new_owner_id; owner_id = new_owner_id })
