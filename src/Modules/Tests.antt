-- ===== src/Modules/Tests.antt =====
-- Tests of the module manager.
use diamond_bot_v.Base.{ℕ, ◌+◌, ◌≡◌, refl, false, none, List, [], ◌∷◌, length}
use diamond_bot_v.Near.{owner_stays_admin, panic, Env, ok, settle}
use diamond_bot_v.Sample.{by}
use diamond_bot_v.Modules.{
  get_admins, remove_admin, add_admin, Name, Module, ModuleStatus, ModuleManager, new, is_admin,
  assert_admin, add_module, update_module_status, remove_module, get_all_modules,
  get_active_modules, transfer_ownership, active_at,
}
use diamond_bot_v.Modules.Registry.{
  adds_admin, Call, adds_module, updates_status, removes_module, transfers_ownership, call, run,
  active_of, run_lists_modules,
}

abbrev module_ : Name → ModuleStatus → Module
module_ name status = record {
  name = name;
  contract_id = 40 + name;
  version = "1.0";
  status = status;
  added_timestamp = 0;
  last_updated = 0;
  metadata = "";
}

-- Two modules, one paused; then the ownership goes to account 4.
abbrev history : List (Env × Call)
history =
    (by 9 1, adds_module (module_ 1 ModuleStatus.active))
    ∷ (by 9 2, adds_module (module_ 2 ModuleStatus.active))
    ∷ (by 3 3, removes_module 1)
    ∷ (by 9 4, updates_status 1 ModuleStatus.paused)
    ∷ (by 9 5, transfers_ownership 4)
    ∷ []

run-history :
    get_active_modules (run (new 9 none) history) ≡ ok (module_ 2 ModuleStatus.active ∷ [])
unfolding new run call is_admin assert_admin add_module remove_module update_module_status
    transfer_ownership get_active_modules active_at
run-history = refl

run_lists_modules_example :
    (ms : List Module) × (get_all_modules (run (new 9 none) history) ≡ ok ms)
    × (get_active_modules (run (new 9 none) history) ≡ ok (active_of ms))
    × (length ms ≡ length (run (new 9 none) history).module_keys)
run_lists_modules_example = run_lists_modules 9 none history

-- Account 4 may do `p` and 6; account 9 is the owner and the only admin.
abbrev manager : List (ℕ × List Name) → ModuleManager
manager callers = record {
  modules = [];
  module_keys = [];
  authorized_callers = callers;
  owner_id = 9;
  admins = 9 ∷ [];
}

-- The owner cannot be removed from the admins.
run-admins :
    (get_admins (settle (manager []) (call (by 9 0) (adds_admin 3) (manager []))) ≡ 9 ∷ 3 ∷ [])
    × (remove_admin (by 9 0) 9 (manager []) ≡ panic owner_stays_admin)
    × (remove_admin (by 9 0) 3 (manager []) ≡ ok (manager [], false))
unfolding get_admins call add_admin remove_admin
run-admins = (refl, refl, refl)
