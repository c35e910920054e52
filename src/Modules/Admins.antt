-- ===== src/Modules/Admins.antt =====
-- Who may act on the module manager: the owner is an admin after any calls, and only admins and the
-- owner change anything.
use diamond_bot_v.Base.{
  ◌≡◌, ◌≢◌, inl, inr, true, false, Option, none, some, List, [], ◌∷◌, arith, ◌==◌, if◌then◌else◌,
  contains, contains-push, contains-without,
}
use diamond_bot_v.Near.{AccountId, Env, ok, settle, Result-cases}
use diamond_bot_v.Modules.{
  ModuleManager, add_module, update_module, update_module_status, remove_module, authorize_caller,
  revoke_caller, add_admin, remove_admin, transfer_ownership, new, push_new, is_admin, init_list,
}
use diamond_bot_v.Modules.Registry.{
  Call, adds_module, updates_module, updates_status, removes_module, authorizes, revokes,
  adds_admin, removes_admin, transfers_ownership, call, run,
}

pub contains-push_new :
    (xs : List AccountId) (a k : AccountId)
    → contains (push_new xs a) k ≡ (if a == k then true else contains xs k)
contains-push_new xs a k = ground (arith, contains-push xs a k)

call_owner_admin :
    (env : Env) (c : Call) (m m' : ModuleManager)
    → call env c m ≡ ok m'
    → is_admin m.owner_id m ≡ true
    → is_admin m'.owner_id m' ≡ true
unfolding call add_module update_module update_module_status remove_module authorize_caller
    revoke_caller add_admin remove_admin transfer_ownership is_admin
call_owner_admin env (adds_module v) m m' h a = ground arith
call_owner_admin env (updates_module n v) m m' h a = ground arith
call_owner_admin env (updates_status n status) m m' h a = ground arith
call_owner_admin env (removes_module n) m m' h a = ground arith
call_owner_admin env (authorizes contract_id ps) m m' h a = ground arith
call_owner_admin env (revokes contract_id none) m m' h a = ground arith
call_owner_admin env (revokes contract_id (some ps)) m m' h a = ground arith
call_owner_admin env (adds_admin x) m m' h a = ground (arith, contains-push m.admins x m.owner_id)
call_owner_admin env (removes_admin x) m m' h a =
    ground (arith, contains-without m.admins x m.owner_id)
call_owner_admin env (transfers_ownership x) m m' h a =
    ground (arith, contains-push_new m.admins x x)

run_owner_admin_from :
    (m : ModuleManager) (cs : List (Env × Call))
    → is_admin m.owner_id m ≡ true
    → is_admin (run m cs).owner_id (run m cs) ≡ true
unfolding run
run_owner_admin_from m [] a = a
run_owner_admin_from m ((env, c) ∷ cs) a = elim (Result-cases (call env c m)) [
  | inl (m', e) ↦ rw (e, run) (run_owner_admin_from m' cs (call_owner_admin env c m m' e a))
  | inr (x, e) ↦ rw (e, run) (run_owner_admin_from m cs a)
]

-- The owner is an admin after any calls on a new manager, also after handing the ownership over.
pub run_owner_admin :
    (owner : AccountId) (admins : Option (List AccountId)) (cs : List (Env × Call))
    → let m = run (new owner admins) cs in is_admin m.owner_id m ≡ true
unfolding new
run_owner_admin owner admins cs = run_owner_admin_from (new owner admins) cs first_admin
  where
    first_admin : is_admin owner (new owner admins) ≡ true
    first_admin =
        unfold is_admin in ground (arith, contains-push_new (init_list admins) owner owner)

-- A caller who is no admin and not the owner changes nothing, whatever the call.
pub stranger_changes_nothing :
    (env : Env) (c : Call) (m : ModuleManager)
    → is_admin env.predecessor m ≡ false
    → env.predecessor ≢ m.owner_id
    → settle m (call env c m) ≡ m
unfolding call add_module update_module update_module_status remove_module authorize_caller
    revoke_caller add_admin remove_admin transfer_ownership is_admin
stranger_changes_nothing env (adds_module v) m a o = ground arith
stranger_changes_nothing env (updates_module n v) m a o = ground arith
stranger_changes_nothing env (updates_status n status) m a o = ground arith
stranger_changes_nothing env (removes_module n) m a o = ground arith
stranger_changes_nothing env (authorizes contract_id ps) m a o = ground arith
stranger_changes_nothing env (revokes contract_id ps) m a o = ground arith
stranger_changes_nothing env (adds_admin x) m a o = ground arith
stranger_changes_nothing env (removes_admin x) m a o = ground arith
stranger_changes_nothing env (transfers_ownership x) m a o = ground arith

-- Handing the ownership over does not take the old owner's admin rights: who was an admin still is.
pub transfer_keeps_admins :
    (env : Env) (owner account : AccountId) (m m' : ModuleManager)
    → transfer_ownership env owner m ≡ ok m'
    → is_admin account m ≡ true
    → is_admin account m' ≡ true
unfolding transfer_ownership is_admin
transfer_keeps_admins env owner account m m' h a =
    ground (arith, contains-push_new m.admins owner account)
