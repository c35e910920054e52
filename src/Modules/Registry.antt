-- ===== src/Modules/Registry.antt =====
-- The registry of modules and its list of names: they agree after any calls, so the loops over the
-- names never meet a missing module.
use diamond_bot_v.Base.{
  ◌≡◌, refl, inl, inr, Bool, true, Option, none, some, List, [], ◌∷◌, arith, Dict, lookup, insert,
  erase, push, contains, without, IsUnique, Option-cases, lookup-insert, is_some, HasDistinctKeys,
  lookup-erase, insert-HasDistinctKeys, erase-HasDistinctKeys, contains-push, contains-without,
  push-IsUnique, without-IsUnique, length, retain,
}
use diamond_bot_v.Near.{AccountId, Env, Result, ok, settle, Result-cases, ◌>>=◌}
use diamond_bot_v.Modules.{
  Name, Module, ModuleStatus, ModuleManager, add_module, update_module, update_module_status,
  remove_module, authorize_caller, revoke_caller, add_admin, remove_admin, transfer_ownership, new,
  modules_at, active_at, get_all_modules, get_active_modules, is_active,
}

pub data Call : Type 0 where
  adds_module : Module → Call
  updates_module : Name → Module → Call
  updates_status : Name → ModuleStatus → Call
  removes_module : Name → Call
  authorizes : AccountId → List Name → Call
  revokes : AccountId → Option (List Name) → Call
  adds_admin removes_admin transfers_ownership : AccountId → Call

abbrev pub first : Result (ModuleManager × Bool) → Result ModuleManager
first r = r >>= λ p. ok p.0

unfoldable pub call : Env → Call → ModuleManager → Result ModuleManager
call env (adds_module module_) m = first (add_module env module_ m)
call env (updates_module name module_) m = first (update_module env name module_ m)
call env (updates_status name status) m = first (update_module_status env name status m)
call env (removes_module name) m = first (remove_module env name m)
call env (authorizes contract_id ps) m = first (authorize_caller env contract_id ps m)
call env (revokes contract_id ps) m = first (revoke_caller env contract_id ps m)
call env (adds_admin admin_id) m = first (add_admin env admin_id m)
call env (removes_admin admin_id) m = first (remove_admin env admin_id m)
call env (transfers_ownership owner) m = transfer_ownership env owner m

unfoldable pub run : ModuleManager → List (Env × Call) → ModuleManager
run m [] = m
run m ((env, c) ∷ cs) = run (settle m (call env c m)) cs

abbrev Agrees : List Name → Dict Module → Type 0
Agrees keys d = (k : Name) → contains keys k ≡ is_some (lookup k d)

-- No module is stored twice, no name is listed twice, and the names listed are those stored.
pub record IsConsistent (m : ModuleManager) : Type 0 where
  pub stored_once : HasDistinctKeys m.modules
  pub listed_once : IsUnique m.module_keys
  pub agrees : (k : Name) → contains m.module_keys k ≡ is_some (lookup k m.modules)

insert-Agrees :
    (n : Name) (v old : Module) (keys : List Name) (d : Dict Module)
    → lookup n d ≡ some old
    → Agrees keys d
    → Agrees keys (insert n v d)
insert-Agrees n v old keys d e h k = ground (arith, h k, h n, lookup-insert n k v d)

push-Agrees :
    (n : Name) (v : Module) (keys : List Name) (d : Dict Module)
    → Agrees keys d
    → Agrees (push keys n) (insert n v d)
push-Agrees n v keys d h k = ground (arith, h k, lookup-insert n k v d, contains-push keys n k)

erase-Agrees :
    (n : Name) (keys : List Name) (d : Dict Module)
    → HasDistinctKeys d
    → Agrees keys d
    → Agrees (without n keys) (erase n d)
erase-Agrees n keys d u h k = ground (arith, h k, lookup-erase n k d u, contains-without keys n k)

-- What a call may do to the registry.
data Change (m m' : ModuleManager) : Type 0 where
  kept : m'.modules ≡ m.modules → m'.module_keys ≡ m.module_keys → Change m m'
  added :
      (n : Name) (v : Module)
      → lookup n m.modules ≡ none
      → m'.modules ≡ insert n v m.modules
      → m'.module_keys ≡ push m.module_keys n
      → Change m m'
  rewritten :
      (n : Name) (v old : Module)
      → lookup n m.modules ≡ some old
      → m'.modules ≡ insert n v m.modules
      → m'.module_keys ≡ m.module_keys
      → Change m m'
  removed :
      (n : Name)
      → m'.modules ≡ erase n m.modules
      → m'.module_keys ≡ without n m.module_keys
      → Change m m'

Change-IsConsistent : (m m' : ModuleManager) → Change m m' → IsConsistent m → IsConsistent m'
Change-IsConsistent m m' (kept e k) h = record {
  stored_once = rw e h.stored_once;
  listed_once = rw k h.listed_once;
  agrees = rw (e, k) h.agrees;
}
Change-IsConsistent m m' (added n v new_ e k) h = record {
  stored_once = rw e (insert-HasDistinctKeys n v m.modules h.stored_once);
  listed_once = rw k (push-IsUnique m.module_keys n h.listed_once (ground (arith, h.agrees n)));
  agrees = rw (e, k) (push-Agrees n v m.module_keys m.modules h.agrees);
}
Change-IsConsistent m m' (rewritten n v old found e k) h = record {
  stored_once = rw e (insert-HasDistinctKeys n v m.modules h.stored_once);
  listed_once = rw k h.listed_once;
  agrees = rw (e, k) (insert-Agrees n v old m.module_keys m.modules found h.agrees);
}
Change-IsConsistent m m' (removed n e k) h = record {
  stored_once = rw e (erase-HasDistinctKeys n m.modules h.stored_once);
  listed_once = rw k (without-IsUnique m.module_keys n h.listed_once);
  agrees = rw (e, k) (erase-Agrees n m.module_keys m.modules h.stored_once h.agrees);
}

call-Change : (env : Env) (c : Call) (m m' : ModuleManager) → call env c m ≡ ok m' → Change m m'
unfolding call add_module update_module update_module_status remove_module authorize_caller
    revoke_caller add_admin remove_admin transfer_ownership
call-Change env (adds_module v) m m' h = elim (Option-cases (lookup v.name m.modules)) [
  | inl e ↦ added v.name v e (ground arith) (ground arith)
  | inr (old, e) ↦ kept (ground arith) (ground arith)
]
call-Change env (updates_module n v) m m' h = elim (Option-cases (lookup n m.modules)) [
  | inl e ↦ kept (ground arith) (ground arith)
  | inr (old, e) ↦ rewritten n v old e (ground arith) (ground arith)
]
call-Change env (updates_status n status) m m' h = elim (Option-cases (lookup n m.modules)) [
  | inl e ↦ kept (ground arith) (ground arith)
  | inr (old, e) ↦
      rewritten n (record old { status = status; last_updated = env.block_timestamp }) old e
        (ground arith) (ground arith)
]
call-Change env (removes_module n) m m' h = elim (Option-cases (lookup n m.modules)) [
  | inl e ↦ kept (ground arith) (ground arith)
  | inr (old, e) ↦ removed n (ground arith) (ground arith)
]
call-Change env (authorizes contract_id ps) m m' h = kept (ground arith) (ground arith)
call-Change env (revokes contract_id none) m m' h = kept (ground arith) (ground arith)
call-Change env (revokes contract_id (some ps)) m m' h = kept (ground arith) (ground arith)
call-Change env (adds_admin a) m m' h = kept (ground arith) (ground arith)
call-Change env (removes_admin a) m m' h = kept (ground arith) (ground arith)
call-Change env (transfers_ownership a) m m' h = kept (ground arith) (ground arith)

run-IsConsistent :
    (m : ModuleManager) (cs : List (Env × Call)) → IsConsistent m → IsConsistent (run m cs)
unfolding run
run-IsConsistent m [] h = h
run-IsConsistent m ((env, c) ∷ cs) h = elim (Result-cases (call env c m)) [
  | inl (m', e) ↦
      rw (e, run) (run-IsConsistent m' cs (Change-IsConsistent m m' (call-Change env c m m' e) h))
  | inr (x, e) ↦ rw (e, run) (run-IsConsistent m cs h)
]

new-IsConsistent :
    (owner : AccountId) (admins : Option (List AccountId)) → IsConsistent (new owner admins)
unfolding new
new-IsConsistent owner admins = record { stored_once = tt; listed_once = tt; agrees = λ k. refl }

-- The modules of a list of names, all of which are stored.
abbrev pub active_of : List Module → List Module
active_of ms = retain (λ v. is_active v.status) ms

loops_agree :
    (ks : List Name) (d : Dict Module)
    → ((k : Name) → contains ks k ≡ true → is_some (lookup k d) ≡ true)
    → (ms : List Module) × (modules_at ks d ≡ ok ms)
      × (active_at ks d ≡ ok (active_of ms))
      × (length ms ≡ length ks)
unfolding modules_at active_at
loops_agree [] d h = ([], refl, refl, refl)
loops_agree (k ∷ ks) d h =
    let (ms, all, act, len) = loops_agree ks d (λ j e. h j (ground arith)) in
    elim (Option-cases (lookup k d)) [
      | inl e ↦ absurd (ground (arith, h k (ground arith)))
      | inr (v, e) ↦ (v ∷ ms, ground arith, ground arith, ground arith)
    ]

consistent_lists :
    (m : ModuleManager)
    → IsConsistent m
    → (ms : List Module) × (get_all_modules m ≡ ok ms)
      × (get_active_modules m ≡ ok (active_of ms))
      × (length ms ≡ length m.module_keys)
unfolding get_all_modules get_active_modules
consistent_lists m h = loops_agree m.module_keys m.modules (λ k e. ground (arith, h.agrees k))

-- After any calls on a new manager, those that panic included, both views answer without a panic:
-- `get_all_modules` gives one module for each listed name, `get_active_modules` the active ones of
-- these, in the same order.
pub run_lists_modules :
    (owner : AccountId) (admins : Option (List AccountId)) (cs : List (Env × Call))
    → (ms : List Module) × (get_all_modules (run (new owner admins) cs) ≡ ok ms)
      × (get_active_modules (run (new owner admins) cs) ≡ ok (active_of ms))
      × (length ms ≡ length (run (new owner admins) cs).module_keys)
run_lists_modules owner admins cs =
    consistent_lists (run (new owner admins) cs)
      (run-IsConsistent (new owner admins) cs (new-IsConsistent owner admins))
