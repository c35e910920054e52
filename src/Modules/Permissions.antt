-- ===== src/Modules/Permissions.antt =====
-- Permissions of the module manager: what a grant gives and what a revocation takes.
use diamond_bot_v.Base.{
  ◌≡◌, ap, ==→eq, inl, inr, Bool, true, false, none, some, List, [], ◌∷◌, arith, ◌==◌,
  if◌then◌else◌, Dict, lookup, contains, Option-cases, Bool-cases, lookup-insert_self,
  HasDistinctKeys, lookup-erase_self, contains-push, retain, not,
}
use diamond_bot_v.Near.{AccountId, Env, ok}
use diamond_bot_v.Modules.{
  Name, ModuleManager, authorize_caller, add_permissions, permissions_of, revoke_caller,
  has_permission, push_new, or_empty, write_permissions,
}

contains-add_permissions :
    (ps current : List Name) (p : Name)
    → contains (add_permissions current ps) p ≡ (if contains current p then true else contains ps p)
unfolding add_permissions
contains-add_permissions [] current p = ground arith
contains-add_permissions (q ∷ ps) current p =
    ground (arith, contains-add_permissions ps (push_new current q) p, contains-push current q p)

-- After a grant that goes through, a contract has exactly the permissions that it had and those that
-- the grant lists.
pub grant_adds :
    (env : Env) (contract_id : AccountId) (ps : List Name) (p : Name) (m m' : ModuleManager)
    (b : Bool)
    → authorize_caller env contract_id ps m ≡ ok (m', b)
    → has_permission contract_id p m'
      ≡ (if has_permission contract_id p m then true else contains ps p)
unfolding authorize_caller has_permission
grant_adds env contract_id ps p m m' b h = ground (
  arith,
  contains-add_permissions ps (permissions_of contract_id m) p,
  lookup-insert_self contract_id (add_permissions (permissions_of contract_id m) ps)
      m.authorized_callers,
)

contains-retain-not_in :
    (ps xs : List Name) (p : Name)
    → contains (retain (λ x. not (contains ps x)) xs) p
      ≡ (if contains ps p then false else contains xs p)
contains-retain-not_in ps [] p = ground arith
contains-retain-not_in ps (x ∷ xs) p = elim (Bool-cases (x == p)) [
  | inl e ↦
      ground (arith, ==→eq x p e, ap (contains ps) (==→eq x p e), contains-retain-not_in ps xs p)
  | inr e ↦ ground (arith, contains-retain-not_in ps xs p)
]

written_permissions :
    (contract_id : AccountId) (ps : List Name) (d : Dict (List Name))
    → HasDistinctKeys d
    → or_empty (lookup contract_id (write_permissions contract_id ps d)) ≡ ps
written_permissions contract_id [] d h = ground (arith, lookup-erase_self contract_id d h)
written_permissions contract_id (p ∷ ps) d h =
    ground (arith, lookup-insert_self contract_id (p ∷ ps) d)

-- Where each contract is stored once, a contract that is no admin has after a revocation of some
-- permissions exactly those that it had, without the listed ones.
pub revocation_takes :
    (env : Env) (contract_id : AccountId) (ps : List Name) (p : Name) (m m' : ModuleManager)
    (b : Bool)
    → HasDistinctKeys m.authorized_callers
    → contains m.admins contract_id ≡ false
    → revoke_caller env contract_id (some ps) m ≡ ok (m', b)
    → has_permission contract_id p m'
      ≡ (if contains ps p then false else has_permission contract_id p m)
unfolding revoke_caller has_permission
revocation_takes env contract_id ps p m m' b distinct a h =
    elim (Option-cases (lookup contract_id m.authorized_callers)) [
      | inl e ↦ ground arith
      | inr (current, e) ↦
          let left = retain (λ x. not (contains ps x)) current in
          ground (
            arith,
            written_permissions contract_id left m.authorized_callers distinct,
            contains-retain-not_in ps current p,
          )
    ]

-- Where each contract is stored once, a contract that is no admin has no permission after a
-- revocation without a list.
pub full_revocation :
    (env : Env) (contract_id : AccountId) (p : Name) (m m' : ModuleManager) (b : Bool)
    → HasDistinctKeys m.authorized_callers
    → contains m.admins contract_id ≡ false
    → revoke_caller env contract_id none m ≡ ok (m', b)
    → has_permission contract_id p m' ≡ false
unfolding revoke_caller has_permission
full_revocation env contract_id p m m' b distinct a h =
    ground (arith, lookup-erase_self contract_id m.authorized_callers distinct)
