-- ===== src/Rpc/Pool.antt =====
-- `RPCPool` and `check_rpc_availability`. What a URL answers to a probe, and how long that takes in
-- milliseconds, is an argument. Times are in nanoseconds and count from a moment at least an hour before
-- the pool is made. No lock is poisoned.
use diamond_bot_v.Base.{
  ℕ, ◌*◌, ◌-◌, ◌^◌, Bool, true, false, Option, none, some, List, [], ◌∷◌, map, ltb, leb, ◌==◌,
  if◌then◌else◌,
}

pub record Checked : Type 0 where
  pub url : ℕ
  pub is_available : Bool
  pub latency : ℕ

-- `sort_by`'s comparison is not `Greater`.
abbrev pub precedes : Bool → Bool → ℕ → ℕ → Bool
precedes true false l m = true
precedes false true l m = false
precedes true true l m = leb l m
precedes false false l m = leb l m

-- A stable sort.
unfoldable pub insert_sorted : Checked → List Checked → List Checked
insert_sorted c [] = c ∷ []
insert_sorted c (d ∷ ds) =
    let rest = insert_sorted c ds in
    if precedes c.is_available d.is_available c.latency d.latency then c ∷ d ∷ ds else d ∷ rest

unfoldable pub sorted : List Checked → List Checked
sorted [] = []
sorted (c ∷ cs) = insert_sorted c (sorted cs)

abbrev pub probed : (ℕ → Bool × ℕ) → ℕ → Checked
probed probe url = record { url = url; is_available = (probe url).0; latency = (probe url).1 }

abbrev pub check_rpc_availability : (ℕ → Bool × ℕ) → List ℕ → List Checked
check_rpc_availability probe urls = sorted (map (probed probe) urls)

pub record RpcPool : Type 0 where
  pub urls : List (ℕ × ℕ)
  pub last_checked : ℕ
  pub availability : List Checked

abbrev pub new : ℕ → List (ℕ × ℕ) → RpcPool
new now urls = record { urls = urls; last_checked = now - 3_600 * 10 ^ 9; availability = [] }

abbrev pub all_urls : RpcPool → List ℕ
all_urls p = map (λ u. u.0) p.urls

abbrev pub check_availability : ℕ → (ℕ → Bool × ℕ) → RpcPool → RpcPool
check_availability now probe p = record p {
  availability = check_rpc_availability probe (all_urls p);
  last_checked = now;
}

unfoldable pub first_available : List Checked → Option ℕ
first_available [] = none
first_available (c ∷ cs) =
    let rest = first_available cs in if c.is_available then some c.url else rest

abbrev pub first_url : List (ℕ × ℕ) → Option ℕ
first_url [] = none
first_url ((u, w) ∷ us) = some u

abbrev pub url_or_first : Option ℕ → RpcPool → Option ℕ
url_or_first none p = first_url p.urls
url_or_first (some u) p = some u

-- The pool after the check that comes first, if the last one is ten minutes old. `now` is the time of the
-- call and `now'` the time after the check.
abbrev pub rechecked : ℕ → ℕ → (ℕ → Bool × ℕ) → RpcPool → RpcPool
rechecked now now' probe p =
    if ltb (600 * 10 ^ 9) (now - p.last_checked) then check_availability now' probe p else p

-- `none` is an error.
abbrev pub get_best_url : ℕ → ℕ → (ℕ → Bool × ℕ) → RpcPool → Option ℕ × RpcPool
get_best_url now now' probe p =
    let p' = rechecked now now' probe p in (url_or_first (first_available p'.availability) p', p')

unfoldable pub mark : ℕ → List Checked → List Checked
mark url [] = []
mark url (c ∷ cs) =
    let rest = mark url cs in
    if c.url == url then (record c { is_available = false }) ∷ cs else c ∷ rest

abbrev pub mark_unavailable : ℕ → RpcPool → RpcPool
mark_unavailable url p = record p { availability = mark url p.availability }
