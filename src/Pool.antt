-- ===== src/Pool.antt =====
-- The pool of RPC endpoints, snipebot/src/chain_adapters/connection_pool.rs: `EndpointInfo` and
-- `RPCConnectionPool`. An error rate is the quotient of two counts, so its comparisons with 0.1 and 0.5
-- are those of the counts, as long as they are below 2 ^ 50, where the floating-point quotient is on
-- the same side; latencies decide nothing and are left out. Whether a node answers, and whether a
-- permit of an endpoint comes in time, are arguments.
pub mod Health
pub mod Rotation
pub mod Provider
mod Tests
use diamond_bot_v.Base.{
  ℕ, zero, suc, ◌+◌, ◌*◌, ◌%◌, ◌^◌, Bool, true, false, not, ◌&&◌, ◌||◌, Option, none, some, List,
  [], ◌∷◌, ◌++◌, map, ltb, ◌==◌, if◌then◌else◌, length, push, any,
}

pub data EndpointStatus : Type 0 where
  healthy degraded down : EndpointStatus

pub record EndpointInfo : Type 0 where
  pub url : ℕ
  pub status : EndpointStatus
  pub last_check : ℕ
  pub success_count : ℕ
  pub error_count : ℕ
  pub priority : ℕ
  pub concurrent_limit : ℕ

abbrev pub new_info : ℕ → ℕ → ℕ → EndpointInfo
new_info url priority concurrent_limit = record {
  url = url;
  status = healthy;
  last_check = 0;
  success_count = 0;
  error_count = 0;
  priority = priority;
  concurrent_limit = concurrent_limit;
}

abbrev pub count_up : ℕ → ℕ
count_up n = (n + 1) % 2 ^ 64

-- `error_rate < 0.1`, `> 0.1` and `> 0.5`, of so many errors among so many requests.
abbrev pub below_tenth : ℕ → ℕ → Bool
below_tenth errors total = ltb (10 * errors) total

abbrev pub above_tenth : ℕ → ℕ → Bool
above_tenth errors total = ltb total (10 * errors)

abbrev pub above_half : ℕ → ℕ → Bool
above_half errors total = ltb total (2 * errors)

abbrev pub after_success : EndpointStatus → ℕ → ℕ → EndpointStatus
after_success degraded errors total = if below_tenth errors total then healthy else degraded
after_success status errors total = status

abbrev pub after_error : EndpointStatus → ℕ → ℕ → EndpointStatus
after_error status errors total =
    if above_half errors total then down else if above_tenth errors total then degraded else status

abbrev pub record_success : ℕ → EndpointInfo → EndpointInfo
record_success now e =
    let successes = count_up e.success_count in
    record e {
      success_count = successes;
      last_check = now;
      status = after_success e.status e.error_count (successes + e.error_count);
    }

abbrev pub record_error : ℕ → EndpointInfo → EndpointInfo
record_error now e =
    let errors = count_up e.error_count in
    record e {
      error_count = errors;
      last_check = now;
      status = after_error e.status errors (e.success_count + errors);
    }

abbrev pub is_available : EndpointInfo → Bool
is_available e = elim e.status [ healthy ↦ true | degraded ↦ true | down ↦ false ]

pub record PooledEndpoint : Type 0 where
  pub info : EndpointInfo
  pub last_used : ℕ

pub record RpcConnectionPool : Type 0 where
  pub primary_endpoints : List PooledEndpoint
  pub backup_endpoints : List PooledEndpoint
  pub next_primary_index : ℕ
  pub next_backup_index : ℕ
  pub max_connections : ℕ
  pub chain_id : ℕ

abbrev pub with_info : (EndpointInfo → EndpointInfo) → PooledEndpoint → PooledEndpoint
with_info f e = record e { info = f e.info }

abbrev pub has_url : ℕ → PooledEndpoint → Bool
has_url url e = e.info.url == url

-- The loop that changes the first endpoint with the url and returns.
abbrev pub change_first :
    (EndpointInfo → EndpointInfo) → ℕ → List PooledEndpoint → List PooledEndpoint
change_first f url [] = []
change_first f url (e ∷ es) =
    let rest = change_first f url es in if has_url url e then with_info f e ∷ es else e ∷ rest

-- `record_success` and `record_error` of the pool.
abbrev pub record_at : (EndpointInfo → EndpointInfo) → ℕ → RpcConnectionPool → RpcConnectionPool
record_at f url pool =
    if any (has_url url) pool.primary_endpoints
    then record pool { primary_endpoints = change_first f url pool.primary_endpoints }
    else record pool { backup_endpoints = change_first f url pool.backup_endpoints }

-- `health_check_endpoint`, with whether the node answers.
abbrev pub health_check_endpoint : ℕ → (ℕ → Bool) → PooledEndpoint → PooledEndpoint
health_check_endpoint now answers e =
    with_info (if answers e.info.url then record_success now else record_error now) e

abbrev pub health_check_all : ℕ → (ℕ → Bool) → RpcConnectionPool → RpcConnectionPool
health_check_all now answers pool = record pool {
  primary_endpoints = map (health_check_endpoint now answers) pool.primary_endpoints;
  backup_endpoints = map (health_check_endpoint now answers) pool.backup_endpoints;
}

abbrev pub get_endpoints_info : RpcConnectionPool → List EndpointInfo
get_endpoints_info pool =
    map (λ e. e.info) pool.primary_endpoints ++ map (λ e. e.info) pool.backup_endpoints

abbrev pub at : ℕ → List PooledEndpoint → Option PooledEndpoint
at i [] = none
at zero (e ∷ es) = some e
at (suc i) (e ∷ es) = at i es

abbrev pub use_at : ℕ → ℕ → List PooledEndpoint → List PooledEndpoint
use_at now i [] = []
use_at now zero (e ∷ es) = record e { last_used = now } ∷ es
use_at now (suc i) (e ∷ es) = let rest = use_at now i es in e ∷ rest

-- The loop of `get_provider` over one of the lists: the index that it takes, if any, and the index to
-- start from the next time. `permits` tells of which endpoints a permit comes in time.
pub pick : ℕ → (ℕ → Bool) → List PooledEndpoint → ℕ → Option ℕ × ℕ
pick zero permits es next = (none, next)
pick (suc n) permits es next =
    let after = (next + 1) % length es in
    let rest = pick n permits es after in
    elim (at next es) [
      | none ↦ (none, next)
      | some e ↦ if is_available e.info && permits next then (some next, after) else rest
    ]

-- The endpoint that `get_provider` takes.
pub data Choice : Type 0 where
  primary backup : ℕ → Choice
  no_endpoint : Choice

-- The backup endpoints, once no primary one was taken.
abbrev pub take_backup : ℕ → Option ℕ × ℕ → RpcConnectionPool → Choice × RpcConnectionPool
take_backup now (none, next) pool = (no_endpoint, record pool { next_backup_index = next })
take_backup now (some i, next) pool = (
  backup i,
  record pool { backup_endpoints = use_at now i pool.backup_endpoints; next_backup_index = next },
)

abbrev pub take_primary :
    ℕ → (ℕ → Bool) → Option ℕ × ℕ → RpcConnectionPool → Choice × RpcConnectionPool
take_primary now permits (some i, next) pool = (
  primary i,
  record pool {
    primary_endpoints = use_at now i pool.primary_endpoints;
    next_primary_index = next;
  },
)
take_primary now permits (none, next) pool =
    take_backup now
      (pick (length pool.backup_endpoints) permits pool.backup_endpoints pool.next_backup_index)
      (record pool { next_primary_index = next })

-- `permits` and `backup_permits` tell in which lists' endpoints a permit comes in time.
abbrev pub get_provider :
    ℕ → (ℕ → Bool) → (ℕ → Bool) → RpcConnectionPool → Choice × RpcConnectionPool
get_provider now permits backup_permits pool =
    take_primary now backup_permits
      (pick (length pool.primary_endpoints) permits pool.primary_endpoints pool.next_primary_index)
      pool

-- `create_endpoint`, of a node that answers or does not.
abbrev pub create_endpoint : ℕ → Bool → ℕ → ℕ → ℕ → Option PooledEndpoint
create_endpoint now answers url priority max_concurrent =
    if answers
    then some (record { info = new_info url priority max_concurrent; last_used = now })
    else none

abbrev pub add_to : Bool → RpcConnectionPool → Option PooledEndpoint → Option RpcConnectionPool
add_to is_primary pool none = none
add_to is_primary pool (some e) = some (
    if is_primary
    then record pool { primary_endpoints = push pool.primary_endpoints e }
    else record pool { backup_endpoints = push pool.backup_endpoints e })

abbrev pub add_endpoint : ℕ → Bool → ℕ → Bool → RpcConnectionPool → Option RpcConnectionPool
add_endpoint now answers url is_primary pool =
    if any (has_url url) pool.primary_endpoints || any (has_url url) pool.backup_endpoints
    then none
    else add_to is_primary pool (
        create_endpoint now answers url
          (if is_primary then length pool.primary_endpoints else length pool.backup_endpoints + 100)
          pool.max_connections)

abbrev pub chosen_url : Choice → RpcConnectionPool → Option ℕ
chosen_url (primary i) pool = elim (at i pool.primary_endpoints) [
  | none ↦ none
  | some e ↦ some e.info.url
]
chosen_url (backup i) pool = elim (at i pool.backup_endpoints) [
  | none ↦ none
  | some e ↦ some e.info.url
]
chosen_url no_endpoint pool = none

-- `with_provider`, with whether the operation succeeds at the url it runs on, and when it ends.
abbrev pub with_provider :
    ℕ
    → ℕ
    → (ℕ → Bool)
    → (ℕ → Bool)
    → (ℕ → Bool)
    → RpcConnectionPool
    → Option Bool × RpcConnectionPool
with_provider now later permits backup_permits succeeds pool =
    let (choice, taken) = get_provider now permits backup_permits pool in
    elim (chosen_url choice taken) [
      | none ↦ (none, taken)
      | some url ↦ (
        some (succeeds url),
        record_at (if succeeds url then record_success later else record_error later) url taken,
      )
    ]
