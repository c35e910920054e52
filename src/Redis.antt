-- ===== src/Redis.antt =====
-- The store of the message queue, a parameter: sorted sets of ids, cached values and channels. It
-- stands for the Redis server and the cache code around it, without expiry and blocking. A reply that is an error says
-- nothing about the store.
pub mod Sample
use diamond_bot_v.Base.{ℕ, ◌≡◌, ◌≢◌, ◌≤◌, ◌⊎◌, Bool, Option, none, some}

pub data Reply (A : Type 0) : Type 0 where
  done : A → Reply A
  failed : Reply A

pub record Redis (V : Type 0) : Type 1 where
  pub Store : Type 0
  -- The score of a member in the sorted set at a key, and the value cached for an id.
  pub score : ℕ → ℕ → Store → Option ℕ
  pub cached : ℕ → Store → Option V
  pub set : ℕ → V → ℕ → Store → Reply (Unit {0}) × Store
  pub get : ℕ → Store → Reply (Option V)
  pub delete : ℕ → Store → Reply (Unit {0}) × Store
  pub publish : ℕ → V → Store → Reply (Unit {0}) × Store
  pub zadd : ℕ → ℕ → ℕ → Store → Reply (Unit {0}) × Store
  pub zrem : ℕ → ℕ → Store → Reply (Unit {0}) × Store
  pub bzpopmax : ℕ → ℕ → Store → Reply (Option (ℕ × ℕ)) × Store
  pub set-cached :
      (id : ℕ) (v : V) (ttl i : ℕ) (s s' : Store)
      → set id v ttl s ≡ (done tt, s')
      → ((i ≡ id) × (cached i s' ≡ some v)) ⊎ ((i ≢ id) × (cached i s' ≡ cached i s))
  pub set-score :
      (id : ℕ) (v : V) (ttl k m : ℕ) (s s' : Store)
      → set id v ttl s ≡ (done tt, s')
      → score k m s' ≡ score k m s
  pub get-cached : (id : ℕ) (o : Option V) (s : Store) → get id s ≡ done o → o ≡ cached id s
  pub delete-cached :
      (id i : ℕ) (s s' : Store)
      → delete id s ≡ (done tt, s')
      → ((i ≡ id) × (cached i s' ≡ none)) ⊎ ((i ≢ id) × (cached i s' ≡ cached i s))
  pub delete-score :
      (id k m : ℕ) (s s' : Store) → delete id s ≡ (done tt, s') → score k m s' ≡ score k m s
  pub publish-cached :
      (c i : ℕ) (v : V) (s s' : Store) → publish c v s ≡ (done tt, s') → cached i s' ≡ cached i s
  pub publish-score :
      (c k m : ℕ) (v : V) (s s' : Store)
      → publish c v s ≡ (done tt, s')
      → score k m s' ≡ score k m s
  pub zadd-score :
      (key n member k m : ℕ) (s s' : Store)
      → zadd key n member s ≡ (done tt, s')
      → ((k ≡ key) × (m ≡ member) × (score k m s' ≡ some n))
        ⊎ (((k ≢ key) ⊎ (m ≢ member)) × (score k m s' ≡ score k m s))
  pub zadd-cached :
      (key n member i : ℕ) (s s' : Store)
      → zadd key n member s ≡ (done tt, s')
      → cached i s' ≡ cached i s
  pub zrem-score :
      (key member k m : ℕ) (s s' : Store)
      → zrem key member s ≡ (done tt, s')
      → ((k ≡ key) × (m ≡ member) × (score k m s' ≡ none))
        ⊎ (((k ≢ key) ⊎ (m ≢ member)) × (score k m s' ≡ score k m s))
  pub zrem-cached :
      (key member i : ℕ) (s s' : Store)
      → zrem key member s ≡ (done tt, s')
      → cached i s' ≡ cached i s
  pub bzpopmax-score :
      (key timeout member n k m : ℕ) (s s' : Store)
      → bzpopmax key timeout s ≡ (done (some (member, n)), s')
      → ((k ≡ key) × (m ≡ member) × (score k m s ≡ some n) × (score k m s' ≡ none))
        ⊎ (((k ≢ key) ⊎ (m ≢ member)) × (score k m s' ≡ score k m s))
  pub bzpopmax-max :
      (key timeout member n m p : ℕ) (s s' : Store)
      → bzpopmax key timeout s ≡ (done (some (member, n)), s')
      → score key m s ≡ some p
      → p ≤ n
  pub bzpopmax-cached :
      (key timeout i : ℕ) (o : Option (ℕ × ℕ)) (s s' : Store)
      → bzpopmax key timeout s ≡ (done o, s')
      → cached i s' ≡ cached i s
  pub bzpopmax-none :
      (key timeout k m : ℕ) (s s' : Store)
      → bzpopmax key timeout s ≡ (done none, s')
      → score k m s' ≡ score k m s
