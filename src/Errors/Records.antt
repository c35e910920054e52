-- ===== src/Errors/Records.antt =====
-- What the store of errors holds: under which ids, and which errors overwrite others.
use diamond_bot_v.Base.{
  ℕ, ◌+◌, ◌*◌, ◌%◌, ◌^◌, ◌≡◌, refl, ap, ◌∙◌, Option, none, some, List, [], ◌∷◌, map, if◌then◌else◌,
  ◌==◌, Dict, lookup, insert, erase, HasDistinctKeys, arith, Bool-cases, Option-cases, inl, inr,
  lookup-insert, lookup-erase,
}
use diamond_bot_v.Words.{◌>>=◌}
use diamond_bot_v.Texts.{Text}
use diamond_bot_v.Errors.Classify.{classify_blockchain_error}
use diamond_bot_v.Errors.Recovery.{get_recovery_info}
use diamond_bot_v.Errors.Store.{
  BlockchainError, BasicErrorHandler, ErrorHandlerConfig, ErrorStatus, Formats, Clock, basic, new,
  is_old, remove_old, cleanup_old_errors, update_error_status, handle_transaction_error,
  from_transaction_error, error_name, update_config, store_status,
}

-- The ids are distinct, and every error stands under its own.
abbrev pub HasOwnIds : Dict BlockchainError → Type 0
HasOwnIds [] = Unit {0}
HasOwnIds ((id, e) ∷ d) = (e.error_id ≡ id) × (lookup id d ≡ none) × HasOwnIds d

pub HasOwnIds-once : (d : Dict BlockchainError) → HasOwnIds d → HasDistinctKeys d
HasOwnIds-once [] h = tt
HasOwnIds-once ((id, e) ∷ d) h = (h.1, HasOwnIds-once d h.2)

insert-HasOwnIds :
    (e : BlockchainError) (d : Dict BlockchainError)
    → HasOwnIds d
    → HasOwnIds (insert e.error_id e d)
insert-HasOwnIds e [] h = (refl, refl, tt)
insert-HasOwnIds e ((id, x) ∷ d) h =
    ground (arith, insert-HasOwnIds e d h.2, lookup-insert e.error_id id e d)

pub erase-HasOwnIds : (id : ℕ) (d : Dict BlockchainError) → HasOwnIds d → HasOwnIds (erase id d)
erase-HasOwnIds id [] h = tt
erase-HasOwnIds id ((j, x) ∷ d) h =
    ground (arith, erase-HasOwnIds id d h.2, lookup-erase id j d (HasOwnIds-once d h.2))

insert-insert :
    (k : ℕ) (a b : BlockchainError) (d : Dict BlockchainError)
    → insert k b (insert k a d) ≡ insert k b d
insert-insert k a b [] = ground arith
insert-insert k a b ((j, x) ∷ d) = ground (arith, insert-insert k a b d)

-- Two errors of the same kind in the same second: after the second is handled, nothing in the
-- store tells of the first; it is as if it had never come.
pub same_second_overwrites :
    (formats : Formats) (first second : Clock) (msg msg' : Text) (h : BasicErrorHandler)
    → error_name (classify_blockchain_error formats.to_lowercase msg)
      ≡ error_name (classify_blockchain_error formats.to_lowercase msg')
    → first.timestamp ≡ second.timestamp
    → (handle_transaction_error formats basic first msg h >>= λ r.
        handle_transaction_error formats basic second msg' r.1)
      ≡ handle_transaction_error formats basic second msg' h
same_second_overwrites formats first second msg msg' h e f =
    let lower = formats.to_lowercase in
    let k = formats.format_id (error_name (classify_blockchain_error lower msg)) first.timestamp in
    let k' =
      formats.format_id (error_name (classify_blockchain_error lower msg')) second.timestamp in
    let same : k ≡ k' = cc in
    let a = from_transaction_error formats first (classify_blockchain_error lower msg) in
    let b = from_transaction_error formats second (classify_blockchain_error lower msg') in
    ap
      (λ d.
        some (get_recovery_info (classify_blockchain_error lower msg'), record h { errors = d }))
      (ap (λ i. insert k' b (insert i a h.errors)) same ∙ insert-insert k' a b h.errors)

found-own_id :
    (id : ℕ) (e : BlockchainError) (d : Dict BlockchainError)
    → HasOwnIds d
    → lookup id d ≡ some e
    → e.error_id ≡ id
found-own_id id e [] h f = cc
found-own_id id e ((j, x) ∷ d) h f = ground (arith, found-own_id id e d h.2)

-- In a store whose errors stand under their own ids, `update_error_status` of an error that is there
-- succeeds and changes the status and the time of that error, and nothing else of it; every other
-- error stays as it is, and each still stands under its own id.
pub update_error_status_lem :
    (id now : ℕ) (status : ErrorStatus) (h : BasicErrorHandler) (e : BlockchainError)
    → HasOwnIds h.errors
    → lookup id h.errors ≡ some e
    → (h' : BasicErrorHandler) × (update_error_status basic id status now h ≡ some h')
      × ((k : ℕ)
          → lookup k h'.errors ≡ (
              if id == k
              then some (record e { status = status; updated_at = now })
              else lookup k h.errors))
      × HasOwnIds h'.errors
update_error_status_lem id now status h e own found =
    let e' : BlockchainError = record e { status = status; updated_at = now } in
    let is_id = found-own_id id e h.errors own found in
    (
      record h { errors = insert e.error_id e' h.errors },
      ap (λ o. store_status basic o status now h) found,
      λ k. ground (arith, lookup-insert e.error_id k e' h.errors),
      insert-HasOwnIds e' h.errors own,
    )

pub data Call : Type 0 where
  adds : BlockchainError → Call
  handles : Clock → Text → Call
  sets_status : ℕ → ErrorStatus → ℕ → Call
  removes : ℕ → Call
  cleans : ℕ → ℕ → Call
  clears : Call
  configures : ErrorHandlerConfig → Call

abbrev pub kept_or : BasicErrorHandler → Option BasicErrorHandler → BasicErrorHandler
kept_or h none = h
kept_or h (some h') = h'

abbrev pub second : {A : Type 0} → Option (A × BasicErrorHandler) → Option BasicErrorHandler
second none = none
second (some (a, h)) = some h

remove_old-HasOwnIds :
    (now max_age : ℕ) (es : List BlockchainError) (count : ℕ) (base h : BasicErrorHandler)
    → HasOwnIds base.errors
    → HasOwnIds h.errors
    → HasOwnIds (kept_or base (second (remove_old basic now max_age es count h))).errors
unfolding remove_old
remove_old-HasOwnIds now max_age [] count base h a own = own
remove_old-HasOwnIds now max_age (e ∷ es) count base h a own =
    elim (Bool-cases (is_old now max_age e)) [
      | inl old ↦ rw old (
          remove_old-HasOwnIds now max_age es ((count + 1) % 2 ^ 64) base
            (record h { errors = erase e.error_id h.errors }) a
            (erase-HasOwnIds e.error_id h.errors own))
      | inr young ↦ rw young (remove_old-HasOwnIds now max_age es count base h a own)
    ]

module _ (formats : Formats) where
  -- The store after a call; one that fails leaves it.
  abbrev pub call : Call → BasicErrorHandler → BasicErrorHandler
  call (adds e) h = kept_or h (basic.add_error e h)
  call (handles clock msg) h =
      kept_or h (second (handle_transaction_error formats basic clock msg h))
  call (sets_status id status now) h = kept_or h (update_error_status basic id status now h)
  call (removes id) h = kept_or h (basic.remove_error id h)
  call (cleans now hours) h = kept_or h (second (cleanup_old_errors basic now hours h))
  call clears h = kept_or h (basic.clear_errors h)
  call (configures config) h = update_config config h

  abbrev pub run : List Call → BasicErrorHandler → BasicErrorHandler
  run [] h = h
  run (c ∷ cs) h = run cs (call c h)

  call-HasOwnIds :
      (c : Call) (h : BasicErrorHandler) → HasOwnIds h.errors → HasOwnIds (call c h).errors
  call-HasOwnIds (adds e) h own = insert-HasOwnIds e h.errors own
  call-HasOwnIds (handles clock msg) h own = insert-HasOwnIds _ h.errors own
  call-HasOwnIds (sets_status id status now) h own = elim (Option-cases (lookup id h.errors)) [
    | inl e ↦ rw e own
    | inr (x, e) ↦
        rw e (insert-HasOwnIds (record x { status = status; updated_at = now }) h.errors own)
  ]
  call-HasOwnIds (removes id) h own = erase-HasOwnIds id h.errors own
  call-HasOwnIds (cleans now hours) h own =
      remove_old-HasOwnIds now (hours * 3_600 % 2 ^ 64 * 10 ^ 9) (map (λ p. p.1) h.errors) 0 h h own
        own
  call-HasOwnIds clears h own = tt
  call-HasOwnIds (configures config) h own = own

  run-HasOwnIds :
      (cs : List Call) (h : BasicErrorHandler) → HasOwnIds h.errors → HasOwnIds (run cs h).errors
  run-HasOwnIds [] h own = own
  run-HasOwnIds (c ∷ cs) h own = run-HasOwnIds cs (call c h) (call-HasOwnIds c h own)

  -- After any calls of a new handler, of its own or of the functions over it, the ids of its errors are
  -- distinct and every error stands under its own id.
  pub run-new-HasOwnIds :
      (cs : List Call) (config : ErrorHandlerConfig) → HasOwnIds (run cs (new config)).errors
  run-new-HasOwnIds cs config = run-HasOwnIds cs (new config) tt
