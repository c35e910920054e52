-- ===== src/Rpc/Rotation.antt =====
-- `with_rpc_rotation`. What the call answers at a URL is a function of it.
use diamond_bot_v.Base.{ℕ, List, [], ◌∷◌, if◌then◌else◌}
use diamond_bot_v.Texts.{Text}
use diamond_bot_v.Rpc.Errors.{names_connection}
use diamond_bot_v.Rpc.Retrying.{Reply, ok, err}

abbrev pub or_next : {T : Type 0} → Reply T → Reply T → Reply T
or_next (ok t) rest = ok t
or_next (err e) rest = rest

module _ {T : Type 0} (f : ℕ → Reply T) where
  -- The loop over the backups; the primary's error if all fail.
  unfoldable pub try_backups : List ℕ → Text → Reply T
  try_backups [] primary_error = err primary_error
  try_backups (url ∷ urls) primary_error = or_next (f url) (try_backups urls primary_error)

  abbrev pub after_primary : Reply T → List ℕ → Reply T
  after_primary (ok t) backups = ok t
  after_primary (err e) backups = if names_connection e then try_backups backups e else err e

  abbrev pub with_rpc_rotation : ℕ → List ℕ → Reply T
  with_rpc_rotation primary backups = after_primary (f primary) backups
