-- ===== src/Rpc/Backups.antt =====
-- Which URL answers in the end.
use diamond_bot_v.Base.{ℕ, ◌≡◌, ◌⊎◌, refl, ◌∙◌, true, false, List, [], ◌∷◌, inl, inr}
use diamond_bot_v.Texts.{Text}
use diamond_bot_v.Rpc.Errors.{names_connection}
use diamond_bot_v.Rpc.Retrying.{Reply, ok, err}
use diamond_bot_v.Rpc.Rotation.{try_backups, with_rpc_rotation, or_next}

module _ {T : Type 0} where
  or_next-cases :
      (r rest : Reply T)
      → ((t : T) × (r ≡ ok t) × (or_next r rest ≡ ok t))
        ⊎ ((e : Text) × (r ≡ err e) × (or_next r rest ≡ rest))
  or_next-cases (ok t) rest = inl (t, refl, refl)
  or_next-cases (err e) rest = inr (e, refl, refl)

module _ {T : Type 0} (f : ℕ → Reply T) where
  -- Every one of the URLs gives an error.
  abbrev pub AllFail : List ℕ → Type 0
  AllFail [] = Unit {0}
  AllFail (u ∷ us) = ((e : Text) × (f u ≡ err e)) × AllFail us

  -- `t` is the answer of one of the URLs, and all before it give errors.
  abbrev pub IsFirstAnswer : List ℕ → T → Type 0
  IsFirstAnswer [] t = ⊥
  IsFirstAnswer (u ∷ us) t = (f u ≡ ok t) ⊎ (((e : Text) × (f u ≡ err e)) × IsFirstAnswer us t)

  try_backups-cases :
      (urls : List ℕ) (e : Text)
      → ((t : T) × (try_backups f urls e ≡ ok t) × IsFirstAnswer urls t)
        ⊎ ((try_backups f urls e ≡ err e) × AllFail urls)
  unfolding try_backups
  try_backups-cases [] e = inr (refl, tt)
  try_backups-cases (u ∷ us) e = elim (or_next-cases (f u) (try_backups f us e)) [
    | inl (t, a, b) ↦ inl (t, b, inl a)
    | inr (x, a, b) ↦ elim (try_backups-cases us e) [
      | inl (t, c, d) ↦ inl (t, b ∙ c, inr ((x, a), d))
      | inr (c, d) ↦ inr (b ∙ c, ((x, a), d))
    ]
  ]

  -- If the primary URL fails with an error of the connection, then the answer is that of the first
  -- backup, in their order, that gives one; and if all fail, it is the error of the primary URL.
  pub rotation_finds_first :
      (primary : ℕ) (backups : List ℕ) (e : Text)
      → f primary ≡ err e
      → names_connection e ≡ true
      → ((t : T) × (with_rpc_rotation f primary backups ≡ ok t) × IsFirstAnswer backups t)
        ⊎ ((with_rpc_rotation f primary backups ≡ err e) × AllFail backups)
  rotation_finds_first primary backups e p c = rw (p, c) (try_backups-cases backups e)

  -- Any other error of the primary URL is the answer, whatever the backups would give.
  pub rotation_keeps_other_errors :
      (primary : ℕ) (backups : List ℕ) (e : Text)
      → f primary ≡ err e
      → names_connection e ≡ false
      → with_rpc_rotation f primary backups ≡ err e
  rotation_keeps_other_errors primary backups e p c = rw (p, c)
