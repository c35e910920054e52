-- ===== src/Texts.antt =====
-- Texts, as lists of code points, and what the services ask of them.
use Prim.Native.Char.{code}
use Prim.Native.String.{String}
use diamond_bot_v.Base.{
  ℕ, ◌≡◌, Bool, true, false, ◌&&◌, ◌||◌, List, [], ◌∷◌, ◌==◌, arith, Bool-cases, inl, inr,
}

abbrev pub Text : Type 0
Text = List ℕ

abbrev pub codes : String → Text
codes String.[] = []
codes (String.◌∷◌ c s) = code c ∷ codes s

-- `text.starts_with(word)` and `text.contains(word)`
unfoldable pub starts_with : Text → Text → Bool
starts_with [] s = true
starts_with (c ∷ w) [] = false
starts_with (c ∷ w) (d ∷ s) = c == d && starts_with w s

unfoldable pub has : Text → Text → Bool
unfolding starts_with
has w [] = starts_with w []
has w (d ∷ s) = starts_with w (d ∷ s) || has w s

module _ (c : ℕ) where
  starts_with-has :
      (w s : Text) → starts_with w s ≡ true → has (c ∷ []) w ≡ true → has (c ∷ []) s ≡ true
  unfolding starts_with has
  starts_with-has [] s e f = cc
  starts_with-has (d ∷ w) [] e f = cc
  starts_with-has (d ∷ w) (d' ∷ s) e f = ground (arith, starts_with-has w s)

  -- A text that has a word has each letter of the word.
  pub has-has : (w s : Text) → has w s ≡ true → has (c ∷ []) w ≡ true → has (c ∷ []) s ≡ true
  unfolding has
  has-has w [] e f = starts_with-has w [] e f
  has-has w (d ∷ s) e f = elim (Bool-cases (starts_with w (d ∷ s))) [
    | inl b ↦ starts_with-has w (d ∷ s) b f
    | inr b ↦ ground (arith, b, has-has w s)
  ]
