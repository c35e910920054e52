-- ===== src/Rpc/Marked.antt =====
-- What `get_best_url` gives after a URL has been marked as unavailable.
use diamond_bot_v.Base.{◌≡◌, false, List, [], ◌∷◌, map, contains}
use diamond_bot_v.Rpc.Pool.{Checked}

-- Each URL stands once in the results.
abbrev pub IsOnce : List Checked → Type 0
IsOnce [] = Unit {0}
IsOnce (c ∷ cs) = (contains (map (λ d. d.url) cs) c.url ≡ false) × IsOnce cs
