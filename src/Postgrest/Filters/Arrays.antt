-- ===== src/Postgrest/Filters/Arrays.antt =====
-- The elements of an array are joined with commas and no quotes.
use securesupabase_js.Prelude.{◌≡◌, refl, List, [], ◌∷◌, ◌++◌}
use mathlib.Core.List.{append_assoc}
use securesupabase_js.Js.Text.{Str, codes, join}

pub join-split :
    (s t : Str) (ts : List Str)
    → join (codes ",") ((s ++ b',' ∷ t) ∷ ts) ≡ join (codes ",") (s ∷ t ∷ ts)
unfolding join
join-split s t [] = refl
join-split s t (u ∷ ts) = simp append_assoc
