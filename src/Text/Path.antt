-- ===== src/Text/Path.antt =====
-- The functions of `path/filepath` that the program calls.
use beadle.Prelude.{[], ◌∷◌, reverse, if◌then◌else◌, is_nil, ◌==◌}
use beadle.Text.{Text, codes}

-- `filepath.Base`.
unfoldable pub drop_slashes : Text → Text
drop_slashes [] = []
drop_slashes (c ∷ s) = let rest = drop_slashes s in if c == b'/' then rest else c ∷ s

unfoldable pub until_slash : Text → Text
until_slash [] = []
until_slash (c ∷ s) = let rest = until_slash s in if c == b'/' then [] else c ∷ rest

unfoldable pub base : Text → Text
unfolding drop_slashes until_slash
base path =
    if is_nil path
    then codes "."
    else let name = reverse (until_slash (drop_slashes (reverse path))) in
      if is_nil name then codes "/" else name
