-- ===== src/Service/Names.antt =====
-- The tests on strings of backend/app: prefixes, suffixes, parts, and the last component of a path.
use netscope_x.Prelude.{Bool, true, false, [], ◌∷◌, ◌&&◌, ◌||◌, Text, ◌==◌, nat_ord, if◌then◌else◌}
use mathlib.Core.List.{reverse}

-- `t.startswith(p)`
unfoldable pub starts_with : Text → Text → Bool
starts_with [] t = true
starts_with (c ∷ p) [] = false
starts_with (c ∷ p) (d ∷ t) = c == d && starts_with p t

-- `t.endswith(s)`
abbrev pub ends_with : Text → Text → Bool
ends_with s t = starts_with (reverse s) (reverse t)

-- `p in t`
unfoldable pub has_part : Text → Text → Bool
unfolding starts_with
has_part p [] = starts_with p []
has_part p (c ∷ t) = starts_with p (c ∷ t) || has_part p t

-- `t.rsplit("/", 1)[-1]`, where `name` is what stands behind the last slash so far
unfoldable pub last_name : Text → Text → Text
last_name name [] = name
last_name name (c ∷ t) = last_name (if c == 47 then t else name) t
