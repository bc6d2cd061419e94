-- ===== src/Tests/Naming.antt =====
-- Slugs of concrete arguments.
use dotagent.Common.{◌+◌, ◌≡◌, refl, ◌&&◌, List, [], ◌∷◌, map, leb, if◌then◌else◌}
use dotagent.Common.Text.{Text, codes, is_ascii_alphanumeric}
use dotagent.Slug.{slug_from_args, has_pair}
use dotagent.Slug.Safe.{IsSlug, slug_from_args-IsSlug}

-- the lower case of ASCII
abbrev lower : Text → Text
lower s = map (λ c. if leb b'A' c && leb c b'Z' then c + 32 else c) s

abbrev args : List Text
args = codes "--Daily" ∷ codes "../x" ∷ codes "--" ∷ []

slug_from_args-IsSlug_example : IsSlug (slug_from_args lower args)
slug_from_args-IsSlug_example = slug_from_args-IsSlug lower args

daily_x : slug_from_args lower args ≡ codes "daily_x"
unfolding slug_from_args has_pair is_ascii_alphanumeric
daily_x = refl
