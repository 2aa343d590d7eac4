-- ===== src/Glob/Tests.antt =====
-- Runs of path.Match.
use vibewarden.Prelude.{◌≡◌, refl, true, false, some, none}
use vibewarden.Prelude.Text.{text_of}
use vibewarden.Glob.{match_path}

star_is_one_segment :
    (match_path (text_of "/api/*") (text_of "/api/users") ≡ some true)
    × (match_path (text_of "/api/*") (text_of "/api/users/5") ≡ some false)
    × (match_path (text_of "/a?[x-z]*") (text_of "/aby") ≡ some true)
    × (match_path (text_of "/a?[^x-z]") (text_of "/aby") ≡ some false)
    × (match_path (text_of "a\\*") (text_of "a*") ≡ some true)
    × (match_path (text_of "[]a]") (text_of "]") ≡ none)
    × (match_path (text_of "[a") (text_of "a") ≡ none)
unfolding match_path
star_is_one_segment = (refl, refl, refl, refl, refl, refl, refl)
