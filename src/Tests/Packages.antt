-- ===== src/Tests/Packages.antt =====
-- Runs of src/vsl_paths.cpp and src/vsl_resolver.cpp, and the theorems at concrete inputs.
use visuall.Base.{refl, codes, ◌≡◌, some, none, true, length, ◌≤◌}
use visuall.Packages.Newest.{Newest, merge_version-Newest}
use visuall.Packages.Versions.{parse_semver, merge_version, kept, major_conflict}
use visuall.Packages.Paths.{
  sanitize_url_for_cache, is_safe, sanitize_url_for_cache-scheme, sanitize_url_for_cache-safe,
}
use visuall.Lexer.Words.Reading.{all_bytes}
use visuall.Lexer.Cursor.{first, second}

sanitize-github :
    sanitize_url_for_cache (codes "https://github.com/a/b c") ≡ codes "github.com_a_b_c.git"
unfolding sanitize_url_for_cache first second
sanitize-github = refl

-- Text behind the third number is not looked at.
parse-suffix : parse_semver (codes "1.2.3-beta") ≡ parse_semver (codes " 1 . 2 . 3")
unfolding parse_semver first
parse-suffix = refl

parse-short : parse_semver (codes "1.2") ≡ none
unfolding parse_semver first
parse-short = refl

merge-newer : merge_version (some (codes "1.2.9")) (codes "1.10.0") ≡ kept (codes "1.10.0")
unfolding merge_version first
merge-newer = refl

merge-conflict :
    merge_version (some (codes "1.2.9")) (codes "2.0.0")
    ≡ major_conflict (codes "1.2.9") (codes "2.0.0")
unfolding merge_version first
merge-conflict = refl

sanitize_url_for_cache-safe_example :
    (all_bytes is_safe (sanitize_url_for_cache (codes "file:///../x")) ≡ true)
    × (length (sanitize_url_for_cache (codes "file:///../x")) ≤ 204)
sanitize_url_for_cache-safe_example = sanitize_url_for_cache-safe (codes "file:///../x")

sanitize_url_for_cache-scheme_example :
    sanitize_url_for_cache (codes "https://a.b/c") ≡ sanitize_url_for_cache (codes "git://a.b/c")
sanitize_url_for_cache-scheme_example =
    sanitize_url_for_cache-scheme (codes "https") (codes "git") (codes "a.b/c") refl refl

merge_version-Newest_example : Newest (codes "1.2.9") (codes "1.10.0") (codes "1.10.0")
merge_version-Newest_example = merge_version-Newest (codes "1.2.9") (codes "1.10.0") merge-newer
