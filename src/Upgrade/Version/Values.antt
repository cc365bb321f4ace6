-- ===== src/Upgrade/Version/Values.antt =====
-- The functions that throw on an invalid version, on versions that parse.
use persistent_memory_stack.Prelude.{arith, refl, some, ◌≡◌}
use persistent_memory_stack.Prelude.Text.{Text}
use persistent_memory_stack.Prelude.Result.{ok}
use persistent_memory_stack.Upgrade.Version.{
  Version, compare_parsed, compare_versions, match_version, next_patch, next_patch_version,
  parse_version, print_version,
}

module _ (a : Text) (v : Version) (valid : match_version a ≡ some v) where
  parse_version_value : parse_version a ≡ ok v
  unfolding parse_version
  parse_version_value = rw (valid, parse_version) refl

  pub compare_versions_value :
      (b : Text) (w : Version)
      → match_version b ≡ some w
      → compare_versions a b ≡ ok (compare_parsed v w)
  unfolding compare_versions parse_version
  compare_versions_value b w h = ground arith

  pub next_patch_version_value : next_patch_version a ≡ ok (print_version (next_patch v))
  unfolding next_patch_version parse_version
  next_patch_version_value = ground arith

-- The exception is raised exactly for text that is no version.
pub parse_version-ok : (a : Text) (v : Version) → parse_version a ≡ ok v → match_version a ≡ some v
unfolding parse_version
parse_version-ok a v h = ground arith
