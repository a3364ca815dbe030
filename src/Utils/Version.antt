-- ===== src/Utils/Version.antt =====
-- The version numbers of utils.c. The program's own version, three macros that the build defines, is
-- a parameter.
pub mod Order
use pgvictoria.Prelude.{ℕ, ◌+◌, ◌*◌, ◌%◌, Bool, true, false, leb, if◌then◌else◌}

unfoldable pub version_as_number : ℕ → ℕ → ℕ → ℕ
version_as_number major minor patch = patch % 100 + (minor % 100) * 100 + (major % 100) * 10000

-- PGVICTORIA_MAJOR_VERSION, _MINOR_VERSION and _PATCH_VERSION
module _ (own_major own_minor own_patch : ℕ) where
  unfoldable pub version_number : ℕ
  unfolding version_as_number
  version_number = version_as_number own_major own_minor own_patch

  unfoldable pub version_ge : ℕ → ℕ → ℕ → Bool
  unfolding version_number version_as_number
  version_ge major minor patch =
      if leb (version_as_number major minor patch) version_number then true else false
