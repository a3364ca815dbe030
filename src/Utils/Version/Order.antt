-- ===== src/Utils/Version/Order.antt =====
-- The order of versions that `pgvictoria_version_ge` decides.
use pgvictoria.Prelude.{ℕ, ◌<◌, ◌≤◌, ◌≡◌, ◌↔◌, ◌⊎◌, true, arith}
use pgvictoria.Utils.Version.{version_as_number, version_number, version_ge}

-- The first version is the later one, or the same, by its parts from the left.
abbrev pub IsAtLeast : ℕ → ℕ → ℕ → ℕ → ℕ → ℕ → Type 0
IsAtLeast a b c major minor patch =
    (major < a) ⊎ ((major ≡ a) × ((minor < b) ⊎ ((minor ≡ b) × (patch ≤ c))))

-- Where the parts of both versions are below 100, `pgvictoria_version_ge` holds exactly if the
-- program's own version is at least the given one, compared part by part.
version_ge_iff :
    (a b c major minor patch : ℕ)
    → a < 100
    → b < 100
    → c < 100
    → major < 100
    → minor < 100
    → patch < 100
    → (version_ge a b c major minor patch ≡ true) ↔ IsAtLeast a b c major minor patch
unfolding version_ge version_number version_as_number
version_ge_iff a b c major minor patch ha hb hc h i j = ground arith
