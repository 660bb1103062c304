-- ===== src/Domain/Status.antt =====
-- internal/domain/status.go, and the public status and banner of internal/domain/domain.go.
use pulse_pager.Prelude.{ℕ, ◌+◌, Bool, true, false, ◌||◌, List, [], ◌∷◌, ◌==◌, if◌then◌else◌}

pub data Status : Type 0 where
  disabled pending down up : Status

pub data PublicStatus : Type 0 where
  operational down hidden : PublicStatus

pub data PublicBanner : Type 0 where
  operational partial major : PublicBanner

unfoldable pub derive_status : Bool → Bool → Bool → Status
derive_status enabled has_results open_incident =
    if enabled
    then (if has_results then (if open_incident then Status.down else up) else pending)
    else disabled

unfoldable pub derive_public_status : Status → PublicStatus
derive_public_status Status.down = PublicStatus.down
derive_public_status disabled = hidden
derive_public_status _ = PublicStatus.operational

abbrev pub is_hidden : PublicStatus → Bool
is_hidden hidden = true
is_hidden _ = false

abbrev pub is_down : PublicStatus → Bool
is_down PublicStatus.down = true
is_down _ = false

-- The loop of DeriveBanner: n visible monitors so far, of which d are down.
unfoldable pub banner_counts : ℕ → ℕ → List PublicStatus → ℕ × ℕ
banner_counts n d [] = (n, d)
banner_counts n d (s ∷ rest) =
    banner_counts (if is_hidden s then n else n + 1)
      (if is_hidden s then d else if is_down s then d + 1 else d) rest

-- The switch after the loop.
abbrev banner_of : ℕ × ℕ → PublicBanner
banner_of (n, d) =
    if n == 0 || d == 0 then PublicBanner.operational else if d == n then major else partial

unfoldable pub derive_banner : List PublicStatus → PublicBanner
unfolding banner_counts
derive_banner statuses = banner_of (banner_counts 0 0 statuses)
