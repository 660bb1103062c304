-- ===== src/Domain/Laws.antt =====
-- What the derived statuses, the banner and the warning level promise.
use pulse_pager.Prelude.{
  ℕ, pos, negsuc, ◌+◌, ◌*◌, ◌≤◌, ◌<◌, ◌≡◌, ◌↔◌, Bool, true, false, List, [], ◌∷◌, arith,
  count_where, not,
}
use pulse_pager.Domain.{Time}
use pulse_pager.Domain.Status.{
  PublicStatus, PublicBanner, hidden, major, partial, derive_status, derive_public_status,
  is_hidden, is_down, banner_counts, derive_banner,
}
use pulse_pager.Domain.SslWarn.{day, ssl_warn_level}

-- Visible monitors on a page, and those of them that are down.
abbrev pub visible : List PublicStatus → ℕ
visible statuses = count_where (λ s. not (is_hidden s)) statuses

abbrev pub visible_down : List PublicStatus → ℕ
visible_down statuses = count_where is_down statuses

banner_counts_lem :
    (n d : ℕ) (statuses : List PublicStatus)
    → banner_counts n d statuses ≡ (n + visible statuses, d + visible_down statuses)
unfolding banner_counts count_where
banner_counts_lem n d [] = ground arith
banner_counts_lem n d (PublicStatus.operational ∷ rest) =
    ground (arith, banner_counts_lem (n + 1) d rest)
banner_counts_lem n d (PublicStatus.down ∷ rest) =
    ground (arith, banner_counts_lem (n + 1) (d + 1) rest)
banner_counts_lem n d (hidden ∷ rest) = ground (arith, banner_counts_lem n d rest)

visible_down-le : (statuses : List PublicStatus) → visible_down statuses ≤ visible statuses
unfolding count_where
visible_down-le [] = omega arith
visible_down-le (PublicStatus.operational ∷ rest) = ground (arith, visible_down-le rest)
visible_down-le (PublicStatus.down ∷ rest) = ground (arith, visible_down-le rest)
visible_down-le (hidden ∷ rest) = ground (arith, visible_down-le rest)

-- The banner compares the monitors that are down with those that are visible: a major outage
-- exactly when there are visible monitors and all are down, a partial one exactly when some are
-- down and some are not, and operational exactly when none is down.
pub derive_banner_iff :
    (statuses : List PublicStatus)
    → ((derive_banner statuses ≡ PublicBanner.operational) ↔ (visible_down statuses ≡ 0))
      × ((derive_banner statuses ≡ major)
          ↔ ((0 < visible_down statuses) × (visible_down statuses ≡ visible statuses)))
      × ((derive_banner statuses ≡ partial)
          ↔ ((0 < visible_down statuses) × (visible_down statuses < visible statuses)))
unfolding derive_banner
derive_banner_iff statuses =
    ground (arith, banner_counts_lem 0 0 statuses, visible_down-le statuses)

-- A monitor stands on its public page exactly when it is enabled, and shows as down exactly when it
-- is enabled, has results and has an open incident.
pub derive_public_status_iff :
    (enabled has_results open_incident : Bool)
    → let shown = derive_public_status (derive_status enabled has_results open_incident) in
      ((shown ≡ hidden) ↔ (enabled ≡ false))
      × ((shown ≡ PublicStatus.down)
          ↔ ((enabled ≡ true) × (has_results ≡ true) × (open_incident ≡ true)))
unfolding derive_public_status derive_status
derive_public_status_iff enabled has_results open_incident = ground arith

-- The level is 0 exactly from expiry on, 1, 3 or 7 exactly when that is the least threshold, in
-- days, that the time left does not exceed, and -1 exactly when more than seven days are left.
pub ssl_warn_level_iff :
    (expires_at now : Time)
    → ((ssl_warn_level expires_at now ≡ pos 0) ↔ (expires_at ≤ now))
      × ((ssl_warn_level expires_at now ≡ pos 1)
          ↔ ((now < expires_at) × (expires_at ≤ now + 1 * day)))
      × ((ssl_warn_level expires_at now ≡ pos 3)
          ↔ ((now + 1 * day < expires_at) × (expires_at ≤ now + 3 * day)))
      × ((ssl_warn_level expires_at now ≡ pos 7)
          ↔ ((now + 3 * day < expires_at) × (expires_at ≤ now + 7 * day)))
      × ((ssl_warn_level expires_at now ≡ negsuc 0) ↔ (now + 7 * day < expires_at))
unfolding ssl_warn_level
ssl_warn_level_iff expires_at now = ground arith
