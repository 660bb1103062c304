-- ===== src/Notifier/Config.antt =====
-- internal/notify/service.go: the id that the runner puts into a channel's configuration, and that
-- the recording provider reads and takes out again. A configuration maps a key to a value or to
-- none; a nil map reads as the empty one. A key may hold null, which is a value of kind `other`.
use pulse_pager.Prelude.{
  ℕ, String, str_eq, Bool-cases, inl, inr, Option, none, some, is_some, ◌≡◌, refl, if◌then◌else◌,
}

-- A value of a map[string]any: an int64, an int, a float64 by its whole part, which is what its
-- conversion keeps, or anything else, by its text. Numbers that are ids are not negative.
pub data Value : Type 0 where
  int64 int float64 : ℕ → Value
  other : String → Value

abbrev pub Config : Type 0
Config = String → Option Value

-- channelIDKey
abbrev pub channel_id_key : String
channel_id_key = "__pulse_channel_id"

-- ch.Config[channelIDKey] = ch.ID
unfoldable pub stamp_channel_id : ℕ → Config → Config
stamp_channel_id id cfg = λ k. if str_eq k channel_id_key then some (int64 id) else cfg k

abbrev int64_of : Option Value → ℕ
int64_of (some (int64 n)) = n
int64_of (some (int n)) = n
int64_of (some (float64 n)) = n
int64_of (some (other _)) = 0
int64_of none = 0

-- channelIDFromCfg
unfoldable pub channel_id_from_cfg : Config → ℕ
channel_id_from_cfg cfg = int64_of (cfg channel_id_key)

-- stripChannelID
unfoldable pub strip_channel_id : Config → Config
strip_channel_id cfg =
    if is_some (cfg channel_id_key)
    then (λ k. if str_eq k channel_id_key then none else cfg k)
    else cfg

pub channel_id_from_cfg-stamp_channel_id :
    (id : ℕ) (cfg : Config) → channel_id_from_cfg (stamp_channel_id id cfg) ≡ id
unfolding channel_id_from_cfg stamp_channel_id
channel_id_from_cfg-stamp_channel_id id cfg = refl

strip-stamp :
    (id : ℕ) (cfg : Config) (k : String)
    → strip_channel_id (stamp_channel_id id cfg) k
      ≡ (if str_eq k channel_id_key then none else cfg k)
unfolding stamp_channel_id strip_channel_id
strip-stamp id cfg k = elim (Bool-cases (str_eq k channel_id_key)) [
  | inl h ↦ rw h refl
  | inr h ↦ rw h refl
]

-- Once the runner has put a channel's id into its configuration, the recording provider reads that
-- id, and what it hands to the real provider is the configuration without the id's key.
pub stamp_channel_id-strip_channel_id :
    (id : ℕ) (cfg : Config)
    → (channel_id_from_cfg (stamp_channel_id id cfg) ≡ id)
      × (strip_channel_id (stamp_channel_id id cfg)
          ≡ (λ k. if str_eq k channel_id_key then none else cfg k))
stamp_channel_id-strip_channel_id id cfg =
    (channel_id_from_cfg-stamp_channel_id id cfg, λ i k. strip-stamp id cfg k i)
