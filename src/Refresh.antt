-- ===== src/Refresh.antt =====
-- internal/authn/refresh.go and internal/store/refreshtokens.go: refresh tokens, their rotation and
-- their revocation. The table is a list; a hash is unique in it, by its index. A statement that is
-- run by itself takes effect or does not, and a transaction ends as a Link says. The hash of a raw
-- token is the parameter `hash_token`, and a random token is drawn by the Env of a call.
pub mod OneLive
pub mod Login
pub mod Replay
pub mod Race
use pulse_pager.Prelude.{
  ℕ, ◌+◌, ◌*◌, Bool, true, false, ◌&&◌, ◌||◌, not, String, str_eq, Option, none, some, List, [],
  ◌∷◌, ◌++◌, ltb, ◌==◌, is_some, any, find, update_where, if◌then◌else◌,
}
use pulse_pager.Domain.{Time, hour}
use pulse_pager.Store.Db.{
  Error, no_rows, unavailable, Result, ok, err, Link, works, lost, commit_unknown,
}

-- domain.RefreshToken
pub record Token : Type 0 where
  pub id : ℕ
  pub user_id : ℕ
  pub family_id : ℕ
  pub replaced_by : Option ℕ
  pub token_hash : String
  pub created_at : Time
  pub expires_at : Time
  pub revoked_at : Option Time

-- The table, and the next number of its identity column.
pub record Tokens : Type 0 where
  pub rows : List Token
  pub seq : ℕ

abbrev pub has_hash : String → Token → Bool
has_hash h t = str_eq t.token_hash h

-- replaced_by IS NULL AND revoked_at IS NULL
abbrev pub is_live : Token → Bool
is_live t = not (is_some t.replaced_by) && not (is_some t.revoked_at)

unfoldable pub get_by_hash : String → Tokens → Option Token
get_by_hash h ts = find (has_hash h) ts.rows

-- The row of an INSERT, by its columns.
abbrev pub new_token : ℕ → ℕ → ℕ → String → Time → Time → Token
new_token id user_id family_id h now expires_at = record {
  id = id;
  user_id = user_id;
  family_id = family_id;
  replaced_by = none;
  token_hash = h;
  created_at = now;
  expires_at = expires_at;
  revoked_at = none;
}

abbrev pub insert_token : Token → Tokens → Tokens
insert_token t ts = record { rows = ts.rows ++ t ∷ []; seq = ts.seq + 1 }

-- UPDATE refresh_tokens SET replaced_by = $1 WHERE token_hash = $2
abbrev pub replace_with : ℕ → Token → Token
replace_with id t = record t { replaced_by = some id }

-- The SELECT of RotateRefreshToken, which takes no lock.
unfoldable pub select_live : String → Tokens → Option Token
select_live old_hash ts = find (λ t. has_hash old_hash t && is_live t) ts.rows

-- Its INSERT, and its UPDATE, which does not look whether the old token is still live.
unfoldable pub write_next : Token → String → String → Time → Tokens → Result (ℕ × Tokens)
write_next t old_hash new_hash now ts =
    if any (has_hash new_hash) ts.rows
    then err unavailable
    else ok (
      ts.seq,
      record {
        rows =
            update_where (has_hash old_hash) (replace_with ts.seq)
              (ts.rows ++ new_token ts.seq t.user_id t.family_id new_hash now t.expires_at ∷ []);
        seq = ts.seq + 1;
      },
    )

-- The body of RotateRefreshToken, run with no other transaction in between.
unfoldable pub rotate_row : String → String → Time → Tokens → Result (ℕ × Tokens)
unfolding select_live write_next
rotate_row old_hash new_hash now ts = elim (select_live old_hash ts) [
  | none ↦ err no_rows
  | some t ↦ write_next t old_hash new_hash now ts
]

-- Commit or roll back, as the connection has it.
abbrev pub commit : Link → Tokens → Result (ℕ × Tokens) → Tokens × Result ℕ
commit works ts (ok (id, ts')) = (ts', ok id)
commit works ts (err e) = (ts, err e)
commit lost ts _ = (ts, err unavailable)
commit commit_unknown ts (ok (id, ts')) = (ts', err unavailable)
commit commit_unknown ts (err e) = (ts, err e)

unfoldable pub rotate_refresh_token : Link → String → String → Time → Tokens → Tokens × Result ℕ
unfolding rotate_row
rotate_refresh_token link old_hash new_hash now ts =
    commit link ts (rotate_row old_hash new_hash now ts)

abbrev pub revoke_at : Time → Token → Token
revoke_at now t = record t { revoked_at = some now }

-- UPDATE ... SET revoked_at = now() WHERE family_id = $1 AND revoked_at IS NULL
unfoldable pub revoke_family_rows : ℕ → Time → Tokens → Tokens
revoke_family_rows family_id now ts = record ts {
  rows =
      update_where (λ t. t.family_id == family_id && not (is_some t.revoked_at)) (revoke_at now)
        ts.rows;
}

-- UPDATE ... SET revoked_at = now() WHERE user_id = $1 AND revoked_at IS NULL
unfoldable pub revoke_all_for_user : ℕ → Time → Tokens → Tokens
revoke_all_for_user user_id now ts = record ts {
  rows =
      update_where (λ t. t.user_id == user_id && not (is_some t.revoked_at)) (revoke_at now)
        ts.rows;
}

-- CreateRefreshToken for a new family: two statements, each of which takes effect or fails. If the
-- second one fails, the row stays in family 0 and no token is returned.
unfoldable pub create_root : Bool → Bool → ℕ → String → Time → Time → Tokens → Tokens × Result ℕ
create_root inserts roots user_id h now expires_at ts =
    let t = new_token ts.seq user_id 0 h now expires_at in
    if inserts && not (any (has_hash h) ts.rows)
    then if roots
      then (insert_token (record t { family_id = ts.seq }) ts, ok ts.seq)
      else (insert_token t ts, err unavailable)
    else (ts, err unavailable)

pub record Env : Type 0 where
  pub reads : Bool
  pub rotates : Link
  pub revokes : Bool
  pub fresh : Option String
  pub now : Time

pub record Rotated : Type 0 where
  pub raw : String
  pub user_id : ℕ
  pub family_id : ℕ
  pub expires : Time

-- What Rotate returns: a token, ErrReuseDetected, ErrRefreshInvalid, or another error.
pub data Answer : Type 0 where
  rotated : Rotated → Answer
  reuse_detected invalid failed : Answer

-- The family goes, or the statement fails, which Rotate does not look at.
abbrev pub try_revoke : Env → ℕ → Tokens → Tokens
try_revoke env family_id ts =
    let after = revoke_family_rows family_id env.now ts in if env.revokes then after else ts

-- refreshTTL
abbrev pub refresh_ttl : Time
refresh_ttl = 30 * 24 * hour

pub record IssuedRefresh : Type 0 where
  pub raw : String
  pub family_id : ℕ
  pub expires : Time

module _ (hash_token : String → String) where
  -- Issue, on a fresh token or none, and what the two statements of the store do.
  unfoldable pub issue :
      Bool → Bool → Option String → Time → ℕ → Tokens → Tokens × Option IssuedRefresh
  unfolding create_root
  issue inserts roots none now user_id ts = (ts, none)
  issue inserts roots (some raw) now user_id ts =
      let expires_at = now + refresh_ttl in
      let (ts', created) = create_root inserts roots user_id (hash_token raw) now expires_at ts in
      elim created [
        | err e ↦ (ts', none)
        | ok id ↦ (ts', some (record { raw = raw; family_id = id; expires = expires_at }))
      ]

  -- The end of Rotate, from the store's answer on.
  unfoldable pub finish : Env → Token → String → Tokens × Result ℕ → Tokens × Answer
  unfolding revoke_family_rows
  finish env existing raw (ts, ok id) = (
    ts,
    rotated (record {
      raw = raw;
      user_id = existing.user_id;
      family_id = existing.family_id;
      expires = existing.expires_at;
    }),
  )
  finish env existing raw (ts, err no_rows) = (try_revoke env existing.family_id ts, reuse_detected)
  finish env existing raw (ts, err e) = (ts, failed)

  -- Rotate, from the fresh token on.
  unfoldable pub issue_next : Env → String → Token → Option String → Tokens → Tokens × Answer
  unfolding finish rotate_refresh_token
  issue_next env old_hash existing none ts = (ts, failed)
  issue_next env old_hash existing (some raw) ts =
      finish env existing raw
        (rotate_refresh_token env.rotates old_hash (hash_token raw) env.now ts)

  -- Rotate, from the token that the hash finds on.
  unfoldable pub rotate_found : Env → String → Token → Tokens → Tokens × Answer
  unfolding issue_next revoke_family_rows
  rotate_found env old_hash existing ts =
      if is_some existing.replaced_by
      then (try_revoke env existing.family_id ts, reuse_detected)
      else if is_some existing.revoked_at || not (ltb env.now existing.expires_at)
      then (ts, invalid)
      else issue_next env old_hash existing env.fresh ts

  unfoldable pub rotate : Env → String → Tokens → Tokens × Answer
  unfolding rotate_found get_by_hash
  rotate env presented_raw ts =
      let old_hash = hash_token presented_raw in
      if env.reads
      then elim (get_by_hash old_hash ts) [
        | none ↦ (ts, invalid)
        | some existing ↦ rotate_found env old_hash existing ts
      ]
      else (ts, failed)

  -- RevokeFamily, the sign-out of a device: the table after it, and whether it succeeds.
  unfoldable pub revoke_family : Env → String → Tokens → Tokens × Bool
  unfolding get_by_hash revoke_family_rows
  revoke_family env presented_raw ts =
      if env.reads
      then elim (get_by_hash (hash_token presented_raw) ts) [
        | none ↦ (ts, true)
        | some existing ↦ (try_revoke env existing.family_id ts, env.revokes)
      ]
      else (ts, false)
