-- ===== src/Refresh/Replay.antt =====
-- internal/authn/refresh.go, Rotate: a token that was rotated is not good twice.
use pulse_pager.Prelude.{
  ℕ, ◌≡◌, refl, sym, ap, ◌∙◌, true, ◌&&◌, ◌||◌, not, String, Option, none, some, List, [], ◌∷◌,
  ◌++◌, arith, ◌==◌, ltb, is_some, find, update_where, count_where, if◌then◌else◌, inl, inr,
  Bool-cases, Option-cases, map_some, or_find, find-holds, find-append, find-update_where,
}
use pulse_pager.Store.Db.{no_rows, Result, ok, err, Link, works, lost, commit_unknown}
use pulse_pager.Domain.{Time}
use pulse_pager.Refresh.{
  Token, Tokens, has_hash, get_by_hash, new_token, replace_with, rotate_row, commit,
  rotate_refresh_token, revoke_at, revoke_family_rows, Env, Rotated, rotated, reuse_detected,
  finish, issue_next, rotate_found, rotate,
}
use pulse_pager.Refresh.OneLive.{live_in, rotate_row-ok}

revoke-none :
    (family_id : ℕ) (now : Time) (rows : List Token)
    → count_where (live_in family_id) (
        update_where
          (λ t. t.family_id == family_id && not (is_some t.revoked_at))
          (revoke_at now)
          rows)
      ≡ 0
unfolding update_where count_where
revoke-none family_id now [] = refl
revoke-none family_id now (x ∷ rows) = ground (arith, revoke-none family_id now rows)

-- The old hash still finds its token, which is now replaced.
rotate_row-found :
    (old new : String) (now : Time) (ts ts' : Tokens) (id : ℕ) (existing : Token)
    → get_by_hash old ts ≡ some existing
    → rotate_row old new now ts ≡ ok (id, ts')
    → get_by_hash old ts' ≡ some (replace_with ts.seq existing)
unfolding get_by_hash
rotate_row-found old new now ts ts' id existing found e =
    let (t, live, same) = rotate_row-ok old new now ts ts' id e in
    let added = new_token ts.seq t.user_id t.family_id new now t.expires_at in
    ap (get_by_hash old) (sym same)
    ∙ find-update_where (has_hash old) (has_hash old) (replace_with ts.seq) (λ x. refl)
        (ts.rows ++ added ∷ [])
    ∙ ap (map_some (λ x. if has_hash old x then replace_with ts.seq x else x)) (
        find-append (has_hash old) ts.rows (added ∷ [])
        ∙ ap (λ o. or_find o (find (has_hash old) (added ∷ []))) found)
    ∙ rw (find-holds (has_hash old) ts.rows found) refl

module _ (hash_token : String → String) (env : Env) where
  -- What a rotation that answers with a token has done, step by step.
  commit-ok :
      (link : Link) (ts ts' : Tokens) (id : ℕ) (r : Result (ℕ × Tokens))
      → commit link ts r ≡ (ts', ok id)
      → r ≡ ok (id, ts')
  commit-ok works ts ts' id (ok (k, t)) e = ground arith
  commit-ok works ts ts' id (err x) e = absurd (ground arith)
  commit-ok lost ts ts' id (ok (k, t)) e = absurd (ground arith)
  commit-ok lost ts ts' id (err x) e = absurd (ground arith)
  commit-ok commit_unknown ts ts' id (ok (k, t)) e = absurd (ground arith)
  commit-ok commit_unknown ts ts' id (err x) e = absurd (ground arith)

  finish-rotated :
      (existing : Token) (raw : String) (p : Tokens × Result ℕ) (ts' : Tokens) (r : Rotated)
      → finish hash_token env existing raw p ≡ (ts', rotated r)
      → (existing.family_id ≡ r.family_id) × ((id : ℕ) × (p ≡ (ts', ok id)))
  unfolding finish
  finish-rotated existing raw (ts, ok id) ts' r e = (ground arith, (id, ground arith))
  finish-rotated existing raw (ts, err no_rows) ts' r e = absurd (ground arith)
  finish-rotated existing raw (ts, err x) ts' r e = absurd (ground arith)

  issued-rotated :
      (old_hash : String) (existing : Token) (fresh : Option String) (ts ts' : Tokens) (r : Rotated)
      → issue_next hash_token env old_hash existing fresh ts ≡ (ts', rotated r)
      → (existing.family_id ≡ r.family_id)
        × ((new : String) × (id : ℕ) × (rotate_row old_hash new env.now ts ≡ ok (id, ts')))
  unfolding issue_next rotate_refresh_token
  issued-rotated old_hash existing none ts ts' r e = absurd (ground arith)
  issued-rotated old_hash existing (some raw) ts ts' r e =
      let new = hash_token raw in
      let row = rotate_row old_hash new env.now ts in
      let (same, (id, done)) = finish-rotated existing raw (commit env.rotates ts row) ts' r e in
      (same, (new, id, commit-ok env.rotates ts ts' id row done))

  found-rotated :
      (old_hash : String) (existing : Token) (ts ts' : Tokens) (r : Rotated)
      → rotate_found hash_token env old_hash existing ts ≡ (ts', rotated r)
      → (existing.family_id ≡ r.family_id)
        × ((new : String) × (id : ℕ) × (rotate_row old_hash new env.now ts ≡ ok (id, ts')))
  unfolding rotate_found
  found-rotated old_hash existing ts ts' r e = elim (Bool-cases (is_some existing.replaced_by)) [
    | inl f ↦ absurd (ground (arith, rw (f, rotate_found) at e))
    | inr f ↦
        elim (Bool-cases (is_some existing.revoked_at || not (ltb env.now existing.expires_at))) [
          | inl g ↦ absurd (ground (arith, rw (f, g, rotate_found) at e))
          | inr g ↦
              issued-rotated old_hash existing env.fresh ts ts' r (rw (f, g, rotate_found) at e)
        ]
  ]

  rotate-rotated :
      (presented_raw : String) (ts ts' : Tokens) (r : Rotated)
      → rotate hash_token env presented_raw ts ≡ (ts', rotated r)
      → (existing : Token) × (existing.family_id ≡ r.family_id)
        × (get_by_hash (hash_token presented_raw) ts' ≡ some (replace_with ts.seq existing))
  unfolding rotate
  rotate-rotated presented_raw ts ts' r e = elim (Bool-cases env.reads) [
    | inr f ↦ absurd (ground (arith, rw (f, rotate) at e))
    | inl f ↦ elim (Option-cases (get_by_hash (hash_token presented_raw) ts)) [
      | inl g ↦ absurd (ground (arith, rw (f, g, rotate) at e))
      | inr (existing, g) ↦
          let (same, (new, id, done)) =
            found-rotated (hash_token presented_raw) existing ts ts' r (rw (f, g, rotate) at e) in
          (
            existing,
            same,
            rotate_row-found (hash_token presented_raw) new env.now ts ts' id existing g done,
          )
    ]
  ]

-- A token is good for one rotation: once a rotation has answered with a new token, presenting the
-- old one again, with the database reachable, is reported as reuse and leaves no live token in the
-- family, so that the new one is dead too.
pub rotate_replay :
    (hash_token : String → String) (env env' : Env) (presented_raw : String) (ts ts' : Tokens)
    (r : Rotated)
    → rotate hash_token env presented_raw ts ≡ (ts', rotated r)
    → env'.reads ≡ true
    → env'.revokes ≡ true
    → let again = rotate hash_token env' presented_raw ts' in
      (again.1 ≡ reuse_detected) × (count_where (live_in r.family_id) again.0.rows ≡ 0)
unfolding rotate rotate_found revoke_family_rows
rotate_replay hash_token env env' presented_raw ts ts' r e reads revokes =
    let (existing, same, found) = rotate-rotated hash_token env presented_raw ts ts' r e in
    rw (reads, found, revokes, rotate) (refl, rw same (revoke-none r.family_id env'.now ts'.rows))
