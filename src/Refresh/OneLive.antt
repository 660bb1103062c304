-- ===== src/Refresh/OneLive.antt =====
-- internal/authn/refresh.go: a family has at most one live token.
use pulse_pager.Prelude.{
  ℕ, ◌+◌, ◌≤◌, ◌<◌, ◌≡◌, refl, ap, subst, Bool, ◌&&◌, ◌||◌, not, String, Option, none, some, List,
  [], ◌∷◌, ◌++◌, arith, ◌==◌, ltb, is_some, any, find, update_where, count_where, All,
  if◌then◌else◌, inl, inr, Bool-cases, Option-cases, count_where-append, count_where-update_where,
  All-append, All-mono, All-update_where, All-find,
}
use pulse_pager.Store.Db.{no_rows, Result, ok, err, Link, works, lost, commit_unknown}
use pulse_pager.Domain.{Time}
use pulse_pager.Refresh.{
  Token, Tokens, has_hash, is_live, get_by_hash, new_token, replace_with, rotate_row, commit,
  rotate_refresh_token, revoke_at, revoke_family_rows, Env, try_revoke, finish, issue_next,
  rotate_found, rotate,
}

-- A token of the family that may still be rotated.
abbrev pub live_in : ℕ → Token → Bool
live_in family_id t = t.family_id == family_id && is_live t

pub record IsSound (ts : Tokens) : Type 0 where
  pub one_live : (family_id : ℕ) → 0 < family_id → count_where (live_in family_id) ts.rows ≤ 1
  pub families_below : All (λ (t : Token). t.family_id < ts.seq) ts.rows
  pub seq_positive : 0 < ts.seq

update_where-append :
    {A : Type 0} (p : A → Bool) (f : A → A) (xs ys : List A)
    → update_where p f (xs ++ ys) ≡ update_where p f xs ++ update_where p f ys
unfolding update_where
update_where-append p f [] ys = refl
update_where-append p f (x ∷ xs) ys =
    ap (λ zs. (if p x then f x else x) ∷ zs) (update_where-append p f xs ys)

replace-fewer :
    (h : String) (id family_id : ℕ) (rows : List Token)
    → count_where (live_in family_id) (update_where (has_hash h) (replace_with id) rows)
      ≤ count_where (live_in family_id) rows
replace-fewer h id family_id rows =
    count_where-update_where (live_in family_id) (has_hash h) (replace_with id)
      (λ x e. ground arith) rows

replace-drops :
    (h : String) (id family_id : ℕ) (rows : List Token) (t : Token)
    → find (λ t. has_hash h t && is_live t) rows ≡ some t
    → t.family_id ≡ family_id
    → count_where (live_in family_id) (update_where (has_hash h) (replace_with id) rows) + 1
      ≤ count_where (live_in family_id) rows
unfolding find update_where count_where
replace-drops h id family_id [] t e same = cc
replace-drops h id family_id (x ∷ rows) t e same =
    ground (arith, replace-drops h id family_id rows t, replace-fewer h id family_id rows)

-- The table after a rotation of the token t.
abbrev pub after_rotation : String → String → Time → Token → Tokens → Tokens
after_rotation old new now t ts = record {
  rows =
      update_where (has_hash old) (replace_with ts.seq)
        (ts.rows ++ new_token ts.seq t.user_id t.family_id new now t.expires_at ∷ []);
  seq = ts.seq + 1;
}

table_or : Tokens → Result (ℕ × Tokens) → Tokens
table_or ts (err e) = ts
table_or ts (ok (id, ts')) = ts'

-- A rotation that succeeds has found a live token, and its table is the one above.
pub rotate_row-ok :
    (old new : String) (now : Time) (ts ts' : Tokens) (id : ℕ)
    → rotate_row old new now ts ≡ ok (id, ts')
    → (t : Token) × (find (λ t. has_hash old t && is_live t) ts.rows ≡ some t)
      × (after_rotation old new now t ts ≡ ts')
unfolding rotate_row table_or
rotate_row-ok old new now ts ts' id e =
    elim (Option-cases (find (λ t. has_hash old t && is_live t) ts.rows)) [
      | inl none_live ↦ absurd (ground (arith, rw (none_live, rotate_row) at e))
      | inr (t, found) ↦ elim (Bool-cases (any (has_hash new) ts.rows)) [
        | inl taken ↦ absurd (ground (arith, rw (found, taken, rotate_row) at e))
        | inr free ↦ (t, found, ap (table_or ts) (rw (found, free, rotate_row) at e))
      ]
    ]

added-count :
    (old new : String) (now : Time) (id user_id family_id k : ℕ) (expires_at : Time)
    → let rows =
        update_where
          (has_hash old)
          (replace_with id)
          (new_token id user_id family_id new now expires_at ∷ []) in
      count_where (live_in k) rows ≤ (if family_id == k then 1 else 0)
unfolding update_where count_where
added-count old new now id user_id family_id k expires_at = ground arith

after_rotation-IsSound :
    (old new : String) (now : Time) (t : Token) (ts : Tokens)
    → IsSound ts
    → find (λ t. has_hash old t && is_live t) ts.rows ≡ some t
    → IsSound (after_rotation old new now t ts)
after_rotation-IsSound old new now t ts s live =
    let added = new_token ts.seq t.user_id t.family_id new now t.expires_at in
    record {
      one_live = λ k pos.
          rw (update_where-append (has_hash old) (replace_with ts.seq) ts.rows (added ∷ [])) (
            ground (
              arith,
              count_where-append (live_in k)
                  (update_where (has_hash old) (replace_with ts.seq) ts.rows)
                  (update_where (has_hash old) (replace_with ts.seq) (added ∷ [])),
              added-count old new now ts.seq t.user_id t.family_id k t.expires_at,
              replace-drops old ts.seq k ts.rows t live,
              replace-fewer old ts.seq k ts.rows,
              s.one_live k pos,
            ));
      families_below =
          All-update_where _ (has_hash old) (replace_with ts.seq) (λ x h. h) (ts.rows ++ added ∷ [])
            (All-append _ ts.rows (added ∷ [])
              (All-mono _ _ (λ x h. omega arith) ts.rows s.families_below) (older, tt));
      seq_positive = omega arith;
    }
  where
    older : t.family_id < ts.seq + 1
    older = omega (arith, All-find _ _ ts.rows s.families_below live)

rotate_row-IsSound :
    (old new : String) (now : Time) (ts ts' : Tokens) (id : ℕ)
    → IsSound ts
    → rotate_row old new now ts ≡ ok (id, ts')
    → IsSound ts'
rotate_row-IsSound old new now ts ts' id s e =
    let (t, live, same) = rotate_row-ok old new now ts ts' id e in
    subst IsSound same (after_rotation-IsSound old new now t ts s live)

rotate_refresh_token-IsSound :
    (link : Link) (old new : String) (now : Time) (ts : Tokens)
    → IsSound ts
    → IsSound (rotate_refresh_token link old new now ts).0
unfolding rotate_refresh_token
rotate_refresh_token-IsSound link old new now ts s =
    go link (rotate_row old new now ts) (λ id ts' e. rotate_row-IsSound old new now ts ts' id s e)
  where
    go :
        (l : Link) (r : Result (ℕ × Tokens))
        → ((id : ℕ) (ts' : Tokens) → r ≡ ok (id, ts') → IsSound ts')
        → IsSound (commit l ts r).0
    go works (ok (id, ts')) h = h id ts' refl
    go works (err e) h = s
    go lost (ok (id, ts')) h = s
    go lost (err e) h = s
    go commit_unknown (ok (id, ts')) h = h id ts' refl
    go commit_unknown (err e) h = s

revoke_family_rows-IsSound :
    (family_id : ℕ) (now : Time) (ts : Tokens)
    → IsSound ts
    → IsSound (revoke_family_rows family_id now ts)
unfolding revoke_family_rows
revoke_family_rows-IsSound family_id now ts s =
    let revokes = λ (t : Token). t.family_id == family_id && not (is_some t.revoked_at) in
    record {
      one_live = λ k pos. omega (
        arith,
        s.one_live k pos,
        count_where-update_where (live_in k) revokes (revoke_at now) (λ x e. ground arith) ts.rows,
      );
      families_below =
          All-update_where _ revokes (revoke_at now) (λ x h. h) ts.rows s.families_below;
      seq_positive = s.seq_positive;
    }

try_revoke-IsSound :
    (env : Env) (family_id : ℕ) (ts : Tokens) → IsSound ts → IsSound (try_revoke env family_id ts)
try_revoke-IsSound env family_id ts s = elim (Bool-cases env.revokes) [
  | inl e ↦ rw e (revoke_family_rows-IsSound family_id env.now ts s)
  | inr e ↦ rw e s
]

module _ (hash_token : String → String) (env : Env) where
  finish-IsSound :
      (existing : Token) (raw : String) (ts : Tokens) (r : Result ℕ)
      → IsSound ts
      → IsSound (finish hash_token env existing raw (ts, r)).0
  unfolding finish
  finish-IsSound existing raw ts (ok id) s = s
  finish-IsSound existing raw ts (err no_rows) s = try_revoke-IsSound env existing.family_id ts s
  finish-IsSound existing raw ts (err e) s = s

  issue_next-IsSound :
      (old_hash : String) (existing : Token) (fresh : Option String) (ts : Tokens)
      → IsSound ts
      → IsSound (issue_next hash_token env old_hash existing fresh ts).0
  unfolding issue_next
  issue_next-IsSound old_hash existing none ts s = s
  issue_next-IsSound old_hash existing (some raw) ts s =
      let r = rotate_refresh_token env.rotates old_hash (hash_token raw) env.now ts in
      finish-IsSound existing raw r.0 r.1
        (rotate_refresh_token-IsSound env.rotates old_hash (hash_token raw) env.now ts s)

  rotate_found-IsSound :
      (old_hash : String) (existing : Token) (ts : Tokens)
      → IsSound ts
      → IsSound (rotate_found hash_token env old_hash existing ts).0
  unfolding rotate_found
  rotate_found-IsSound old_hash existing ts s = elim (Bool-cases (is_some existing.replaced_by)) [
    | inl e ↦ rw (e, rotate_found) (try_revoke-IsSound env existing.family_id ts s)
    | inr e ↦
        elim (Bool-cases (is_some existing.revoked_at || not (ltb env.now existing.expires_at))) [
          | inl f ↦ rw (e, f, rotate_found) s
          | inr f ↦ rw (e, f, rotate_found) (issue_next-IsSound old_hash existing env.fresh ts s)
        ]
  ]

  -- Whatever token is presented, and however the database behaves, a family has at most one live
  -- token after a rotation if it had at most one before.
  pub rotate-IsSound :
      (presented_raw : String) (ts : Tokens)
      → IsSound ts
      → IsSound (rotate hash_token env presented_raw ts).0
  unfolding rotate
  rotate-IsSound presented_raw ts s = elim (Bool-cases env.reads) [
    | inr e ↦ rw (e, rotate) s
    | inl e ↦ elim (Option-cases (get_by_hash (hash_token presented_raw) ts)) [
      | inl f ↦ rw (e, f, rotate) s
      | inr (existing, f) ↦
          rw (e, f, rotate) (rotate_found-IsSound (hash_token presented_raw) existing ts s)
    ]
  ]
