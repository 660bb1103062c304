-- ===== src/Refresh/Race.antt =====
-- internal/store/refreshtokens.go, RotateRefreshToken: two rotations of one token at the same time.
-- At PostgreSQL's default isolation a SELECT sees what is committed when it runs and takes no lock,
-- so both transactions can read the token before either writes.
use pulse_pager.Prelude.{
  ℕ, ◌+◌, ◌≤◌, ◌≡◌, refl, sym, ap, ◌∙◌, Bool, true, false, ◌&&◌, not, String, some, List, [], ◌∷◌,
  ◌++◌, arith, any, update_where, count_where, inl, inr, Bool-cases, count_where-append,
  count_where_mono, str_eq, any-update_where, any-append,
}
use pulse_pager.Store.Db.{Result, ok, err}
use pulse_pager.Domain.{Time}
use pulse_pager.Refresh.{
  Token, Tokens, has_hash, new_token, replace_with, select_live, write_next, rotate_row,
}
use pulse_pager.Refresh.OneLive.{live_in}

-- A live token of the family whose hash is not the one that is rotated.
live_beside : String → ℕ → Token → Bool
live_beside old k x = live_in k x && not (has_hash old x)

replace-beside :
    (old : String) (id k : ℕ) (rows : List Token)
    → count_where (live_beside old k) (update_where (has_hash old) (replace_with id) rows)
      ≡ count_where (live_beside old k) rows
unfolding live_beside update_where count_where
replace-beside old id k [] = refl
replace-beside old id k (x ∷ rows) = ground (arith, replace-beside old id k rows)

added-beside :
    (old new : String) (id user_id k : ℕ) (now expires_at : Time)
    → str_eq new old ≡ false
    → count_where (live_beside old k) (new_token id user_id k new now expires_at ∷ []) ≡ 1
unfolding live_beside count_where
added-beside old new id user_id k now expires_at other = ground arith

table_or : Tokens → Result (ℕ × Tokens) → Tokens
table_or ts (err e) = ts
table_or ts (ok (id, ts')) = ts'

write_next-adds :
    (t : Token) (old new : String) (now : Time) (ts ts' : Tokens) (id : ℕ)
    → str_eq new old ≡ false
    → write_next t old new now ts ≡ ok (id, ts')
    → count_where (live_beside old t.family_id) ts'.rows
      ≡ count_where (live_beside old t.family_id) ts.rows + 1
unfolding write_next table_or
write_next-adds t old new now ts ts' id other e = elim (Bool-cases (any (has_hash new) ts.rows)) [
  | inl taken ↦ absurd (ground (arith, rw (taken, write_next) at e))
  | inr free ↦
      let added = new_token ts.seq t.user_id t.family_id new now t.expires_at in
      let done = ap (table_or ts) (rw (free, write_next) at e) in
      let count = count_where (live_beside old t.family_id) in
      sym (ap (λ (x : Tokens). count x.rows) done)
      ∙ replace-beside old ts.seq t.family_id (ts.rows ++ added ∷ [])
      ∙ count_where-append (live_beside old t.family_id) ts.rows (added ∷ [])
      ∙ ap (λ n. count ts.rows + n)
          (added-beside old new ts.seq t.user_id t.family_id now t.expires_at other)
]

beside-live :
    (old : String) (k : ℕ) (rows : List Token)
    → count_where (live_beside old k) rows ≤ count_where (live_in k) rows
unfolding live_beside
beside-live old k rows = count_where_mono (live_beside old k) (live_in k) (λ x h. live x h) rows
  where
    live : (x : Token) → live_beside old k x ≡ true → live_in k x ≡ true
    live x h = ground arith

-- A write of a hash that is free succeeds, and leaves another free hash so.
write_next-free :
    (t : Token) (old new : String) (now : Time) (ts : Tokens)
    → any (has_hash new) ts.rows ≡ false
    → (id : ℕ) × (ts' : Tokens) × (write_next t old new now ts ≡ ok (id, ts'))
      × (ts'.rows
          ≡ update_where
              (has_hash old)
              (replace_with ts.seq)
              (ts.rows ++ new_token ts.seq t.user_id t.family_id new now t.expires_at ∷ []))
unfolding write_next
write_next-free t old new now ts free = rw (free, write_next) (_, _, refl, refl)

any-written :
    (t : Token) (old new other : String) (now : Time) (ts : Tokens)
    → any (has_hash other) ts.rows ≡ false
    → str_eq new other ≡ false
    → any (has_hash other) (
        update_where
          (has_hash old)
          (replace_with ts.seq)
          (ts.rows ++ new_token ts.seq t.user_id t.family_id new now t.expires_at ∷ []))
      ≡ false
any-written t old new other now ts free apart =
    any-update_where (has_hash other) (has_hash old) (replace_with ts.seq) (λ x. refl) _
    ∙ any-append (has_hash other) ts.rows _
    ∙ ground (arith, free, apart)

-- Two rotations of one live token race: the second reads the token before the first writes. If
-- their new hashes are free, and differ from each other and from the old one, both succeed, and the
-- family is left with at least two live tokens.
pub rotate_race :
    (t : Token) (old new new' : String) (now now' : Time) (ts : Tokens)
    → select_live old ts ≡ some t
    → str_eq new old ≡ false
    → str_eq new' old ≡ false
    → str_eq new new' ≡ false
    → any (has_hash new) ts.rows ≡ false
    → any (has_hash new') ts.rows ≡ false
    → (id id' : ℕ) × (ts₁ ts₂ : Tokens) × (rotate_row old new now ts ≡ ok (id, ts₁))
      × (write_next t old new' now' ts₁ ≡ ok (id', ts₂))
      × (2 ≤ count_where (live_in t.family_id) ts₂.rows)
unfolding rotate_row
rotate_race t old new new' now now' ts read other other' apart free free' =
    let (id, ts₁, first, rows) = write_next-free t old new now ts free in
    let (id', ts₂, second, rows') =
      write_next-free t old new' now' ts₁
        (ap (any (has_hash new')) rows ∙ any-written t old new new' now ts free' apart) in
    (
      id,
      id',
      ts₁,
      ts₂,
      rw (read, rotate_row) first,
      second,
      omega (
        arith,
        write_next-adds t old new now ts ts₁ id other first,
        write_next-adds t old new' now' ts₁ ts₂ id' other' second,
        beside-live old t.family_id ts₂.rows,
      ),
    )
