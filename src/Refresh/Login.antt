-- ===== src/Refresh/Login.antt =====
-- internal/authn/refresh.go, Issue, and CreateRefreshToken: a login starts a family of its own.
use pulse_pager.Prelude.{
  ℕ, ◌+◌, ◌<◌, ◌≡◌, refl, subst, ◌⊎◌, Bool, ◌&&◌, not, String, Option, none, some, List, [], ◌∷◌,
  arith, any, count_where, All, inl, inr, Bool-cases, count_where-append, All-append, All-mono,
}
use pulse_pager.Domain.{Time}
use pulse_pager.Refresh.{
  Token, Tokens, has_hash, new_token, create_root, insert_token, issue, refresh_ttl,
}
use pulse_pager.Refresh.OneLive.{live_in, IsSound}

no_family :
    (family_id : ℕ) (rows : List Token)
    → All (λ (t : Token). t.family_id < family_id) rows
    → count_where (live_in family_id) rows ≡ 0
unfolding count_where
no_family family_id [] h = refl
no_family family_id (x ∷ rows) h = ground (arith, no_family family_id rows h.1)

insert-IsSound :
    (user_id family_id : ℕ) (h : String) (now expires_at : Time) (ts : Tokens)
    → IsSound ts
    → (family_id ≡ 0) ⊎ (family_id ≡ ts.seq)
    → IsSound (insert_token (new_token ts.seq user_id family_id h now expires_at) ts)
unfolding count_where
insert-IsSound user_id family_id h now expires_at ts s root =
    let added = new_token ts.seq user_id family_id h now expires_at in
    record {
      one_live = λ k pos. ground (
        arith,
        s.one_live k pos,
        count_where-append (live_in k) ts.rows (added ∷ []),
        no_family ts.seq ts.rows s.families_below,
      );
      families_below =
          All-append _ ts.rows (added ∷ [])
            (All-mono _ _ (λ x h. omega arith) ts.rows s.families_below) (below, tt);
      seq_positive = omega arith;
    }
  where
    below : family_id < ts.seq + 1
    below = ground (arith, s.seq_positive)

create_root-IsSound :
    (inserts roots : Bool) (user_id : ℕ) (h : String) (now expires_at : Time) (ts : Tokens)
    → IsSound ts
    → IsSound (create_root inserts roots user_id h now expires_at ts).0
unfolding create_root
create_root-IsSound inserts roots user_id h now expires_at ts s =
    elim (Bool-cases (inserts && not (any (has_hash h) ts.rows))) [
      | inr e ↦ rw (e, create_root) s
      | inl e ↦ elim (Bool-cases roots) [
        | inl r ↦
            rw (e, r, create_root) (insert-IsSound user_id ts.seq h now expires_at ts s (inr refl))
        | inr r ↦ rw (e, r, create_root) (insert-IsSound user_id 0 h now expires_at ts s (inl refl))
      ]
    ]

issue-table :
    (hash_token : String → String) (inserts roots : Bool) (raw : String) (now : Time) (user_id : ℕ)
    (ts : Tokens)
    → (create_root inserts roots user_id (hash_token raw) now (now + refresh_ttl) ts).0
      ≡ (issue hash_token inserts roots (some raw) now user_id ts).0
unfolding issue
issue-table hash_token inserts roots raw now user_id ts = ground arith

-- A login starts a family of its own: whichever of its two statements fails, a family has at most
-- one live token afterwards if it had at most one before.
pub issue-IsSound :
    (hash_token : String → String) (inserts roots : Bool) (fresh : Option String) (now : Time)
    (user_id : ℕ) (ts : Tokens)
    → IsSound ts
    → IsSound (issue hash_token inserts roots fresh now user_id ts).0
unfolding issue
issue-IsSound hash_token inserts roots none now user_id ts s = s
issue-IsSound hash_token inserts roots (some raw) now user_id ts s =
    subst IsSound (issue-table hash_token inserts roots raw now user_id ts)
      (create_root-IsSound inserts roots user_id (hash_token raw) now (now + refresh_ttl) ts s)
