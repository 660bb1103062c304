-- ===== src/Tests/Sessions.antt =====
-- The theorems on internal/authn/refresh.go and internal/store/refreshtokens.go, at concrete values.
use pulse_pager.Prelude.{
  ℕ, ◌≤◌, ◌≡◌, refl, true, String, some, [], ◌∷◌, arith, count_where, find, update_where,
}
use pulse_pager.Store.Db.{works, ok}
use pulse_pager.Refresh.{
  Token, Tokens, Env, Rotated, reuse_detected, new_token, select_live, write_next, rotate_row,
  rotate_refresh_token, get_by_hash, issue_next, finish, rotate_found, rotate,
}
use pulse_pager.Refresh.OneLive.{IsSound, live_in, rotate-IsSound}
use pulse_pager.Refresh.Replay.{rotate_replay}
use pulse_pager.Refresh.Race.{rotate_race}

-- A stand-in for the hash.
abbrev same_text : String → String
same_text s = s

abbrev first_token : Token
first_token = new_token 1 5 1 "first" 0 100

-- One login.
abbrev one_login : Tokens
one_login = record { rows = first_token ∷ []; seq = 2 }

abbrev env_with : String → Env
env_with fresh = record {
  reads = true;
  rotates = works;
  revokes = true;
  fresh = some fresh;
  now = 10;
}

one_login-IsSound : IsSound one_login
unfolding count_where
one_login-IsSound = record {
  one_live = λ k pos. ground arith;
  families_below = (omega arith, tt);
  seq_positive = omega arith;
}

abbrev after_first : Tokens
after_first = (rotate same_text (env_with "second") "first" one_login).0

abbrev second_answer : Rotated
second_answer = record { raw = "second"; user_id = 5; family_id = 1; expires = 100 }

rotate_replay_example :
    ((rotate same_text (env_with "third") "first" after_first).1 ≡ reuse_detected)
    × (count_where (live_in 1) (rotate same_text (env_with "third") "first" after_first).0.rows ≡ 0)
unfolding rotate rotate_found issue_next finish rotate_refresh_token get_by_hash rotate_row
    select_live write_next find update_where
rotate_replay_example =
    rotate_replay same_text (env_with "second") (env_with "third") "first" one_login after_first
      second_answer refl refl refl

rotate-IsSound_example : IsSound (rotate same_text (env_with "second") "first" one_login).0
rotate-IsSound_example =
    rotate-IsSound same_text (env_with "second") "first" one_login one_login-IsSound

rotate_race_example :
    (id id' : ℕ) × (ts₁ ts₂ : Tokens) × (rotate_row "first" "second" 10 one_login ≡ ok (id, ts₁))
    × (write_next first_token "first" "third" 10 ts₁ ≡ ok (id', ts₂))
    × (2 ≤ count_where (live_in 1) ts₂.rows)
unfolding select_live find
rotate_race_example =
    rotate_race first_token "first" "second" "third" 10 10 one_login refl refl refl refl refl refl
