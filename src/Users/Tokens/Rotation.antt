-- ===== src/Users/Tokens/Rotation.antt =====
-- A refresh token is good for one use.
use fair_drop.Common.{
  ℕ, ◌≤◌, ◌≡◌, ◌≢◌, ◌⊎◌, ap, ◌∙◌, sym, inl, inr, true, false, String, none, some, [], arith,
  Option-cases, Bool-cases, str_eq_iff,
}
use fair_drop.Common.Table.{Table, get, select, delete, IsKeyed}
use fair_drop.Common.Table.Laws.{get-delete}
use fair_drop.Common.Table.Select.{select_sound, select_empty}
use fair_drop.Exceptions.{ok, err, credentials_error, Result-cases, scalar_one_or_none, only_row}
use fair_drop.Models.{User, RefreshToken}
use fair_drop.Database.{Session}
use fair_drop.Users.Tokens.{has_token, refresh_access_token}

-- The keys of the table and the tokens in it are distinct.
pub record HasUniqueTokens (t : Table RefreshToken) : Type 0 where
  pub keyed : IsKeyed t
  pub unique :
      (i : ℕ) (a : RefreshToken) (j : ℕ) (b : RefreshToken)
      → get i t ≡ some a
      → get j t ≡ some b
      → a.token ≡ b.token
      → i ≡ j

has_token-eq : (token : String) (a : RefreshToken) → has_token token a ≡ true → a.token ≡ token
has_token-eq token a h = (str_eq_iff a.token token).0 h

-- What a use of a token has done.
pub record IsConsumed (now : ℕ) (token : String) (u : User) (s s' : Session) : Type 0 where
  pub i : ℕ
  pub a : RefreshToken
  pub found : get i s.refresh_tokens ≡ some a
  pub named : a.token ≡ token
  pub unexpired : now ≤ a.expires_at
  pub owner : get a.user_id s.users ≡ some u
  pub after : s' ≡ record s { refresh_tokens = delete i s.refresh_tokens }

refresh_access_token-ok :
    (now : ℕ) (token : String) (u : User) (s s' : Session)
    → IsKeyed s.refresh_tokens
    → refresh_access_token now token s ≡ ok (u, s')
    → IsConsumed now token u s s'
unfolding refresh_access_token
refresh_access_token-ok now token u s s' keyed h =
    elim (Result-cases (scalar_one_or_none (select (has_token token) s.refresh_tokens))) [
      | inr (e, failed) ↦ absurd (ground arith)
      | inl (none, found) ↦ absurd (ground arith)
      | inl (some (i, a), found) ↦
          let row =
            (rw (only_row (select (has_token token) s.refresh_tokens) (i, a) found) at
              (select_sound (has_token token) s.refresh_tokens keyed)).0 in
          elim (Option-cases (get a.user_id s.users)) [
            | inl missing ↦ absurd (ground arith)
            | inr (v, known) ↦ record {
              i = i;
              a = a;
              found = row.0;
              named = has_token-eq token a row.1;
              unexpired = ground arith;
              owner = ground arith;
              after = ground arith;
            }
          ]
    ]

-- A token that no row holds.
unknown_token :
    (now : ℕ) (token : String) (s : Session)
    → select (has_token token) s.refresh_tokens ≡ []
    → refresh_access_token now token s ≡ err credentials_error
unfolding refresh_access_token
unknown_token now token s h = rw h

not_has_token : (token : String) (a : RefreshToken) → a.token ≢ token → has_token token a ≡ false
not_has_token token a h = elim (Bool-cases (has_token token a)) [
  | inl hit ↦ absurd (h (has_token-eq token a hit))
  | inr miss ↦ miss
]

-- Once a row is deleted, no row has its token.
token_gone :
    (t : Table RefreshToken) (i j : ℕ) (a b : RefreshToken)
    → HasUniqueTokens t
    → get i t ≡ some a
    → get j (delete i t) ≡ some b
    → b.token ≢ a.token
token_gone t i j a b c here there same =
    let at_j = get-delete j i t c.keyed in
    let away : j ≢ i = λ e. ground arith in away (c.unique j b i a (ground arith) here same)

-- The rows of a later table: those that were left, and others with other tokens.
abbrev pub IsLater : String → Table RefreshToken → Table RefreshToken → Type 0
IsLater token t u =
    (j : ℕ) (b : RefreshToken) → get j u ≡ some b → (get j t ≡ some b) ⊎ (b.token ≢ token)

-- Once a request has used a refresh token, a request with that token is refused for bad credentials
-- in every later session, whatever has happened to the tables in between, as long as no row with the
-- same token has been added (`secrets` draws each token anew). The tokens in the table, when it was
-- used, are distinct.
pub refresh_access_token_once :
    (now later : ℕ) (token : String) (u : User) (s s' t : Session)
    → HasUniqueTokens s.refresh_tokens
    → refresh_access_token now token s ≡ ok (u, s')
    → IsKeyed t.refresh_tokens
    → IsLater token s'.refresh_tokens t.refresh_tokens
    → refresh_access_token later token t ≡ err credentials_error
refresh_access_token_once now later token u s s' t c h keyed since =
    let e : IsConsumed now token u s s' = refresh_access_token-ok now token u s s' c.keyed h in
    let left : s'.refresh_tokens ≡ delete e.i s.refresh_tokens =
      ap (λ x. x.refresh_tokens) e.after in
    unknown_token later token t (
      select_empty (has_token token) t.refresh_tokens keyed (λ j b found.
        not_has_token token b (λ same. elim (since j b found) [
          | inl kept ↦
              token_gone s.refresh_tokens e.i j e.a b c e.found (sym (ap (get j) left) ∙ kept)
                (same ∙ sym e.named)
          | inr new ↦ new same
        ])))
