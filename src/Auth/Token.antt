-- ===== src/Auth/Token.antt =====
-- internal/auth/jwtHelpers.go and AuthViaJWT of internal/auth/jwt.go: the user that the claims of a
-- token stand for. The library that reads a token and the table of users are parameters.
use cc_backend.Common.{
  ℤ, negsuc, ◌≡◌, refl, sym, ap, ◌∙◌, Bool, true, false, Option, none, some, List, [], ◌∷◌, ◌++◌,
  ◌⊎◌, inl, inr, if◌then◌else◌, Bool-cases, Option-cases,
}
use cc_backend.Common.{Result, ok, err, ◌>>=◌, bind-eq-ok, guard-eq-ok}
use cc_backend.Bytes.{Bytes}
use cc_backend.Maps.{Map, find_key}
use cc_backend.NodeList.{cut_prefix}
use cc_backend.Auth.{
  AuthType, auth_token, User, Request, AuthError, missing_subject, database_failed, unknown_user,
  bad_token, token_not_valid, is_blank,
}

-- The values of claims: Go's any with the type assertions of the code, and fmt's %v. `parse` is
-- jwt.Parse with the key of the server: whether the token is valid, and its claims.
pub record Tokens : Type 1 where
  pub Value : Type 0
  pub as_string : Value → Option Bytes
  pub as_array : Value → Option (List Value)
  pub as_strings : Value → Option (List Bytes)
  pub as_object : Value → Option (Map Value)
  pub show : Value → Bytes
  pub parse : Bytes → Option (Bool × Map Value)

-- What GetUser yields besides a user: sql.ErrNoRows, or another error.
pub data DbError : Type 0 where
  no_rows db_failed : DbError

abbrev pub sub_key : Bytes
sub_key = b's' ∷ b'u' ∷ b'b' ∷ []

abbrev pub roles_key : Bytes
roles_key = b'r' ∷ b'o' ∷ b'l' ∷ b'e' ∷ b's' ∷ []

abbrev pub projects_key : Bytes
projects_key = b'p' ∷ b'r' ∷ b'o' ∷ b'j' ∷ b'e' ∷ b'c' ∷ b't' ∷ b's' ∷ []

abbrev pub name_key : Bytes
name_key = b'n' ∷ b'a' ∷ b'm' ∷ b'e' ∷ []

abbrev pub values_key : Bytes
values_key = b'v' ∷ b'a' ∷ b'l' ∷ b'u' ∷ b'e' ∷ b's' ∷ []

abbrev pub bearer : Bytes
bearer = b'B' ∷ b'e' ∷ b'a' ∷ b'r' ∷ b'e' ∷ b'r' ∷ b' ' ∷ []

-- strings.TrimPrefix
unfoldable pub trim_prefix : Bytes → Bytes → Bytes
trim_prefix s prefix = elim (cut_prefix prefix s) [ none ↦ s | some rest ↦ rest ]

-- The token of a request: the header X-Auth-Token, or else Authorization.
unfoldable pub raw_token : Request → Bytes
raw_token r = if is_blank r.x_auth_token then trim_prefix r.authorization bearer else r.x_auth_token

module _ (tk : Tokens) where
  open tk use {Value, as_string, as_array, as_strings, as_object, show, parse}

  -- claims[key] with a type assertion
  unfoldable pub claim : {A : Type 0} → (Value → Option A) → Map Value → Bytes → Option A
  claim assert claims key = elim (find_key key claims) [ none ↦ none | some v ↦ assert v ]

  unfoldable pub extract_string_from_claims : Map Value → Bytes → Bytes
  extract_string_from_claims claims key = elim (claim as_string claims key) [
    | none ↦ []
    | some val ↦ val
  ]

  -- The loop over the values of an array, with a test on the strings.
  unfoldable pub keep_strings : (Bytes → Bool) → List Value → List Bytes
  keep_strings keep [] = []
  keep_strings keep (v ∷ vs) =
      let rest = keep_strings keep vs in
      elim (as_string v) [ none ↦ rest | some s ↦ if keep s then s ∷ rest else rest ]

  unfoldable pub extract_roles_from_claims : (Bytes → Bool) → Map Value → Bool → List Bytes
  extract_roles_from_claims is_valid_role claims validate_roles =
      elim (claim as_array claims roles_key) [
        | none ↦ []
        | some raw ↦ keep_strings (λ r. if validate_roles then is_valid_role r else true) raw
      ]

  unfoldable pub extract_projects_from_claims : Map Value → List Bytes
  extract_projects_from_claims claims = elim (claim as_array claims projects_key) [
    | some raw ↦ keep_strings (λ p. true) raw
    | none ↦ elim (claim as_strings claims projects_key) [ none ↦ [] | some ps ↦ ps ]
  ]

  -- The values behind the first, each with a space in front.
  unfoldable pub show_rest : List Value → Bytes
  show_rest [] = []
  show_rest (v ∷ vs) = b' ' ∷ show v ++ show_rest vs

  unfoldable pub show_all : List Value → Bytes
  show_all [] = []
  show_all (v ∷ vs) = show v ++ show_rest vs

  unfoldable pub extract_name_from_claims : Map Value → Bytes
  extract_name_from_claims claims = elim (claim as_string claims name_key) [
    | some name ↦ name
    | none ↦ elim (claim as_object claims name_key) [
      | none ↦ []
      | some wrap ↦ elim (claim as_array wrap values_key) [ none ↦ [] | some vals ↦ show_all vals ]
    ]
  ]

  module _ (is_valid_role : Bytes → Bool) (validate_user : Bool)
      (get_user : Bytes → Result DbError (Option User)) where
    unfoldable pub get_user_from_jwt : Map Value → AuthType → ℤ → Result AuthError User
    get_user_from_jwt claims auth_type auth_source =
        let sub = extract_string_from_claims claims sub_key in
        if is_blank sub
        then err missing_subject
        else if validate_user
        then (elim (get_user sub) [
          | err db_failed ↦ err database_failed
          | err no_rows ↦ err unknown_user
          | ok none ↦ err unknown_user
          | ok (some user) ↦ ok user
        ])
        else ok (record {
          username = sub;
          name = extract_name_from_claims claims;
          password = [];
          roles = extract_roles_from_claims is_valid_role claims true;
          projects = extract_projects_from_claims claims;
          auth_type = auth_type;
          auth_source = auth_source;
        })

    -- The end of AuthViaJWT, with the claims of a valid token.
    unfoldable pub user_of_claims : Map Value → Result AuthError (Option User)
    user_of_claims claims = get_user_from_jwt claims auth_token (negsuc 0) >>= (λ user. ok (
        some (
          if validate_user then user else record user {
            roles = extract_roles_from_claims is_valid_role claims false;
            projects = [];
          })))

    unfoldable pub auth_via_jwt : Request → Result AuthError (Option User)
    auth_via_jwt r = if is_blank (raw_token r) then ok none else elim (parse (raw_token r)) [
      | none ↦ err bad_token
      | some (valid, claims) ↦ if valid then user_of_claims claims else err token_not_valid
    ]

-- The user that a table has for the claim "sub", or one with that name and the texts of the claim
-- "roles", and without projects.
unfoldable pub IsClaimed :
    (tk : Tokens) → Bool → (Bytes → Result DbError (Option User)) → Map tk.Value → User → Type 0
IsClaimed tk validate_user get_user claims u =
    let sub = extract_string_from_claims tk claims sub_key in
    (is_blank sub ≡ false)
    × ((validate_user ≡ true) × (get_user sub ≡ ok (some u))
        ⊎ (validate_user ≡ false)
          × (u.username ≡ sub)
          × (u.projects ≡ [])
          × (u.roles ≡ extract_roles_from_claims tk (λ r. true) claims true))

-- A valid token of the request has such claims.
unfoldable pub IsVouched :
    (tk : Tokens) → Bool → (Bytes → Result DbError (Option User)) → Request → User → Type 0
IsVouched tk validate_user get_user r u =
    (is_blank (raw_token r) ≡ false)
    × ((claims : Map tk.Value) × (tk.parse (raw_token r) ≡ some (true, claims))
        × IsClaimed tk validate_user get_user claims u)

found_user :
    (found : Result DbError (Option User)) {u : User}
    → (elim found [
      | err db_failed ↦ err database_failed
      | err no_rows ↦ err unknown_user
      | ok none ↦ err unknown_user
      | ok (some user) ↦ ok user
    ])
      ≡ ok u
    → found ≡ ok (some u)
found_user (err no_rows) e = cc
found_user (err db_failed) e = cc
found_user (ok none) e = cc
found_user (ok (some user)) e = cc

user_of_claims-IsClaimed :
    (tk : Tokens) (is_valid_role : Bytes → Bool) (validate_user : Bool)
    (get_user : Bytes → Result DbError (Option User)) (claims : Map tk.Value) {u : User}
    → user_of_claims tk is_valid_role validate_user get_user claims ≡ ok (some u)
    → IsClaimed tk validate_user get_user claims u
unfolding user_of_claims get_user_from_jwt IsClaimed extract_roles_from_claims
user_of_claims-IsClaimed tk is_valid_role true get_user claims {u} e =
    let (user, got, out) =
      bind-eq-ok (get_user_from_jwt tk is_valid_role true get_user claims auth_token (negsuc 0))
        (λ user. ok (some user)) e in
    let (there, found) =
      guard-eq-ok (is_blank (extract_string_from_claims tk claims sub_key)) missing_subject
        (elim (get_user (extract_string_from_claims tk claims sub_key)) [
          | err db_failed ↦ err database_failed
          | err no_rows ↦ err unknown_user
          | ok none ↦ err unknown_user
          | ok (some user) ↦ ok user
        ])
        got in
    let same : user ≡ u = cc in
    (
      there,
      inl (
        refl,
        rw (← same) (found_user (get_user (extract_string_from_claims tk claims sub_key)) found),
      ),
    )
user_of_claims-IsClaimed tk is_valid_role false get_user claims {u} e =
    elim (Bool-cases (is_blank (extract_string_from_claims tk claims sub_key))) [
      | inl missing ↦ (let no_user : err missing_subject ≡ ok (some u) = sym (rw missing) ∙ e in cc)
      | inr there ↦
          (let same : ok (some (claimed_user claims)) ≡ ok (some u) = sym (rw there) ∙ e in
            let now : claimed_user claims ≡ u = cc in
            (
              there,
              inr (
                refl,
                ap (λ v. v.username) (sym now),
                ap (λ v. v.projects) (sym now),
                ap (λ v. v.roles) (sym now),
              ),
            ))
    ]
  where
    claimed_user : Map tk.Value → User
    claimed_user claims = record {
      username = extract_string_from_claims tk claims sub_key;
      name = extract_name_from_claims tk claims;
      password = [];
      roles = extract_roles_from_claims tk is_valid_role claims false;
      projects = [];
      auth_type = auth_token;
      auth_source = negsuc 0;
    }

pub auth_via_jwt-IsVouched :
    (tk : Tokens) (is_valid_role : Bytes → Bool) (validate_user : Bool)
    (get_user : Bytes → Result DbError (Option User)) (r : Request) {u : User}
    → auth_via_jwt tk is_valid_role validate_user get_user r ≡ ok (some u)
    → IsVouched tk validate_user get_user r u
unfolding auth_via_jwt IsVouched
auth_via_jwt-IsVouched tk is_valid_role validate_user get_user r {u} e =
    elim (Bool-cases (is_blank (raw_token r))) [
      | inl none_there ↦ (let no_user : ok none ≡ ok (some u) = sym (rw none_there) ∙ e in cc)
      | inr there ↦ (
        there,
        elim (Option-cases (tk.parse (raw_token r))) [
          | inl bad ↦ (let no_user : err bad_token ≡ ok (some u) = sym (rw (there, bad)) ∙ e in cc)
          | inr ((true, claims), parsed) ↦ (
            claims,
            parsed,
            user_of_claims-IsClaimed tk is_valid_role validate_user get_user claims
                (sym (rw (there, parsed)) ∙ e),
          )
          | inr ((false, claims), parsed) ↦
              (let no_user : err token_not_valid ≡ ok (some u) = sym (rw (there, parsed)) ∙ e in cc)
        ],
      )
    ]
