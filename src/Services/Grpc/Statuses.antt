-- ===== src/Services/Grpc/Statuses.antt =====
-- services/grpc.go: the interceptor in front of the methods, and who a profile is edited as.
use sockchat.Prelude.{
  String, ◌≡◌, ◌⊎◌, inl, inr, refl, sym, ap, ◌∙◌, Bool, true, false, Option, none, some, arith,
  if◌then◌else◌, Bool-cases, Option-cases,
}
use sockchat.Prelude.GoMap
use sockchat.Api.Effects.{Result, ok, err}
use sockchat.Api.Errors.{Error, err_unauthorized}
use sockchat.Api.Structs.{EmptyMessage}
use sockchat.Services.Interfaces.{ProfileStore}
use sockchat.Services.Core.{edit_profile}
use sockchat.Services.Authentication.{
  AuthWrapper, decode_token, authenticate_from_basic_token, cut_prefix_by,
}
use sockchat.Services.Grpc.{
  new_grpc_error, is_protected, trim_prefix, Context, token_from_ctx, Outcome, fails, exits,
  or_status, authorized, auth_interceptor, edit_profile_method, username,
}

token_cases : (r : Result String) → ((x : String) × (r ≡ ok x)) ⊎ ((e : Error) × (r ≡ err e))
token_cases (ok x) = inl (x, refl)
token_cases (err e) = inr (e, refl)

auth_cases :
    (r : Result AuthWrapper) → ((x : AuthWrapper) × (r ≡ ok x)) ⊎ ((e : Error) × (r ≡ err e))
auth_cases (ok x) = inl (x, refl)
auth_cases (err e) = inr (e, refl)

module _ {P : Type 0} (profiles : ProfileStore P) (decode_string : String → Option String) where
  -- The credentials of a context, or the error of the first step that fails.
  abbrev pub credentials : Result String → Result AuthWrapper
  credentials (err e) = err e
  credentials (ok token) = decode_token decode_string token

  -- What the interceptor does for a protected method.
  abbrev pub guarded : {A : Type 0} → Result AuthWrapper → (P → Outcome A × P) → P → Outcome A × P
  guarded (err e) handler p = (fails (new_grpc_error e), p)
  guarded (ok auth) handler p =
      let (valid, q) = profiles.is_auth_valid auth.username auth.password p in
      if valid then handler q else (fails (new_grpc_error err_unauthorized), q)

  let_through :
      {A : Type 0} (token : String) (auth : AuthWrapper) (handler : P → Outcome A × P) (p : P)
      → decode_token decode_string token ≡ ok auth
      → authorized profiles decode_string (ok token) handler p ≡ guarded (ok auth) handler p
  unfolding authorized authenticate_from_basic_token
  let_through token auth handler p e =
      elim (Bool-cases (profiles.is_auth_valid auth.username auth.password p).0) [
        | inl v ↦ ground arith
        | inr v ↦ ground arith
      ]

  unread :
      {A : Type 0} (token : String) (x : Error) (handler : P → Outcome A × P) (p : P)
      → decode_token decode_string token ≡ err x
      → authorized profiles decode_string (ok token) handler p ≡ guarded (err x) handler p
  unfolding authorized authenticate_from_basic_token
  unread token x handler p e = ground arith

  no_token :
      {A : Type 0} (e : Error) (handler : P → Outcome A × P) (p : P)
      → authorized profiles decode_string (err e) handler p ≡ guarded (err e) handler p
  unfolding authorized
  no_token e handler p = refl

  authorized_guarded :
      {A : Type 0} (token : Result String) (handler : P → Outcome A × P) (p : P)
      → authorized profiles decode_string token handler p ≡ guarded (credentials token) handler p
  authorized_guarded (err e) handler p = no_token e handler p
  authorized_guarded (ok token) handler p = elim (auth_cases (decode_token decode_string token)) [
    | inl (auth, e) ↦ let_through token auth handler p e ∙ ap (λ d. guarded d handler p) (sym e)
    | inr (x, e) ↦ unread token x handler p e ∙ ap (λ d. guarded d handler p) (sym e)
  ]

  -- What a call of a method comes to.
  abbrev pub intercepted :
      {A : Type 0} → Option Bool → Result AuthWrapper → (P → Outcome A × P) → P → Outcome A × P
  intercepted none auth handler p = (exits, p)
  intercepted (some false) auth handler p = handler p
  intercepted (some true) auth handler p = guarded auth handler p

  -- The interceptor as far as the credentials are read.
  abbrev by_protection :
      {A : Type 0} → Option Bool → Result String → (P → Outcome A × P) → P → Outcome A × P
  by_protection none token handler p = (exits, p)
  by_protection (some protected) token handler p =
      if protected then authorized profiles decode_string token handler p else handler p

  auth_interceptor_at :
      {A : Type 0} (ctx : Context) (full_method : String) (handler : P → Outcome A × P) (p : P)
      → auth_interceptor profiles decode_string ctx full_method handler p
        ≡ by_protection (is_protected full_method) (token_from_ctx ctx) handler p
  unfolding auth_interceptor
  auth_interceptor_at ctx full_method handler p = elim (Option-cases (is_protected full_method)) [
    | inl e ↦ ground arith
    | inr (b, e) ↦ ground arith
  ]

  at_protected :
      {A : Type 0} (b : Option Bool) (token : Result String) (handler : P → Outcome A × P) (p : P)
      → by_protection b token handler p ≡ intercepted b (credentials token) handler p
  at_protected none token handler p = refl
  at_protected (some false) token handler p = refl
  at_protected (some true) token handler p = authorized_guarded token handler p

  -- A method that needs no authorization runs, one that needs it runs exactly if the metadata has one
  -- basic token with credentials that the profile store accepts, on the profile store that has been
  -- asked, and a method that is in no entry of the map ends the process. Without such credentials the
  -- method does not run, and the status is that of the first step that fails: the metadata, the token,
  -- its decoding, or the credentials.
  pub auth_interceptor-intercepts :
      {A : Type 0} (ctx : Context) (full_method : String) (handler : P → Outcome A × P) (p : P)
      → auth_interceptor profiles decode_string ctx full_method handler p
        ≡ intercepted (is_protected full_method) (credentials (token_from_ctx ctx)) handler p
  auth_interceptor-intercepts ctx full_method handler p =
      auth_interceptor_at ctx full_method handler p
      ∙ at_protected (is_protected full_method) (token_from_ctx ctx) handler p

  -- The method that edits a profile, for a nick.
  abbrev pub edits : String → String → P → Outcome EmptyMessage × P
  edits nick description p =
      let (r, q) =
        edit_profile profiles
          (record { nick = nick; request = record { description = description } }) p in
      (or_status (λ e. e) r, q)

  edit_profile_method-edits :
      (ctx : Context) (description : String) (token : String) (auth : AuthWrapper) (p : P)
      → token_from_ctx ctx ≡ ok token
      → decode_token decode_string token ≡ ok auth
      → edit_profile_method profiles decode_string ctx description p
        ≡ edits auth.username description p
  unfolding edit_profile_method username
  edit_profile_method-edits ctx description token auth p t e = ground (arith, t, e)

  edit_is_protected : is_protected "/sockchat.Sockchat/EditProfile" ≡ some true
  unfolding is_protected trim_prefix cut_prefix_by GoMap.get
  edit_is_protected = refl

  -- Who calls `EditProfile` edits its own profile and no other: with a token whose credentials are
  -- valid, the profile that is edited is that of the user whom the token authenticates.
  pub edit_profile_method-own :
      (ctx : Context) (description : String) (token : String) (auth : AuthWrapper) (p : P)
      → token_from_ctx ctx ≡ ok token
      → decode_token decode_string token ≡ ok auth
      → (profiles.is_auth_valid auth.username auth.password p).0 ≡ true
      → auth_interceptor profiles decode_string ctx "/sockchat.Sockchat/EditProfile"
          (edit_profile_method profiles decode_string ctx description)
          p
        ≡ edits auth.username description (profiles.is_auth_valid auth.username auth.password p).1
  edit_profile_method-own ctx description token auth p t e v =
      let q = (profiles.is_auth_valid auth.username auth.password p).1 in
      let method = edit_profile_method profiles decode_string ctx description in
      auth_interceptor-intercepts ctx "/sockchat.Sockchat/EditProfile" method p
      ∙ ap (λ b. intercepted b (credentials (token_from_ctx ctx)) method p) edit_is_protected
      ∙ ap (λ c. guarded (credentials c) method p) t
      ∙ ap (λ c. guarded c method p) e
      ∙ ap (λ (b : Bool). if b then method q else (fails (new_grpc_error err_unauthorized), q)) v
      ∙ edit_profile_method-edits ctx description token auth q t e
