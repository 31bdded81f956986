-- ===== src/Services/Web/Guards.antt =====
-- services/authentication.go: the middleware in front of the protected handlers.
use sockchat.Prelude.{
  String, ◌≡◌, ◌⊎◌, inl, inr, refl, sym, ap, ◌∙◌, subst, Bool, true, false, Option, none, some, [],
  arith, ◌==◌, ==_iff, string_key, Bool-cases,
}
use sockchat.Api.Effects.{Result, ok, err}
use sockchat.Api.Errors.{
  Error, err_basic_token_required, err_unauthorized, err_authorization_required,
}
use sockchat.Api.Structs.{EditProfileRequest}
use sockchat.Api.Serialization.{unmarshal_edit_profile_request}
use sockchat.Services.Core.{edit_profile}
use sockchat.Services.Authentication.{basic_auth}
use sockchat.Services.Authentication.Tokens.{basic_auth-decode_token}
use sockchat.Services.Interfaces.{ProfileStore}
use sockchat.Services.Authentication.{AuthWrapper, decode_token, token_from_header, cut_prefix_by}
use sockchat.Services.Web.{
  Request, Exchange, Outcome, returns, Handler, write_json_http_response, unauthorized,
  authenticated, auth_middleware, edit_profile_handler, respond, empty_message, read_request,
  parse_request,
}

auth_cases :
    (r : Result AuthWrapper) → ((x : AuthWrapper) × (r ≡ ok x)) ⊎ ((e : Error) × (r ≡ err e))
auth_cases (ok x) = inl (x, refl)
auth_cases (err e) = inr (e, refl)

module _ {P : Type 0} (profiles : ProfileStore P) (decode_string : String → Option String) where
  -- Whether the credentials of a token are valid, with the profile store after it was asked.
  abbrev pub verdict : Result AuthWrapper → P → Bool × P
  verdict (ok auth) p = profiles.is_auth_valid auth.username auth.password p
  verdict (err e) p = (false, p)

  let_through :
      (token : String) (auth : AuthWrapper) (next : Handler P) (x : Exchange P)
      → decode_token decode_string token ≡ ok auth
      → (profiles.is_auth_valid auth.username auth.password x.profiles).0 ≡ true
      → authenticated profiles decode_string token next x
        ≡ next (record x {
          profiles = (profiles.is_auth_valid auth.username auth.password x.profiles).1;
        })
  unfolding authenticated
  let_through token auth next x e v = ground arith

  turned_away :
      (token : String) (auth : AuthWrapper) (next : Handler P) (x : Exchange P)
      → decode_token decode_string token ≡ ok auth
      → (profiles.is_auth_valid auth.username auth.password x.profiles).0 ≡ false
      → authenticated profiles decode_string token next x
        ≡ unauthorized profiles err_unauthorized (record x {
          profiles = (profiles.is_auth_valid auth.username auth.password x.profiles).1;
        })
  unfolding authenticated
  turned_away token auth next x e v = ground arith

  unread :
      (token : String) (error : Error) (next : Handler P) (x : Exchange P)
      → decode_token decode_string token ≡ err error
      → authenticated profiles decode_string token next x ≡ unauthorized profiles error x
  unfolding authenticated
  unread token error next x e = ground arith

  module _ (next : Request → Handler P) (r : Request) (p : P) where
    abbrev pub Guards : Bool × P → Outcome × Exchange P → Type 0
    Guards (true, q) done = done ≡ next r (record { status = none; written = []; profiles = q })
    Guards (false, q) (o, x) = (o ≡ returns) × (x.status ≡ some 401) × (x.profiles ≡ q)

    abbrev fresh : Exchange P
    fresh = record { status = none; written = []; profiles = p }

    refused :
        (q : P) (done : Outcome × Exchange P) (v : Bool × P)
        → v ≡ (false, q)
        → (done.0 ≡ returns) × (done.1.status ≡ some 401) × (done.1.profiles ≡ q)
        → Guards v done
    refused q done v e h = subst (λ w. Guards w done) (sym e) h

    authenticated-Guards :
        (token : String)
        → Guards
            (verdict (decode_token decode_string token) p)
            (authenticated profiles decode_string token (next r) fresh)
    unfolding unauthorized write_json_http_response
    authenticated-Guards token = elim (auth_cases (decode_token decode_string token)) [
      | inl (auth, e) ↦
          let (valid, q) = profiles.is_auth_valid auth.username auth.password p in
          let asked : verdict (decode_token decode_string token) p
              ≡ profiles.is_auth_valid auth.username auth.password p =
            ap (λ d. verdict d p) e in
          elim (Bool-cases valid) [
            | inl v ↦
                let yes : verdict (decode_token decode_string token) p ≡ (true, q) =
                  ground (arith, asked) in
                subst (λ w. Guards w (authenticated profiles decode_string token (next r) fresh))
                  (sym yes) (let_through token auth (next r) fresh e v)
            | inr v ↦
                let no : verdict (decode_token decode_string token) p ≡ (false, q) =
                  ground (arith, asked) in
                let away = turned_away token auth (next r) fresh e v in
                refused q (authenticated profiles decode_string token (next r) fresh)
                  (verdict (decode_token decode_string token) p) no (ground (arith, away))
          ]
      | inr (x, e) ↦
          let away = unread token x (next r) fresh e in
          refused p (authenticated profiles decode_string token (next r) fresh)
            (verdict (decode_token decode_string token) p) (ap (λ d. verdict d p) e)
            (ground (arith, away))
    ]

    no_token : decode_token decode_string "" ≡ err err_basic_token_required
    unfolding decode_token cut_prefix_by
    no_token = refl

    with_token :
        (r.authorization == "") ≡ false
        → auth_middleware profiles decode_string next r fresh
          ≡ authenticated profiles decode_string r.authorization (next r) fresh
    unfolding auth_middleware token_from_header
    with_token h = ground arith

    -- Without a token two errors are written one after the other.
    without_token :
        (r.authorization == "") ≡ true
        → let (o, x) = auth_middleware profiles decode_string next r fresh in
          (o ≡ returns) × (x.status ≡ some 401) × (x.profiles ≡ p)
    unfolding auth_middleware token_from_header unauthorized write_json_http_response
    without_token h =
        let second =
          unread "" err_basic_token_required (next r)
            (unauthorized profiles err_authorization_required fresh).1 no_token in
        ground (arith, second)

    -- A protected handler runs exactly if the `Authorization` header has a basic token with
    -- credentials that the profile store accepts, and then on a response that nothing has been
    -- written to. Otherwise the status is 401 and the handler has not run.
    pub auth_middleware-Guards : Guards (verdict (decode_token decode_string r.authorization) p) (
        auth_middleware profiles decode_string next r
          (record { status = none; written = []; profiles = p }))
    auth_middleware-Guards = elim (Bool-cases (r.authorization == "")) [
      | inl h ↦
          let empty = (==_iff r.authorization "").0 h in
          refused p (auth_middleware profiles decode_string next r fresh)
            (verdict (decode_token decode_string r.authorization) p)
            (ap (λ d. verdict d p) (ap (decode_token decode_string) empty ∙ no_token))
            (without_token h)
      | inr h ↦
          subst (Guards (verdict (decode_token decode_string r.authorization) p))
            (sym (with_token h)) (authenticated-Guards r.authorization)
    ]

pair_at : {P : Type 0} {v : Bool × P} → v.0 ≡ true → v ≡ (true, v.1)
pair_at {v = v} h = ap (λ b. (b, v.1)) h

-- The handler that edits a profile, behind the middleware.
module _ {P : Type 0} (profiles : ProfileStore P) (decode_string : String → Option String)
    (r : Request) (p : P) where
  -- The handler's part that edits, for a nick.
  abbrev pub edits : String → EditProfileRequest → Handler P
  edits nick req =
      respond (edit_profile profiles (record { nick = nick; request = req })) 200
        (λ _. empty_message)

  edit_profile_handler-edits :
      (auth : AuthWrapper) (req : EditProfileRequest) (x : Exchange P)
      → decode_token decode_string r.authorization ≡ ok auth
      → parse_request unmarshal_edit_profile_request r.body ≡ ok req
      → edit_profile_handler profiles decode_string r x ≡ edits auth.username req x
  unfolding edit_profile_handler read_request
  edit_profile_handler-edits auth req x e h =
      let same = basic_auth-decode_token decode_string r.authorization auth e in
      let nick = ap (λ (b : String × String × Bool). edits b.0 req x) same in
      let read : edit_profile_handler profiles decode_string r x
          ≡ edits (basic_auth decode_string r.authorization).0 req x =
        ground arith in
      read ∙ nick

  -- Who calls the edit handler edits its own profile and no other: with a header whose credentials are
  -- valid and a body that is a request, the profile that is edited is that of the user whom the
  -- middleware has authenticated.
  pub edit_profile_handler-own :
      (auth : AuthWrapper) (req : EditProfileRequest)
      → decode_token decode_string r.authorization ≡ ok auth
      → (profiles.is_auth_valid auth.username auth.password p).0 ≡ true
      → parse_request unmarshal_edit_profile_request r.body ≡ ok req
      → auth_middleware profiles decode_string
          (edit_profile_handler profiles decode_string)
          r
          (record { status = none; written = []; profiles = p })
        ≡ edits auth.username req (record {
          status = none;
          written = [];
          profiles = (profiles.is_auth_valid auth.username auth.password p).1;
        })
  edit_profile_handler-own auth req e v h =
      let handler = edit_profile_handler profiles decode_string in
      let q = (profiles.is_auth_valid auth.username auth.password p).1 in
      let asked : verdict profiles decode_string (decode_token decode_string r.authorization) p
          ≡ (true, q) =
        ap (λ d. verdict profiles decode_string d p) e ∙ pair_at v in
      subst
        (λ w. Guards profiles decode_string handler r p w (
          auth_middleware profiles decode_string handler r
            (record { status = none; written = []; profiles = p })))
        asked (auth_middleware-Guards profiles decode_string handler r p)
      ∙ edit_profile_handler-edits auth req (record { status = none; written = []; profiles = q }) e
          h
