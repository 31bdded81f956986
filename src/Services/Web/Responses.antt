-- ===== src/Services/Web/Responses.antt =====
-- services/web.go over services/core.go and user_profile.go: what the HTTP handlers answer.
use sockchat.Prelude.{
  ℕ, String, ◌≡◌, ◌≢◌, ◌⊎◌, inl, inr, refl, ap, ◌∙◌, false, Option, none, some, List, [], ◌∷◌,
  arith, ◌==◌, if◌then◌else◌, string_key, Bool-cases, Option-cases,
}
use sockchat.Api.Effects.{Result, ok, err}
use sockchat.Api.Errors.{Error, error_text, err_nick_required, err_internal, err_nick_already_used}
use sockchat.Api.Structs.{CreateProfileRequest, PublicProfile}
use sockchat.Api.Serialization.{unmarshal_create_profile_request, unmarshal_edit_profile_request}
use sockchat.Storage.Users.{User, UserStore}
use sockchat.Profiles.{Bcrypt, Redis, broken, ProfileService, is_nick_already_used}
use sockchat.Profiles.Laws.{IsTable, IsCoherent}
use sockchat.Profiles.Coherence.{get_profile-reads, profile_or_error}
use sockchat.Profiles.Updates.{create-answers, answer_create, inserted, reported}
use sockchat.Services.Interfaces.{ProfileStore, profile_service}
use sockchat.Services.Core.{register_profile, get_profile}
use sockchat.Services.Web.{
  Body, Request, Exchange, Outcome, returns, panics, error_response, empty_message, profile,
  http_status, write_json_http_response, respond, register_handler, get_profile_handler,
  edit_profile_handler, read_request, parse_request,
}

-- A response that nothing has been written to.
abbrev pub unwritten : {P : Type 0} → P → Exchange P
unwritten p = record { status = none; written = []; profiles = p }

abbrev pub answered : {P : Type 0} → ℕ → Body → P → Outcome × Exchange P
answered code body p = (returns, record { status = some code; written = body ∷ []; profiles = p })

abbrev Seen : Type 0
Seen = Outcome × Option ℕ × List Body

-- What the client sees of a handler's run.
abbrev pub seen : {P : Type 0} → Outcome × Exchange P → Seen
seen (o, x) = (o, x.status, x.written)

-- The answer for what a read of a profile gives: `ErrUserNotFound` has no status.
abbrev pub read_answer : Result PublicProfile → Seen
read_answer (ok v) = (returns, some 200, profile v ∷ [])
read_answer (err err_nick_required) = (returns, some 422, error_response "nick is required" ∷ [])
read_answer (err _) = (panics, none, [])

module _ {D C : Type 0} (users : UserStore D) (redis : Redis C) (bcrypt : Bcrypt) (salt : ℕ)
    (s : ProfileService D C) (r : Request) where
  module _ (rows : D → String → Option User) (table : IsTable users rows) where
    -- While the cache is coherent and answers, a profile is answered by 200 with what the table has
    -- under the nick, and an empty nick by 422. For a nick that the table does not have the handler
    -- panics before anything is written, since `ErrUserNotFound` has no status.
    pub get_profile_handler-answers :
        IsCoherent redis rows s
        → ((e : Error) → redis.get r.nick s.cache ≢ broken e)
        → seen (get_profile_handler (profile_service users redis bcrypt salt) r (unwritten s))
          ≡ read_answer
              (profile_or_error users redis bcrypt rows table r.nick (rows s.store r.nick))
    unfolding get_profile_handler respond write_json_http_response http_status error_text
        get_profile profile_service
    get_profile_handler-answers c works =
        let reads = get_profile-reads users redis bcrypt rows table r.nick s c works in
        elim (Bool-cases (r.nick == "")) [
          | inl n ↦ ground (arith, reads)
          | inr n ↦ elim (Option-cases (rows s.store r.nick)) [
            | inl e ↦ ground (arith, reads)
            | inr (u, e) ↦ ground (arith, reads)
          ]
        ]

  -- The answer to a registration, and the status of its errors.
  abbrev pub registered : CreateProfileRequest → Result (Unit {0}) → ℕ × Body
  registered u answer =
      if u.nick == ""
      then (422, error_response "nick is required")
      else if u.password == ""
      then (422, error_response "password is required")
      else (elim answer [
        | ok _ ↦ (201, empty_message)
        | err e ↦
            if is_nick_already_used e
            then (409, error_response "this nick is already used")
            else (500, error_response "internal error")
      ])

  stored_answers :
      (x : Result (Unit {0}))
      → (reported users redis bcrypt x ≡ ok tt)
        ⊎ ((reported users redis bcrypt x ≡ err err_internal)
            ⊎ (reported users redis bcrypt x ≡ err err_nick_already_used))
  stored_answers (ok x) = inl refl
  stored_answers (err err_nick_already_used) = inr (inr refl)
  stored_answers (err _) = inr (inl refl)

  create_answers :
      (u : CreateProfileRequest)
      → (u.nick == "") ≡ false
      → (u.password == "") ≡ false
      → (answer_create users redis bcrypt salt u s.store ≡ ok tt)
        ⊎ ((answer_create users redis bcrypt salt u s.store ≡ err err_internal)
            ⊎ (answer_create users redis bcrypt salt u s.store ≡ err err_nick_already_used))
  create_answers u n w = elim (Option-cases (bcrypt.generate_from_password salt u.password)) [
    | inl e ↦ inr (inl (ground arith))
    | inr (pw_hash, e) ↦
        let same : answer_create users redis bcrypt salt u s.store
            ≡ reported users redis bcrypt (inserted users redis bcrypt u pw_hash s.store).0 =
          ground arith in
        elim (stored_answers (inserted users redis bcrypt u pw_hash s.store).0) [
          | inl a ↦ inl (same ∙ a)
          | inr (inl a) ↦ inr (inl (same ∙ a))
          | inr (inr a) ↦ inr (inr (same ∙ a))
        ]
  ]

  -- The end of the handler for a body that is a request.
  abbrev responds : CreateProfileRequest → Outcome × Exchange (ProfileService D C)
  responds u =
      respond (register_profile (profile_service users redis bcrypt salt) u) 201
        (λ _. empty_message) (unwritten s)

  register_responds :
      (u : CreateProfileRequest)
      → parse_request unmarshal_create_profile_request r.body ≡ ok u
      → register_handler (profile_service users redis bcrypt salt) r (unwritten s) ≡ responds u
  unfolding register_handler read_request
  register_responds u h = ground arith

  responds-answers :
      (u : CreateProfileRequest)
      → seen (responds u) ≡ (
          let (code, body) = registered u (answer_create users redis bcrypt salt u s.store) in
          (returns, some code, body ∷ []))
  unfolding respond write_json_http_response http_status error_text register_profile profile_service
  responds-answers u =
      let done = (create-answers users redis bcrypt salt u s).0 in
      elim (Bool-cases (u.nick == "")) [
        | inl n ↦ ground (arith)
        | inr n ↦ elim (Bool-cases (u.password == "")) [
          | inl w ↦ ground (arith)
          | inr w ↦ elim (create_answers u n w) [
            | inl a ↦ ground (arith, done ∙ a)
            | inr (inl a) ↦ ground (arith, done ∙ a)
            | inr (inr a) ↦ ground (arith, done ∙ a)
          ]
        ]
      ]

  -- A registration whose body is readable never panics: it is answered by 201 if the profile was
  -- created, by 422 for an empty nick, then an empty password, by 409 for a nick that is used, and by
  -- 500 for any other failure.
  pub register_handler-answers :
      (u : CreateProfileRequest)
      → parse_request unmarshal_create_profile_request r.body ≡ ok u
      → seen (register_handler (profile_service users redis bcrypt salt) r (unwritten s)) ≡ (
          let (code, body) = registered u (answer_create users redis bcrypt salt u s.store) in
          (returns, some code, body ∷ []))
  register_handler-answers u h = ap seen (register_responds u h) ∙ responds-answers u

-- A body that is no request: both handlers write 400, and then read the fields of a nil pointer.
module _ {P : Type 0} (profiles : ProfileStore P) (decode_string : String → Option String)
    (r : Request) (p : P) where
  abbrev pub Panics : Outcome × Exchange P → Type 0
  Panics (o, x) = (o ≡ panics) × (x.status ≡ some 400) × (x.profiles ≡ p)

  -- A registration and an edit whose bodies are no requests are answered by 400, and then the handler
  -- panics. The profile store does not see them.
  pub malformed-Panics :
      (e f : Error)
      → parse_request unmarshal_create_profile_request r.body ≡ err e
      → parse_request unmarshal_edit_profile_request r.body ≡ err f
      → Panics (register_handler profiles r (unwritten p))
        × Panics (edit_profile_handler profiles decode_string r (unwritten p))
  unfolding register_handler edit_profile_handler read_request write_json_http_response
  malformed-Panics e f h i = (ground arith, ground arith)
