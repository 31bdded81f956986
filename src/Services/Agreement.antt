-- ===== src/Services/Agreement.antt =====
-- services/web.go and services/grpc.go: registering over HTTP and over gRPC.
use sockchat.Prelude.{
  String, ◌≡◌, ◌⊎◌, inl, inr, refl, ap, ◌∙◌, Option, none, some, [], arith, string_key, ◌↔◌,
}
use sockchat.Api.Errors.{Error}
use sockchat.Api.Effects.{Result, ok, err}
use sockchat.Api.Structs.{CreateProfileRequest, EmptyMessage}
use sockchat.Api.Serialization.{unmarshal_create_profile_request}
use sockchat.Api.Translation.{RegisterProfileMessage, create_profile_request_from_proto}
use sockchat.Services.Interfaces.{ProfileStore}
use sockchat.Services.Core.{register_profile}
use sockchat.Services.Web.{
  Request, Exchange, register_handler, read_request, respond, http_status, parse_request,
  write_json_http_response,
}
use sockchat.Services.Grpc.{register_profile_method, or_status, responds}

register_cases :
    {P : Type 0} (o : Result EmptyMessage × P)
    → ((x : EmptyMessage) × (q : P) × (o ≡ (ok x, q))) ⊎ ((e : Error) × (q : P) × (o ≡ (err e, q)))
register_cases (ok x, q) = inl (x, q, refl)
register_cases (err e, q) = inr (e, q, refl)

-- No error has the status of a profile that was created.
never_created : (e : Error) → (http_status e ≡ 201) → ⊥
unfolding http_status
never_created e h = ground (arith, h)

module _ {P : Type 0} (profiles : ProfileStore P) (decode_string : String → Option String)
    (r : Request) (p : P) (u : CreateProfileRequest) where
  abbrev pub over_http : Exchange P
  over_http = (register_handler profiles r (record { status = none; written = []; profiles = p })).1

  abbrev pub message : RegisterProfileMessage
  message = record { nick = u.nick; password = u.password; description = u.description }

  -- A registration with an empty description does the same to the profiles whether it comes over HTTP
  -- or over gRPC, and it is answered by 201 there exactly if it is answered by a response here.
  pub registers_alike :
      parse_request unmarshal_create_profile_request r.body ≡ ok u
      → u.description ≡ ""
      → let (outcome, q) = register_profile_method profiles decode_string message p in
        (over_http.profiles ≡ q)
        × ((over_http.status ≡ some 201) ↔ (outcome ≡ responds (record {})))
  unfolding register_handler read_request respond register_profile_method or_status
      create_profile_request_from_proto write_json_http_response
  registers_alike h d =
      let same : create_profile_request_from_proto message ≡ u = ground (arith, d) in
      elim (register_cases (register_profile profiles u p)) [
        | inl (x, q, e) ↦
            let grpc : register_profile profiles (create_profile_request_from_proto message) p
                ≡ (ok x, q) =
              ap (λ v. register_profile profiles v p) same ∙ e in
            (ground (arith, h, e, grpc), (λ _. ground (arith, grpc), λ _. ground (arith, h, e)))
        | inr (x, q, e) ↦
            let grpc : register_profile profiles (create_profile_request_from_proto message) p
                ≡ (err x, q) =
              ap (λ v. register_profile profiles v p) same ∙ e in
            (
              ground (arith, h, e, grpc),
              (
                λ s. absurd (ground (arith, s, h, e, never_created x)),
                λ s. absurd (ground (arith, s, grpc)),
              ),
            )
      ]
