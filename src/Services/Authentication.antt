-- ===== src/Services/Authentication.antt =====
-- services/authentication.go: credentials from a basic token. `decode_string` is the decoder of
-- encoding/base64's `StdEncoding`, a parameter.
pub mod Tokens
use Prim.Native.Char.{Char, code}
use sockchat.Prelude.{
  ℕ, ◌+◌, String, Bool, true, false, not, ◌&&◌, Option, none, some, leb, nat_eq, if◌then◌else◌,
  ◌==◌, string_key,
}
use sockchat.Api.Errors.{
  Error, err_basic_token_required, err_could_not_decode_token, err_authorization_required,
}
use sockchat.Api.Effects.{Result, ok, err, Action}
use sockchat.Services.Interfaces.{ProfileStore}

pub record AuthWrapper : Type 0 where
  pub username : String
  pub password : String

-- The text after a prefix, where letters are compared by `norm`.
unfoldable pub cut_prefix_by : (ℕ → ℕ) → String → String → Option String
cut_prefix_by norm text String.[] = some text
cut_prefix_by norm String.[] (String.◌∷◌ d prefix) = none
cut_prefix_by norm (String.◌∷◌ c text) (String.◌∷◌ d prefix) =
    if nat_eq (norm (code c)) (norm (code d)) then cut_prefix_by norm text prefix else none

-- The texts before and after the first colon, as `strings.SplitN(text, ":", 2)` and
-- `strings.Cut(text, ":")` find them.
unfoldable pub cut_colon : String → Option (String × String)
cut_colon String.[] = none
cut_colon (String.◌∷◌ c text) =
    let rest = cut_colon text in
    if nat_eq (code c) b':'
    then some ("", text)
    else (elim rest [ none ↦ none | some (before, after) ↦ some (String.◌∷◌ c before, after) ])

unfoldable pub decode_token : (String → Option String) → String → Result AuthWrapper
unfolding cut_prefix_by cut_colon
decode_token decode_string token = elim (cut_prefix_by (λ c. c) token "Basic ") [
  | none ↦ err err_basic_token_required
  | some encoded ↦ elim (decode_string encoded) [
    | none ↦ err err_could_not_decode_token
    | some text ↦ elim (cut_colon text) [
      | none ↦ err err_basic_token_required
      | some (username, password) ↦ ok (record { username = username; password = password })
    ]
  ]
]

abbrev pub to_lower : ℕ → ℕ
to_lower c = if leb b'A' c && leb c b'Z' then c + 32 else c

-- `r.BasicAuth()` of net/http, whose prefix may be written in any case.
unfoldable pub basic_auth : (String → Option String) → String → String × String × Bool
unfolding cut_prefix_by cut_colon
basic_auth decode_string token = elim (cut_prefix_by to_lower token "Basic ") [
  | none ↦ ("", "", false)
  | some encoded ↦ elim (decode_string encoded) [
    | none ↦ ("", "", false)
    | some text ↦ elim (cut_colon text) [
      | none ↦ ("", "", false)
      | some (username, password) ↦ (username, password, true)
    ]
  ]
]

-- `tokenFromHeader`, on what `header.Get` gives: the empty text for a header that is missing.
unfoldable pub token_from_header : String → Result String
token_from_header token = if token == "" then err err_authorization_required else ok token

unfoldable pub authenticate_from_basic_token :
    {P : Type 0} → ProfileStore P → (String → Option String) → String → Action P Bool
unfolding decode_token
authenticate_from_basic_token profiles decode_string token p =
    elim (decode_token decode_string token) [
      | err e ↦ (err e, p)
      | ok auth ↦
          let (valid, q) = profiles.is_auth_valid auth.username auth.password p in (ok valid, q)
    ]
