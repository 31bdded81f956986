-- ===== src/Services/Authentication/Tokens.antt =====
-- services/authentication.go: which credentials a token carries.
use Prim.Native.Char.{code}
use sockchat.Prelude.{
  ℕ, String, ◌≡◌, inl, inr, refl, ap, Bool, true, false, Option, some, arith, nat_eq, nat_eq_iff,
  if◌then◌else◌, Option-cases,
}
use sockchat.Api.Effects.{ok}
use sockchat.Services.Authentication.{
  AuthWrapper, cut_prefix_by, cut_colon, decode_token, basic_auth, to_lower,
}

-- One text after the other.
abbrev pub join : String → String → String
join String.[] t = t
join (String.◌∷◌ c s) t = String.◌∷◌ c (join s t)

abbrev has_colon : String → Bool
has_colon String.[] = false
has_colon (String.◌∷◌ c user) = if nat_eq (code c) b':' then true else has_colon user

cut_colon-join :
    (user password : String)
    → has_colon user ≡ false
    → cut_colon (join user (join ":" password)) ≡ some (user, password)
unfolding cut_colon
cut_colon-join String.[] password h = refl
cut_colon-join (String.◌∷◌ c user) password h = ground (arith, cut_colon-join user password)

cut_prefix_by-basic :
    (rest : String) → cut_prefix_by (λ c. c) (join "Basic " rest) "Basic " ≡ some rest
unfolding cut_prefix_by
cut_prefix_by-basic rest = refl

-- A prefix that is cut off exactly is also cut off by a comparison of normal forms.
cut_prefix_by-norm :
    (norm : ℕ → ℕ) (text prefix rest : String)
    → cut_prefix_by (λ c. c) text prefix ≡ some rest
    → cut_prefix_by norm text prefix ≡ some rest
unfolding cut_prefix_by
cut_prefix_by-norm norm text String.[] rest h = h
cut_prefix_by-norm norm String.[] (String.◌∷◌ d prefix) rest h = h
cut_prefix_by-norm norm (String.◌∷◌ c text) (String.◌∷◌ d prefix) rest h = ground (
  arith,
  cut_prefix_by-norm norm text prefix rest,
  nat_eq_iff (code c) (code d),
  nat_eq_iff (norm (code c)) (norm (code d)),
  ap norm,
)

some_prefix :
    (decode_string : String → Option String) (token : String) (auth : AuthWrapper)
    → decode_token decode_string token ≡ ok auth
    → (encoded : String) × (cut_prefix_by (λ c. c) token "Basic " ≡ some encoded)
unfolding decode_token
some_prefix decode_string token auth h =
    elim (Option-cases (cut_prefix_by (λ c. c) token "Basic ")) [
      | inl n ↦ absurd (ground arith)
      | inr (encoded, e) ↦ (encoded, e)
    ]

module _ (decode_string : String → Option String) where
  -- Who is authenticated is who acts: for every token that the authentication reads, net/http's
  -- `BasicAuth`, by which the web handlers tell who edits a profile, reads the same user and password.
  pub basic_auth-decode_token :
      (token : String) (auth : AuthWrapper)
      → decode_token decode_string token ≡ ok auth
      → basic_auth decode_string token ≡ (auth.username, auth.password, true)
  unfolding basic_auth decode_token
  basic_auth-decode_token token auth h =
      let (encoded, e) = some_prefix decode_string token auth h in
      elim (Option-cases (decode_string encoded)) [
        | inl n ↦ absurd (ground arith)
        | inr (text, d) ↦ elim (Option-cases (cut_colon text)) [
          | inl n ↦ absurd (ground arith)
          | inr ((username, password), c) ↦
              ground (arith, cut_prefix_by-norm to_lower token "Basic " encoded e)
        ]
      ]

  -- A token of a user and a password, encoded so that the decoder gives them back, is read as these,
  -- both by the authentication and by net/http's `BasicAuth`: the password may have colons, and the
  -- user may not.
  pub decode_token-join :
      (user password encoded : String)
      → has_colon user ≡ false
      → decode_string encoded ≡ some (join user (join ":" password))
      → (decode_token decode_string (join "Basic " encoded)
          ≡ ok (record { username = user; password = password }))
        × (basic_auth decode_string (join "Basic " encoded) ≡ (user, password, true))
  unfolding decode_token
  decode_token-join user password encoded h d =
      let read : decode_token decode_string (join "Basic " encoded)
          ≡ ok (record { username = user; password = password }) =
        ground (arith, cut_prefix_by-basic encoded, cut_colon-join user password h) in
      (read, basic_auth-decode_token (join "Basic " encoded) _ read)
