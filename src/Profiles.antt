-- ===== src/Profiles.antt =====
-- user_profile.go: the profile service over a store of users and a cache. bcrypt and the Redis client
-- are parameters. `pending` holds the users that goroutines are about to put into the cache.
pub mod Laws
pub mod Tables
pub mod Coherence
pub mod Updates
pub mod Edits
pub mod Tests
use sockchat.Prelude.{
  ℕ, String, Bool, true, false, ◌||◌, Option, none, some, List, [], ◌∷◌, ◌++◌, if◌then◌else◌, ◌==◌,
  string_key,
}
use sockchat.Api.Errors.{
  Error, err_password_required, err_nick_required, err_internal, err_nick_already_used,
  err_user_not_found,
}
use sockchat.Api.Effects.{ok, err, Action, return_if, raise, ◌>>◌}
use sockchat.Api.Json.{Json, str, obj, end, field, string_field, object_fields}
use sockchat.Api.Structs.{PublicProfile, CreateProfileRequest, EditProfileRequest}
use sockchat.Storage.Users.{User, UserStore}

-- golang.org/x/crypto/bcrypt: hashing takes fresh random bytes, here the number `salt`, and fails for
-- a password that is too long.
pub record Bcrypt : Type 0 where
  pub generate_from_password : ℕ → String → Option String
  pub compare_hash_and_password : String → String → Bool

-- What `Get` answers: a value, `redis.Nil`, or another error.
pub data Reading : Type 0 where
  hit : Json → Reading
  nil : Reading
  broken : Error → Reading

-- The client of Redis, with the state of the cache.
pub record Redis (C : Type 0) : Type 0 where
  pub get : String → C → Reading
  pub set : String → Json → ℕ → C → C
  pub del : String → C → C

pub record ProfileService (D C : Type 0) : Type 0 where
  pub store : D
  pub cache : C
  pub pending : List User

-- The JSON of a `storage.User`, whose fields have no tags.
unfoldable pub marshal_user : User → Json
marshal_user u = obj (
    field "Nick" (str u.nick)
      (field "PwHash" (str u.pw_hash) (field "Description" (str u.description) end)))

-- `json.Unmarshal` into a fresh user whose error is only logged: what was filled in stays.
unfoldable pub unmarshal_user : Json → User
unfolding object_fields string_field
unmarshal_user j = elim (object_fields j) [
  | none ↦ record { nick = ""; pw_hash = ""; description = "" }
  | some fields ↦ record {
    nick = (string_field "Nick" fields ("", true)).0;
    pw_hash = (string_field "PwHash" fields ("", true)).0;
    description = (string_field "Description" fields ("", true)).0;
  }
]

abbrev pub is_nick_already_used : Error → Bool
is_nick_already_used err_nick_already_used = true
is_nick_already_used _ = false

abbrev is_user_not_found : Error → Bool
is_user_not_found err_user_not_found = true
is_user_not_found _ = false

-- `getFromCache` returns a user, `redis.Nil` or another error.
pub data FromCache : Type 0 where
  cached : User → FromCache
  absent : FromCache
  unavailable : Error → FromCache

module _ {D C : Type 0} (users : UserStore D) (redis : Redis C) (bcrypt : Bcrypt) where
  abbrev insert_or_fail : User → Action (ProfileService D C) (Unit {0})
  insert_or_fail entry s =
      let (r, kept) = users.insert_user entry s.store in
      (
        elim r [
          | ok _ ↦ ok tt
          | err e ↦ if is_nick_already_used e then err e else err err_internal
        ],
        record s { store = kept },
      )

  abbrev insert_hashed :
      CreateProfileRequest → Option String → Action (ProfileService D C) (Unit {0})
  insert_hashed u none = raise err_internal
  insert_hashed u (some pw_hash) =
      insert_or_fail (record { nick = u.nick; pw_hash = pw_hash; description = u.description })

  unfoldable pub create : ℕ → CreateProfileRequest → Action (ProfileService D C) (Unit {0})
  create salt u = do
    return_if (u.password == "") err_password_required
    return_if (u.nick == "") err_nick_required
    insert_hashed u (bcrypt.generate_from_password salt u.password)

  unfoldable remove_from_cache : String → ProfileService D C → ProfileService D C
  remove_from_cache nick s = record s { cache = redis.del nick s.cache }

  unfoldable pub edit : String → EditProfileRequest → Action (ProfileService D C) (Unit {0})
  unfolding remove_from_cache
  edit nick req s =
      let (r, kept) =
        users.update_public_profile (record { nick = nick; description = req.description })
          s.store in
      elim r [
        | err _ ↦ (err err_internal, record s { store = kept })
        | ok _ ↦ (ok tt, remove_from_cache nick (record s { store = kept }))
      ]

  -- Ten seconds.
  abbrev cache_seconds : ℕ
  cache_seconds = 10

  -- The context, which a caller may have cancelled when the goroutine gets to run, is left out.
  unfoldable pub set_in_cache : User → ProfileService D C → ProfileService D C
  unfolding marshal_user
  set_in_cache u s = record s { cache = redis.set u.nick (marshal_user u) cache_seconds s.cache }

  unfoldable get_from_cache : String → ProfileService D C → FromCache
  unfolding unmarshal_user
  get_from_cache nick s = elim (redis.get nick s.cache) [
    | hit j ↦ cached (unmarshal_user j)
    | nil ↦ absent
    | broken e ↦ unavailable e
  ]

  unfoldable pub get_user_data : String → Action (ProfileService D C) User
  unfolding get_from_cache
  get_user_data nick s = elim (get_from_cache nick s) [
    | cached u ↦ (ok u, s)
    | unavailable e ↦ (err e, s)
    | absent ↦ elim (users.select_user nick s.store) [
      | err _ ↦ (err err_user_not_found, s)
      | ok u ↦ (ok u, record s { pending = s.pending ++ u ∷ [] })
    ]
  ]

  unfoldable pub is_auth_valid : String → String → ProfileService D C → Bool × ProfileService D C
  unfolding get_user_data
  is_auth_valid nick password s =
      if nick == "" || password == ""
      then (false, s)
      else (let (r, t) = get_user_data nick s in
          (
            elim r [ err _ ↦ false | ok u ↦ bcrypt.compare_hash_and_password u.pw_hash password ],
            t,
          ))

  unfoldable pub get_profile : String → Action (ProfileService D C) PublicProfile
  unfolding get_user_data
  get_profile nick s =
      if nick == ""
      then (err err_nick_required, s)
      else (let (r, t) = get_user_data nick s in
          (
            elim r [
              | err e ↦ if is_user_not_found e then err e else err err_internal
              | ok u ↦ ok (record { nick = u.nick; description = u.description })
            ],
            t,
          ))

  -- The first of the goroutines that fill the cache runs.
  unfoldable pub run_pending : List User → ProfileService D C → ProfileService D C
  unfolding set_in_cache
  run_pending [] s = s
  run_pending (u ∷ us) s = run_pending us (set_in_cache u s)
