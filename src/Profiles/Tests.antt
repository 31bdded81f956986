-- ===== src/Profiles/Tests.antt =====
-- user_profile.go and storage/user.go at a concrete table, cache and hash.
pub mod Stores
use sockchat.Prelude.{
  String, ◌≡◌, ◌≢◌, ◌⊎◌, inl, inr, refl, ap, ◌∙◌, Bool, true, Option, none, some, List, [], ◌∷◌,
  arith, ◌==◌, ==_iff, Option-cases, Bool-cases, if◌then◌else◌, string_key,
}
use sockchat.Prelude.GoMap
use sockchat.Prelude.GoMap.{Map, get-set, get-delete}
use sockchat.Api.Effects.{ok, err}
use sockchat.Api.Errors.{Error, err_nick_already_used}
use sockchat.Api.Json.{Json}
use sockchat.Api.Structs.{CreateProfileRequest, EditProfileRequest}
use sockchat.Storage.Users.{
  User, UserStore, Statement, Execution, executed, driver_error, Database, insert_users,
  update_description, insert_user, update_public_profile, new_user_store,
}
use sockchat.Profiles.{
  Bcrypt, Redis, Reading, hit, nil, broken, ProfileService, is_auth_valid, get_profile, create,
  edit, run_pending,
}
use sockchat.Profiles.Laws.{IsTable, IsCache, Verifies, IsCoherent}
use sockchat.Profiles.Tables.{IsUsersTable, new_user_store-IsTable}
use sockchat.Profiles.Coherence.{is_auth_valid-decides, accepts}
use sockchat.Profiles.Updates.{registered_can_log_in}
use sockchat.Profiles.Edits.{edit_is_read, edit_beside_pending}
use sockchat.Profiles.Tests.Stores.{
  test_redis-IsCache, test_db, test_db-IsUsersTable, reading, test_bcrypt, execute,
  test_bcrypt-Verifies, test_users-IsTable, never_broken, row_of, describe, test_users, test_redis,
}

abbrev pub test_service : ProfileService (List User) (Map String Json)
test_service = record {
  store = record { nick = "ann"; pw_hash = "secret"; description = "old" } ∷ [];
  cache = [];
  pending = [];
}

pub empty_cache :
    (rows : List User → String → Option User) (d : List User)
    → IsCoherent test_redis rows (record { store = d; cache = []; pending = [] })
unfolding test_redis GoMap.get
empty_cache rows d = record { cached_rows = λ nick j h. absurd (ground arith); pending_rows = tt }

pub works : (c : Map String Json) (nick : String) (e : Error) → test_redis.get nick c ≢ broken e
unfolding test_redis
works c nick e = never_broken (GoMap.get nick c) e

new_user_store-IsTable_example : IsTable (new_user_store test_db) row_of
new_user_store-IsTable_example = new_user_store-IsTable test_db row_of test_db-IsUsersTable

is_auth_valid-decides_example :
    (is_auth_valid test_users test_redis test_bcrypt "ann" "guess" test_service).0
    ≡ accepts test_users test_redis test_bcrypt row_of test_users-IsTable
        (row_of test_service.store "ann")
        "guess"
is_auth_valid-decides_example =
    is_auth_valid-decides test_users test_redis test_bcrypt row_of test_users-IsTable "ann" "guess"
      test_service (empty_cache row_of test_service.store) (works [] "ann")

abbrev bob : CreateProfileRequest
bob = record { nick = "bob"; password = "hunter2"; description = "new here" }

bob_is_created : (create test_users test_redis test_bcrypt 5 bob test_service).0 ≡ ok tt
unfolding create insert_user execute row_of test_db
bob_is_created = refl

registered_can_log_in_example :
    (is_auth_valid test_users test_redis test_bcrypt "bob" "hunter2"
      (create test_users test_redis test_bcrypt 5 bob test_service).1).0
    ≡ true
registered_can_log_in_example =
    registered_can_log_in test_users test_redis test_bcrypt row_of test_users-IsTable 5 bob
      test_service test_bcrypt-Verifies (empty_cache row_of test_service.store) (works [] "bob")
      bob_is_created

abbrev news : EditProfileRequest
news = record { description = "new" }

ann_is_edited : (edit test_users test_redis test_bcrypt "ann" news test_service).0 ≡ ok tt
unfolding edit update_public_profile execute describe test_db
ann_is_edited = refl

edit_is_read_example :
    let t = (edit test_users test_redis test_bcrypt "ann" news test_service).1 in
    IsCoherent test_redis row_of t
    × ((get_profile test_users test_redis test_bcrypt "ann" t).0
        ≡ ok (record { nick = "ann"; description = "new" }))
unfolding row_of
edit_is_read_example =
    edit_is_read test_users test_redis test_bcrypt "ann" news test_service row_of test_users-IsTable
      test_redis-IsCache (record { nick = "ann"; pw_hash = "secret"; description = "old" }) refl
      refl tt (empty_cache row_of test_service.store) refl (works (test_redis.del "ann" []) "ann")
      ann_is_edited

fresh_entry :
    (k : String) (v : Json) (c : Map String Json)
    → test_redis.get k (test_redis.set k v 10 c) ≡ hit v
unfolding test_redis
fresh_entry k v c =
    let found : GoMap.get k (GoMap.set k v c) ≡ some v =
      ground (arith, get-set k k v c, ==_iff k k) in
    ap reading found

-- Ann's profile has been read, and the goroutine that caches it has not run.
abbrev read_once : ProfileService (List User) (Map String Json)
read_once = record test_service {
  pending = record { nick = "ann"; pw_hash = "secret"; description = "old" } ∷ [];
}

ann_is_edited_late : (edit test_users test_redis test_bcrypt "ann" news read_once).0 ≡ ok tt
unfolding edit update_public_profile execute describe test_db
ann_is_edited_late = refl

edit_beside_pending_example :
    let t =
      run_pending test_users test_redis test_bcrypt read_once.pending
        (edit test_users test_redis test_bcrypt "ann" news read_once).1 in
    (row_of t.store "ann" ≡ some (record { nick = "ann"; pw_hash = "secret"; description = "new" }))
    × ((get_profile test_users test_redis test_bcrypt "ann" t).0
        ≡ ok (record { nick = "ann"; description = "old" }))
unfolding row_of
edit_beside_pending_example =
    edit_beside_pending test_users test_redis test_bcrypt fresh_entry
      (record { nick = "ann"; pw_hash = "secret"; description = "old" }) refl row_of
      test_users-IsTable news read_once refl refl ann_is_edited_late
