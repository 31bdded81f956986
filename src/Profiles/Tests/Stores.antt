-- ===== src/Profiles/Tests/Stores.antt =====
-- A table of users, a cache and a hash for the tests of user_profile.go and storage/user.go.
use sockchat.Prelude.{
  String, ◌≡◌, ◌≢◌, ◌⊎◌, inl, inr, refl, ap, ◌∙◌, Bool, true, Option, none, some, List, [], ◌∷◌,
  arith, ◌==◌, ==_iff, Option-cases, Bool-cases, if◌then◌else◌, string_key,
}
use sockchat.Prelude.GoMap
use sockchat.Prelude.GoMap.{Map, get-set, get-delete}
use sockchat.Api.Errors.{Error}
use sockchat.Api.Json.{Json}
use sockchat.Storage.Users.{
  User, UserStore, Statement, Execution, executed, driver_error, Database, insert_users,
  update_description, new_user_store,
}
use sockchat.Profiles.{Bcrypt, Redis, Reading, hit, nil, broken}
use sockchat.Profiles.Laws.{IsTable, IsCache, Verifies}
use sockchat.Profiles.Tables.{IsUsersTable, new_user_store-IsTable}

unfoldable pub row_of : List User → String → Option User
row_of [] nick = none
row_of (u ∷ us) nick = if u.nick == nick then some u else row_of us nick

unfoldable pub describe : String → String → List User → List User
describe description nick [] = []
describe description nick (u ∷ us) =
    if u.nick == nick
    then record u { description = description } ∷ us
    else u ∷ describe description nick us

unfoldable pub execute : Statement → List User → Execution × List User
unfolding row_of describe
execute (insert_users nick pw_hash description) us = elim (row_of us nick) [
  | some _ ↦ (driver_error 1062, us)
  | none ↦
      (executed true, record { nick = nick; pw_hash = pw_hash; description = description } ∷ us)
]
execute (update_description description nick) us = (executed true, describe description nick us)

unfoldable pub test_db : Database (List User)
unfolding execute row_of
test_db = record {
  er_dup_entry = 1062;
  exec_context = execute;
  query_row = λ nick us. row_of us nick;
}

row_of_own : (us : List User) (nick : String) (u : User) → row_of us nick ≡ some u → u.nick ≡ nick
unfolding row_of
row_of_own [] nick u h = absurd (ground arith)
row_of_own (v ∷ us) nick u h = ground (arith, row_of_own us nick u, ==_iff v.nick nick)

row_of-nick :
    (us : List User) (nick : String) (u : User)
    → row_of us nick ≡ some u
    → row_of us u.nick ≡ some u
row_of-nick us nick u h = ap (row_of us) (row_of_own us nick u h) ∙ h

row_of-describe :
    (us : List User) (description nick : String) (u : User)
    → row_of us nick ≡ some u
    → row_of (describe description nick us) nick ≡ some (record u { description = description })
unfolding row_of describe
row_of-describe [] description nick u h = absurd (ground arith)
row_of-describe (v ∷ us) description nick u h =
    ground (arith, row_of-describe us description nick u)

row_of-other :
    (us : List User) (description nick k : String) (v : User)
    → row_of us k ≡ some v
    → row_of us nick ≢ some v
    → row_of (describe description nick us) k ≡ some v
unfolding row_of describe
row_of-other [] description nick k v h ne = absurd (ground arith)
row_of-other (u ∷ us) description nick k v h ne =
    ground (arith, row_of-other us description nick k v, ==_iff u.nick nick, ==_iff u.nick k)

inserted_row :
    (us : List User) (u : User) (counted : Bool)
    → (execute (insert_users u.nick u.pw_hash u.description) us).0 ≡ executed counted
    → row_of (execute (insert_users u.nick u.pw_hash u.description) us).1 u.nick ≡ some u
unfolding execute row_of
inserted_row us u counted h = elim (Option-cases (row_of us u.nick)) [
  | inl e ↦ ground (arith, ==_iff u.nick u.nick)
  | inr (v, e) ↦ absurd (ground arith)
]

kept_row :
    (us : List User) (nick pw_hash description k : String) (v : User)
    → row_of us k ≡ some v
    → row_of (execute (insert_users nick pw_hash description) us).1 k ≡ some v
unfolding execute row_of
kept_row us nick pw_hash description k v h = elim (Option-cases (row_of us nick)) [
  | inl e ↦ ground (arith, ==_iff nick k)
  | inr (w, e) ↦ ground arith
]

new_nick :
    (us : List User) (nick pw_hash description : String) (counted : Bool)
    → (execute (insert_users nick pw_hash description) us).0 ≡ executed counted
    → row_of us nick ≡ none
unfolding execute
new_nick us nick pw_hash description counted h = elim (Option-cases (row_of us nick)) [
  | inl e ↦ e
  | inr (v, e) ↦ absurd (ground arith)
]

pub test_db-IsUsersTable : IsUsersTable test_db row_of
unfolding execute test_db
test_db-IsUsersTable = record {
  queries = λ d nick. refl;
  own_nick = row_of-nick;
  inserts = inserted_row;
  insert_keeps = kept_row;
  inserts_new = new_nick;
  updates = λ d description nick u counted h row. row_of-describe d description nick u row;
  update_keeps = row_of-other;
}

abbrev pub test_users : UserStore (List User)
test_users = new_user_store test_db

pub test_users-IsTable : IsTable test_users row_of
test_users-IsTable = new_user_store-IsTable test_db row_of test_db-IsUsersTable

abbrev pub reading : Option Json → Reading
reading none = nil
reading (some j) = hit j

-- A cache that never lets an entry expire.
unfoldable pub test_redis : Redis (Map String Json)
unfolding GoMap.get GoMap.set GoMap.delete
test_redis = record {
  get = λ k c. reading (GoMap.get k c);
  set = λ k j seconds c. GoMap.set k j c;
  del = λ k c. GoMap.delete k c;
}

reading_hit : (r : Option Json) (j : Json) → reading r ≡ hit j → r ≡ some j
reading_hit none j h = absurd (ground arith)
reading_hit (some i) j h = ground arith

pub never_broken : (r : Option Json) (e : Error) → reading r ≢ broken e
never_broken none e h = ground arith
never_broken (some i) e h = ground arith

set_hit :
    (k j : String) (v w : Json) (c : Map String Json)
    → reading (GoMap.get j (GoMap.set k v c)) ≡ hit w
    → ((k ≡ j) × (w ≡ v)) ⊎ (reading (GoMap.get j c) ≡ hit w)
set_hit k j v w c h =
    let found = reading_hit (GoMap.get j (GoMap.set k v c)) w h in
    elim (Bool-cases (k == j)) [
      | inl e ↦ inl ((==_iff k j).0 e, ground (arith, found, get-set k j v c))
      | inr e ↦
          let old : GoMap.get j c ≡ some w = ground (arith, found, get-set k j v c) in
          inr (ap reading old)
    ]

del_hit :
    (k j : String) (w : Json) (c : Map String Json)
    → reading (GoMap.get j (GoMap.delete k c)) ≡ hit w
    → (k ≢ j) × (reading (GoMap.get j c) ≡ hit w)
del_hit k j w c h =
    let found = reading_hit (GoMap.get j (GoMap.delete k c)) w h in
    elim (Bool-cases (k == j)) [
      | inl e ↦ absurd (ground (arith, found, get-delete k j c))
      | inr e ↦
          let old : GoMap.get j c ≡ some w = ground (arith, found, get-delete k j c) in
          (λ x. absurd (ground (arith, ==_iff k j)), ap reading old)
    ]

pub test_redis-IsCache : IsCache test_redis
unfolding test_redis
test_redis-IsCache = record {
  set_hits = λ k j v w seconds c h. set_hit k j v w c h;
  del_hits = λ k j w c h. del_hit k j w c h;
}

-- A hash that is the password.
abbrev pub test_bcrypt : Bcrypt
test_bcrypt = record {
  generate_from_password = λ salt password. some password;
  compare_hash_and_password = λ pw_hash password. pw_hash == password;
}

pub test_bcrypt-Verifies : Verifies test_bcrypt
test_bcrypt-Verifies salt password pw_hash h = ground (arith, ==_iff pw_hash password)
