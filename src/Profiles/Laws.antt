-- ===== src/Profiles/Laws.antt =====
-- What user_profile.go relies on: that the store of users is a table keyed by nick, that the cache
-- answers only what was put into it, and that bcrypt accepts the password that it hashed.
use sockchat.Prelude.{ℕ, String, ◌≡◌, ◌≢◌, ◌↔◌, ◌⊎◌, refl, true, Option, some, All}
use sockchat.Api.Effects.{ok}
use sockchat.Api.Structs.{PublicProfile}
use sockchat.Api.Json.{Json}
use sockchat.Storage.Users.{User, UserStore}
use sockchat.Profiles.{Bcrypt, Redis, hit, marshal_user, unmarshal_user, ProfileService}

-- `rows d nick` is the row that a query for the nick finds. Nothing is said of how nicks are
-- compared, but that a row is found under its own nick.
pub record IsTable {D : Type 0} (users : UserStore D) (rows : D → String → Option User)
    : Type 0 where
  pub selects :
      (d : D) (nick : String) (u : User)
      → (users.select_user nick d ≡ ok u) ↔ (rows d nick ≡ some u)
  pub own_nick : (d : D) (nick : String) (u : User) → rows d nick ≡ some u → rows d u.nick ≡ some u
  pub inserts :
      (d : D) (u : User)
      → (users.insert_user u d).0 ≡ ok tt
      → rows (users.insert_user u d).1 u.nick ≡ some u
  pub insert_keeps :
      (d : D) (u : User) (nick : String) (v : User)
      → rows d nick ≡ some v
      → rows (users.insert_user u d).1 nick ≡ some v
  pub updates :
      (d : D) (p : PublicProfile) (u : User)
      → (users.update_public_profile p d).0 ≡ ok tt
      → rows d p.nick ≡ some u
      → rows (users.update_public_profile p d).1 p.nick
        ≡ some (record u { description = p.description })
  pub update_keeps :
      (d : D) (p : PublicProfile) (nick : String) (v : User)
      → rows d nick ≡ some v
      → rows d p.nick ≢ some v
      → rows (users.update_public_profile p d).1 nick ≡ some v

-- Entries may expire at any time: only what a hit tells is fixed.
pub record IsCache {C : Type 0} (redis : Redis C) : Type 0 where
  pub set_hits :
      (k j : String) (v w : Json) (seconds : ℕ) (c : C)
      → redis.get j (redis.set k v seconds c) ≡ hit w
      → ((k ≡ j) × (w ≡ v)) ⊎ (redis.get j c ≡ hit w)
  pub del_hits :
      (k j : String) (w : Json) (c : C)
      → redis.get j (redis.del k c) ≡ hit w
      → (k ≢ j) × (redis.get j c ≡ hit w)

abbrev pub Verifies : Bcrypt → Type 0
Verifies bcrypt =
    (salt : ℕ) (password pw_hash : String)
    → bcrypt.generate_from_password salt password ≡ some pw_hash
    → bcrypt.compare_hash_and_password pw_hash password ≡ true

-- The cache gives back the user that was put into it.
pub unmarshal-marshal_user : (u : User) → unmarshal_user (marshal_user u) ≡ u
unfolding unmarshal_user marshal_user
unmarshal-marshal_user u = refl

module _ {D C : Type 0} (redis : Redis C) (rows : D → String → Option User) where
  -- Whatever the cache answers, and whatever is about to be put into it, is the row in the table.
  pub record IsCoherent (s : ProfileService D C) : Type 0 where
    pub cached_rows :
        (nick : String) (j : Json)
        → redis.get nick s.cache ≡ hit j
        → (u : User) × (rows s.store nick ≡ some u) × (u.nick ≡ nick) × (j ≡ marshal_user u)
    pub pending_rows : All (λ (u : User). rows s.store u.nick ≡ some u) s.pending
