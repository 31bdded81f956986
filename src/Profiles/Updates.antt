-- ===== src/Profiles/Updates.antt =====
-- user_profile.go: what creating a profile does to the table and to the cache.
use sockchat.Prelude.{
  ℕ, String, ◌≡◌, ◌≢◌, inl, inr, refl, sym, ap, ◌∙◌, subst, true, false, ◌||◌, Option, none, some,
  All, All-mono, arith, ◌==◌, if◌then◌else◌, Option-cases, Bool-cases, string_key,
}
use sockchat.Api.Effects.{Result, ok, err}
use sockchat.Api.Errors.{Error, err_password_required, err_nick_required, err_internal}
use sockchat.Api.Structs.{CreateProfileRequest}
use sockchat.Storage.Users.{User, UserStore}
use sockchat.Profiles.{
  Bcrypt, Redis, broken, ProfileService, is_auth_valid, create, is_nick_already_used,
}
use sockchat.Profiles.Laws.{IsTable, Verifies, IsCoherent}
use sockchat.Profiles.Coherence.{is_auth_valid-decides}

module _ {D C : Type 0} (users : UserStore D) (redis : Redis C) (bcrypt : Bcrypt) where
  -- The user that a request stands for, with its hash.
  abbrev pub entry : CreateProfileRequest → String → User
  entry u pw_hash = record { nick = u.nick; pw_hash = pw_hash; description = u.description }

  abbrev pub inserted : CreateProfileRequest → String → D → Result (Unit {0}) × D
  inserted u pw_hash d = users.insert_user (entry u pw_hash) d

  -- The error that the service reports for one of the store.
  abbrev pub reported : Result (Unit {0}) → Result (Unit {0})
  reported (ok _) = ok tt
  reported (err e) = if is_nick_already_used e then err e else err err_internal

  -- The answer of `Create`, by the first check that fails.
  abbrev pub answer_create : ℕ → CreateProfileRequest → D → Result (Unit {0})
  answer_create salt u d =
      if u.password == ""
      then err err_password_required
      else if u.nick == ""
      then err err_nick_required
      else (elim (bcrypt.generate_from_password salt u.password) [
        | none ↦ err err_internal
        | some pw_hash ↦ reported (inserted u pw_hash d).0
      ])

  -- The table after `Create`.
  abbrev store_create : ℕ → CreateProfileRequest → D → D
  store_create salt u d =
      if u.password == "" || u.nick == ""
      then d
      else (elim (bcrypt.generate_from_password salt u.password) [
        | none ↦ d
        | some pw_hash ↦ (inserted u pw_hash d).1
      ])

  -- `Create` refuses an empty password, then an empty nick, then a password that cannot be hashed,
  -- and otherwise inserts the user with the hash in place of the password. A nick that is used is
  -- reported as such, every other failure of the store as `ErrInternal`. The table is touched by that
  -- insertion only, and the cache and what is about to enter it are left alone.
  pub create-answers :
      (salt : ℕ) (u : CreateProfileRequest) (s : ProfileService D C)
      → let (r, t) = create users redis bcrypt salt u s in
        (r ≡ answer_create salt u s.store)
        × (t.store ≡ store_create salt u s.store)
        × (t.cache ≡ s.cache)
        × (t.pending ≡ s.pending)
  unfolding create
  create-answers salt u s = elim (Option-cases (bcrypt.generate_from_password salt u.password)) [
    | inl h ↦ (ground arith, ground arith, ground arith, ground arith)
    | inr (pw_hash, h) ↦ (ground arith, ground arith, ground arith, ground arith)
  ]

module _ {D C : Type 0} (users : UserStore D) (redis : Redis C) (bcrypt : Bcrypt) where
  reported_ok : (r : Result (Unit {0})) → reported users redis bcrypt r ≡ ok tt → r ≡ ok tt
  reported_ok (ok x) h = refl
  reported_ok (err e) h = elim (Bool-cases (is_nick_already_used e)) [
    | inl y ↦ absurd (ground arith)
    | inr n ↦ absurd (ground arith)
  ]

module _ {D C : Type 0} (redis : Redis C) (rows : D → String → Option User) where
  -- Coherence stays where rows stay and the cache is the same.
  kept-IsCoherent :
      (s t : ProfileService D C)
      → t.cache ≡ s.cache
      → t.pending ≡ s.pending
      → ((nick : String) (v : User) → rows s.store nick ≡ some v → rows t.store nick ≡ some v)
      → IsCoherent redis rows s
      → IsCoherent redis rows t
  kept-IsCoherent s t same_cache same_pending keeps c = record {
    cached_rows = λ nick j h.
        let (u, row, own, e) = c.cached_rows nick j (sym (ap (redis.get nick) same_cache) ∙ h) in
        (u, keeps nick u row, own, e);
    pending_rows = subst (All (λ (u : User). rows t.store u.nick ≡ some u)) (sym same_pending) (
        All-mono (λ (u : User). rows s.store u.nick ≡ some u)
          (λ (u : User). rows t.store u.nick ≡ some u) s.pending (λ u. keeps u.nick u)
          c.pending_rows);
  }

module _ {D C : Type 0} (users : UserStore D) (redis : Redis C) (bcrypt : Bcrypt)
    (rows : D → String → Option User) (table : IsTable users rows) where
  store_create-keeps :
      (salt : ℕ) (u : CreateProfileRequest) (d : D) (nick : String) (v : User)
      → rows d nick ≡ some v
      → rows (store_create users redis bcrypt salt u d) nick ≡ some v
  store_create-keeps salt u d nick v h =
      elim (Option-cases (bcrypt.generate_from_password salt u.password)) [
        | inl e ↦ ground arith
        | inr (pw_hash, e) ↦
            ground (arith, e, table.insert_keeps d (entry users redis bcrypt u pw_hash) nick v h)
      ]

  create-IsCoherent :
      (salt : ℕ) (u : CreateProfileRequest) (s : ProfileService D C)
      → IsCoherent redis rows s
      → IsCoherent redis rows (create users redis bcrypt salt u s).1
  create-IsCoherent salt u s c =
      let (r, store, same_cache, same_pending) = create-answers users redis bcrypt salt u s in
      kept-IsCoherent redis rows s (create users redis bcrypt salt u s).1 same_cache same_pending
        (λ nick v h. ap (λ d. rows d nick) store ∙ store_create-keeps salt u s.store nick v h) c

  -- The row of a user whose creation succeeded.
  create-row :
      (salt : ℕ) (u : CreateProfileRequest) (s : ProfileService D C)
      → (create users redis bcrypt salt u s).0 ≡ ok tt
      → (pw_hash : String) × (bcrypt.generate_from_password salt u.password ≡ some pw_hash)
        × ((u.password == "") ≡ false)
        × ((u.nick == "") ≡ false)
        × (rows (create users redis bcrypt salt u s).1.store u.nick
            ≡ some (entry users redis bcrypt u pw_hash))
  create-row salt u s done =
      let (r, store, same_cache, same_pending) = create-answers users redis bcrypt salt u s in
      elim (Option-cases (bcrypt.generate_from_password salt u.password)) [
        | inl e ↦ absurd (ground arith)
        | inr (pw_hash, e) ↦
            let stored =
              reported_ok users redis bcrypt (inserted users redis bcrypt u pw_hash s.store).0
                (ground (arith, e)) in
            (
              pw_hash,
              e,
              ground arith,
              ground arith,
              ground (arith, e, table.inserts s.store (entry users redis bcrypt u pw_hash) stored),
            )
      ]

  -- Whoever registers can log in: after a successful `Create` the nick and the password of the request
  -- are valid, if the cache was coherent and answers, and bcrypt accepts what it hashed.
  pub registered_can_log_in :
      (salt : ℕ) (u : CreateProfileRequest) (s : ProfileService D C)
      → Verifies bcrypt
      → IsCoherent redis rows s
      → ((e : Error) → redis.get u.nick s.cache ≢ broken e)
      → (create users redis bcrypt salt u s).0 ≡ ok tt
      → (is_auth_valid users redis bcrypt u.nick u.password
          (create users redis bcrypt salt u s).1).0
        ≡ true
  registered_can_log_in salt u s verifies c works done =
      let t = (create users redis bcrypt salt u s).1 in
      let (r, store, same_cache, same_pending) = create-answers users redis bcrypt salt u s in
      let (pw_hash, e, p, n, row) = create-row salt u s done in
      let decides =
        is_auth_valid-decides users redis bcrypt rows table u.nick u.password t
          (create-IsCoherent salt u s c)
          (λ x b. works x (sym (ap (redis.get u.nick) same_cache) ∙ b)) in
      ground (arith, decides, row, p, n, verifies salt u.password pw_hash e)
