-- ===== src/Profiles/Coherence.antt =====
-- user_profile.go: reads through the cache, beside reads of the table.
use sockchat.Prelude.{
  String, ◌≡◌, ◌≢◌, ◌⊎◌, inl, inr, refl, sym, subst, Bool, false, not, ◌&&◌, Option, none, some, [],
  ◌∷◌, ◌++◌, All-append, arith, ◌==◌, if◌then◌else◌, Option-cases, string_key,
}
use sockchat.Api.Effects.{Result, ok, err}
use sockchat.Api.Errors.{Error, err_user_not_found, err_nick_required}
use sockchat.Api.Structs.{PublicProfile}
use sockchat.Api.Json.{Json}
use sockchat.Storage.Users.{User, UserStore}
use sockchat.Profiles.{
  Bcrypt, Redis, Reading, hit, nil, broken, ProfileService, unmarshal_user, get_user_data,
  is_auth_valid, get_profile,
}
use sockchat.Profiles.Laws.{IsTable, IsCoherent, unmarshal-marshal_user}

-- What the cache answers.
reading_cases :
    (r : Reading) → ((j : Json) × (r ≡ hit j)) ⊎ ((r ≡ nil) ⊎ ((e : Error) × (r ≡ broken e)))
reading_cases (hit j) = inl (j, refl)
reading_cases nil = inr (inl refl)
reading_cases (broken e) = inr (inr (e, refl))

selected_cases : (r : Result User) → ((u : User) × (r ≡ ok u)) ⊎ ((e : Error) × (r ≡ err e))
selected_cases (ok u) = inl (u, refl)
selected_cases (err e) = inr (e, refl)

module _ {D C : Type 0} (users : UserStore D) (redis : Redis C) (bcrypt : Bcrypt)
    (rows : D → String → Option User) (table : IsTable users rows) where
  -- What the table has under a nick, as the service reports it.
  abbrev row_or_error : Option User → Result User
  row_or_error none = err err_user_not_found
  row_or_error (some u) = ok u

  -- What a read of the data of a user has done, where the cache is coherent.
  abbrev Reads : String → ProfileService D C → Result User × ProfileService D C → Type 0
  Reads nick s (r, t) =
      (r ≡ row_or_error (rows s.store nick))
      × IsCoherent redis rows t
      × (t.store ≡ s.store)
      × (t.cache ≡ s.cache)

  from_cache :
      (nick : String) (s : ProfileService D C) (j : Json)
      → redis.get nick s.cache ≡ hit j
      → get_user_data users redis bcrypt nick s ≡ (ok (unmarshal_user j), s)
  unfolding get_user_data
  from_cache nick s j h = ground arith

  from_store :
      (nick : String) (s : ProfileService D C) (u : User)
      → redis.get nick s.cache ≡ nil
      → users.select_user nick s.store ≡ ok u
      → get_user_data users redis bcrypt nick s ≡ (ok u, record s { pending = s.pending ++ u ∷ [] })
  unfolding get_user_data
  from_store nick s u h e = ground arith

  nowhere :
      (nick : String) (s : ProfileService D C) (x : Error)
      → redis.get nick s.cache ≡ nil
      → users.select_user nick s.store ≡ err x
      → get_user_data users redis bcrypt nick s ≡ (err err_user_not_found, s)
  unfolding get_user_data
  nowhere nick s x h e = ground arith

  no_row :
      (nick : String) (d : D) (x : Error) → users.select_user nick d ≡ err x → rows d nick ≡ none
  no_row nick d x e = elim (Option-cases (rows d nick)) [
    | inl n ↦ n
    | inr (u, r) ↦ absurd (cc (e, (table.selects d nick u).1 r))
  ]

  -- A read that finds the cache coherent and working gives what the table has, `ErrUserNotFound`
  -- where it has nothing, keeps the cache coherent, and changes neither table nor cache.
  get_user_data-Reads :
      (nick : String) (s : ProfileService D C)
      → IsCoherent redis rows s
      → ((e : Error) → redis.get nick s.cache ≢ broken e)
      → Reads nick s (get_user_data users redis bcrypt nick s)
  get_user_data-Reads nick s c works = elim (reading_cases (redis.get nick s.cache)) [
    | inl (j, h) ↦
        let (u, row, own, same) = c.cached_rows nick j h in
        subst (Reads nick s) (sym (from_cache nick s j h))
          (ground (arith, row, same, unmarshal-marshal_user u), c, refl, refl)
    | inr (inl h) ↦ elim (selected_cases (users.select_user nick s.store)) [
      | inl (u, e) ↦
          let row = (table.selects s.store nick u).0 e in
          subst (Reads nick s) (sym (from_store nick s u h e)) (
            ground (arith, row),
            record {
              cached_rows = c.cached_rows;
              pending_rows =
                  All-append (λ (v : User). rows s.store v.nick ≡ some v) s.pending (u ∷ [])
                    c.pending_rows (table.own_nick s.store nick u row, tt);
            },
            refl,
            refl,
          )
      | inr (x, e) ↦
          subst (Reads nick s) (sym (nowhere nick s x h e))
            (ground (arith, no_row nick s.store x e), c, refl, refl)
    ]
    | inr (inr (e, h)) ↦ absurd (works e h)
  ]

  -- Whether a password is that of the row.
  abbrev pub accepts : Option User → String → Bool
  accepts none password = false
  accepts (some u) password = bcrypt.compare_hash_and_password u.pw_hash password

  -- While the cache is coherent and answers, a login is valid exactly if nick and password are not
  -- empty, the table has the nick, and bcrypt accepts the password for the hash of that row.
  pub is_auth_valid-decides :
      (nick password : String) (s : ProfileService D C)
      → IsCoherent redis rows s
      → ((e : Error) → redis.get nick s.cache ≢ broken e)
      → (is_auth_valid users redis bcrypt nick password s).0
        ≡ (not (nick == "") && not (password == "") && accepts (rows s.store nick) password)
  unfolding is_auth_valid
  is_auth_valid-decides nick password s c works =
      let reads = get_user_data-Reads nick s c works in ground (arith, reads.0)

  -- The profile that the table has under a nick, as the service reports it.
  abbrev pub profile_or_error : String → Option User → Result PublicProfile
  profile_or_error nick row = if nick == "" then err err_nick_required else (elim row [
    | none ↦ err err_user_not_found
    | some u ↦ ok (record { nick = u.nick; description = u.description })
  ])

  -- While the cache is coherent and answers, a profile is that of the row in the table, and a nick
  -- without a row is reported as `ErrUserNotFound`.
  pub get_profile-reads :
      (nick : String) (s : ProfileService D C)
      → IsCoherent redis rows s
      → ((e : Error) → redis.get nick s.cache ≢ broken e)
      → (get_profile users redis bcrypt nick s).0 ≡ profile_or_error nick (rows s.store nick)
  unfolding get_profile
  get_profile-reads nick s c works =
      let reads = get_user_data-Reads nick s c works in ground (arith, reads.0)
