-- ===== src/Profiles/Edits.antt =====
-- user_profile.go: an edit, the reads after it, and the reads that were about to fill the cache.
use sockchat.Prelude.{
  String, ◌≡◌, ◌≢◌, refl, sym, ap, ◌∙◌, subst, false, Option, some, List, [], ◌∷◌, All, arith, ◌==◌,
  string_key,
}
use sockchat.Api.Effects.{Result, ok}
use sockchat.Api.Errors.{Error}
use sockchat.Api.Structs.{EditProfileRequest}
use sockchat.Api.Json.{Json}
use sockchat.Storage.Users.{User, UserStore}
use sockchat.Profiles.{
  Bcrypt, Redis, hit, broken, ProfileService, marshal_user, get_profile, edit, set_in_cache,
  run_pending,
}
use sockchat.Profiles.Laws.{IsTable, IsCache, IsCoherent}
use sockchat.Profiles.Coherence.{get_profile-reads}

module _ {D C : Type 0} (users : UserStore D) (redis : Redis C) (bcrypt : Bcrypt) (nick : String)
    (req : EditProfileRequest) (s : ProfileService D C) where
  abbrev updated : Result (Unit {0}) × D
  updated =
      users.update_public_profile (record { nick = nick; description = req.description }) s.store

  -- The service after an edit that succeeds.
  abbrev edited : ProfileService D C
  edited = record s { store = updated.1; cache = redis.del nick s.cache }

  edit_done :
      (edit users redis bcrypt nick req s).0 ≡ ok tt
      → (updated.0 ≡ ok tt) × ((edit users redis bcrypt nick req s).1 ≡ edited)
  unfolding edit
  edit_done h = (ground arith, ground arith)

  module _ (rows : D → String → Option User) (table : IsTable users rows) (cache : IsCache redis)
      (u : User) (row : rows s.store nick ≡ some u) where
    -- Another user's row stays.
    other_stays :
        (k : String) (v : User)
        → rows s.store k ≡ some v
        → v.nick ≢ u.nick
        → rows updated.1 k ≡ some v
    other_stays k v h ne =
        table.update_keeps s.store (record { nick = nick; description = req.description }) k v h
          (λ e. let same : v ≡ u = cc (e, row) in ne (ap (λ (x : User). x.nick) same))

    others_stay :
        (vs : List User)
        → u.nick ≡ nick
        → All (λ (v : User). v.nick ≢ nick) vs
        → All (λ (v : User). rows s.store v.nick ≡ some v) vs
        → All (λ (v : User). rows updated.1 v.nick ≡ some v) vs
    others_stay [] own quiet r = tt
    others_stay (v ∷ vs) own quiet r =
        (other_stays v.nick v r.0 (λ x. quiet.0 (x ∙ own)), others_stay vs own quiet.1 r.1)

    edited-IsCoherent :
        u.nick ≡ nick
        → All (λ (v : User). v.nick ≢ nick) s.pending
        → IsCoherent redis rows s
        → IsCoherent redis rows edited
    edited-IsCoherent own quiet c = record {
      cached_rows = λ k j h.
          let (ne, before) = cache.del_hits nick k j s.cache h in
          let (v, r, at, e) = c.cached_rows k j before in
          (v, other_stays k v r (λ x. ne (sym own ∙ sym x ∙ at)), at, e);
      pending_rows = others_stay s.pending own quiet c.pending_rows;
    }

    -- After a successful edit the user's profile is read with the new description, and the cache is
    -- coherent again, if it was coherent and answers and no goroutine is about to put an older read of
    -- this user into it.
    pub edit_is_read :
        u.nick ≡ nick
        → All (λ (v : User). v.nick ≢ nick) s.pending
        → IsCoherent redis rows s
        → (nick == "") ≡ false
        → ((e : Error) → redis.get nick (redis.del nick s.cache) ≢ broken e)
        → (edit users redis bcrypt nick req s).0 ≡ ok tt
        → let t = (edit users redis bcrypt nick req s).1 in
          IsCoherent redis rows t
          × ((get_profile users redis bcrypt nick t).0
              ≡ ok (record { nick = nick; description = req.description }))
    edit_is_read own quiet c named works done =
        let (stored, at) = edit_done done in
        let coherent = edited-IsCoherent own quiet c in
        let changed =
          table.updates s.store (record { nick = nick; description = req.description }) u stored
            row in
        let reads = get_profile-reads users redis bcrypt rows table nick edited coherent works in
        (
          subst (IsCoherent redis rows) (sym at) coherent,
          ground (arith, at, reads, changed, named, own),
        )

module _ {D C : Type 0} (users : UserStore D) (redis : Redis C) (bcrypt : Bcrypt)
    (fresh : (k : String) (v : Json) (c : C) → redis.get k (redis.set k v 10 c) ≡ hit v) (u : User)
    (named : (u.nick == "") ≡ false) where
  -- A profile is read from the entry that was just put into the cache.
  reads_entry :
      (t : ProfileService D C)
      → (get_profile users redis bcrypt u.nick (set_in_cache users redis bcrypt u t)).0
        ≡ ok (record { nick = u.nick; description = u.description })
  unfolding set_in_cache get_profile
  reads_entry t = ground (arith, fresh u.nick (marshal_user u) t.cache)

  one_pending :
      (us : List User) (t : ProfileService D C)
      → us ≡ u ∷ []
      → run_pending users redis bcrypt us t ≡ set_in_cache users redis bcrypt u t
  unfolding run_pending set_in_cache
  one_pending us t waiting = ap (λ vs. run_pending users redis bcrypt vs t) waiting

  store_kept : (t : ProfileService D C) → (set_in_cache users redis bcrypt u t).store ≡ t.store
  unfolding set_in_cache
  store_kept t = refl

  -- An edit can be lost to the readers: if a read of the user is about to fill the cache when the edit
  -- runs, then afterwards the table has the new description and the next read gives the old one, as
  -- long as the cache's entry has not expired.
  pub edit_beside_pending :
      (rows : D → String → Option User) (table : IsTable users rows) (req : EditProfileRequest)
      (s : ProfileService D C)
      → s.pending ≡ u ∷ []
      → rows s.store u.nick ≡ some u
      → (edit users redis bcrypt u.nick req s).0 ≡ ok tt
      → let t = run_pending users redis bcrypt s.pending (edit users redis bcrypt u.nick req s).1 in
        (rows t.store u.nick ≡ some (record u { description = req.description }))
        × ((get_profile users redis bcrypt u.nick t).0
            ≡ ok (record { nick = u.nick; description = u.description }))
  edit_beside_pending rows table req s waiting row done =
      let (stored, at) = edit_done users redis bcrypt u.nick req s done in
      let changed =
        table.updates s.store (record { nick = u.nick; description = req.description }) u stored
          row in
      let t = (edit users redis bcrypt u.nick req s).1 in
      let one = one_pending s.pending t waiting in
      (
        ap (λ (x : ProfileService D C). rows x.store u.nick) one
            ∙ ap (λ d. rows d u.nick) (store_kept t)
            ∙ ap (λ (x : ProfileService D C). rows x.store u.nick) at
            ∙ changed,
        ap (λ (x : ProfileService D C). (get_profile users redis bcrypt u.nick x).0) one
            ∙ reads_entry t,
      )
