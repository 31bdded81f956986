-- ===== src/Profiles/Tables.antt =====
-- storage/user.go over MySQL, as the store of users of user_profile.go.
use sockchat.Prelude.{
  none, ℕ, String, ◌≡◌, ◌≢◌, ◌↔◌, ◌⊎◌, inl, inr, refl, sym, ◌∙◌, Bool, true, false, Option, some,
  arith, Option-cases,
}
use sockchat.Api.Effects.{ok}
use sockchat.Api.Structs.{PublicProfile}
use sockchat.Storage.Users.{
  User, Execution, executed, driver_error, failed, Database, insert_users, update_description,
  insert_user, update_public_profile, select_user, new_user_store,
}
use sockchat.Profiles.Laws.{IsTable}

-- What MySQL documents of the table `users`, whose primary key is the nick: a query by nick finds the
-- row of that nick, an insertion that is executed adds the row of a nick that had none, and an update
-- that is executed sets the description of its nick's row. No statement changes another row. The
-- database answers queries.
pub record IsUsersTable {D : Type 0} (db : Database D) (rows : D → String → Option User)
    : Type 0 where
  pub queries : (d : D) (nick : String) → db.query_row nick d ≡ rows d nick
  pub own_nick : (d : D) (nick : String) (u : User) → rows d nick ≡ some u → rows d u.nick ≡ some u
  pub inserts :
      (d : D) (u : User) (counted : Bool)
      → (db.exec_context (insert_users u.nick u.pw_hash u.description) d).0 ≡ executed counted
      → rows (db.exec_context (insert_users u.nick u.pw_hash u.description) d).1 u.nick ≡ some u
  pub insert_keeps :
      (d : D) (nick pw_hash description : String) (k : String) (v : User)
      → rows d k ≡ some v
      → rows (db.exec_context (insert_users nick pw_hash description) d).1 k ≡ some v
  pub inserts_new :
      (d : D) (nick pw_hash description : String) (counted : Bool)
      → (db.exec_context (insert_users nick pw_hash description) d).0 ≡ executed counted
      → rows d nick ≡ none
  pub updates :
      (d : D) (description nick : String) (u : User) (counted : Bool)
      → (db.exec_context (update_description description nick) d).0 ≡ executed counted
      → rows d nick ≡ some u
      → rows (db.exec_context (update_description description nick) d).1 nick
        ≡ some (record u { description = description })
  pub update_keeps :
      (d : D) (description nick k : String) (v : User)
      → rows d k ≡ some v
      → rows d nick ≢ some v
      → rows (db.exec_context (update_description description nick) d).1 k ≡ some v

execution_cases :
    (e : Execution)
    → (e ≡ executed true)
      ⊎ ((e ≡ executed false) ⊎ (((n : ℕ) × (e ≡ driver_error n)) ⊎ (e ≡ failed)))
execution_cases (executed true) = inl refl
execution_cases (executed false) = inr (inl refl)
execution_cases (driver_error n) = inr (inr (inl (n, refl)))
execution_cases failed = inr (inr (inr refl))

module _ {D : Type 0} (db : Database D) where
  selected :
      (nick : String) (d : D) (u : User)
      → (select_user db nick d ≡ ok u) ↔ (db.query_row nick d ≡ some u)
  unfolding select_user
  selected nick d u = elim (Option-cases (db.query_row nick d)) [
    | inl n ↦ (λ h. absurd (ground arith), λ h. absurd (ground arith))
    | inr (v, e) ↦ (λ h. ground arith, λ h. ground arith)
  ]

  inserted_executed :
      (u : User) (d : D)
      → (insert_user db u d).0 ≡ ok tt
      → (db.exec_context (insert_users u.nick u.pw_hash u.description) d).0 ≡ executed true
  unfolding insert_user
  inserted_executed u d h =
      elim (execution_cases (db.exec_context (insert_users u.nick u.pw_hash u.description) d).0) [
        | inl e ↦ e
        | inr (inl e) ↦ absurd (ground arith)
        | inr (inr (inl (n, e))) ↦ absurd (ground arith)
        | inr (inr (inr e)) ↦ absurd (ground arith)
      ]

  updated_executed :
      (p : PublicProfile) (d : D)
      → (update_public_profile db p d).0 ≡ ok tt
      → (db.exec_context (update_description p.description p.nick) d).0 ≡ executed true
  unfolding update_public_profile
  updated_executed p d h =
      elim (execution_cases (db.exec_context (update_description p.description p.nick) d).0) [
        | inl e ↦ e
        | inr (inl e) ↦ absurd (ground arith)
        | inr (inr (inl (n, e))) ↦ absurd (ground arith)
        | inr (inr (inr e)) ↦ absurd (ground arith)
      ]

  module _ (rows : D → String → Option User) (table : IsUsersTable db rows) where
    -- Over a table of MySQL the store of users keeps what the profile service relies on: a row is
    -- selected exactly where it is, an insertion or an update that is reported as done has changed
    -- the row, with the values in the places that the statements give them, and no other row changes
    -- whatever is reported.
    pub new_user_store-IsTable : IsTable (new_user_store db) rows
    unfolding insert_user update_public_profile
    new_user_store-IsTable = record {
      selects = λ d nick u.
          let (f, g) = selected nick d u in
          (λ h. sym (table.queries d nick) ∙ f h, λ h. g (table.queries d nick ∙ h));
      own_nick = table.own_nick;
      inserts = λ d u h. table.inserts d u true (inserted_executed u d h);
      insert_keeps = λ d u nick v h. table.insert_keeps d u.nick u.pw_hash u.description nick v h;
      updates =
          λ d p u h row. table.updates d p.description p.nick u true (updated_executed p d h) row;
      update_keeps = λ d p nick v h ne. table.update_keeps d p.description p.nick nick v h ne;
    }

    -- A nick is inserted once: an insertion that is reported as done found no row of the nick.
    insert_user-new : (d : D) (u : User) → (insert_user db u d).0 ≡ ok tt → rows d u.nick ≡ none
    insert_user-new d u h =
        table.inserts_new d u.nick u.pw_hash u.description true (inserted_executed u d h)
