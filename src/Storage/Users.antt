-- ===== src/Storage/Users.antt =====
-- storage/user.go: the users in MySQL. The driver executes the two statements and answers the query;
-- it is a parameter.
use sockchat.Prelude.{ℕ, String, Bool, true, false, Option, none, some, nat_eq, if◌then◌else◌}
use sockchat.Api.Errors.{Error, err_nick_already_used, other}
use sockchat.Api.Effects.{Result, ok, err, Action}
use sockchat.Api.Structs.{PublicProfile}

pub record User : Type 0 where
  pub nick : String
  pub pw_hash : String
  pub description : String

-- What the profile service uses of a store of users, with the state `D` that it keeps.
pub record UserStore (D : Type 0) : Type 0 where
  pub insert_user : User → Action D (Unit {0})
  pub update_public_profile : PublicProfile → Action D (Unit {0})
  pub select_user : String → D → Result User

-- A statement with the values of its placeholders, in their order.
pub data Statement : Type 0 where
  insert_users : (nick pw_hash description : String) → Statement
  update_description : (description nick : String) → Statement

-- The answer of `ExecContext`: a result, whose `RowsAffected` may fail, an error of the driver with
-- its number, or another error.
pub data Execution : Type 0 where
  executed : Bool → Execution
  driver_error : ℕ → Execution
  failed : Execution

pub record Database (D : Type 0) : Type 0 where
  pub er_dup_entry : ℕ
  pub exec_context : Statement → D → Execution × D
  pub query_row : String → D → Option User

abbrev could_not_insert : Error
could_not_insert = other "could not insert row"

abbrev could_not_update : Error
could_not_update = other "could not update row"

abbrev could_not_get_affected_rows : Error
could_not_get_affected_rows = other "could not get affected rows"

abbrev could_not_get_row : Error
could_not_get_row = other "could not get row"

module _ {D : Type 0} (db : Database D) where
  abbrev insert_result : Execution → Result (Unit {0})
  insert_result (executed true) = ok tt
  insert_result (executed false) = err could_not_get_affected_rows
  insert_result (driver_error number) =
      if nat_eq number db.er_dup_entry then err err_nick_already_used else err could_not_insert
  insert_result failed = err could_not_insert

  unfoldable pub insert_user : User → Action D (Unit {0})
  insert_user u d =
      let (e, kept) = db.exec_context (insert_users u.nick u.pw_hash u.description) d in
      (insert_result e, kept)

  abbrev update_result : Execution → Result (Unit {0})
  update_result (executed true) = ok tt
  update_result (executed false) = err could_not_get_affected_rows
  update_result (driver_error _) = err could_not_update
  update_result failed = err could_not_update

  unfoldable pub update_public_profile : PublicProfile → Action D (Unit {0})
  update_public_profile u d =
      let (e, kept) = db.exec_context (update_description u.description u.nick) d in
      (update_result e, kept)

  unfoldable pub select_user : String → D → Result User
  select_user nick d = elim (db.query_row nick d) [
    | none ↦ err could_not_get_row
    | some user ↦ ok user
  ]

  -- `NewUserStore`
  abbrev pub new_user_store : UserStore D
  new_user_store = record {
    insert_user = insert_user;
    update_public_profile = update_public_profile;
    select_user = select_user;
  }
