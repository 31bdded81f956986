-- ===== src/Webserver/Main.antt =====
-- webserver/main.go and webserver/redis.go, with ResetUsersTable of storage/user.go: the start of the
-- server. MySQL's driver, the Redis client, Elasticsearch's client, the environment and the network
-- are parameters.
pub mod Conditions
pub mod Resets
use Prim.Native.Char.{Char, code}
use Prim.Native.String as Text
use sockchat.Prelude.{
  ℕ, zero, suc, nat_eq, ◌+◌, ◌-◌, ◌*◌, ◌^◌, String, Bool, true, false, not, ◌&&◌, Option, none,
  some, List, [], ◌∷◌, ◌++◌, if◌then◌else◌, ◌==◌, leb, ltb, string_key,
}
use sockchat.Api.Structs.{ℤ, pos, negsuc}
use sockchat.Webserver.Startup.{
  Argument, text, Machine, Progress, done, exits, panics, Startup, ◌>>=◌, ◌>>◌, returns, fatal,
  print, or_exit, exit_unless, or_panic, panic,
}
use sockchat.Webserver.ElasticSearch.{Client, test_elastic_search_connection}

pub record RedisOptions : Type 0 where
  pub addr : String
  pub password : String
  pub db : ℤ

-- What `Get` answers: a value, `redis.Nil`, or another error.
pub data Reading : Type 0 where
  hit : String → Reading
  missing broken : Reading

-- The Redis servers that can be reached; `set` tells whether it has failed.
pub record RedisServers (C : Type 0) : Type 0 where
  pub set : RedisOptions → (key value : String) → C → Bool × C
  pub get : RedisOptions → (key : String) → C → Reading

-- MySQL's driver, for a data source name that it accepts.
pub record MySql (D : Type 0) : Type 0 where
  pub opens : String → Bool
  pub ping : D → Bool
  pub exec : String → D → Bool × D

-- The environment after `godotenv.Load`, the files, and whether the two ports can be listened at.
pub record Surroundings : Type 0 where
  pub getenv : String → String
  pub create_users_sql : Option String
  pub listens_at : ℕ → Bool

abbrev pub grpc_port : ℕ
grpc_port = 50051

abbrev pub http_port : ℕ
http_port = 8080

-- Seconds.
abbrev default_timeout_unauthorized : ℕ
default_timeout_unauthorized = 60

abbrev default_timeout_authorized : ℕ
default_timeout_authorized = 600

-- The patterns of the router, and whether their handlers are behind the authentication.
abbrev web_routes : List (String × Bool)
web_routes =
    ("/register", false) ∷ ("/edit_profile", true) ∷ ("/history", true) ∷ ("/profile", true) ∷ []

abbrev messaging_routes : List (String × Bool)
messaging_routes = ("/ws", false) ∷ []

-- A server that listens, with what it was made with.
pub record Running : Type 0 where
  pub messages_index : String
  pub cache : RedisOptions
  pub timeout_authorized : ℕ
  pub timeout_unauthorized : ℕ
  pub routes : List (String × Bool)

-- The value of a decimal numeral.
unfoldable pub digits : String → ℕ → Option ℕ
digits String.[] n = some n
digits (String.◌∷◌ c s) n =
    let d = code c in
    let rest = digits s (n * 10 + (d - 48)) in if leb 48 d && leb d 57 then rest else none

abbrev unsigned : String → Option ℕ
unsigned String.[] = none
unsigned (String.◌∷◌ c s) = digits (String.◌∷◌ c s) 0

abbrev negated : ℕ → ℤ
negated zero = pos 0
negated (suc n) = negsuc n

-- `strconv.Atoi`, where an `int` has 64 bits.
unfoldable pub atoi : String → Option ℤ
unfolding digits
atoi String.[] = none
atoi (String.◌∷◌ c s) =
    if nat_eq (code c) 45
    then elim (unsigned s) [
      | none ↦ none
      | some n ↦ if leb n (2 ^ 63) then some (negated n) else none
    ]
    else elim (unsigned (if nat_eq (code c) 43 then s else String.◌∷◌ c s)) [
      | none ↦ none
      | some n ↦ if ltb n (2 ^ 63) then some (pos n) else none
    ]

abbrev pub local_redis : RedisOptions
local_redis = record { addr = "localhost:6379"; password = ""; db = pos 0 }

module _ {D C E : Type 0} (redis : RedisServers C) where
  abbrev redis_set : String → String → Startup D C E Bool
  redis_set key value w =
      let (failed, kept) = redis.set local_redis key value w.caches in
      (done failed, record w { caches = kept })

  abbrev redis_get : String → Startup D C E Reading
  redis_get key w = (done (redis.get local_redis key w.caches), w)

  abbrev panic_if : Bool → Startup D C E (Unit {0})
  panic_if failed = if failed then panic else returns tt

  abbrev must_hit : Reading → Startup D C E String
  must_hit (hit value) = returns value
  must_hit missing = panic
  must_hit broken = panic

  abbrev log_second : Reading → Startup D C E (Unit {0})
  log_second (hit value) = print "key2" (text value ∷ [])
  log_second missing = print "key2 does not exist" []
  log_second broken = panic

  unfoldable pub test_redis_connection : Startup D C E (Unit {0})
  test_redis_connection = do
    print "# Testing Redis connection... #\n" []
    redis_set "key" "value" >>= panic_if
    val ← must_hit (← redis_get "key")
    print "key" (text val ∷ [])
    log_second (← redis_get "key2")

abbrev drop_users : String
drop_users = "DROP TABLE IF EXISTS users;"

-- `ResetUsersTable`, with the file that it reads: whether it returns an error, and the database. The
-- answer to the first statement is dropped.
unfoldable pub reset_users_table : {D : Type 0} → MySql D → Option String → D → Bool × D
reset_users_table db file d =
    let (_, dropped) = db.exec drop_users d in
    elim file [ none ↦ (true, dropped) | some script ↦ db.exec script dropped ]

-- What `mustConnectToMySql` hands to `sql.Open`.
unfoldable pub data_source_name : Surroundings → String
data_source_name around = Text.◌++◌ (around.getenv "DB_USER") (
    Text.◌++◌ ":" (
      Text.◌++◌ (around.getenv "DB_PASSWORD")
        (Text.◌++◌ "@tcp(" (Text.◌++◌ (around.getenv "DB_HOST") ")/sockchat"))))

module _ {D C E : Type 0} (mysql : MySql D) (around : Surroundings) where
  unfoldable pub must_connect_to_my_sql : Startup D C E (Unit {0})
  unfolding data_source_name
  must_connect_to_my_sql =
      exit_unless "could not create db object due to an error: %v"
        (mysql.opens (data_source_name around))

  unfoldable pub test_my_sql_connection : Startup D C E (Unit {0})
  test_my_sql_connection w =
      exit_unless "could not connect to the db due to an error: %v" (mysql.ping w.database) w

  abbrev reset_users : Startup D C E Bool
  reset_users w =
      let (failed, kept) = reset_users_table mysql around.create_users_sql w.database in
      (done failed, record w { database = kept })

  unfoldable pub reset_my_sql_for_dev_environment : Startup D C E (Unit {0})
  unfolding reset_users_table
  reset_my_sql_for_dev_environment =
      if around.getenv "ENVIRONMENT" == "DEV"
      then (reset_users >>= λ failed.
          exit_unless "error setting up the users table %v" (not failed))
      else returns tt

module _ {D C E : Type 0} (around : Surroundings) where
  unfoldable pub must_initialize_redis_client : Startup D C E RedisOptions
  unfolding atoi
  must_initialize_redis_client = do
    db_index ← or_exit "could not parse redis db index: %v" (atoi (around.getenv "REDIS_DB"))
    returns (record {
      addr = Text.◌++◌ (around.getenv "REDIS_HOST") (Text.◌++◌ ":" (around.getenv "REDIS_PORT"));
      password = around.getenv "REDIS_PASSWORD";
      db = db_index;
    })

  -- `ServeGRPC`, up to the goroutine that serves.
  unfoldable pub serve_grpc : ℕ → Startup D C E (Unit {0})
  serve_grpc port = exit_unless "failed to listen: %v" (around.listens_at port)

  abbrev listen_and_serve : ℕ → Startup D C E (Unit {0})
  listen_and_serve port = exit_unless "listen" (around.listens_at port)

module _ {D C E : Type 0} (es : Client E) (around : Surroundings) where
  unfoldable pub must_initialize_elastic_search_client : Startup D C E (Unit {0})
  must_initialize_elastic_search_client =
      exit_unless "Error creating the elasticsearch client: %s" es.new_default_client

  -- The second half of `main`, up to the point at which it serves.
  unfoldable pub start_services : Startup D C E Running
  unfolding must_initialize_elastic_search_client must_initialize_redis_client serve_grpc
  start_services = do
    must_initialize_elastic_search_client
    cache ← must_initialize_redis_client around
    serve_grpc around grpc_port
    listen_and_serve around http_port
    returns (record {
      messages_index = around.getenv "ES_MESSAGES_INDEX";
      cache = cache;
      timeout_authorized = default_timeout_authorized;
      timeout_unauthorized = default_timeout_unauthorized;
      routes = web_routes ++ messaging_routes;
    })

module _ {D C E : Type 0} (redis : RedisServers C) (es : Client E) (mysql : MySql D)
    (around : Surroundings) (documents : List (String × String)) where
  -- `documents` are the test documents, in the order in which they get indexed.
  unfoldable pub main : Startup D C E Running
  unfolding test_redis_connection test_elastic_search_connection must_connect_to_my_sql
      test_my_sql_connection reset_my_sql_for_dev_environment start_services
  main = do
    test_redis_connection redis
    test_elastic_search_connection es documents
    must_connect_to_my_sql mysql around
    test_my_sql_connection mysql around
    reset_my_sql_for_dev_environment mysql around
    start_services es around
