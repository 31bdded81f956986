-- ===== src/Webserver/Tests.antt =====
-- webserver/ on a machine where everything answers.
use sockchat.Prelude.{
  String, ◌≡◌, refl, true, false, none, some, List, [], ◌∷◌, ◌==◌, string_key, if◌then◌else◌,
}
use sockchat.Api.Json.{Json, obj, field, str, int, arr, nil, end}
use sockchat.Api.Structs.{pos, negsuc}
use sockchat.Api.Maps.{decode_map, map_at, entry}
use sockchat.Webserver.Startup.{Machine, done, number_at, printed_at}
use sockchat.Webserver.ElasticSearch.{
  Client, Response, test_elastic_search_connection, test_documents, check_cluster, check_search,
  index_documents, index_document, log_indexed, log_search, log_hits,
}
use sockchat.Webserver.Main.{
  RedisServers, MySql, Surroundings, Running, hit, missing, main, atoi, digits, reset_users_table,
  test_redis_connection, must_connect_to_my_sql, test_my_sql_connection, data_source_name,
  reset_my_sql_for_dev_environment, start_services, must_initialize_elastic_search_client,
  must_initialize_redis_client, serve_grpc,
}
use sockchat.Webserver.Main.Conditions.{Passes, main-Passes}
use sockchat.Webserver.Main.Resets.{Leaves, main-Leaves}

-- The statements that a database has executed.
abbrev mysql : MySql (List String)
mysql = record {
  opens = λ name. true;
  ping = λ d. true;
  exec = λ statement d. (false, statement ∷ d);
}

abbrev redis : RedisServers (Unit {0})
redis = record {
  set = λ options key value c. (false, c);
  get = λ options key c. if key == "key" then hit "value" else missing;
}

abbrev answer : Json → Response
answer body = record { is_error = false; status = "200 OK"; body = body }

abbrev found : Json
found = obj (
    field "took" (int (pos 3)) (
      field "hits"
        (obj (field "total" (obj (field "value" (int (pos 0)) end)) (field "hits" (arr nil) end)))
        end))

abbrev es : Client (Unit {0})
es = record {
  version = "7";
  new_default_client = true;
  info = λ e. some (answer (obj (field "version" (obj (field "number" (str "7.17.9") end)) end)));
  index = λ name id document e. (
    some (answer (obj (field "result" (str "created") (field "_version" (int (pos 1)) end)))),
    e,
  );
  search = λ name query e. some (answer found);
}

abbrev around : Surroundings
around = record {
  getenv = λ name. if name == "ENVIRONMENT" then "DEV" else if name == "REDIS_DB" then "2" else "x";
  create_users_sql = some "CREATE TABLE users";
  listens_at = λ port. true;
}

abbrev machine : Machine (List String) (Unit {0}) (Unit {0})
machine = record { database = []; caches = tt; search = tt; printed = [] }

abbrev running : Running
running = record {
  messages_index = "x";
  cache = record { addr = "x:x"; password = "x"; db = pos 2 };
  timeout_authorized = 600;
  timeout_unauthorized = 60;
  routes =
      ("/register", false)
      ∷ ("/edit_profile", true)
      ∷ ("/history", true)
      ∷ ("/profile", true)
      ∷ ("/ws", false)
      ∷ [];
}

runs : (main redis es mysql around test_documents machine).0 ≡ done running
unfolding main test_redis_connection test_elastic_search_connection check_cluster index_documents
    index_document log_indexed check_search log_search log_hits must_connect_to_my_sql
    data_source_name test_my_sql_connection reset_my_sql_for_dev_environment reset_users_table
    start_services must_initialize_elastic_search_client must_initialize_redis_client serve_grpc
    atoi digits decode_map map_at number_at entry printed_at
runs = refl

main-Passes_example : Passes redis es mysql around test_documents machine running
main-Passes_example = main-Passes redis es mysql around test_documents machine running runs

main-Leaves_example :
    Leaves redis es mysql around test_documents []
      (main redis es mysql around test_documents machine).1.database
main-Leaves_example = main-Leaves redis es mysql around test_documents machine

reads_numbers :
    (atoi "-12" ≡ some (negsuc 11))
    × (atoi "+7" ≡ some (pos 7))
    × (atoi "" ≡ none)
    × (atoi "9223372036854775808" ≡ none)
unfolding atoi digits
reads_numbers = (refl, refl, refl, refl)
