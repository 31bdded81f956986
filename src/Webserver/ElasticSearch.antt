-- ===== src/Webserver/ElasticSearch.antt =====
-- webserver/elasticsearch.go: the check of Elasticsearch. Its client is a parameter.
pub mod Checks
use sockchat.Prelude.{String, Bool, not, Option, none, some, List, [], ◌∷◌, if◌then◌else◌}
use sockchat.Api.Json.{Json, Items, nil, cons, arr, obj, str, Fields, end, field}
use sockchat.Api.Maps.{entry, decode_map, as_map, map_at, as_array}
use sockchat.Webserver.Startup.{
  Argument, text, value, Machine, Progress, done, exits, panics, Startup, ◌>>=◌, ◌>>◌, returns,
  fatal, print, or_exit, exit_unless, or_panic, number_at, printed_at,
}

-- A response of Elasticsearch, whose body may be no JSON.
pub record Response : Type 0 where
  pub is_error : Bool
  pub status : String
  pub body : Json

-- The client, with the state `E` of the indices; `none` is an error that the client returns.
pub record Client (E : Type 0) : Type 0 where
  pub version : String
  pub new_default_client : Bool
  pub info : E → Option Response
  pub index : (name document_id : String) → Json → E → Option Response × E
  pub search : (name : String) → Json → E → Option Response

abbrev pub parse_failed : String
parse_failed = "Error parsing the response body: %s"

abbrev pub no_response : String
no_response = "Error getting response: %s"

-- The documents that get indexed, one by each goroutine.
abbrev pub test_documents : List (String × String)
test_documents = ("1", "Test One") ∷ ("2", "Test Two") ∷ []

-- The body of the search request.
abbrev title_query : Json
title_query =
    obj (field "query" (obj (field "match" (obj (field "title" (str "test") end)) end)) end)

module _ {D C E : Type 0} where
  -- The end of a goroutine that indexes a document.
  unfoldable pub log_indexed : String → Response → Startup D C E (Unit {0})
  unfolding decode_map number_at printed_at
  log_indexed id res =
      if res.is_error
      then print "[%s] Error indexing document ID=%d" (text res.status ∷ text id ∷ [])
      else elim (decode_map end res.body) [
        | none ↦ print parse_failed []
        | some r ↦ do
          version ← or_panic (number_at "_version" r)
          print "[%s] %s; version=%d" (text res.status ∷ printed_at "result" r ∷ value version ∷ [])
      ]

  -- The loop over the hits.
  unfoldable pub log_hits : Items → Startup D C E (Unit {0})
  unfolding printed_at
  log_hits nil = returns tt
  log_hits (cons json hits) = do
    hit ← or_panic (as_map (some json))
    print " * ID=%s, %s" (printed_at "_id" hit ∷ printed_at "_source" hit ∷ [])
    log_hits hits

  -- What is printed of the answer to the search.
  unfoldable pub log_search : Response → Fields → Startup D C E (Unit {0})
  unfolding map_at number_at entry log_hits
  log_search res r = do
    hits ← or_panic (map_at "hits" r)
    total ← or_panic (map_at "total" hits)
    found ← or_panic (number_at "value" total)
    took ← or_panic (number_at "took" r)
    print "[%s] %d hits; took: %dms" (text res.status ∷ value found ∷ value took ∷ [])
    log_hits (← or_panic (as_array (entry "hits" hits none)))

  -- A search that reports an error ends the process, with the error's type and reason.
  unfoldable pub report_search_error : Response → Startup D C E (Unit {0})
  unfolding decode_map map_at
  report_search_error res = do
    e ← or_exit parse_failed (decode_map end res.body)
    or_panic (map_at "error" e)
    fatal "[%s] %s: %s"

module _ {D C E : Type 0} (es : Client E) where
  abbrev pub index_title : String → Json → Startup D C E (Option Response)
  index_title id document w =
      let (answer, kept) = es.index "test" id document w.search in
      (done answer, record w { search = kept })

  -- A goroutine that indexes a document.
  unfoldable pub index_document : String × String → Startup D C E (Unit {0})
  unfolding log_indexed
  index_document (id, title) = do
    answer ← index_title id (obj (field "title" (str title) end))
    log_indexed id (← or_exit no_response answer)

  -- The goroutines, in the order in which they run.
  unfoldable pub index_documents : List (String × String) → Startup D C E (Unit {0})
  unfolding index_document
  index_documents [] = returns tt
  index_documents (d ∷ ds) = do index_document d; index_documents ds

  abbrev ask_info : Startup D C E (Option Response)
  ask_info w = (done (es.info w.search), w)

  abbrev pub ask_search : Startup D C E (Option Response)
  ask_search w = (done (es.search "test" title_query w.search), w)

  -- The cluster's information, up to its version.
  unfoldable pub check_cluster : Startup D C E Fields
  unfolding decode_map map_at printed_at
  check_cluster = do
    exit_unless "Error creating the client: %s" es.new_default_client
    res ← or_exit no_response (← ask_info)
    exit_unless "Error: %s" (not res.is_error)
    r ← or_exit parse_failed (decode_map end res.body)
    print "Client: %s" (text es.version ∷ [])
    version ← or_panic (map_at "version" r)
    print "Server: %s" (printed_at "number" version ∷ [])
    returns r

  -- The search for the indexed documents; the answer is decoded into the map of before.
  unfoldable pub check_search : Fields → Startup D C E (Unit {0})
  unfolding report_search_error decode_map log_search
  check_search r = do
    res ← or_exit no_response (← ask_search)
    if res.is_error then report_search_error res else returns tt
    log_search res (← or_exit parse_failed (decode_map r res.body))

  unfoldable pub test_elastic_search_connection : List (String × String) → Startup D C E (Unit {0})
  unfolding check_cluster index_documents check_search
  test_elastic_search_connection documents = do
    print "# Testing ElasticSearch connection... #\n" []
    r ← check_cluster
    index_documents documents
    check_search r
