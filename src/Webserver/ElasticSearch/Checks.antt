-- ===== src/Webserver/ElasticSearch/Checks.antt =====
-- webserver/elasticsearch.go: when the check of Elasticsearch lets the server go on.
use sockchat.Prelude.{String, refl, none, some, List, [], ◌∷◌, arith, if◌then◌else◌}
use sockchat.Api.Json.{Json, Items, nil, cons, obj, str, Fields, end, field}
use sockchat.Api.Maps.{decode_map, as_map, map_at, entry}
use sockchat.Webserver.Startup.{Startup, number_at, or_exit, or_panic, ◌>>=◌, ◌>>◌, returns}
use sockchat.Webserver.Startup.Laws.{Keeps, bind-Keeps, or_exit-Keeps, or_panic-Keeps}
use sockchat.Webserver.ElasticSearch.{
  Client, Response, ask_search, parse_failed, no_response, as_array, index_title, log_indexed,
  log_hits, log_search, report_search_error, index_document, index_documents, check_cluster,
  check_search, test_elastic_search_connection,
}

module _ {D C E : Type 0} where
  log_indexed-Keeps :
      (id : String) (res : Response) → Keeps (log_indexed {D = D} {C = C} {E = E} id res)
  unfolding log_indexed
  log_indexed-Keeps id res w = ground arith

  log_hits-Keeps : (hits : Items) → Keeps (log_hits {D = D} {C = C} {E = E} hits)
  unfolding log_hits
  log_hits-Keeps nil w = refl
  log_hits-Keeps (cons json hits) w =
      bind-Keeps (or_panic (as_map (some json))) _ (or_panic-Keeps (as_map (some json)))
        (λ hit w. log_hits-Keeps hits _) w

  log_search-Keeps :
      (res : Response) (r : Fields) → Keeps (log_search {D = D} {C = C} {E = E} res r)
  unfolding log_search
  log_search-Keeps res r =
      bind-Keeps (or_panic (map_at "hits" r)) _ (or_panic-Keeps (map_at "hits" r)) (λ hits.
        bind-Keeps (or_panic (map_at "total" hits)) _ (or_panic-Keeps (map_at "total" hits))
          (λ total.
            bind-Keeps (or_panic (number_at "value" total)) _
              (or_panic-Keeps (number_at "value" total))
              (λ found.
                bind-Keeps (or_panic (number_at "took" r)) _ (or_panic-Keeps (number_at "took" r))
                  (λ took w.
                    bind-Keeps (or_panic (as_array (entry "hits" hits none))) log_hits
                      (or_panic-Keeps (as_array (entry "hits" hits none))) log_hits-Keeps _))))

  report_search_error-Keeps :
      (res : Response) → Keeps (report_search_error {D = D} {C = C} {E = E} res)
  unfolding report_search_error
  report_search_error-Keeps res w = ground arith

module _ {D C E : Type 0} (es : Client E) where
  index_document-Keeps : (d : String × String) → Keeps (index_document {D = D} {C = C} es d)
  unfolding index_document
  index_document-Keeps (id, title) =
      bind-Keeps (index_title es id document)
        (λ answer. or_exit no_response answer >>= log_indexed id) (λ w. refl)
        (λ answer.
          bind-Keeps (or_exit no_response answer) (log_indexed id)
            (or_exit-Keeps no_response answer) (log_indexed-Keeps id))
    where
      document : Json
      document = obj (field "title" (str title) end)

  index_documents-Keeps :
      (ds : List (String × String)) → Keeps (index_documents {D = D} {C = C} es ds)
  unfolding index_documents
  index_documents-Keeps [] w = refl
  index_documents-Keeps (d ∷ ds) w =
      bind-Keeps (index_document es d) (λ _. index_documents es ds) (index_document-Keeps d)
        (λ _. index_documents-Keeps ds) w

  check_search-Keeps : (r : Fields) → Keeps (check_search {D = D} {C = C} es r)
  unfolding check_search
  check_search-Keeps r =
      bind-Keeps (ask_search es) (λ answer. or_exit no_response answer >>= reads) (λ w. refl)
        (λ answer.
          bind-Keeps (or_exit no_response answer) reads (or_exit-Keeps no_response answer) (λ res.
            bind-Keeps (stops res) _ (stops-Keeps res) (λ _.
              bind-Keeps (or_exit parse_failed (decode_map r res.body)) (log_search res)
                (or_exit-Keeps parse_failed (decode_map r res.body)) (log_search-Keeps res))))
    where
      stops : Response → Startup D C E (Unit {0})
      stops res = if res.is_error then report_search_error res else returns tt

      stops-Keeps : (res : Response) → Keeps (stops res)
      stops-Keeps res w = ground (arith, report_search_error-Keeps res w)

      reads : Response → Startup D C E (Unit {0})
      reads res = stops res >> (or_exit parse_failed (decode_map r res.body) >>= log_search res)

  check_cluster-Keeps : Keeps (check_cluster {D = D} {C = C} es)
  unfolding check_cluster
  check_cluster-Keeps w = ground arith

  pub test_elastic_search_connection-Keeps :
      (ds : List (String × String)) → Keeps (test_elastic_search_connection {D = D} {C = C} es ds)
  unfolding test_elastic_search_connection
  test_elastic_search_connection-Keeps ds w =
      bind-Keeps (check_cluster es) _ check_cluster-Keeps
        (λ r.
          bind-Keeps (index_documents es ds) (λ _. check_search es r) (index_documents-Keeps ds)
            (λ _. check_search-Keeps r))
        _
