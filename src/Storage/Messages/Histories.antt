-- ===== src/Storage/Messages/Histories.antt =====
-- storage/messages.go: what a search of the messages gives.
use sockchat.Prelude.{String, ◌≡◌, ◌⊎◌, inl, inr, refl, Option, none, some, [], ◌∷◌}
use sockchat.Api.Effects.{ok, err, completes, aborts}
use sockchat.Api.Errors.{err_internal}
use sockchat.Api.Json.{
  Json, malformed, null, bool, int, fraction, str, arr, obj, Items, nil, cons, Fields, end,
}
use sockchat.Api.Maps.{value_at, map_at, as_map, decode_map}
use sockchat.Api.Structs.{MessageEvent, ChannelHistory}
use sockchat.Storage.Messages.{
  Elasticsearch, SearchAnswer, no_response, reports_error, found, build_search_query, Search,
  prepend, read_message, read_hit, read_found, read_error_answer, or_internal, decode_hits, hits_of,
  run_search_query, find_messages, search_failed,
}

module _ (decode : Json → Option MessageEvent) where
  -- A hit is a map whose `_source` decodes to the message.
  abbrev HasMessage : Json → MessageEvent → Type 0
  HasMessage j m = (hit : Fields) × (j ≡ obj hit) × (decode (value_at "_source" hit) ≡ some m)

  -- A hit is a map whose `_source` cannot be decoded.
  abbrev IsUndecodable : Json → Type 0
  IsUndecodable j = (hit : Fields) × (j ≡ obj hit) × (decode (value_at "_source" hit) ≡ none)

  -- A hit is no map.
  abbrev IsNoMap : Json → Type 0
  IsNoMap j = (hit : Fields) → ¬ (j ≡ obj hit)

  -- The messages are those of the hits, one for each and in the same order.
  abbrev Lists : Items → ChannelHistory → Type 0
  Lists nil [] = Unit
  Lists (cons j js) (m ∷ ms) = HasMessage j m × Lists js ms
  Lists _ _ = ⊥

  -- One of the hits is as said, and all before it have messages.
  abbrev Stops : (Json → Type 0) → Items → Type 0
  Stops Bad nil = ⊥
  Stops Bad (cons j js) = Bad j ⊎ (((m : MessageEvent) × HasMessage j m) × Stops Bad js)

  abbrev Gives : Items → Search → Type 0
  Gives hits (completes (ok msgs)) = Lists hits msgs
  Gives hits (completes (err e)) = Stops IsUndecodable hits
  Gives hits aborts = Stops IsNoMap hits

  no_map : (j : Json) → as_map (some j) ≡ none → IsNoMap j
  no_map (obj fields) e hit h = cc
  no_map malformed e hit h = cc
  no_map null e hit h = cc
  no_map (bool b) e hit h = cc
  no_map (int n) e hit h = cc
  no_map (fraction t) e hit h = cc
  no_map (str t) e hit h = cc
  no_map (arr items) e hit h = cc

  map_of : (j : Json) (hit : Fields) → as_map (some j) ≡ some hit → j ≡ obj hit
  map_of (obj fields) hit e = cc
  map_of malformed hit e = absurd (cc e)
  map_of null hit e = absurd (cc e)
  map_of (bool b) hit e = absurd (cc e)
  map_of (int n) hit e = absurd (cc e)
  map_of (fraction t) hit e = absurd (cc e)
  map_of (str t) hit e = absurd (cc e)
  map_of (arr items) hit e = absurd (cc e)

  module _ (j : Json) (js : Items) where
    prepended :
        (m : MessageEvent) (rest : Search)
        → HasMessage j m
        → Gives js rest
        → Gives (cons j js) (prepend m rest)
    prepended m (completes (ok msgs)) h g = (h, g)
    prepended m (completes (err e)) h g = inr ((m, h), g)
    prepended m aborts h g = inr ((m, h), g)

    message_read :
        (hit : Fields) (o : Option MessageEvent) (rest : Search)
        → j ≡ obj hit
        → decode (value_at "_source" hit) ≡ o
        → Gives js rest
        → Gives (cons j js) (read_message o rest)
    message_read hit none rest e d g = inl (hit, e, d)
    message_read hit (some m) rest e d g = prepended m rest (hit, e, d) g

    hit_read :
        (o : Option Fields) (rest : Search)
        → as_map (some j) ≡ o
        → Gives js rest
        → Gives (cons j js) (read_hit decode o rest)
    hit_read none rest e g = inl (no_map j e)
    hit_read (some hit) rest e g =
        message_read hit (decode (value_at "_source" hit)) rest (map_of j hit e) refl g

  decode_hits-Gives : (hits : Items) → Gives hits (decode_hits decode hits)
  unfolding decode_hits
  decode_hits-Gives nil = tt
  decode_hits-Gives (cons j js) =
      hit_read j js (as_map (some j)) (decode_hits decode js) refl (decode_hits-Gives js)

module _ {S : Type 0} (es : Elasticsearch S) where
  -- What the hits of an answer come to, if it has hits.
  abbrev OfHits : Option Items → Search → Type 0
  OfHits none r = r ≡ aborts
  OfHits (some hits) (completes (ok msgs)) = Lists es.decode hits msgs
  OfHits (some hits) (completes (err e)) =
      (e ≡ err_internal) × Stops es.decode (IsUndecodable es.decode) hits
  OfHits (some hits) aborts = Stops es.decode (IsNoMap es.decode) hits

  abbrev OfError : Option Fields → Search → Type 0
  OfError none r = r ≡ aborts
  OfError (some error) r = r ≡ completes (ok [])

  abbrev pub OfReport : Option Fields → Search → Type 0
  OfReport none r = r ≡ completes (err err_internal)
  OfReport (some e) r = OfError (map_at "error" e) r

  abbrev pub OfAnswer : Option Fields → Search → Type 0
  OfAnswer none r = r ≡ completes (err err_internal)
  OfAnswer (some e) r = OfHits (hits_of e) r

  -- What a search gives, for each answer of Elasticsearch.
  abbrev pub Finds : SearchAnswer → Search → Type 0
  Finds no_response r = r ≡ completes (err err_internal)
  Finds (reports_error answer) r = OfReport (decode_map end answer) r
  Finds (found answer) r = OfAnswer (decode_map end answer) r

  hits_internal :
      (hits : Items) (r : Search) → Gives es.decode hits r → OfHits (some hits) (or_internal r)
  hits_internal hits (completes (ok msgs)) g = g
  hits_internal hits (completes (err e)) g = (refl, g)
  hits_internal hits aborts g = g

  hits_found :
      (o : Option Items)
      → OfHits o (or_internal (elim o [ none ↦ aborts | some hits ↦ decode_hits es.decode hits ]))
  hits_found none = refl
  hits_found (some hits) =
      hits_internal hits (decode_hits es.decode hits) (decode_hits-Gives es.decode hits)

  error_found :
      (o : Option Fields)
      → OfError o (or_internal (elim o [ none ↦ aborts | some _ ↦ completes (ok []) ]))
  error_found none = refl
  error_found (some e) = refl

  answer_found : (o : Option Fields) → OfAnswer o (or_internal (read_found es o))
  answer_found none = refl
  answer_found (some e) = hits_found (hits_of e)

  report_found : (o : Option Fields) → OfReport o (or_internal (read_error_answer o))
  report_found none = refl
  report_found (some e) = error_found (map_at "error" e)

  abbrev outcome : SearchAnswer → Search
  outcome a = or_internal (elim a [
    | no_response ↦ completes (err search_failed)
    | reports_error answer ↦ read_error_answer (decode_map end answer)
    | found answer ↦ read_found es (decode_map end answer)
  ])

  outcome-Finds : (a : SearchAnswer) → Finds a (outcome a)
  outcome-Finds no_response = refl
  outcome-Finds (reports_error answer) = report_found (decode_map end answer)
  outcome-Finds (found answer) = answer_found (decode_map end answer)

  -- A search gives the messages of the hits, one for each and in the same order. It gives
  -- `ErrInternal` if there is no answer, if it is neither an object nor null, or if one of the hits cannot be
  -- decoded and those before it can, and it panics if the answer has no list of hits, or if one of the
  -- hits is no map and those before it can be decoded. But an error that Elasticsearch reports is given
  -- as an empty history if the answer has an error object, and panics if it has none.
  pub find_messages-Finds :
      (channel phrase : String) (s : S)
      → Finds (es.search (build_search_query channel phrase) s) (find_messages es channel phrase s)
  unfolding find_messages run_search_query
  find_messages-Finds channel phrase s =
      outcome-Finds (es.search (build_search_query channel phrase) s)
