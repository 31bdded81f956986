-- ===== src/Storage/Messages.antt =====
-- storage/messages.go: the messages in Elasticsearch. The client of Elasticsearch and mapstructure are
-- parameters.
pub mod Histories
pub mod Indexing
use sockchat.Prelude.{
  String, Bool, true, false, Option, none, some, List, [], ◌∷◌, if◌then◌else◌, ◌==◌, string_key,
}
use sockchat.Api.Errors.{Error, err_internal, other}
use sockchat.Api.Effects.{Result, ok, err, Action, Attempt, completes, aborts}
use sockchat.Api.Json.{
  Json, Items, nil, cons, Fields, end, object_fields, string_field, empty_string,
}
use sockchat.Api.Maps.{entry, value_at, map_at, as_map, as_array, decode_map}
use sockchat.Api.Structs.{MessageEvent, ChannelHistory}
use sockchat.ChannelStore.{MessageStore}
use sockchat.Storage.Search.{SearchQuery, channel_term}

-- The answer of a search: none, or a body with a status that is an error's or not. A body that cannot
-- be read is no JSON.
pub data SearchAnswer : Type 0 where
  no_response : SearchAnswer
  reports_error found : (answer : Json) → SearchAnswer

-- The answer of an index request: none, one whose body cannot be read, or its body. Its status is not
-- looked at.
pub data IndexAnswer : Type 0 where
  no_response unreadable : IndexAnswer
  body : Json → IndexAnswer

pub record Elasticsearch (S : Type 0) : Type 0 where
  pub search : SearchQuery → S → SearchAnswer
  pub index : MessageEvent → S → IndexAnswer × S
  -- `mapstructure.Decode` of a document.
  pub decode : Json → Option MessageEvent

unfoldable pub build_search_query : String → String → SearchQuery
build_search_query channel sought_phrase = record {
  filter = channel_term channel ∷ [];
  must =
      if sought_phrase == ""
      then none
      else some (record { query = sought_phrase; fuzziness = "AUTO" });
  sort = "desc" ∷ [];
  aggs = none;
}

abbrev pub search_failed : Error
search_failed = other "search"

abbrev pub Search : Type 0
Search = Attempt (Result ChannelHistory)

-- `results = append(results, msg)`, before the rest of the loop.
abbrev pub prepend : MessageEvent → Search → Search
prepend msg (completes (ok msgs)) = completes (ok (msg ∷ msgs))
prepend msg (completes (err e)) = completes (err e)
prepend msg aborts = aborts

-- One round of the loop, by what the document decodes to and by the assertion on the hit.
abbrev pub read_message : Option MessageEvent → Search → Search
read_message none rest = completes (err search_failed)
read_message (some msg) rest = prepend msg rest

abbrev pub read_hit : (Json → Option MessageEvent) → Option Fields → Search → Search
read_hit decode none rest = aborts
read_hit decode (some hit) rest = read_message (decode (value_at "_source" hit)) rest

-- The loop over the hits, which ends at the first that is no map or cannot be decoded.
unfoldable pub decode_hits : (Json → Option MessageEvent) → Items → Search
decode_hits decode nil = completes (ok [])
decode_hits decode (cons hit hits) = read_hit decode (as_map (some hit)) (decode_hits decode hits)

-- `r["hits"].(map[string]interface{})["hits"].([]interface{})`
unfoldable pub hits_of : Fields → Option Items
unfolding map_at entry
hits_of r = elim (map_at "hits" r) [ none ↦ none | some hits ↦ as_array (entry "hits" hits none) ]

-- What is logged of an error is asserted to be there, and then `return nil, err` gives a nil `err`.
abbrev pub read_error_answer : Option Fields → Search
read_error_answer none = completes (err search_failed)
read_error_answer (some e) = elim (map_at "error" e) [ none ↦ aborts | some _ ↦ completes (ok []) ]

abbrev pub or_internal : Search → Search
or_internal (completes (err _)) = completes (err err_internal)
or_internal (completes (ok results)) = completes (ok results)
or_internal aborts = aborts

module _ {S : Type 0} (es : Elasticsearch S) where
  abbrev pub read_found : Option Fields → Search
  read_found none = completes (err search_failed)
  read_found (some r) = elim (hits_of r) [ none ↦ aborts | some hits ↦ decode_hits es.decode hits ]

  unfoldable pub run_search_query : SearchQuery → S → Search
  unfolding decode_hits hits_of map_at decode_map
  run_search_query query s = elim (es.search query s) [
    | no_response ↦ completes (err search_failed)
    | reports_error answer ↦ read_error_answer (decode_map end answer)
    | found answer ↦ read_found (decode_map end answer)
  ]

  unfoldable pub find_messages : String → String → S → Search
  unfolding build_search_query run_search_query
  find_messages channel phrase s =
      or_internal (run_search_query (build_search_query channel phrase) s)

  abbrev not_saved : Error
  not_saved = other "could not save message"

  unfoldable document_id : Json → Result String
  unfolding object_fields string_field
  document_id j = elim (object_fields j) [
    | none ↦ err not_saved
    | some fields ↦
        let (id, fine) = string_field "_id" fields empty_string in
        if fine then ok id else err not_saved
  ]

  unfoldable pub index_message : MessageEvent → Action S String
  unfolding document_id
  index_message msg s =
      let (answer, kept) = es.index msg s in
      (
        elim answer [
          | no_response ↦ err not_saved
          | unreadable ↦ err not_saved
          | body j ↦ document_id j
        ],
        kept,
      )

  -- `NewMessageStore`
  unfoldable pub new_message_store : MessageStore S
  unfolding index_message find_messages
  new_message_store = record {
    index_message = index_message;
    find_messages = λ channel phrase s. (find_messages channel phrase s, s);
  }
