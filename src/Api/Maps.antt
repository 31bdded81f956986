-- ===== src/Api/Maps.antt =====
-- Go's decoding of JSON into a `map[string]interface{}`, and the assertions on what such a map has,
-- as storage/messages.go and webserver/elasticsearch.go use them. A failed assertion is `none`.
use sockchat.Prelude.{String, Option, none, some, ◌==◌, if◌then◌else◌, string_key}
use sockchat.Api.Json.{Json, null, obj, arr, Items, Fields, end, field}

-- A `map[string]interface{}`: the last entry of a key counts.
unfoldable pub entry : String → Fields → Option Json → Option Json
entry key end found = found
entry key (field name json rest) found = entry key rest (if name == key then some json else found)

-- `Decode(&r)`: the entries are put into the map that is there, and `null` makes it nil.
unfoldable put_all : Fields → Fields → Fields
put_all end new = new
put_all (field name json rest) new = field name json (put_all rest new)

unfoldable pub decode_map : Fields → Json → Option Fields
unfolding put_all
decode_map old (obj new) = some (put_all old new)
decode_map old null = some end
decode_map old _ = none

-- `v.(map[string]interface{})`
abbrev pub as_map : Option Json → Option Fields
as_map (some (obj fields)) = some fields
as_map _ = none

-- `r[key]`, which is nil for a missing key.
unfoldable pub value_at : String → Fields → Json
unfolding entry
value_at key r = elim (entry key r none) [ none ↦ null | some json ↦ json ]

-- `v.([]interface{})`
abbrev pub as_array : Option Json → Option Items
as_array (some (arr items)) = some items
as_array _ = none

-- `r[key].(map[string]interface{})`
unfoldable pub map_at : String → Fields → Option Fields
unfolding entry
map_at key r = as_map (entry key r none)
