-- ===== src/Storage/Messages/Indexing.antt =====
-- storage/messages.go beside channel_store.go: a message whose index request is answered.
use sockchat.Prelude.{String, ◌≡◌, true, false, some, [], ◌∷◌, ◌++◌, arith, ◌==◌, string_key}
use sockchat.Api.Effects.{ok}
use sockchat.Api.Json.{Fields, obj, string_field, object_fields, empty_string}
use sockchat.Api.Structs.{MessageEvent, new_message_event}
use sockchat.Api.WsMessages.{new_socket_message, message_event}
use sockchat.ChannelStore.{
  ChannelStore, Channel, Task, channel_at, message_channel, get_channel,
  index_message as index_in_store,
}
use sockchat.Storage.Messages.{Elasticsearch, body, index_message, document_id, new_message_store}

module _ {S : Type 0} (es : Elasticsearch S) (msg : MessageEvent) where
  indexed :
      (s kept : S) (fields : Fields) (id : String)
      → es.index msg s ≡ (body (obj fields), kept)
      → string_field "_id" fields empty_string ≡ (id, true)
      → index_message es msg s ≡ (ok id, kept)
  unfolding index_message document_id object_fields
  indexed s kept fields id h f = ground arith

  -- A message to a channel is sent on whenever Elasticsearch answers with a JSON object in which `_id`
  -- is no value of another type. So it is if the object has no `_id` at all, as that of an error has:
  -- the status of the answer is not looked at.
  message_channel-indexed :
      (s : ChannelStore S) (kept : S) (c : Channel) (fields : Fields) (id : String)
      → (msg.channel == "") ≡ false
      → channel_at msg.channel s ≡ some c
      → es.index msg s.message_store ≡ (body (obj fields), kept)
      → string_field "_id" fields empty_string ≡ (id, true)
      → message_channel (new_message_store es) msg s ≡ (
        ok tt,
        record s {
          message_store = kept;
          spawned =
              s.spawned
              ++ Task.message_members msg.channel
                  (new_socket_message new_message_event (message_event msg))
                ∷ [];
        },
      )
  unfolding message_channel get_channel index_in_store new_message_store
  message_channel-indexed s kept c fields id named there h f =
      let saved = indexed s.message_store kept fields id h f in ground (arith, saved)
