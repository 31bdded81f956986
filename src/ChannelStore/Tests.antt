-- ===== src/ChannelStore/Tests.antt =====
-- channel_store.go at concrete channels.
use sockchat.Prelude.{
  ◌≤◌, true, ◌||◌, map, ℕ, String, ◌≡◌, refl, false, List, [], ◌∷◌, arith, nat_key, string_key,
}
use sockchat.Prelude.GoMap.{get, set}
use sockchat.Api.Effects.{ok, err, completes}
use sockchat.Api.Errors.{err_user_already_in_channel}
use sockchat.Api.Structs.{MessageEvent, user_joined_channel_event}
use sockchat.ChannelStore.{
  ChannelStore, MessageStore, UserRef, Task, channel_exists, create_channel, add_user_to_channel,
  remove_user_from_channel, disconnect_user, run_task, announcement, has_member, add_member,
  remove_member, writes,
}
use sockchat.ChannelStore.Rooms.{
  is_member, CreateRefines, create_channel-refines, AddRefines, add-refines, RemoveRefines,
  remove-refines,
}
use sockchat.ChannelStore.Goroutines.{IsNamed, is_leaving, goodbyes}
use sockchat.ChannelStore.Interleavings.{Steps, here, next, picks, disconnect_user-leaves}
use sockchat.ChannelStore.Calls.{Thread, entering, leaving, creates, seeks, returned, overlap}
use sockchat.ChannelStore.Calls.Members.{is_asked}
use sockchat.ChannelStore.Calls.Turns.{turns}
use sockchat.ChannelStore.Calls.Overlaps.{has_returned, overlap-Members}
use sockchat.ChannelStore.Messages.{Announces, add-Announces}

-- A message store that keeps what it is given, newest first.
abbrev pub diary : MessageStore (List MessageEvent)
diary = record {
  index_message = λ event kept. (ok "id", event ∷ kept);
  find_messages = λ channel phrase kept. (completes (ok kept), kept);
}

abbrev pub ann : UserRef
ann = record { addr = 1; nick = "ann" }

abbrev pub bob : UserRef
bob = record { addr = 2; nick = "bob" }

-- Two channels; ann and bob are in the first.
abbrev pub lobby : ChannelStore (List MessageEvent)
lobby = record {
  channels = ("lobby", record { members = 1 ∷ 2 ∷ [] }) ∷ ("dev", record { members = [] }) ∷ [];
  message_store = [];
  spawned = [];
}

joins_twice : (add_user_to_channel "lobby" ann lobby).0 ≡ err err_user_already_in_channel
unfolding add_user_to_channel get has_member
joins_twice = refl

create_channel-refines_example : CreateRefines lobby "new" (create_channel "new" lobby)
create_channel-refines_example = create_channel-refines lobby "new"

add-refines_example : AddRefines lobby "dev" 1 (add_user_to_channel "dev" ann lobby)
add-refines_example = add-refines lobby "dev" ann

remove-refines_example : RemoveRefines lobby "lobby" 2 (remove_user_from_channel "lobby" bob lobby)
remove-refines_example = remove-refines lobby "lobby" bob

add-Announces_example :
    Announces lobby "dev"
      (announcement user_joined_channel_event "dev" ann)
      (add_user_to_channel "dev" ann lobby)
add-Announces_example = add-Announces lobby "dev" ann

-- The goroutines run in the order opposite to that in which they were spawned.
abbrev backwards : List Task
backwards = Task.remove_user_from_channel "dev" ann ∷ Task.remove_user_from_channel "lobby" ann ∷ []

lobby-IsNamed : IsNamed lobby
unfolding channel_exists get
lobby-IsNamed = refl

backwards_same :
    (n : String) (u : ℕ) → is_leaving n u backwards ≡ is_leaving n u (goodbyes ann lobby)
unfolding is_leaving
backwards_same n u = ground arith

-- The goroutine of the first channel has run, that of the second has not.
abbrev half_gone : ChannelStore (List MessageEvent)
half_gone =
    run_task (Task.remove_user_from_channel "lobby" ann)
      (record lobby { spawned = Task.remove_user_from_channel "dev" ann ∷ [] })

one_picked : Steps diary 1 (disconnect_user ann lobby).1 half_gone
unfolding disconnect_user
one_picked = next here (
    picks [] (Task.remove_user_from_channel "lobby" ann)
      (Task.remove_user_from_channel "dev" ann ∷ []) refl refl)

lobby_done : is_leaving "lobby" 1 half_gone.spawned ≡ false
unfolding is_leaving run_task get has_member remove_member writes
lobby_done = refl

disconnect_user-leaves_example : is_member half_gone "lobby" 1 ≡ false
disconnect_user-leaves_example =
    disconnect_user-leaves diary ann lobby lobby-IsNamed one_picked "lobby" lobby_done

-- Ann joins twice at once, while bob leaves and a channel is made.
abbrev crowded : List Thread
crowded =
    seeks entering "dev" ann
    ∷ seeks entering "dev" ann
    ∷ seeks leaving "lobby" bob
    ∷ creates "new"
    ∷ []

abbrev choices : List ℕ
choices = 0 ∷ 1 ∷ 0 ∷ 1 ∷ 2 ∷ 3 ∷ 0 ∷ 1 ∷ 2 ∷ 0 ∷ 1 ∷ 2 ∷ 2 ∷ []

-- Both calls find that ann is not a member, so both succeed.
joins_both : (overlap choices crowded lobby).0 ≡ map (λ _. returned (ok tt)) crowded
unfolding overlap get set has_member add_member remove_member
joins_both = refl

overlap-Members_example :
    let (ts, t) = overlap choices crowded lobby in
    ((name : String) (user : ℕ)
      → (is_member t name user ≡ true
          → (is_member lobby name user || is_asked entering name user crowded) ≡ true)
        × (is_member lobby name user ≡ true
            → (is_member t name user || is_asked leaving name user crowded) ≡ true))
    × ((n : ℕ) → 4 ≤ turns n choices → has_returned n ts ≡ true)
overlap-Members_example = overlap-Members lobby crowded choices (tt, (tt, (tt, (tt, tt))))
