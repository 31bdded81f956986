-- ===== src/Users/Tests/Overlaps.antt =====
-- user_connections.go at calls that overlap, and at goroutines that run.
use sockchat.Prelude.{
  ℕ, String, ◌≡◌, refl, true, false, none, some, List, [], ◌∷◌, ◌++◌, arith, nat_key, string_key,
  ◌≤◌,
}
use mathlib.Core.List.{Perm}
use sockchat.Prelude.GoMap
use sockchat.Prelude.GoSet.{contains, insert}
use sockchat.Api.Effects.{ok}
use sockchat.Api.Structs.{MessageEvent, SendMessageRequest, pos}
use sockchat.Api.WsMessages.{SocketMessage}
use sockchat.ChannelStore.{
  UserRef, Channel, channel_at, channel_exists, message_channel, is_user_present_in, get_channel,
  index_message, has_member, disconnect_user,
}
use sockchat.ChannelStore.Goroutines.{IsNamed}
use sockchat.ChannelStore.Rooms.{is_member}
use sockchat.ChannelStore.Weights.{pending, weights, weight, crowd}
use sockchat.ChannelStore.Tests.{diary, lobby, ann}
use sockchat.Users.{
  ConnectedUsersPool, new_connected_users_pool, get_handler, add_connection, remove_connection,
  handle_send_message, connections_of, nick_of, get_active_connections_count,
}
use sockchat.Users.Histories.{opens, online_run, pool_run, run-Tracks, new-Tracks}
use sockchat.Users.Scheduling.{run_picked, run_picked-rests, remove_connection-rests}
use sockchat.Users.Delivery.{copies_for, told, handle_send_message-delivers}
use sockchat.Users.Online.{Tracks, is_open_for}
use sockchat.Users.Calls.{Thread, adds, removes, returned, run_alone, overlap}
use sockchat.Users.Calls.Alone.{alone-Tracks}
use sockchat.Users.Calls.Owners.{is_called}
use sockchat.Users.Calls.Owners.Sections.{overlap-Owners}
use sockchat.Users.Calls.Losses.{schedule, removes-Forgets}
use sockchat.Users.Tests.{
  morning, morning-IsOrderly, bob_alone, bob_handler, bob_has_handler, open_20, only_20,
}

-- Bob's handler stands at the address 0, and ann's at 1, which is in the lobby; ann has two
-- connections.
abbrev noon : ConnectedUsersPool (List MessageEvent)
noon =
    pool_run (opens 20 "bob" ∷ opens 10 "ann" ∷ opens 11 "ann" ∷ [])
      (new_connected_users_pool lobby)

abbrev request : SendMessageRequest
request = record { channel = "lobby"; text = "hi" }

abbrev asked : ConnectedUsersPool (List MessageEvent)
asked = (handle_send_message diary ann request (pos 9) noon).1

noon_idle : noon.channel_store.spawned ≡ []
unfolding new_connected_users_pool add_connection GoMap.get GoMap.set insert
noon_idle = refl

asked_accepted : handle_send_message diary ann request (pos 9) noon ≡ (ok tt, asked)
unfolding handle_send_message message_channel is_user_present_in get_channel index_message
    new_connected_users_pool add_connection GoMap.get GoMap.set insert has_member
asked_accepted = refl

asked_pending : pending asked.channel_store ≤ 9
unfolding handle_send_message message_channel is_user_present_in get_channel index_message
    new_connected_users_pool add_connection GoMap.get GoMap.set insert has_member pending weights
    weight crowd
asked_pending = omega arith

abbrev nine : List ℕ
nine = 3 ∷ 1 ∷ 4 ∷ 1 ∷ 5 ∷ 9 ∷ 2 ∷ 6 ∷ 5 ∷ []

handle_send_message-delivers_example :
    ((run_picked nine asked).channel_store.spawned ≡ [])
    × ((c : Channel) × (channel_at "lobby" noon.channel_store ≡ some c)
        × (done : List (ℕ × SocketMessage)) × ((run_picked nine asked).sent ≡ noon.sent ++ done)
        × Perm done (copies_for noon (told diary noon ann request (pos 9)) c.members))
handle_send_message-delivers_example =
    handle_send_message-delivers diary noon ann request (pos 9) asked nine noon_idle asked_accepted
      asked_pending

noon_copies :
    copies_for noon (told diary noon ann request (pos 9)) (1 ∷ 2 ∷ [])
    ≡ (10, told diary noon ann request (pos 9)) ∷ (11, told diary noon ann request (pos 9)) ∷ []
unfolding new_connected_users_pool add_connection connections_of GoMap.get GoMap.set insert
noon_copies = refl

run_picked-rests_example : (run_picked nine asked).channel_store.spawned ≡ []
run_picked-rests_example = run_picked-rests nine asked asked_pending

bob_alone-IsNamed : IsNamed bob_alone.channel_store
unfolding channel_exists new_connected_users_pool add_connection GoMap.get GoMap.set insert
bob_alone-IsNamed = refl

gone_pending : pending (remove_connection 20 bob_alone).channel_store ≤ 9
unfolding remove_connection nick_of get_handler get_active_connections_count connections_of
    new_connected_users_pool add_connection GoMap.get GoMap.set GoMap.delete insert disconnect_user
    pending weights weight crowd
gone_pending = omega arith

remove_connection-rests_example :
    let q = run_picked nine (remove_connection 20 bob_alone) in
    (q.channel_store.spawned ≡ [])
    × (get_handler "bob" q ≡ none)
    × ((name : String) → is_member q.channel_store name 0 ≡ false)
remove_connection-rests_example =
    remove_connection-rests diary bob_alone (online_run morning []) 20 "bob" bob_handler nine
      open_20
      (run-Tracks morning (new_connected_users_pool lobby) [] morning-IsOrderly (new-Tracks lobby))
      bob_has_handler only_20 bob_alone-IsNamed gone_pending

-- Two logins of ann and one of bob, which overlap with a removal.
abbrev rush : List Thread
rush = adds 10 "ann" ∷ adds 11 "ann" ∷ adds 20 "bob" ∷ removes 10 ∷ []

abbrev rushed : ConnectedUsersPool (List MessageEvent)
rushed = (overlap (0 ∷ 2 ∷ 2 ∷ 2 ∷ 0 ∷ 0 ∷ []) rush (new_connected_users_pool lobby)).1

rushed_bob : get_handler "bob" rushed ≡ some (record { addr = 0; nick = "bob" })
unfolding overlap get_handler new_connected_users_pool GoMap.get GoMap.set insert
rushed_bob = refl

rushed_20 : contains 20 (connections_of 0 rushed) ≡ true
unfolding overlap get_handler new_connected_users_pool connections_of contains GoMap.get GoMap.set
    insert
rushed_20 = refl

overlap-Owners_example : is_called 20 "bob" rush ≡ true
overlap-Owners_example =
    overlap-Owners lobby rush (0 ∷ 2 ∷ 2 ∷ 2 ∷ 0 ∷ 0 ∷ []) (tt, (tt, (tt, (tt, tt)))) "bob"
      (record { addr = 0; nick = "bob" }) 20 rushed_bob rushed_20

unopened_21 : (n : String) → is_open_for (online_run morning []) 21 n ≡ false
unfolding is_open_for GoMap.get GoMap.set GoMap.delete
unopened_21 n = refl

removes-Forgets_example :
    let (ts, q) =
      overlap (schedule bob_alone 20 21 "bob") (removes 20 ∷ adds 21 "bob" ∷ []) bob_alone in
    (ts ≡ returned ∷ returned ∷ [])
    × (get_handler "bob" q ≡ none)
    × (GoMap.get 21 q.connections ≡ some "bob")
    × ((n : String) (k : UserRef)
        → get_handler n q ≡ some k
        → contains 21 (connections_of k.addr q) ≡ false)
removes-Forgets_example =
    removes-Forgets bob_alone 20 21 "bob" (online_run morning [])
      (run-Tracks morning (new_connected_users_pool lobby) [] morning-IsOrderly (new-Tracks lobby))
      open_20 only_20 unopened_21

unopened_30 : (n : String) → is_open_for (online_run morning []) 30 n ≡ false
unfolding is_open_for GoMap.get GoMap.set GoMap.delete
unopened_30 n = refl

alone-Tracks_example :
    (let (t, q) = run_alone 4 (adds 30 "cy") bob_alone in
      (t ≡ returned) × Tracks q (GoMap.set 30 "cy" (online_run morning [])))
    × (let (t, q) = run_alone 4 (removes 20) bob_alone in
        (t ≡ returned) × Tracks q (GoMap.delete 20 (online_run morning [])))
alone-Tracks_example =
    alone-Tracks bob_alone (online_run morning []) 30 "cy" 20 "bob"
      (run-Tracks morning (new_connected_users_pool lobby) [] morning-IsOrderly (new-Tracks lobby))
      unopened_30 open_20
