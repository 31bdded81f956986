-- ===== src/Users/Tests.antt =====
-- user_connections.go at concrete users.
mod Overlaps
use sockchat.Prelude.{
  none, ℕ, String, ◌≡◌, refl, ◌↔◌, true, false, some, List, [], ◌∷◌, ◌++◌, map, arith, nat_key,
  string_key, ◌==◌,
}
use sockchat.Prelude.GoMap
use sockchat.Prelude.GoSet.{contains, insert}
use sockchat.Api.Structs.{MessageEvent, pos}
use sockchat.ChannelStore.{UserRef, disconnect_user, announcement}
use sockchat.ChannelStore.Tests.{diary, lobby, ann}
use sockchat.Users.{
  ConnectedUsersPool, new_connected_users_pool, get_handler, add_connection, remove_connection,
  handler_write, handle_create, handle_leave, handle_send_message,
}
use sockchat.Users.Online.{is_open_for, Tracks}
use sockchat.Users.Connect.{add_connection-Tracks}
use sockchat.Users.Close.{
  remove_connection-Tracks, remove_connection-keeps, remove_connection-disconnects,
}
use sockchat.Users.Histories.{
  Event, opens, closes, IsOrderly, online_run, pool_run, run-Tracks, new-Tracks, history_handlers,
  history_write,
}
use sockchat.Users.Races.{add_connection_after, Loses, add_connection_after-Loses}
use sockchat.Users.Requests.{
  CreateAnswers, LeaveAnswers, SendAnswers, handle_create-answers, handle_leave-answers,
  handle_send_message-answers,
}

-- Two connections of ann, one of bob; bob leaves.
abbrev day : List Event
day = opens 10 "ann" ∷ opens 20 "bob" ∷ opens 11 "ann" ∷ closes 20 ∷ []

day-IsOrderly : IsOrderly day []
unfolding is_open_for GoMap.get GoMap.set
day-IsOrderly = (λ n. refl, (λ n. refl, (λ n. refl, (("bob", refl), tt))))

abbrev evening : ConnectedUsersPool (List MessageEvent)
evening = pool_run day (new_connected_users_pool lobby)

evening-Tracks : Tracks evening (online_run day [])
evening-Tracks = run-Tracks day (new_connected_users_pool lobby) [] day-IsOrderly (new-Tracks lobby)

-- Ann's handler was made first, at address 0.
abbrev ann_handler : UserRef
ann_handler = record { addr = 0; nick = "ann" }

ann_has_handler : get_handler "ann" evening ≡ some ann_handler
unfolding get_handler new_connected_users_pool add_connection remove_connection GoMap.get GoMap.set
    GoMap.delete insert
ann_has_handler = refl

open_10 : is_open_for (online_run day []) 10 "ann" ≡ true
unfolding is_open_for GoMap.get GoMap.set GoMap.delete
open_10 = refl

open_11 : is_open_for (online_run day []) 11 "ann" ≡ true
unfolding is_open_for GoMap.get GoMap.set GoMap.delete
open_11 = refl

unopened_30 : (n : String) → is_open_for (online_run day []) 30 n ≡ false
unfolding is_open_for GoMap.get GoMap.set GoMap.delete
unopened_30 n = refl

remove_connection-Tracks_example :
    Tracks (remove_connection 10 evening) (GoMap.delete 10 (online_run day []))
remove_connection-Tracks_example =
    remove_connection-Tracks evening (online_run day []) 10 "ann" open_10 evening-Tracks

-- Bob alone, with one connection.
abbrev morning : List Event
morning = opens 20 "bob" ∷ []

morning-IsOrderly : IsOrderly morning []
unfolding is_open_for GoMap.get
morning-IsOrderly = (λ n. refl, tt)

abbrev bob_alone : ConnectedUsersPool (List MessageEvent)
bob_alone = pool_run morning (new_connected_users_pool lobby)

abbrev bob_handler : UserRef
bob_handler = record { addr = 0; nick = "bob" }

bob_has_handler : get_handler "bob" bob_alone ≡ some bob_handler
unfolding get_handler new_connected_users_pool add_connection GoMap.get GoMap.set insert
bob_has_handler = refl

open_20 : is_open_for (online_run morning []) 20 "bob" ≡ true
unfolding is_open_for GoMap.get GoMap.set
open_20 = refl

only_20 : (c : ℕ) → is_open_for (online_run morning []) c "bob" ≡ (20 == c)
unfolding is_open_for GoMap.get GoMap.set
only_20 c = ground arith

history_write_example :
    (conns : List ℕ) × (handler_write 0 (announcement "news" "lobby" ann) evening ≡ record evening {
      sent = evening.sent ++ map (λ conn. (conn, announcement "news" "lobby" ann)) conns;
    })
    × ((conn : ℕ) → contains conn conns ≡ is_open_for (online_run day []) conn "ann")
history_write_example =
    history_write lobby day "ann" ann_handler (announcement "news" "lobby" ann) day-IsOrderly
      ann_has_handler

handle_create-answers_example :
    CreateAnswers evening ann
      (record { name = "new" })
      (handle_create ann (record { name = "new" }) evening)
handle_create-answers_example = handle_create-answers evening ann (record { name = "new" })

handle_send_message-answers_example :
    SendAnswers diary evening ann
      (record { channel = "lobby"; text = "hi" })
      (pos 9)
      (handle_send_message diary ann (record { channel = "lobby"; text = "hi" }) (pos 9) evening)
handle_send_message-answers_example =
    handle_send_message-answers diary evening ann (record { channel = "lobby"; text = "hi" })
      (pos 9)

abbrev nobody : ConnectedUsersPool (List MessageEvent)
nobody = new_connected_users_pool lobby

no_handler : get_handler "ann" nobody ≡ none
unfolding get_handler new_connected_users_pool GoMap.get
no_handler = refl

add_connection_after-Loses_example : Loses 10 11 "ann" nobody (
    add_connection_after
      (get_handler "ann" nobody)
      11
      "ann"
      (add_connection_after (get_handler "ann" nobody) 10 "ann" nobody))
add_connection_after-Loses_example =
    add_connection_after-Loses 10 11 "ann" nobody no_handler (λ e. absurd (omega arith))
