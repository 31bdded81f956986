-- ===== src/TestUtils/Doubles.antt =====
-- test_utils/test_doubles.go and test_utils/constants.go: the doubles, as implementations of the
-- interfaces of the program.
use sockchat.Prelude.{
  String, ◌≡◌, true, false, not, List, [], ◌∷◌, ◌++◌, if◌then◌else◌, ◌==◌, string_key, arith,
  ==_iff,
}
use sockchat.Api.Errors.{
  err_channel_already_exists, err_user_already_in_channel, err_user_not_in_channel,
  err_nick_already_used, err_user_not_found,
}
use sockchat.Api.Effects.{completes, ok, err, Action}
use sockchat.Api.Structs.{
  MessageEvent, PublicProfile, ChannelHistory, pos, user_joined_channel_event,
  user_left_channel_event,
}
use sockchat.Api.WsMessages.{SocketMessage}
use sockchat.ChannelStore.{
  ChannelStore, MessageStore, UserRef, announcement, message_channel, channel_exists,
}
use sockchat.ChannelStore.Messages.{message_channel-Delivers}
use sockchat.Storage.Users.{User, UserStore}
use sockchat.Services.Interfaces.{SockchatChannelStore, SockchatReportsService}

abbrev valid_user_nick : String
valid_user_nick = "SpecialTestUser"

abbrev valid_user2_nick : String
valid_user2_nick = "VerySpecialTestUser"

abbrev valid_user_password_hash : String
valid_user_password_hash = "$2a$10$Xl002E7Vj5qM1RHMiM06KOCHofpLcPTIj7LeyZgTf62txoOBvoyia"

abbrev valid_user_description : String
valid_user_description = "I am a very special test user"

abbrev channel_with_user : String
channel_with_user = "channel_with_user"

abbrev channel_without_user : String
channel_without_user = "channel_without_user"

-- What the stub has written to handlers, the latest message last.
abbrev Written : Type 0
Written = List (UserRef × SocketMessage)

abbrev writes_to : UserRef → SocketMessage → Action Written (Unit {0})
writes_to user message w = (ok tt, w ++ (user, message) ∷ [])

unfoldable stub_channel_store : SockchatChannelStore Written
stub_channel_store = record {
  create_channel =
      λ name w. (if name == "already_exists" then err err_channel_already_exists else ok tt, w);
  add_user_to_channel = λ name user w.
      if name == channel_with_user
      then (err err_user_already_in_channel, w)
      else writes_to user (announcement user_joined_channel_event name user) w;
  remove_user_from_channel = λ name user w.
      if name == channel_without_user
      then (err err_user_not_in_channel, w)
      else writes_to user (announcement user_left_channel_event name user) w;
  message_channel = λ message w. (ok tt, w);
  disconnect_user = λ user w. (ok tt, w);
  is_user_present_in = λ user name w. false;
  channel_exists = λ name w. not (name == "not_exists");
}

-- An empty message is kept in place of the one that is indexed.
unfoldable stub_message_store : MessageStore ChannelHistory
stub_message_store = record {
  index_message = λ message messages.
      (ok "", messages ++ record { text = ""; channel = ""; author = ""; timestamp = pos 0 } ∷ []);
  find_messages = λ channel sought_phrase messages.
      (completes (ok (if sought_phrase == "" then messages else [])), messages);
}

pub record UserStoreDouble : Type 0 where
  create_calls : List User
  update_calls : List PublicProfile

-- The description of the first update.
abbrev first_description : List PublicProfile → String
first_description [] = valid_user_description
first_description (u ∷ us) = u.description

unfoldable user_store_double : UserStore UserStoreDouble
user_store_double = record {
  insert_user = λ u s. (
    if u.nick == "already_exists" then err err_nick_already_used else ok tt,
    record s { create_calls = s.create_calls ++ u ∷ [] },
  );
  update_public_profile = λ u s. (ok tt, record s { update_calls = s.update_calls ++ u ∷ [] });
  select_user = λ nick s.
      if nick == valid_user_nick
      then ok (record {
        nick = valid_user_nick;
        pw_hash = valid_user_password_hash;
        description = first_description s.update_calls;
      })
      else if nick == valid_user2_nick
      then ok (record {
        nick = valid_user2_nick;
        pw_hash = valid_user_password_hash;
        description = first_description s.update_calls;
      })
      else err err_user_not_found;
}

-- `today` is `time.Now().Format("2006-01-02")`.
unfoldable stub_reports_service : String → SockchatReportsService
stub_reports_service today = record {
  get_user_activity_report = λ opts. ok (record {
    channel_activity =
        if not (opts.group_by == "")
        then (
          "bar",
          record {
            total_messages = pos 100;
            message_count_distribution =
                record { period_start = today; messages_in_period = pos 69 } ∷ [];
          },
        )
          ∷ []
        else ("foo", record { total_messages = pos 1; message_count_distribution = [] }) ∷ [];
    from = opts.from;
    to = opts.to;
  });
}

-- A channel store over the stub takes every message to a channel, and the stub keeps an empty one.
message_channel-stub :
    (event : MessageEvent) (s : ChannelStore ChannelHistory)
    → (event.channel == "") ≡ false
    → channel_exists event.channel s ≡ true
    → let (answer, t) = message_channel stub_message_store event s in
      (answer ≡ ok tt)
      × (t.message_store
          ≡ s.message_store
            ++ record { text = ""; channel = ""; author = ""; timestamp = pos 0 } ∷ [])
unfolding stub_message_store
message_channel-stub event s named there =
    let done = message_channel-Delivers stub_message_store event s in
    (ground (arith, named, there, done.0), ground (arith, named, there, done.2))

-- After any updates the double gives the description of the first of them, unlike a table.
select_user-double :
    (first : PublicProfile) (later : List PublicProfile) (inserted : List User)
    → user_store_double.select_user valid_user_nick
        (record { create_calls = inserted; update_calls = first ∷ later })
      ≡ ok (record {
        nick = valid_user_nick;
        pw_hash = valid_user_password_hash;
        description = first.description;
      })
unfolding user_store_double
select_user-double first later inserted = ground (arith, ==_iff valid_user_nick valid_user_nick)
