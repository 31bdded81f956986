-- ===== src/ChannelStore/Calls.antt =====
-- channel_store.go: calls of CreateChannel, AddUserToChannel and RemoveUserFromChannel that overlap. A
-- thread stands at one of the critical sections of its call, and a step runs that section. A goroutine
-- of DisconnectUser is a call of RemoveUserFromChannel.
pub mod Alone
pub mod Members
pub mod Overlaps
pub mod Turns
use sockchat.Prelude.{
  ℕ, zero, suc, String, Bool, true, false, Option, none, some, List, [], ◌∷◌, string_key,
}
use sockchat.Api.Errors.{err_user_already_in_channel, err_user_not_in_channel}
use sockchat.Api.Effects.{Result, ok, err}
use sockchat.Api.Structs.{user_joined_channel_event, user_left_channel_event}
use sockchat.ChannelStore.{
  ChannelStore, Channel, UserRef, channel_at, get_channel, create_channel, has_member, add_member,
  remove_member, write_channel, message_members_of, announcement,
}

-- What a call does to a channel's members: AddUserToChannel, or RemoveUserFromChannel.
pub data Change : Type 0 where
  entering leaving : Change

-- The section that comes next. `creates` is all of CreateChannel. `seeks` is getChannel, `checks`
-- HasMember, `changes` AddMember or RemoveMember, and `tells` MessageMembers. A method that is called
-- on a nil channel panics.
pub data Thread : Type 0 where
  creates : (name : String) → Thread
  seeks checks changes tells : (change : Change) (name : String) (user : UserRef) → Thread
  returned : (result : Result (Unit {0})) → Thread
  panicked : Thread

abbrev pub sought : Change → String → UserRef → Result Channel → Thread
sought change name user (err e) = returned (err e)
sought change name user (ok _) = checks change name user

abbrev pub checked : Change → String → UserRef → Bool → Thread
checked entering name user true = returned (err err_user_already_in_channel)
checked entering name user false = changes entering name user
checked leaving name user true = changes leaving name user
checked leaving name user false = returned (err err_user_not_in_channel)

abbrev pub changed : Change → ℕ → Channel → Channel
changed entering user channel = add_member user channel
changed leaving user channel = remove_member user channel

abbrev event_of : Change → String
event_of entering = user_joined_channel_event
event_of leaving = user_left_channel_event

module _ {S : Type 0} where
  -- A method of the channel that the pointer of this name leads to.
  abbrev on_channel :
      Option Channel
      → (Channel → Thread × ChannelStore S)
      → ChannelStore S
      → Thread × ChannelStore S
  on_channel none method s = (panicked, s)
  on_channel (some channel) method s = method channel

  -- One critical section.
  unfoldable pub advance : Thread → ChannelStore S → Thread × ChannelStore S
  unfolding get_channel create_channel
  advance (creates name) s = let (r, t) = create_channel name s in (returned r, t)
  advance (seeks change name user) s =
      let (r, t) = get_channel name s in (sought change name user r, t)
  advance (checks change name user) s =
      on_channel (channel_at name s)
        (λ channel. (checked change name user (has_member user.addr channel), s)) s
  advance (changes change name user) s =
      on_channel (channel_at name s)
        (λ channel.
          (tells change name user, (write_channel name (changed change user.addr channel) s).1))
        s
  advance (tells change name user) s =
      on_channel (channel_at name s)
        (λ channel. (
          returned (ok tt),
          (message_members_of channel (announcement (event_of change) name user) s).1,
        ))
        s
  advance (returned r) s = (returned r, s)
  advance panicked s = (panicked, s)

  -- The thread at a place runs its next section; beyond the end there is none.
  unfoldable pub advance_at : ℕ → List Thread → ChannelStore S → List Thread × ChannelStore S
  unfolding advance
  advance_at n [] s = ([], s)
  advance_at zero (t ∷ ts) s = let (u, q) = advance t s in (u ∷ ts, q)
  advance_at (suc n) (t ∷ ts) s = let (us, q) = advance_at n ts s in (t ∷ us, q)

  -- The threads run in the order that the scheduler's choices give.
  unfoldable pub overlap : List ℕ → List Thread → ChannelStore S → List Thread × ChannelStore S
  unfolding advance_at
  overlap [] ts s = (ts, s)
  overlap (n ∷ ns) ts s = let (us, q) = advance_at n ts s in overlap ns us q

  -- A call that is not disturbed runs its sections one after the other.
  unfoldable pub run_alone : ℕ → Thread → ChannelStore S → Thread × ChannelStore S
  unfolding advance
  run_alone zero t s = (t, s)
  run_alone (suc n) t s = let (u, q) = advance t s in run_alone n u q
