-- ===== src/ChannelStore/Goroutines.antt =====
-- channel_store.go: the goroutines that the operations spawn, and what they do to the membership.
use sockchat.Prelude.{
  ℕ, String, ◌≡◌, refl, ◌∙◌, Bool, false, not, ◌&&◌, ◌||◌, List, [], ◌∷◌, ◌++◌, map, arith, ◌==◌,
  ==_iff, nat_key, string_key,
}
use sockchat.Prelude.GoMap.{keys, contains-keys}
use sockchat.Prelude.GoSet.{contains}
use sockchat.Api.WsMessages.{SocketMessage}
use sockchat.ChannelStore.{
  ChannelStore, UserRef, Task, channel_exists, remove_user_from_channel, disconnect_user, run_task,
}
use sockchat.ChannelStore.Rooms.{
  is_member, remove-refines, RemoveRefines, member_nowhere, member_of_channels, exists_of_channels,
}

-- Whether a goroutine takes a user out of a channel.
abbrev takes_out : String → ℕ → Task → Bool
takes_out name user (Task.remove_user_from_channel n v) = n == name && v.addr == user
takes_out name user (Task.message_members _ _) = false
takes_out name user (Task.write _ _) = false

unfoldable pub is_leaving : String → ℕ → List Task → Bool
is_leaving name user [] = false
is_leaving name user (t ∷ ts) = takes_out name user t || is_leaving name user ts

pub is_leaving-cons :
    (name : String) (user : ℕ) (t : Task) (ts : List Task)
    → is_leaving name user (t ∷ ts) ≡ (takes_out name user t || is_leaving name user ts)
unfolding is_leaving
is_leaving-cons name user t ts = refl

pub is_leaving-append :
    (name : String) (user : ℕ) (ts us : List Task)
    → is_leaving name user (ts ++ us) ≡ (is_leaving name user ts || is_leaving name user us)
unfolding is_leaving
is_leaving-append name user [] us = refl
is_leaving-append name user (t ∷ ts) us = ground (arith, is_leaving-append name user ts us)

-- No channel has the empty name.
abbrev pub IsNamed : {S : Type 0} → ChannelStore S → Type 0
IsNamed s = channel_exists "" s ≡ false

-- A goroutine that messages the members of a channel changes no channel.
module _ {S : Type 0} (s : ChannelStore S) (name : String) (m : SocketMessage) where
  channels-message_members : (run_task (Task.message_members name m) s).channels ≡ s.channels
  unfolding run_task
  channels-message_members = ground arith

module _ {S : Type 0} (s : ChannelStore S) (named : IsNamed s) where
  removed :
      (name : String) (user : UserRef) (n : String) (u : ℕ)
      → is_member (remove_user_from_channel name user s).1 n u
        ≡ (is_member s n u && not (name == n && user.addr == u))
  removed name user n u =
      let done : RemoveRefines s name user.addr (remove_user_from_channel name user s) =
        remove-refines s name user in
      ground (arith, done.0, done.2 n u, ==_iff name n, ==_iff name "", member_nowhere s name u)

  -- A goroutine takes out the user that it names from the channel that it names, and nobody else.
  pub member-run_task :
      (t : Task) (n : String) (u : ℕ)
      → is_member (run_task t s) n u ≡ (is_member s n u && not (takes_out n u t))
  unfolding run_task
  member-run_task (Task.remove_user_from_channel name user) n u = removed name user n u
  member-run_task (Task.message_members name m) n u = ground (
    arith,
    member_of_channels s (run_task (Task.message_members name m) s)
        (channels-message_members s name m) n u,
  )
  member-run_task (Task.write v m) n u = ground arith

  pub run_task-IsNamed : (t : Task) → IsNamed (run_task t s)
  unfolding run_task channel_exists
  run_task-IsNamed (Task.remove_user_from_channel name user) =
      let done : RemoveRefines s name user.addr (remove_user_from_channel name user s) =
        remove-refines s name user in
      ground (arith, done.1 "")
  run_task-IsNamed (Task.message_members name m) = ground (
    arith,
    exists_of_channels s (run_task (Task.message_members name m) s)
        (channels-message_members s name m) "",
  )
  run_task-IsNamed (Task.write v m) = named

module _ {S : Type 0} where
  -- The goroutines run one after the other.
  unfoldable run_tasks : List Task → ChannelStore S → ChannelStore S
  run_tasks [] s = s
  run_tasks (t ∷ ts) s = run_tasks ts (run_task t s)

  -- Whatever the order, the goroutines take out exactly the users that they name.
  member-run_tasks :
      (ts : List Task) (s : ChannelStore S)
      → IsNamed s
      → (n : String) (u : ℕ)
      → is_member (run_tasks ts s) n u ≡ (is_member s n u && not (is_leaving n u ts))
  unfolding run_tasks is_leaving
  member-run_tasks [] s named n u = ground arith
  member-run_tasks (t ∷ ts) s named n u = ground (
    arith,
    member-run_task s named t n u,
    member-run_tasks ts (run_task t s) (run_task-IsNamed s named t) n u,
  )

-- The goroutines of `DisconnectUser`.
abbrev pub goodbyes : {S : Type 0} → UserRef → ChannelStore S → List Task
goodbyes user s = map (λ name. Task.remove_user_from_channel name user) (keys s.channels)

is_leaving-map :
    (user : UserRef) (n : String) (u : ℕ) (names : List String)
    → is_leaving n u (map (λ name. Task.remove_user_from_channel name user) names)
      ≡ (contains n names && user.addr == u)
unfolding is_leaving contains
is_leaving-map user n u [] = refl
is_leaving-map user n u (x ∷ names) = ground (arith, is_leaving-map user n u names)

pub is_leaving-goodbyes :
    {S : Type 0} (user : UserRef) (s : ChannelStore S) (n : String) (u : ℕ)
    → is_leaving n u (goodbyes user s) ≡ (channel_exists n s && user.addr == u)
unfolding channel_exists
is_leaving-goodbyes user s n u =
    ground (arith, is_leaving-map user n u (keys s.channels), contains-keys n s.channels)

pub member-disconnect_user :
    {S : Type 0} (user : UserRef) (s : ChannelStore S) (n : String) (u : ℕ)
    → is_member (disconnect_user user s).1 n u ≡ is_member s n u
unfolding disconnect_user
member-disconnect_user user s n u = member_of_channels s (disconnect_user user s).1 refl n u

pub disconnect_user-IsNamed :
    {S : Type 0} (user : UserRef) (s : ChannelStore S)
    → IsNamed s
    → IsNamed (disconnect_user user s).1
unfolding disconnect_user
disconnect_user-IsNamed user s h = exists_of_channels s (disconnect_user user s).1 refl "" ∙ h

cleared :
    {S : Type 0} (user : UserRef) (s : ChannelStore S) (ts : List Task)
    → IsNamed s
    → ((n : String) (u : ℕ) → is_leaving n u ts ≡ is_leaving n u (goodbyes user s))
    → (n : String) (u : ℕ)
    → is_member (run_tasks ts (disconnect_user user s).1) n u
      ≡ (is_member s n u && not (user.addr == u))
cleared user s ts named same n u = ground (
  arith,
  member-run_tasks ts (disconnect_user user s).1 (disconnect_user-IsNamed user s named) n u,
  member-disconnect_user user s n u,
  same n u,
  is_leaving-goodbyes user s n u,
  member_nowhere s n u,
)

-- `DisconnectUser` only spawns goroutines, one for each channel. Once they have run, in whatever
-- order `ts` that takes the same users out of the same channels, the user is in no channel and every
-- other user is where it was. No channel may have the empty name.
disconnect_user-clears :
    {S : Type 0} (user : UserRef) (s : ChannelStore S) (ts : List Task)
    → IsNamed s
    → ((n : String) (u : ℕ) → is_leaving n u ts ≡ is_leaving n u (goodbyes user s))
    → ((disconnect_user user s).1.spawned ≡ s.spawned ++ goodbyes user s)
      × ((n : String) (u : ℕ)
          → is_member (run_tasks ts (disconnect_user user s).1) n u
            ≡ (is_member s n u && not (user.addr == u)))
unfolding disconnect_user
disconnect_user-clears user s ts named same = (refl, cleared user s ts named same)
