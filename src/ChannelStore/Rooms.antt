-- ===== src/ChannelStore/Rooms.antt =====
-- An abstract view of channel_store.go, which names are channels and which users are in them, with the
-- specification of each operation on this view.
use sockchat.Prelude.{
  ℕ, String, List, ◌≡◌, refl, Bool, true, false, not, ◌&&◌, ◌||◌, none, some, arith, if◌then◌else◌,
  ◌==◌, ==_iff, nat_key, string_key,
}
use sockchat.Prelude.GoMap
use sockchat.Prelude.GoMap.{get-set}
use sockchat.Prelude.GoSet.{contains-insert, contains-delete}
use sockchat.Api.Errors.{
  err_empty_channel_name, err_channel_does_not_exist, err_channel_already_exists,
  err_user_already_in_channel, err_user_not_in_channel,
}
use sockchat.Api.Effects.{Result, ok, err}
use sockchat.ChannelStore.Cases.{
  created, joined, left, create_channel_cases, add_cases, remove_cases,
}
use sockchat.ChannelStore.{
  ChannelStore, Channel, UserRef, Task, channel_at, channel_exists, create_channel,
  add_user_to_channel, remove_user_from_channel, is_user_present_in, has_member, add_member,
  remove_member, new_channel,
}

-- The abstract state.
pub record Rooms : Type 0 where
  pub is_open : String → Bool
  pub inside : String → ℕ → Bool

-- Whether a user is in the channel of that name.
unfoldable pub is_member : {S : Type 0} → ChannelStore S → String → ℕ → Bool
is_member s name user = elim (channel_at name s) [ none ↦ false | some c ↦ has_member user c ]

abbrev pub view : {S : Type 0} → ChannelStore S → Rooms
view s = record { is_open = λ name. channel_exists name s; inside = is_member s }

-- The answers that the specification gives, and the room that it changes.
abbrev pub answer_create : Rooms → String → Result (Unit {0})
answer_create r name =
    if name == ""
    then err err_empty_channel_name
    else if r.is_open name
    then err err_channel_already_exists
    else ok tt

abbrev answer_add : Rooms → String → ℕ → Result (Unit {0})
answer_add r name user =
    if name == ""
    then err err_empty_channel_name
    else if not (r.is_open name)
    then err err_channel_does_not_exist
    else if r.inside name user
    then err err_user_already_in_channel
    else ok tt

abbrev pub answer_remove : Rooms → String → ℕ → Result (Unit {0})
answer_remove r name user =
    if name == ""
    then err err_empty_channel_name
    else if not (r.is_open name)
    then err err_channel_does_not_exist
    else if r.inside name user
    then ok tt
    else err err_user_not_in_channel

abbrev pub is_ok : {A : Type 0} → Result A → Bool
is_ok (ok _) = true
is_ok (err _) = false

-- The view at a name with and without a channel.
module _ {S : Type 0} (s : ChannelStore S) (name : String) where
  pub exists_at : {c : Channel} → channel_at name s ≡ some c → channel_exists name s ≡ true
  unfolding channel_exists
  exists_at m = ground arith

  pub exists_nowhere : channel_at name s ≡ none → channel_exists name s ≡ false
  unfolding channel_exists
  exists_nowhere m = ground arith

  pub member_at :
      {c : Channel} (u : ℕ) → channel_at name s ≡ some c → is_member s name u ≡ has_member u c
  unfolding is_member
  member_at u m = ground arith

  pub member_nowhere : (u : ℕ) → channel_exists name s ≡ false → is_member s name u ≡ false
  unfolding is_member channel_exists
  member_nowhere u m = ground arith

-- The view depends on the channels alone.
module _ {S : Type 0} (s t : ChannelStore S) (same : t.channels ≡ s.channels) where
  pub member_of_channels : (n : String) (u : ℕ) → is_member t n u ≡ is_member s n u
  unfolding is_member
  member_of_channels n u = ground arith

  pub exists_of_channels : (n : String) → channel_exists n t ≡ channel_exists n s
  unfolding channel_exists
  exists_of_channels n = ground arith

new-empty : (u : ℕ) → has_member u new_channel ≡ false
unfolding has_member new_channel
new-empty u = refl

pub has-add : (u v : ℕ) (c : Channel) → has_member v (add_member u c) ≡ (u == v || has_member v c)
unfolding has_member add_member
has-add u v c = ground (arith, contains-insert u v c.members)

pub has-remove :
    (u v : ℕ) (c : Channel) → has_member v (remove_member u c) ≡ (has_member v c && not (u == v))
unfolding has_member remove_member
has-remove u v c = ground (arith, contains-delete u v c.members)

-- What a write at a name does to the view.
module _ {S : Type 0} (s : ChannelStore S) (name : String) (c : Channel) (tasks : List Task) where
  abbrev pub written : ChannelStore S
  written = record s { channels = GoMap.set name c s.channels; spawned = tasks }

  exists-written : (n : String) → channel_exists n written ≡ (name == n || channel_exists n s)
  unfolding channel_exists
  exists-written n = ground (arith, get-set name n c s.channels)

  pub member-written :
      (n : String) (u : ℕ)
      → is_member written n u ≡ (if name == n then has_member u c else is_member s n u)
  unfolding is_member
  member-written n u = ground (arith, get-set name n c s.channels)

  -- At the name itself, if it was a channel.
  pub exists-rewritten :
      (d : Channel)
      → channel_at name s ≡ some d
      → (n : String) → channel_exists n written ≡ channel_exists n s
  unfolding channel_exists
  exists-rewritten d at n = ground (arith, get-set name n c s.channels, ==_iff name n)

abbrev pub Outcome : Type 0 → Type 0
Outcome S = Result (Unit {0}) × ChannelStore S

module _ {S : Type 0} (s : ChannelStore S) (name : String) where
  -- What a call that began at `s` has done to the view, by the specification.
  abbrev pub CreateRefines : Outcome S → Type 0
  CreateRefines (r, t) =
      (r ≡ answer_create (view s) name)
      × ((n : String) → channel_exists n t ≡ (is_ok r && name == n || channel_exists n s))
      × ((n : String) (u : ℕ) → is_member t n u ≡ is_member s n u)

  abbrev pub AddRefines : ℕ → Outcome S → Type 0
  AddRefines user (r, t) =
      (r ≡ answer_add (view s) name user)
      × ((n : String) → channel_exists n t ≡ channel_exists n s)
      × ((n : String) (u : ℕ)
          → is_member t n u ≡ (is_ok r && name == n && user == u || is_member s n u))

  abbrev pub RemoveRefines : ℕ → Outcome S → Type 0
  RemoveRefines user (r, t) =
      (r ≡ answer_remove (view s) name user)
      × ((n : String) → channel_exists n t ≡ channel_exists n s)
      × ((n : String) (u : ℕ)
          → is_member t n u ≡ (is_member s n u && not (is_ok r && name == n && user == u)))

  -- An empty name and a name in use are refused with their errors, and no other. The name is a
  -- channel afterwards exactly if it was one or the call succeeded, every other name is one as
  -- before, and no membership changes: a new channel is empty.
  pub create_channel-refines : CreateRefines (create_channel name s)
  create_channel-refines =
      create_channel_cases CreateRefines name s
        (λ e. (ground arith, λ n. ground arith, λ n u. refl))
        (λ e t. (ground arith, λ n. ground arith, λ n u. refl))
        (λ e f. (ground arith, exists-written s name new_channel s.spawned, λ n u. unchanged f n u))
    where
      unchanged :
          channel_exists name s ≡ false
          → (n : String) (u : ℕ) → is_member (created name s) n u ≡ is_member s n u
      unchanged f n u = ground (
        arith,
        member-written s name new_channel s.spawned n u,
        ==_iff name n,
        member_nowhere s name u f,
        new-empty u,
      )

  module _ (user : UserRef) where
    -- Joining answers by the specification: an empty name, a name that is no channel, and a channel
    -- that the user is in are refused with their errors. The channels stay, and afterwards exactly
    -- this user is in exactly this channel besides the members of before, if the call succeeded.
    pub add-refines : AddRefines user.addr (add_user_to_channel name user s)
    add-refines =
        add_cases (AddRefines user.addr) name user s (λ e. (ground arith, λ n. refl, λ n u. refl))
          (λ e m. (ground (arith, exists_nowhere s name m), λ n. refl, λ n u. refl))
          (λ c e m i. (
            ground (arith, exists_at s name m, member_at s name user.addr m),
            λ n. refl,
            λ n u. refl,
          ))
          (λ c e m o. (
            ground (arith, exists_at s name m, member_at s name user.addr m),
            exists-rewritten s name (add_member user.addr c) _ c m,
            λ n u. ground (
              arith,
              member-written s name (add_member user.addr c) (joined name user c s).spawned n u,
              has-add user.addr u c,
              ==_iff name n,
              member_at s name u m,
            ),
          ))

    -- Leaving answers by the specification: an empty name, a name that is no channel, and a channel
    -- that the user is not in are refused with their errors. The channels stay, and afterwards exactly
    -- this user has left exactly this channel, if the call succeeded.
    pub remove-refines : RemoveRefines user.addr (remove_user_from_channel name user s)
    remove-refines =
        remove_cases (RemoveRefines user.addr) name user s
          (λ e. (ground arith, λ n. refl, λ n u. ground arith))
          (λ e m. (ground (arith, exists_nowhere s name m), λ n. refl, λ n u. ground arith))
          (λ c e m i. (
            ground (arith, exists_at s name m, member_at s name user.addr m),
            λ n. refl,
            λ n u. ground arith,
          ))
          (λ c e m o. (
            ground (arith, exists_at s name m, member_at s name user.addr m),
            exists-rewritten s name (remove_member user.addr c) _ c m,
            λ n u. ground (
              arith,
              member-written s name (remove_member user.addr c) (left name user c s).spawned n u,
              has-remove user.addr u c,
              ==_iff name n,
              member_at s name u m,
            ),
          ))

-- `IsUserPresentIn` answers whether the user is a member, and no for the empty name.
pub present-member :
    {S : Type 0} (user : UserRef) (name : String) (s : ChannelStore S)
    → is_user_present_in user name s ≡ (not (name == "") && is_member s name user.addr)
unfolding is_user_present_in is_member
present-member user name s = ground arith
