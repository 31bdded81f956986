-- ===== src/ChannelStore/Cases.antt =====
-- channel_store.go: the branches of each operation, as principles for what is said of a call.
use sockchat.Prelude.{
  String, ◌≡◌, refl, ◌⊎◌, subst, Bool-cases, Option-cases, true, false, none, some, ◌++◌, ◌==◌, inl,
  inr, string_key, arith, ◌∷◌, [],
}
use sockchat.Prelude.GoMap
use sockchat.Api.Errors.{
  Error, err_empty_channel_name, err_channel_does_not_exist, err_channel_already_exists,
  err_user_already_in_channel, err_user_not_in_channel, err_message_not_sent,
}
use sockchat.Api.Effects.{Result, ok, err}
use sockchat.Api.Structs.{
  user_joined_channel_event, user_left_channel_event, new_message_event, MessageEvent,
}
use sockchat.Api.WsMessages.{new_socket_message, message_event}
use sockchat.ChannelStore.{
  ChannelStore, Channel, UserRef, channel_at, channel_exists, get_channel, create_channel,
  add_user_to_channel, remove_user_from_channel, has_member, add_member, remove_member, new_channel,
  writes, announcement, MessageStore, Task, message_channel,
}

module _ {S : Type 0} where
  -- The store after a join and after a leave through a pointer to the channel.
  abbrev pub joined : String → UserRef → Channel → ChannelStore S → ChannelStore S
  joined name user c s = record s {
    channels = GoMap.set name (add_member user.addr c) s.channels;
    spawned =
        s.spawned
        ++ writes (announcement user_joined_channel_event name user) (add_member user.addr c);
  }

  abbrev pub left : String → UserRef → Channel → ChannelStore S → ChannelStore S
  left name user c s = record s {
    channels = GoMap.set name (remove_member user.addr c) s.channels;
    spawned =
        s.spawned
        ++ writes (announcement user_left_channel_event name user) (remove_member user.addr c);
  }

  abbrev pub created : String → ChannelStore S → ChannelStore S
  created name s = record s { channels = GoMap.set name new_channel s.channels }

  pub get_channel_cases {ℓ} :
      (P : Result Channel × ChannelStore S → Type ℓ) (name : String) (s : ChannelStore S)
      → ((name == "") ≡ true → P (err err_empty_channel_name, s))
      → ((name == "") ≡ false → channel_at name s ≡ none → P (err err_channel_does_not_exist, s))
      → ((c : Channel) → (name == "") ≡ false → channel_at name s ≡ some c → P (ok c, s))
      → P (get_channel name s)
  unfolding get_channel
  get_channel_cases P name s empty missing found = elim (Bool-cases (name == "")) [
    | inl e ↦ rw e (empty e)
    | inr e ↦ elim (Option-cases (channel_at name s)) [
      | inl m ↦ rw (e, m) (missing e m)
      | inr (c, m) ↦ rw (e, m) (found c e m)
    ]
  ]

  pub create_channel_cases {ℓ} :
      (P : Result (Unit {0}) × ChannelStore S → Type ℓ) (name : String) (s : ChannelStore S)
      → ((name == "") ≡ true → P (err err_empty_channel_name, s))
      → ((name == "") ≡ false
          → channel_exists name s ≡ true
          → P (err err_channel_already_exists, s))
      → ((name == "") ≡ false → channel_exists name s ≡ false → P (ok tt, created name s))
      → P (create_channel name s)
  unfolding create_channel
  create_channel_cases P name s empty taken fresh = elim (Bool-cases (name == "")) [
    | inl e ↦ rw e (empty e)
    | inr e ↦ elim (Bool-cases (channel_exists name s)) [
      | inl t ↦ rw (e, t) (taken e t)
      | inr f ↦ rw (e, f) (fresh e f)
    ]
  ]

  pub add_cases {ℓ} :
      (P : Result (Unit {0}) × ChannelStore S → Type ℓ) (name : String) (user : UserRef)
      (s : ChannelStore S)
      → ((name == "") ≡ true → P (err err_empty_channel_name, s))
      → ((name == "") ≡ false → channel_at name s ≡ none → P (err err_channel_does_not_exist, s))
      → ((c : Channel)
          → (name == "") ≡ false
          → channel_at name s ≡ some c
          → has_member user.addr c ≡ true
          → P (err err_user_already_in_channel, s))
      → ((c : Channel)
          → (name == "") ≡ false
          → channel_at name s ≡ some c
          → has_member user.addr c ≡ false
          → P (ok tt, joined name user c s))
      → P (add_user_to_channel name user s)
  unfolding add_user_to_channel
  add_cases P name user s empty missing inside outside = elim (Bool-cases (name == "")) [
    | inl e ↦ subst P (ground arith) (empty e)
    | inr e ↦ elim (Option-cases (channel_at name s)) [
      | inl m ↦ subst P (ground arith) (missing e m)
      | inr (c, m) ↦ elim (Bool-cases (has_member user.addr c)) [
        | inl h ↦ subst P (ground arith) (inside c e m h)
        | inr h ↦ subst P (ground arith) (outside c e m h)
      ]
    ]
  ]

  pub remove_cases {ℓ} :
      (P : Result (Unit {0}) × ChannelStore S → Type ℓ) (name : String) (user : UserRef)
      (s : ChannelStore S)
      → ((name == "") ≡ true → P (err err_empty_channel_name, s))
      → ((name == "") ≡ false → channel_at name s ≡ none → P (err err_channel_does_not_exist, s))
      → ((c : Channel)
          → (name == "") ≡ false
          → channel_at name s ≡ some c
          → has_member user.addr c ≡ false
          → P (err err_user_not_in_channel, s))
      → ((c : Channel)
          → (name == "") ≡ false
          → channel_at name s ≡ some c
          → has_member user.addr c ≡ true
          → P (ok tt, left name user c s))
      → P (remove_user_from_channel name user s)
  unfolding remove_user_from_channel
  remove_cases P name user s empty missing outside inside = elim (Bool-cases (name == "")) [
    | inl e ↦ subst P (ground arith) (empty e)
    | inr e ↦ elim (Option-cases (channel_at name s)) [
      | inl m ↦ subst P (ground arith) (missing e m)
      | inr (c, m) ↦ elim (Bool-cases (has_member user.addr c)) [
        | inl h ↦ subst P (ground arith) (inside c e m h)
        | inr h ↦ subst P (ground arith) (outside c e m h)
      ]
    ]
  ]

-- The two ways in which a call ends.
pub result_cases :
    {A S : Type 0} (o : Result A × S)
    → ((e : Error) × (s : S) × (o ≡ (err e, s))) ⊎ ((a : A) × (s : S) × (o ≡ (ok a, s)))
result_cases (err e, s) = inl (e, s, refl)
result_cases (ok a, s) = inr (a, s, refl)

module _ {S : Type 0} (store : MessageStore S) where
  -- The store after the message store has answered, without and with the goroutine that sends.
  abbrev kept_back : S → ChannelStore S → ChannelStore S
  kept_back kept s = record s { message_store = kept }

  abbrev pub sent_on : MessageEvent → S → ChannelStore S → ChannelStore S
  sent_on event kept s = record s {
    message_store = kept;
    spawned =
        s.spawned
        ++ Task.message_members event.channel
            (new_socket_message new_message_event (message_event event))
          ∷ [];
  }

  pub message_cases {ℓ} :
      (P : Result (Unit {0}) × ChannelStore S → Type ℓ) (event : MessageEvent) (s : ChannelStore S)
      → ((event.channel == "") ≡ true → P (err err_empty_channel_name, s))
      → ((event.channel == "") ≡ false
          → channel_at event.channel s ≡ none
          → P (err err_channel_does_not_exist, s))
      → ((c : Channel) (e : Error) (kept : S)
          → (event.channel == "") ≡ false
          → channel_at event.channel s ≡ some c
          → store.index_message event s.message_store ≡ (err e, kept)
          → P (err err_message_not_sent, kept_back kept s))
      → ((c : Channel) (id : String) (kept : S)
          → (event.channel == "") ≡ false
          → channel_at event.channel s ≡ some c
          → store.index_message event s.message_store ≡ (ok id, kept)
          → P (ok tt, sent_on event kept s))
      → P (message_channel store event s)
  unfolding message_channel
  message_cases P event s empty missing failed sent = elim (Bool-cases (event.channel == "")) [
    | inl h ↦ subst P (ground arith) (empty h)
    | inr h ↦ elim (Option-cases (channel_at event.channel s)) [
      | inl m ↦ subst P (ground arith) (missing h m)
      | inr (c, m) ↦ elim (result_cases (store.index_message event s.message_store)) [
        | inl (e, kept, i) ↦ subst P (ground arith) (failed c e kept h m i)
        | inr (id, kept, i) ↦ subst P (ground arith) (sent c id kept h m i)
      ]
    ]
  ]
