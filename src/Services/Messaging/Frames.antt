-- ===== src/Services/Messaging/Frames.antt =====
-- user_connections.go: what a request that a handler serves leaves of the pool.
use sockchat.Prelude.{ℕ, String, ◌≡◌, inl, inr, refl, List, arith, string_key, nat_key}
use sockchat.Api.Structs.{ℤ, ChannelRequest, SendMessageRequest}
use sockchat.Api.WsMessages.{SocketMessage}
use sockchat.ChannelStore.{
  ChannelStore, MessageStore, UserRef, create_channel, remove_user_from_channel,
}
use sockchat.ChannelStore.Cases.{result_cases}
use sockchat.Users.{
  ConnectedUsersPool, RequestPayload, get_handler, make_request, handle_request, handle_create,
  handle_leave, handle_join, handle_send_message, channel_request, send_message_request,
}
use sockchat.Users.Online.{Online, Tracks}

-- The pool after a request: only its channel store is another.
module _ {S : Type 0} where
  abbrev Frames : ConnectedUsersPool S → ConnectedUsersPool S → Type 0
  Frames p q = q ≡ record p { channel_store = q.channel_store }

  handle_create-Frames :
      (u : UserRef) (r : ChannelRequest) (p : ConnectedUsersPool S)
      → Frames p (handle_create u r p).1
  unfolding handle_create
  handle_create-Frames u r p = elim (result_cases (create_channel r.name p.channel_store)) [
    | inl (e, s, c) ↦ ground arith
    | inr (x, s, c) ↦ ground arith
  ]

  handle_leave-Frames :
      (u : UserRef) (r : ChannelRequest) (p : ConnectedUsersPool S)
      → Frames p (handle_leave u r p).1
  unfolding handle_leave
  handle_leave-Frames u r p =
      elim (result_cases (remove_user_from_channel r.name u p.channel_store)) [
        | inl (e, s, c) ↦ ground arith
        | inr (x, s, c) ↦ ground arith
      ]

  handle_join-Frames :
      (u : UserRef) (r : ChannelRequest) (p : ConnectedUsersPool S) → Frames p (handle_join u r p).1
  unfolding handle_join
  handle_join-Frames u r p = refl

  handle_send_message-Frames :
      (store : MessageStore S) (u : UserRef) (r : SendMessageRequest) (now : ℤ)
      (p : ConnectedUsersPool S)
      → Frames p (handle_send_message store u r now p).1
  unfolding handle_send_message
  handle_send_message-Frames store u r now p = ground arith

  pub handle_request-Frames :
      (store : MessageStore S) (u : UserRef) (action : String) (payload : RequestPayload) (now : ℤ)
      (p : ConnectedUsersPool S)
      → Frames p (make_request store u action payload now p).1
  unfolding make_request handle_request
  handle_request-Frames store u action (channel_request r) now p =
      ground
        (arith, handle_create-Frames u r p, handle_join-Frames u r p, handle_leave-Frames u r p)
  handle_request-Frames store u action (send_message_request r) now p =
      ground (arith, handle_send_message-Frames store u r now p)

  -- What is tracked is not in the channel store, nor in what has been written.
  pub moved-Tracks :
      (p : ConnectedUsersPool S) (online : Online) (c : ChannelStore S)
      (w : List (ℕ × SocketMessage))
      → Tracks p online
      → Tracks (record p { channel_store = c; sent = w }) online
  unfolding get_handler
  moved-Tracks p online c w t = record {
    manages = λ nick h e.
        let (object, m) = t.manages nick h e in
        (
          object,
          record {
            stored = m.stored;
            named = m.named;
            owned = m.owned;
            distinct = m.distinct;
            used = m.used;
            exact = m.exact;
          },
        );
    absent = t.absent;
    known = t.known;
    fresh = t.fresh;
  }

  pub same_fields :
      (p q : ConnectedUsersPool S)
      → q.handlers ≡ p.handlers
      → q.connections ≡ p.connections
      → q.heap ≡ p.heap
      → q.next_addr ≡ p.next_addr
      → record p { channel_store = q.channel_store; sent = q.sent } ≡ q
  same_fields p q h c o a = ground arith
