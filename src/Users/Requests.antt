-- ===== src/Users/Requests.antt =====
-- user_connections.go: what the requests that a handler serves do, and what they answer.
use sockchat.Prelude.{
  ℕ, String, ◌≡◌, refl, sym, ap, ◌∙◌, Bool, not, ◌&&◌, ◌||◌, [], ◌∷◌, ◌++◌, arith, ◌==◌, ==_refl,
  if◌then◌else◌, nat_key, string_key, inl, inr, subst,
}
use sockchat.Api.Errors.{Error, err_user_not_in_channel, err_message_not_sent}
use sockchat.Api.Effects.{Result, ok, err}
use sockchat.Api.Structs.{
  ℤ, MessageEvent, ChannelRequest, SendMessageRequest, user_left_channel_event,
  you_left_channel_event, new_message_event,
}
use sockchat.Api.WsMessages.{new_socket_message, message_event}
use sockchat.ChannelStore.{
  ChannelStore, MessageStore, UserRef, Task, create_channel, add_user_to_channel,
  remove_user_from_channel, message_channel, channel_exists, announcement,
}
use sockchat.ChannelStore.Cases.{result_cases}
use sockchat.ChannelStore.Rooms.{
  view, is_member, is_ok, answer_create, CreateRefines, create_channel-refines, AddRefines,
  add-refines, RemoveRefines, remove-refines, answer_remove, member_nowhere, present-member,
  member_of_channels,
}
use sockchat.ChannelStore.Messages.{Delivers, message_channel-Delivers, Announces, remove-Announces}
use sockchat.Users.{ConnectedUsersPool, handle_create, handle_leave, handle_send_message}

module _ {S : Type 0} (p : ConnectedUsersPool S) (u : UserRef) (r : ChannelRequest) where
  -- The channel store after a request, and before it.
  abbrev pub before : ChannelStore S
  before = p.channel_store

  abbrev pub CreateAnswers : Result (Unit {0}) × ConnectedUsersPool S → Type 0
  CreateAnswers (answer, q) =
      (answer ≡ answer_create (view before) r.name)
      × ((n : String)
          → channel_exists n q.channel_store
            ≡ (is_ok answer && r.name == n || channel_exists n before))
      × ((n : String) (v : ℕ)
          → is_member q.channel_store n v
            ≡ (is_ok answer && r.name == n && u.addr == v || is_member before n v))

  create_fails :
      (e : Error) (s : ChannelStore S)
      → create_channel r.name before ≡ (err e, s)
      → handle_create u r p ≡ (err e, record p { channel_store = s })
  unfolding handle_create
  create_fails e s c = ground arith

  create_joins :
      (x : Unit {0}) (s : ChannelStore S)
      → create_channel r.name before ≡ (ok x, s)
      → handle_create u r p ≡ (
          let (answer, t) = add_user_to_channel r.name u s in
          (answer, record p { channel_store = t }))
  unfolding handle_create
  create_joins x s c = ground arith

  -- A create request is refused for an empty name and for a name in use, and otherwise makes the
  -- channel with its creator as the one member: the join that follows the creation never fails.
  pub handle_create-answers : CreateAnswers (handle_create u r p)
  handle_create-answers = elim (result_cases (create_channel r.name before)) [
    | inl (e, s, c) ↦
        let done : CreateRefines before r.name (err e, s) =
          subst (CreateRefines before r.name) c (create_channel-refines before r.name) in
        subst CreateAnswers (sym (create_fails e s c)) (done.0, λ n. done.1 n, λ n v. done.2 n v)
    | inr (x, s, c) ↦
        let done : CreateRefines before r.name (ok x, s) =
          subst (CreateRefines before r.name) c (create_channel-refines before r.name) in
        let joins : AddRefines s r.name u.addr (add_user_to_channel r.name u s) =
          add-refines s r.name u in
        let answers : (add_user_to_channel r.name u s).0 ≡ ok tt = ground (
          arith,
          joins.0,
          done.0,
          done.1 r.name,
          ==_refl r.name,
          done.2 r.name u.addr,
          member_nowhere before r.name u.addr,
        ) in
        subst CreateAnswers (sym (create_joins x s c)) (
          answers ∙ done.0,
          λ n. ground (arith, answers, joins.1 n, done.1 n),
          λ n v. ground (arith, answers, joins.2 n v, done.2 n v),
        )
  ]

-- What a leave request has done: besides the announcement to the members that are left, a goroutine
-- tells the user itself, and only if it has left.
module _ {S : Type 0} (p : ConnectedUsersPool S) (u : UserRef) (r : ChannelRequest) where
  abbrev pub LeaveAnswers : Result (Unit {0}) × ConnectedUsersPool S → Type 0
  LeaveAnswers (answer, q) =
      let s = p.channel_store in
      let (a, t) = remove_user_from_channel r.name u s in
      (answer ≡ answer_remove (view s) r.name u.addr)
      × ((n : String) (v : ℕ)
          → is_member q.channel_store n v
            ≡ (is_member s n v && not (is_ok answer && r.name == n && u.addr == v)))
      × (q.channel_store.spawned ≡ (
          if is_ok answer
          then t.spawned ++ Task.write u.addr (announcement you_left_channel_event r.name u) ∷ []
          else s.spawned))

  leave_fails :
      (e : Error) (s : ChannelStore S)
      → remove_user_from_channel r.name u p.channel_store ≡ (err e, s)
      → handle_leave u r p ≡ (err e, record p { channel_store = s })
  unfolding handle_leave
  leave_fails e s c = ground arith

  leave_tells :
      (x : Unit {0}) (s : ChannelStore S)
      → remove_user_from_channel r.name u p.channel_store ≡ (ok x, s)
      → handle_leave u r p ≡ (
        ok tt,
        record p {
          channel_store = record s {
            spawned =
                s.spawned ++ Task.write u.addr (announcement you_left_channel_event r.name u) ∷ [];
          };
        },
      )
  unfolding handle_leave
  leave_tells x s c = ground arith

  -- A leave request answers as the channel store does. If it succeeds the user is out of the channel,
  -- nobody else's membership changes, and the user is told besides those who are left; if it fails
  -- nobody is told anything.
  pub handle_leave-answers : LeaveAnswers (handle_leave u r p)
  handle_leave-answers =
      let s₀ = p.channel_store in
      let whole : RemoveRefines s₀ r.name u.addr (remove_user_from_channel r.name u s₀) =
        remove-refines s₀ r.name u in
      elim (result_cases (remove_user_from_channel r.name u s₀)) [
        | inl (e, s, c) ↦
            let done : RemoveRefines s₀ r.name u.addr (err e, s) =
              subst (RemoveRefines s₀ r.name u.addr) c whole in
            let still : s ≡ s₀ =
              subst (Announces s₀ r.name (announcement user_left_channel_event r.name u)) c
                (remove-Announces s₀ r.name u) in
            subst LeaveAnswers (sym (leave_fails e s c))
              (done.0, λ n v. done.2 n v, ap (λ (x : ChannelStore S). x.spawned) still)
        | inr (x, s, c) ↦
            let done : RemoveRefines s₀ r.name u.addr (ok x, s) =
              subst (RemoveRefines s₀ r.name u.addr) c whole in
            subst LeaveAnswers (sym (leave_tells x s c))
              (done.0, λ n v. member_of_channels s _ refl n v ∙ done.2 n v, ground (arith, c))
      ]

module _ {S : Type 0} (store : MessageStore S) (p : ConnectedUsersPool S) (u : UserRef)
    (r : SendMessageRequest) (now : ℤ) where
  -- The message that a send-message request stands for: its author is the user's own nick.
  abbrev pub authored : MessageEvent
  authored = record { text = r.text; channel = r.channel; author = u.nick; timestamp = now }

  abbrev may_send : Bool
  may_send = not (r.channel == "") && is_member p.channel_store r.channel u.addr

  abbrev pub indexed : Result String × S
  indexed = store.index_message authored p.channel_store.message_store

  abbrev pub SendAnswers : Result (Unit {0}) × ConnectedUsersPool S → Type 0
  SendAnswers (answer, q) =
      let s = p.channel_store in
      let t = q.channel_store in
      (answer ≡ (
        if may_send
        then if is_ok indexed.0 then ok tt else err err_message_not_sent
        else err err_user_not_in_channel))
      × (t.channels ≡ s.channels)
      × (t.message_store ≡ (if may_send then indexed.1 else s.message_store))
      × (t.spawned ≡ (
          if may_send && is_ok indexed.0
          then s.spawned
            ++ Task.message_members r.channel
                (new_socket_message new_message_event (message_event authored))
              ∷ []
          else s.spawned))

  -- Only a member of a channel can send a message to it, and only in its own name: the message that
  -- is stored, and then sent on by one goroutine, has the user's nick and the server's time. For
  -- anybody else, and for an empty name, the request is refused with `ErrUserNotInChannel` and the
  -- message store does not see it. If the message store fails the request is refused with
  -- `ErrMessageNotSent`, and nothing is sent on.
  pub handle_send_message-answers : SendAnswers (handle_send_message store u r now p)
  unfolding handle_send_message
  handle_send_message-answers =
      let s = p.channel_store in
      let done : Delivers store authored s (message_channel store authored s) =
        message_channel-Delivers store authored s in
      let present = present-member u r.channel s in
      let open_at = member_nowhere s r.channel u.addr in
      (
        ground (arith, done.0, present, open_at),
        ground (arith, done.1),
        ground (arith, done.2, present, open_at),
        ground (arith, done.0, done.3, present, open_at),
      )
