-- ===== src/Services/Messaging/Requests.antt =====
-- services/messaging.go beside user_connections.go: what the session hands to a user's handler.
use sockchat.Prelude.{
  String, ◌≡◌, ◌⊎◌, inl, inr, refl, sym, subst, true, ◌||◌, arith, ◌==◌, ==_iff, string_key,
  Bool-cases,
}
use sockchat.Api.Effects.{Result, ok, err}
use sockchat.Api.Errors.{Error}
use sockchat.Api.Structs.{
  ℤ, ChannelRequest, SendMessageRequest, create_action, join_action, leave_action,
  send_message_action,
}
use sockchat.Api.WsMessages.{SocketMessage}
use sockchat.Api.Serialization.{unmarshal_channel_request, unmarshal_message_request}
use sockchat.ChannelStore.{MessageStore, UserRef}
use sockchat.Users.{
  ConnectedUsersPool, RequestPayload, channel_request, send_message_request, replied, make_request,
  handle_create, handle_join, handle_leave, handle_send_message,
}
use sockchat.Services.Messaging.{parse_websocket_message}

channel_cases :
    (r : Result ChannelRequest) → ((x : ChannelRequest) × (r ≡ ok x)) ⊎ ((e : Error) × (r ≡ err e))
channel_cases (ok x) = inl (x, refl)
channel_cases (err e) = inr (e, refl)

message_cases :
    (r : Result SendMessageRequest)
    → ((x : SendMessageRequest) × (r ≡ ok x)) ⊎ ((e : Error) × (r ≡ err e))
message_cases (ok x) = inl (x, refl)
message_cases (err e) = inr (e, refl)

-- What a parsed message is: a channel request under one of three actions, or a message to send.
abbrev IsServed : String → RequestPayload → Type 0
IsServed action (channel_request _) =
    (action ≡ create_action) ⊎ ((action ≡ join_action) ⊎ (action ≡ leave_action))
IsServed action (send_message_request _) = action ≡ send_message_action

channel_actions :
    (a : String)
    → (a == create_action || (a == join_action || a == leave_action)) ≡ true
    → (a ≡ create_action) ⊎ ((a ≡ join_action) ⊎ (a ≡ leave_action))
channel_actions a h = elim (Bool-cases (a == create_action)) [
  | inl c ↦ inl ((==_iff a create_action).0 c)
  | inr c ↦ elim (Bool-cases (a == join_action)) [
    | inl j ↦ inr (inl ((==_iff a join_action).0 j))
    | inr j ↦ inr (inr ((==_iff a leave_action).0 (ground arith)))
  ]
]

parsed-IsServed :
    (m : SocketMessage) (req : RequestPayload)
    → parse_websocket_message m ≡ ok req
    → IsServed m.action req
unfolding parse_websocket_message
parsed-IsServed m req h =
    elim (Bool-cases
      (m.action == create_action || (m.action == join_action || m.action == leave_action))) [
        | inl c ↦ elim (channel_cases (unmarshal_channel_request m.payload)) [
          | inl (x, e) ↦
              let same : channel_request x ≡ req = ground arith in
              subst (IsServed m.action) same (channel_actions m.action c)
          | inr (x, e) ↦ absurd (ground arith)
        ]
        | inr c ↦ elim (message_cases (unmarshal_message_request m.payload)) [
          | inl (x, e) ↦
              let sends : m.action ≡ send_message_action =
                ground (arith, ==_iff m.action send_message_action) in
              let same : send_message_request x ≡ req = ground arith in
              subst (IsServed m.action) same sends
          | inr (x, e) ↦ absurd (ground arith)
        ]
      ]

module _ {S : Type 0} (store : MessageStore S) (u : UserRef) (now : ℤ)
    (p : ConnectedUsersPool S) where
  abbrev Answered : String → RequestPayload → Type 0
  Answered action req =
      (r : Result (Unit {0})) × ((make_request store u action req now p).0 ≡ replied r)

  served-Answered :
      (action : String) (req : RequestPayload) → IsServed action req → Answered action req
  unfolding make_request
  served-Answered action (channel_request r) (inl h) =
      subst (λ a. Answered a (channel_request r)) (sym h) ((handle_create u r p).0, refl)
  served-Answered action (channel_request r) (inr (inl h)) =
      subst (λ a. Answered a (channel_request r)) (sym h) ((handle_join u r p).0, refl)
  served-Answered action (channel_request r) (inr (inr h)) =
      subst (λ a. Answered a (channel_request r)) (sym h) ((handle_leave u r p).0, refl)
  served-Answered action (send_message_request r) h =
      subst (λ a. Answered a (send_message_request r)) (sym h)
        ((handle_send_message store u r now p).0, refl)

  -- Whatever the session accepts as a request is answered by the handler: the handler's loop has a
  -- case for its action, so the session does not wait for an answer that never comes, and the payload
  -- has the type that the case asserts, so the handler does not panic.
  pub parsed-Answered :
      (m : SocketMessage) (req : RequestPayload)
      → parse_websocket_message m ≡ ok req
      → Answered m.action req
  parsed-Answered m req h = served-Answered m.action req (parsed-IsServed m req h)
