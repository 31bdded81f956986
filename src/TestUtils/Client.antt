-- ===== src/TestUtils/Client.antt =====
-- test_utils/websocket.go: the tests' websocket client.
use Prim.Native.String as Text
use sockchat.Prelude.{
  ℕ, zero, suc, ◌≤◌, ◌<◌, String, ◌≡◌, refl, Bool, false, List, [], ◌∷◌, ◌++◌, if◌then◌else◌, ◌==◌,
  string_key, nat_key, arith, leb, ap, ◌∙◌, ◌&&◌, ◌||◌, ◌+◌, length, Bool-cases, inl, inr,
}
use sockchat.Api.Json.{malformed}
use sockchat.Api.WsMessages.{SocketMessage}
use sockchat.Services.Grpc.{trim_prefix}

unfoldable get_ws_url : String → String
unfolding trim_prefix
get_ws_url server_url = Text.◌++◌ "ws" (Text.◌++◌ (trim_prefix server_url "http") "/ws")

-- The empty message, of which nothing has been decoded.
abbrev pub empty_message : SocketMessage
empty_message = record { action = ""; payload = malformed }

-- The first `n` turns of the loop that reads, with the messages that arrive before the connection
-- fails: what is put on the channel. After a failed read the loop goes on with an empty message.
unfoldable read_incoming_messages : ℕ → List SocketMessage → List SocketMessage
read_incoming_messages zero arriving = []
read_incoming_messages (suc n) [] = empty_message ∷ read_incoming_messages n []
read_incoming_messages (suc n) (m ∷ ms) = m ∷ read_incoming_messages n ms

-- Whether the assertion holds, with the times at which messages come off the channel, in their order.
unfoldable assert_event_received_within : String → ℕ → List (ℕ × SocketMessage) → Bool
assert_event_received_within event_action d [] = false
assert_event_received_within event_action d ((time, m) ∷ ms) =
    let rest = assert_event_received_within event_action d ms in
    if m.action == event_action then leb time d else rest

-- The reading loop never ends: every turn puts a message on the channel, and from the failure of the
-- connection on these messages are empty.
read_incoming_messages-goes_on :
    (n : ℕ) (arriving : List SocketMessage)
    → (length (read_incoming_messages n arriving) ≡ n)
      × (read_incoming_messages (length arriving + n) arriving
          ≡ arriving ++ read_incoming_messages n [])
unfolding read_incoming_messages
read_incoming_messages-goes_on n arriving = (one_each n arriving, passes_on n arriving)
  where
    one_each :
        (n : ℕ) (arriving : List SocketMessage) → length (read_incoming_messages n arriving) ≡ n
    one_each zero arriving = refl
    one_each (suc n) [] = ap suc (one_each n [])
    one_each (suc n) (m ∷ ms) = ap suc (one_each n ms)

    passes_on :
        (n : ℕ) (arriving : List SocketMessage)
        → read_incoming_messages (length arriving + n) arriving
          ≡ arriving ++ read_incoming_messages n []
    passes_on n [] = ap (λ k. read_incoming_messages k []) (omega arith)
    passes_on n (m ∷ ms) =
        let turns : suc (length ms) + n ≡ suc (length ms + n) = omega arith in
        ap (λ k. read_incoming_messages k (m ∷ ms)) turns ∙ ap (λ xs. m ∷ xs) (passes_on n ms)

-- The messages come off the channel one after the other.
abbrev IsTimed : ℕ → List (ℕ × SocketMessage) → Type 0
IsTimed start [] = Unit
IsTimed start ((time, m) ∷ ms) = (start ≤ time) × IsTimed time ms

abbrev in_time : String → ℕ → List (ℕ × SocketMessage) → Bool
in_time event_action d [] = false
in_time event_action d ((time, m) ∷ ms) =
    (m.action == event_action && leb time d) || in_time event_action d ms

too_late :
    (event_action : String) (d start : ℕ) (ms : List (ℕ × SocketMessage))
    → d < start
    → IsTimed start ms
    → in_time event_action d ms ≡ false
too_late event_action d start [] l t = refl
too_late event_action d start ((time, m) ∷ ms) l t =
    ground (arith, l, t.0, too_late event_action d time ms (omega (arith, l, t.0)) t.1)

-- The assertion looks at the first event of its name only, and this tells whether any comes in time.
assert_event_received_within-in_time :
    (event_action : String) (d start : ℕ) (ms : List (ℕ × SocketMessage))
    → IsTimed start ms
    → assert_event_received_within event_action d ms ≡ in_time event_action d ms
unfolding assert_event_received_within
assert_event_received_within-in_time event_action d start [] t = refl
assert_event_received_within-in_time event_action d start ((time, m) ∷ ms) t =
    elim (Bool-cases (leb time d)) [
      | inl early ↦
          ground (arith, early, assert_event_received_within-in_time event_action d time ms t.1)
      | inr late ↦ ground (
        arith,
        late,
        too_late event_action d time ms (ground (arith, late)) t.1,
        assert_event_received_within-in_time event_action d time ms t.1,
      )
    ]
