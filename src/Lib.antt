-- ===== src/Lib.antt =====
-- Sockchat, a chat server: users register over HTTP or gRPC, log in over a websocket, make, join and
-- leave channels, and send messages that the members of a channel get at all their connections.
--
-- The parts, and the files that model them:
--   api/ (errors.go, structs.go, web_messages.go, ws_messages.go, serialization.go, translation.go):
--     Api and its children. Api.Errors has the error values, Api.Structs and Api.Reports the
--     structures, Api.Json what is used of encoding/json, Api.Maps the maps that it decodes into, Api.WsMessages NewSocketMessage and
--     NewSocketError, Api.Serialization the Unmarshal functions, Api.Translation the functions to and
--     from gRPC's messages. Api.Effects has Go's error results and the methods that change a state.
--   channel_store.go: ChannelStore. Its state has the channels, the message store's state and the
--     goroutines that are spawned. CreateChannel, AddUserToChannel, RemoveUserFromChannel,
--     DisconnectUser, IsUserPresentIn, ChannelExists and MessageChannel are the functions of the same
--     names; run_task is a goroutine that is picked. Its children are named for what they prove: Rooms
--     against channels as sets of members, Goroutines and Interleavings for the order in which
--     goroutines run, Messages for who is told, Weights for how many goroutines can come of the ones that
--     are there. ChannelStore.Calls has calls of CreateChannel, AddUserToChannel and
--     RemoveUserFromChannel that overlap, in the way that Users.Calls has them.
--   user_connections.go: Users. The pool has the handlers by nick, the nicks by connection and the
--     handlers' data in a heap. AddConnection, RemoveConnection and GetHandler are the pool's; the
--     handler's loop HandleRequests is handle_request, one request at a time, with a function for each
--     case. Users.Online says which connections are open, and Tracks relates the pool to them; Connect,
--     Close and Histories are about that relation. Users.Races splits AddConnection after GetHandler.
--     Users.Calls has calls of AddConnection and RemoveConnection that overlap: a thread stands at a
--     critical section, and a scheduler picks the thread that runs its next one; its children are about
--     calls alone, whose connections a handler has, and connections that get lost. Users.Scheduling
--     runs the spawned goroutines in an order that a scheduler chooses, and Users.Delivery is about
--     what they write.
--   storage/user.go, storage/messages.go, storage/reports.go: Storage.Users, Storage.Messages with
--     Storage.Search, and Storage.Reports. MySQL's driver and Elasticsearch's client are parameters:
--     records of the calls that are made, with every kind of answer that the code tells apart.
--   user_profile.go: Profiles. The service has the store's and the cache's state, and the users that
--     goroutines are about to put into the cache. Profiles.Laws says what is relied on of the store, the
--     cache and bcrypt, and Profiles.Tables what storage/user.go relies on of MySQL.
--   services/messaging.go: Services.Messaging, a session as a loop over the messages that arrive, with
--     what the other sessions do to the pool in between.
--   services/authentication.go, services/core.go, services/web.go, services/grpc.go:
--     Services.Authentication, Services.Core, Services.Web and Services.Grpc. Services.Web.Routes is
--     the router and Services.Grpc.Calls the gRPC server with its interceptor; Services.Agreement
--     compares both APIs. Services.Server has all sessions at once, as a step relation: a connection
--     opens, a message arrives, a read fails, a goroutine runs, or another API is called.
--   webserver/main.go, webserver/redis.go, webserver/elasticsearch.go, and ResetUsersTable of
--     storage/user.go: Webserver. A start of the server is a sequence of steps that go on, exit or
--     panic (Webserver.Startup); Webserver.ElasticSearch is the check of Elasticsearch, and
--     Webserver.Main the check of Redis and main itself.
--   test_utils/test_doubles.go, test_utils/constants.go, test_utils/websocket.go: TestUtils, the
--     doubles as implementations of the interfaces, and the tests' client.
-- Prelude has the shared names, Go's maps as association lists and its sets as lists.
--
-- How the parts interact: the services call the profile service through the interface of
-- api/interfaces.go, the record ProfileStore of Services.Interfaces, which profile_service fills. A
-- session adds its connection to the pool and hands requests to its user's handler, which calls the
-- channel store, which calls the message store. Handlers and connections are known by their addresses,
-- so that the pool, the channels and a session may hold the same handler.
--
-- Bounds: an int64 in JSON is checked against 2^63, a duration stops at 2^63 - 1 nanoseconds, and an
-- int32 keeps 32 bits. A loop is a recursion over what it reads: a session's loop is over the messages
-- that arrive before a read fails, so it covers every finite run of a connection. Goroutines run on a
-- list of a scheduler's choices, of any length, and `pending` of ChannelStore.Weights says how many
-- choices are enough for none to be left.
--
-- Not modelled: the locks, whose critical sections are the steps of the model; the windows between two
-- sections of one call, but for AddConnection and RemoveConnection, and for CreateChannel,
-- AddUserToChannel and RemoveUserFromChannel; handlers that serve requests beside each other; the
-- goroutine of HandleRequests, and those that Write starts for its connections and waits for, which are
-- part of one step; contexts, and so that the goroutine which fills the cache may find its own
-- cancelled; the text of JSON, for which a JSON value stands; logging, but for the start of the
-- server; deadlines beyond the last timeout that is set; the tests' client where it dials and writes;
-- generated code. The random salt of bcrypt and the time are arguments. Base64, time.Parse,
-- mapstructure, and the cleaning of paths in net/http are parameters.
pub mod Prelude
pub mod Api
pub mod ChannelStore
pub mod Users
pub mod Webserver
pub mod Storage
pub mod Profiles
pub mod Services
pub mod TestUtils
