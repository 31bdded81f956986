-- ===== src/Services/Web/Routes.antt =====
-- services/web.go and services/messaging.go: the routes of the HTTP API and of the websocket, on the one
-- router that webserver/main.go makes.
use sockchat.Prelude.{
  String, ◌≡◌, ◌⊎◌, Bool, Option, none, some, not, [], ◌==◌, string_key, if◌then◌else◌,
}
use sockchat.Api.Effects.{Result, Attempt}
use sockchat.Api.Structs.{ChannelHistory}
use sockchat.ChannelStore.{ChannelStore}
use sockchat.Services.Interfaces.{ProfileStore}
use sockchat.Services.Web.{
  Request, Exchange, Outcome, returns, Handler, write_json_http_response, page_not_found, moved_to,
  register_handler, get_profile_handler, edit_profile_handler, get_channel_history_handler,
  auth_middleware,
}
use sockchat.Services.Web.Guards.{Guards}

module _ {S P : Type 0} (profiles : ProfileStore P) (decode_string : String → Option String)
    (chat : ChannelStore S) (find_messages : String → String → Attempt (Result ChannelHistory))
    (serve_session : Request → Handler P) (clean_path : String → String) where
  -- What net/http does for a path that has no route.
  unfoldable not_found : Handler P
  unfolding write_json_http_response
  not_found = write_json_http_response 404 page_not_found

  -- What net/http does for a path that is not clean, before it looks for a route, if the method is not
  -- CONNECT: it redirects to the clean one.
  unfoldable moved_permanently : String → Handler P
  unfolding write_json_http_response
  moved_permanently path = write_json_http_response 301 (moved_to path)

  -- The router after the `HandleRequests` of both `WebAPI` and `MessagingAPI`.
  unfoldable pub serve_http : String → Request → Handler P
  unfolding register_handler auth_middleware edit_profile_handler get_channel_history_handler
      get_profile_handler not_found moved_permanently
  serve_http path r =
      if not (clean_path path == path)
      then moved_permanently (clean_path path)
      else if path == "/ws"
      then serve_session r
      else if path == "/register"
      then register_handler profiles r
      else if path == "/edit_profile"
      then auth_middleware profiles decode_string (edit_profile_handler profiles decode_string) r
      else if path == "/history"
      then auth_middleware profiles decode_string
          (get_channel_history_handler profiles chat find_messages) r
      else if path == "/profile"
      then auth_middleware profiles decode_string (get_profile_handler profiles) r
      else not_found

  module _ (r : Request) (p : P) where
    abbrev fresh : Exchange P
    fresh = record { status = none; written = []; profiles = p }

    -- The request is answered by 401, or by 404 or 301 without the profile store being asked.
    abbrev Refused : P → Outcome × Exchange P → Type 0
    Refused q (o, x) =
        (o ≡ returns)
        × (((x.status ≡ some 401) × (x.profiles ≡ q))
            ⊎ (((x.status ≡ some 404) ⊎ (x.status ≡ some 301)) × (x.profiles ≡ p)))

    -- The routes behind the middleware, by which of them the path is.
    abbrev protected : Bool → Bool → Bool → Handler P
    protected edits reads_history reads =
        if edits
        then auth_middleware profiles decode_string (edit_profile_handler profiles decode_string) r
        else if reads_history
        then auth_middleware profiles decode_string
            (get_channel_history_handler profiles chat find_messages) r
        else if reads
        then auth_middleware profiles decode_string (get_profile_handler profiles) r
        else not_found

    -- The routes that are open, before the protected ones, by which of them the path is.
    abbrev routed : Bool → Bool → Bool → String → Handler P
    routed is_unclean opens registers path =
        if is_unclean
        then moved_permanently (clean_path path)
        else if opens
        then serve_session r
        else if registers
        then register_handler profiles r
        else protected (path == "/edit_profile") (path == "/history") (path == "/profile")
