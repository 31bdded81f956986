-- ===== src/Services/Core.antt =====
-- services/core.go: what both APIs do.
use sockchat.Prelude.{String, not, if◌then◌else◌, ◌==◌, string_key}
use sockchat.Api.Errors.{err_nick_required, err_password_required, err_channel_not_found}
use sockchat.Api.Effects.{Result, err, Attempt, completes, Action, return_if, ◌>>◌, pure}
use sockchat.Api.Structs.{
  CreateProfileRequest, EditProfileRequest, GetProfileRequest, GetChannelHistoryRequest,
  PublicProfile, ChannelHistory, EmptyMessage,
}
use sockchat.ChannelStore.{ChannelStore, channel_exists}
use sockchat.Services.Interfaces.{ProfileStore}

pub record EditProfileWrapper : Type 0 where
  pub nick : String
  pub request : EditProfileRequest

module _ {P : Type 0} (profiles : ProfileStore P) where
  unfoldable pub register_profile : CreateProfileRequest → Action P EmptyMessage
  register_profile req = do
    return_if (req.nick == "") err_nick_required
    return_if (req.password == "") err_password_required
    profiles.create req
    pure (record {})

  unfoldable pub get_profile : GetProfileRequest → Action P PublicProfile
  get_profile req = profiles.get_profile req.nick

  unfoldable pub edit_profile : EditProfileWrapper → Action P EmptyMessage
  edit_profile req = do profiles.edit req.nick req.request; pure (record {})

-- `find_messages` is the message store's search.
unfoldable pub get_channel_history :
    {S : Type 0}
    → ChannelStore S
    → (String → String → Attempt (Result ChannelHistory))
    → GetChannelHistoryRequest
    → Attempt (Result ChannelHistory)
unfolding channel_exists
get_channel_history chat find_messages req =
    if not (channel_exists req.channel chat)
    then completes (err err_channel_not_found)
    else find_messages req.channel req.search
