-- ===== src/Services/Grpc/Calls.antt =====
-- services/grpc.go: the server of NewSockchatGRPCServer, which puts the interceptor in front of every
-- method of the service.
use sockchat.Prelude.{
  ℕ, String, ◌≡◌, refl, ap, sym, arith, ◌∙◌, Bool, true, false, Option, none, some, List,
  if◌then◌else◌,
}
use sockchat.Prelude.GoMap
use sockchat.Api.Effects.{Result, Attempt, ok, err, aborts}
use sockchat.Api.Structs.{ChannelHistory, EmptyMessage}
use sockchat.Api.Translation.{
  profile_to_proto, RegisterProfileMessage, ChatMessage, ProfileMessage, UserActivityReportMessage,
}
use sockchat.ChannelStore.{ChannelStore}
use sockchat.Storage.Search.{SearchQuery}
use sockchat.Storage.Reports.{AggregationAnswer}
use sockchat.Services.Interfaces.{ProfileStore}
use sockchat.Services.Core.{get_channel_history as get_history}
use sockchat.Services.Authentication.{cut_prefix_by, AuthWrapper}
use sockchat.Api.Errors.{err_unauthorized}
use sockchat.Services.Grpc.{
  Context, Outcome, responds, fails, exits, is_protected, trim_prefix, token_from_ctx,
  auth_interceptor, register_profile_method, get_profile_method, edit_profile_method,
  get_channel_history_method, or_status, new_grpc_error,
}
use sockchat.Services.Grpc.Reports.{ReportRequest, get_user_activity_report_method}
use sockchat.Services.Grpc.Statuses.{credentials, guarded, intercepted, auth_interceptor-intercepts}

-- A call of the service, with the fields of its request.
pub data Call : Type 0 where
  register_profile : RegisterProfileMessage → Call
  get_profile : (nick : String) → Call
  edit_profile : (description : String) → Call
  get_channel_history : (channel search : String) → Call
  get_user_activity_report : ReportRequest → Call

-- A response; `unknown` is an error that is no status.
pub data Reply : Type 0 where
  empty : EmptyMessage → Reply
  profile : ProfileMessage → Reply
  history : List ChatMessage → Reply
  report : UserActivityReportMessage → Reply
  unknown : Reply

-- `info.FullMethod`
unfoldable pub full_method : Call → String
full_method (register_profile _) = "/sockchat.Sockchat/RegisterProfile"
full_method (get_profile _) = "/sockchat.Sockchat/GetProfile"
full_method (edit_profile _) = "/sockchat.Sockchat/EditProfile"
full_method (get_channel_history _ _) = "/sockchat.Sockchat/GetChannelHistory"
full_method (get_user_activity_report _) = "/sockchat.Sockchat/GetUserActivityReport"

abbrev is_registration : Call → Bool
is_registration (register_profile _) = true
is_registration _ = false

abbrev mapped : {A P : Type 0} → (A → Reply) → Outcome A × P → Outcome Reply × P
mapped f (responds a, p) = (responds (f a), p)
mapped f (fails status, p) = (fails status, p)
mapped f (exits, p) = (exits, p)

abbrev reported : Option (Outcome UserActivityReportMessage) → Outcome Reply
reported none = responds unknown
reported (some (responds a)) = responds (report a)
reported (some (fails status)) = fails status
reported (some exits) = exits

module _ {S P : Type 0} (profiles : ProfileStore P) (decode_string : String → Option String)
    (chat : ChannelStore S) (find_messages : String → String → Attempt (Result ChannelHistory))
    (parse : String → Option ℕ) (format : ℕ → String)
    (search : SearchQuery → AggregationAnswer) where
  -- The method that the call names.
  unfoldable pub call_method : Context → Call → P → Outcome Reply × P
  unfolding register_profile_method get_profile_method edit_profile_method
      get_channel_history_method get_user_activity_report_method
  call_method ctx (register_profile message) p =
      mapped empty (register_profile_method profiles decode_string message p)
  call_method ctx (get_profile nick) p =
      mapped profile (get_profile_method profiles decode_string nick p)
  call_method ctx (edit_profile description) p =
      mapped empty (edit_profile_method profiles decode_string ctx description p)
  call_method ctx (get_channel_history channel sought) p =
      mapped history
        (get_channel_history_method profiles decode_string chat find_messages channel sought p)
  call_method ctx (get_user_activity_report r) p =
      (reported (get_user_activity_report_method parse format search r), p)

  unfoldable pub serve_call : Context → Call → P → Outcome Reply × P
  unfolding full_method auth_interceptor call_method
  serve_call ctx call =
      auth_interceptor profiles decode_string ctx (full_method call) (call_method ctx call)

  protection :
      (call : Call)
      → is_protected (full_method call) ≡ some (if is_registration call then false else true)
  unfolding full_method is_protected trim_prefix cut_prefix_by GoMap.get
  protection (register_profile _) = refl
  protection (get_profile _) = refl
  protection (edit_profile _) = refl
  protection (get_channel_history _ _) = refl
  protection (get_user_activity_report _) = refl

  -- A call of the history, whose search panics.
  abbrev pub Breaks : Call → Type 0
  Breaks call =
      (channel : String) × (sought : String) × (call ≡ get_channel_history channel sought)
      × (find_messages channel sought ≡ aborts)

  status_no_exit :
      {A B : Type 0} (f : B → Reply) (g : A → B) (r : Result A) (p : P)
      → ¬ ((mapped f (or_status g r, p)).0 ≡ exits)
  unfolding or_status
  status_no_exit f g (ok a) p e = cc
  status_no_exit f g (err x) p e = cc

  edit_no_exit :
      (ctx : Context) (description : String) (p : P)
      → ¬ ((mapped empty (edit_profile_method profiles decode_string ctx description p)).0 ≡ exits)
  unfolding edit_profile_method or_status
  edit_no_exit ctx description p e = ground arith

  report_no_exit :
      (r : ReportRequest)
      → ¬ (reported (get_user_activity_report_method parse format search r) ≡ exits)
  unfolding get_user_activity_report_method
  report_no_exit r e = ground arith

  history-Breaks :
      (channel sought : String) (p : P)
      → (mapped history
          (get_channel_history_method profiles decode_string chat find_messages channel sought p)).0
        ≡ exits
      → Breaks (get_channel_history channel sought)
  unfolding get_channel_history_method get_history or_status
  history-Breaks channel sought p e = (channel, sought, refl, ground arith)

  method-Breaks :
      (ctx : Context) (call : Call) (p : P) → (call_method ctx call p).0 ≡ exits → Breaks call
  unfolding call_method register_profile_method get_profile_method
  method-Breaks ctx (register_profile message) p e = absurd (status_no_exit empty (λ a. a) _ _ e)
  method-Breaks ctx (get_profile nick) p e = absurd (status_no_exit profile profile_to_proto _ _ e)
  method-Breaks ctx (edit_profile description) p e = absurd (edit_no_exit ctx description p e)
  method-Breaks ctx (get_channel_history channel sought) p e = history-Breaks channel sought p e
  method-Breaks ctx (get_user_activity_report r) p e = absurd (report_no_exit r e)

  guarded-Breaks :
      (ctx : Context) (call : Call) (auth : Result AuthWrapper) (p : P)
      → (guarded profiles decode_string auth (call_method ctx call) p).0 ≡ exits
      → Breaks call
  guarded-Breaks ctx call (err x) p e = absurd (cc e)
  guarded-Breaks ctx call (ok auth) p e =
      let (valid, q) = profiles.is_auth_valid auth.username auth.password p in
      by_credentials valid q e
    where
      by_credentials :
          (valid : Bool) (q : P)
          → (if valid
              then call_method ctx call q
              else (fails (new_grpc_error err_unauthorized), q)).0
            ≡ exits
          → Breaks call
      by_credentials true q e = method-Breaks ctx call q e
      by_credentials false q e = absurd (cc e)

  served-Breaks :
      (ctx : Context) (call : Call) (b : Bool) (p : P)
      → (if b
          then call_method ctx call p
          else guarded profiles decode_string
              (credentials profiles decode_string (token_from_ctx ctx))
              (call_method ctx call)
              p).0
        ≡ exits
      → Breaks call
  served-Breaks ctx call true p e = method-Breaks ctx call p e
  served-Breaks ctx call false p e =
      guarded-Breaks ctx call (credentials profiles decode_string (token_from_ctx ctx)) p e

  called :
      (ctx : Context) (call : Call) (p : P)
      → serve_call ctx call p ≡ (
          if is_registration call
          then call_method ctx call p
          else guarded profiles decode_string
              (credentials profiles decode_string (token_from_ctx ctx))
              (call_method ctx call)
              p)
  unfolding serve_call
  called ctx call p =
      auth_interceptor-intercepts profiles decode_string ctx (full_method call)
        (call_method ctx call) p
      ∙ ap
          (λ b.
            intercepted profiles decode_string b
              (credentials profiles decode_string (token_from_ctx ctx)) (call_method ctx call) p)
          (protection call)
      ∙ at_registration (is_registration call)
    where
      at_registration :
          (b : Bool)
          → intercepted profiles decode_string
              (some (if b then false else true))
              (credentials profiles decode_string (token_from_ctx ctx))
              (call_method ctx call)
              p
            ≡ (if b
                then call_method ctx call p
                else guarded profiles decode_string
                    (credentials profiles decode_string (token_from_ctx ctx))
                    (call_method ctx call)
                    p)
      at_registration true = refl
      at_registration false = refl

  -- A registration runs as it is, and any other call exactly with credentials that the profile store
  -- accepts: otherwise its method does not run, the profiles change only by the look at the
  -- credentials, and the status is that of the first step that fails. A call ends the process only if
  -- it is one of the history whose search panics: every method has its entry in the map of protected
  -- methods.
  pub serve_call-guarded :
      (ctx : Context) (call : Call) (p : P)
      → (serve_call ctx call p ≡ (
          if is_registration call
          then call_method ctx call p
          else guarded profiles decode_string
              (credentials profiles decode_string (token_from_ctx ctx))
              (call_method ctx call)
              p))
        × ((serve_call ctx call p).0 ≡ exits → Breaks call)
  serve_call-guarded ctx call p = (
    called ctx call p,
    λ e.
        served-Breaks ctx call (is_registration call) p
          (ap (λ o. o.0) (sym (called ctx call p)) ∙ e),
  )
