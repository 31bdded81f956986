-- ===== src/Storage/Reports/Counts.antt =====
-- storage/reports.go and api/translation.go: the counts of a report.
use sockchat.Prelude.{
  ◌^◌, String, ◌≡◌, ◌↔◌, ◌⊎◌, inl, inr, refl, sym, subst, Bool, true, Option, none, some, List, [],
  ◌∷◌, arith, ltb, ◌==◌, if◌then◌else◌, string_key,
}
use sockchat.Prelude.GoMap
use sockchat.Prelude.GoMap.{Map, get-set}
use sockchat.Api.Effects.{Result, ok, err}
use sockchat.Api.Errors.{Error}
use sockchat.Api.Structs.{ℤ, pos, negsuc}
use sockchat.Api.Translation.{to_int32}
use sockchat.Storage.Search.{SearchQuery}
use sockchat.Api.Reports.{
  DistributionEntry, ChannelActivity, UserActivityReport, UserActivityReportOptions,
}
use sockchat.Storage.Reports.{
  ChannelBucket, DateBucket, new_message_count_distribution, activity, channel_activity_of,
  AggregationAnswer, unavailable, refused, unreadable, aggregated, build_user_activity_query,
  run_message_aggregation, get_user_activity_report,
}

-- The last bucket of a channel.
abbrev last_bucket : String → List ChannelBucket → Option ChannelBucket
last_bucket name [] = none
last_bucket name (b ∷ bs) = elim (last_bucket name bs) [
  | some c ↦ some c
  | none ↦ if b.key == name then some b else none
]

abbrev reported_or : Option ChannelBucket → Option ChannelActivity → Option ChannelActivity
unfolding activity
reported_or none old = old
reported_or (some b) old = some (activity b)

-- The entries are those of the dates' buckets, one for each and in the same order.
abbrev pub Lists : List DateBucket → List DistributionEntry → Type 0
Lists [] [] = Unit
Lists (b ∷ bs) (d ∷ ds) =
    (d.period_start ≡ b.key_string) × (d.messages_in_period ≡ b.doc_count) × Lists bs ds
Lists _ _ = ⊥

abbrev pub Distributes : Option (List DateBucket) → List DistributionEntry → Type 0
Distributes none ds = ds ≡ []
Distributes (some bs) ds = Lists bs ds

-- A channel has an entry exactly if it has a bucket, with what the bucket says.
abbrev pub Describes : Option ChannelBucket → Option ChannelActivity → Type 0
Describes none none = Unit
Describes (some b) (some a) =
    (a.total_messages ≡ b.doc_count) × Distributes b.by_specified_range a.message_count_distribution
Describes _ _ = ⊥

distribution-Lists : (bs : List DateBucket) → Lists bs (new_message_count_distribution (some bs))
unfolding new_message_count_distribution
distribution-Lists [] = tt
distribution-Lists (b ∷ bs) = (refl, refl, distribution-Lists bs)

distribution-Distributes :
    (o : Option (List DateBucket)) → Distributes o (new_message_count_distribution o)
unfolding new_message_count_distribution
distribution-Distributes none = refl
distribution-Distributes (some bs) = distribution-Lists bs

reported-Describes : (o : Option ChannelBucket) → Describes o (reported_or o none)
unfolding activity
reported-Describes none = tt
reported-Describes (some b) = (refl, distribution-Distributes b.by_specified_range)

filled :
    (name : String) (bs : List ChannelBucket) (m : Map String ChannelActivity)
    → GoMap.get name (channel_activity_of bs m)
      ≡ reported_or (last_bucket name bs) (GoMap.get name m)
unfolding channel_activity_of
filled name [] m = refl
filled name (b ∷ bs) m =
    ground
      (arith, filled name bs (GoMap.set b.key (activity b) m), get-set b.key name (activity b) m)

described :
    (name : String) (bs : List ChannelBucket)
    → Describes (last_bucket name bs) (GoMap.get name (channel_activity_of bs []))
unfolding GoMap.get
described name bs =
    subst (Describes (last_bucket name bs)) (sym (filled name bs []))
      (reported-Describes (last_bucket name bs))

query_cases :
    (r : Result SearchQuery) → ((x : SearchQuery) × (r ≡ ok x)) ⊎ ((e : Error) × (r ≡ err e))
query_cases (ok x) = inl (x, refl)
query_cases (err e) = inr (e, refl)

answer_cases :
    (r : AggregationAnswer)
    → ((bs : List ChannelBucket) × (r ≡ aggregated bs))
      ⊎ ((r ≡ unavailable) ⊎ ((r ≡ refused) ⊎ (r ≡ unreadable)))
answer_cases (aggregated bs) = inl (bs, refl)
answer_cases unavailable = inr (inl refl)
answer_cases refused = inr (inr (inl refl))
answer_cases unreadable = inr (inr (inr refl))

module _ (search : SearchQuery → AggregationAnswer) (opts : UserActivityReportOptions) where
  abbrev pub Counts : UserActivityReport → Type 0
  Counts report =
      (query : SearchQuery) × (buckets : List ChannelBucket) × (build_user_activity_query opts
        ≡ ok query)
      × (search query ≡ aggregated buckets)
      × ((name : String)
          → Describes (last_bucket name buckets) (GoMap.get name report.channel_activity))
      × (report.from ≡ opts.from)
      × (report.to ≡ opts.to)

  ok_report :
      (a b : UserActivityReport) (r : Result UserActivityReport) → r ≡ ok a → r ≡ ok b → a ≡ b
  ok_report a b r h k = ground arith

  -- A report that is given is over the range that was asked for, and comes of the buckets that
  -- Elasticsearch answered to the query of that range: it has an entry for exactly the channels of
  -- these buckets, with the count of the channel's last bucket, and with the key and the count of each
  -- of that bucket's dates, in the same order.
  pub get_user_activity_report-Counts :
      (report : UserActivityReport)
      → get_user_activity_report search opts ≡ ok report
      → Counts report
  unfolding get_user_activity_report run_message_aggregation GoMap.get
  get_user_activity_report-Counts report h = elim (query_cases (build_user_activity_query opts)) [
    | inr (e, q) ↦ absurd (ground (arith, q))
    | inl (query, q) ↦ elim (answer_cases (search query)) [
      | inr (inl a) ↦ absurd (ground (arith, q, a))
      | inr (inr (inl a)) ↦ absurd (ground (arith, q, a))
      | inr (inr (inr a)) ↦ absurd (ground (arith, q, a))
      | inl (buckets, a) ↦
          let made : get_user_activity_report search opts
              ≡ ok (record {
                channel_activity = channel_activity_of buckets [];
                from = opts.from;
                to = opts.to;
              }) =
            ground (arith, q, a) in
          let same = ok_report _ report (get_user_activity_report search opts) made h in
          subst Counts same (query, buckets, q, a, λ name. described name buckets, refl, refl)
    ]
  ]

-- The values of an `int32`.
abbrev fits_int32 : ℤ → Bool
fits_int32 (pos n) = ltb n (2 ^ 31)
fits_int32 (negsuc n) = ltb n (2 ^ 31)

-- Every count is sent as an `int32`, and a count that is one is sent unchanged.
to_int32-fits :
    (n : ℤ) → (fits_int32 (to_int32 n) ≡ true) × ((to_int32 n ≡ n) ↔ (fits_int32 n ≡ true))
unfolding to_int32
to_int32-fits (pos n) = ground arith
to_int32-fits (negsuc n) = ground arith
