-- ===== src/Storage/Reports/Ranges.antt =====
-- storage/reports.go: which ranges a report may have.
use sockchat.Prelude.{
  ℕ, ◌+◌, ◌*◌, ◌^◌, ◌≤◌, ◌<◌, ◌≡◌, ◌↔◌, ◌⊎◌, inl, inr, refl, sym, subst, true, false, none, some,
  [], ◌∷◌, arith, ltb, Bool-cases,
}
use sockchat.Api.Errors.{err_invalid_range, err_max_report_size_exceeded}
use sockchat.Api.Effects.{Result, ok, err}
use sockchat.Api.Reports.{UserActivityReportOptions}
use sockchat.Storage.Search.{SearchQuery, author_term, timestamp_range}
use sockchat.Storage.Reports.{sub, unix, build_user_activity_query, build_date_histogram_aggs}

-- 30 days in minutes.
abbrev longest : ℕ
longest = 30 * 24 * 60

abbrev pub Accepts : UserActivityReportOptions → Result SearchQuery → Type 0
Accepts opts (ok q) =
    (opts.from ≤ opts.to)
    × (opts.to ≤ opts.from + longest)
    × (q.filter ≡ author_term opts.author ∷ timestamp_range (unix opts.from) (unix opts.to) ∷ [])
Accepts opts (err e) =
    ((opts.to < opts.from) × (e ≡ err_invalid_range))
    ⊎ ((opts.from + longest < opts.to) × (e ≡ err_max_report_size_exceeded))

sub_longer :
    (to from : ℕ)
    → from ≤ to
    → (ltb (30 * 24 * 3600 * 10 ^ 9) (sub to from) ≡ true) ↔ (from + longest < to)
unfolding sub
sub_longer to from h = ground arith

before :
    (opts : UserActivityReportOptions)
    → ltb opts.to opts.from ≡ true
    → build_user_activity_query opts ≡ err err_invalid_range
unfolding build_user_activity_query
before opts e = ground arith

too_long :
    (opts : UserActivityReportOptions)
    → ltb opts.to opts.from ≡ false
    → ltb (30 * 24 * 3600 * 10 ^ 9) (sub opts.to opts.from) ≡ true
    → build_user_activity_query opts ≡ err err_max_report_size_exceeded
unfolding build_user_activity_query
too_long opts e l = rw (e, l) refl

abbrev ranged : UserActivityReportOptions → SearchQuery
ranged opts = record {
  filter = author_term opts.author ∷ timestamp_range (unix opts.from) (unix opts.to) ∷ [];
  must = none;
  sort = [];
  aggs =
      some (record { field = "channel.keyword"; size = 50; aggs = build_date_histogram_aggs opts });
}

in_range :
    (opts : UserActivityReportOptions)
    → ltb opts.to opts.from ≡ false
    → ltb (30 * 24 * 3600 * 10 ^ 9) (sub opts.to opts.from) ≡ false
    → (q : SearchQuery) × (build_user_activity_query opts ≡ ok q)
      × (q.filter ≡ author_term opts.author ∷ timestamp_range (unix opts.from) (unix opts.to) ∷ [])
unfolding build_user_activity_query
in_range opts e l = (ranged opts, rw (e, l) refl, refl)

-- A report is refused exactly if its `to` is before its `from`, or more than 30 days after it, each
-- with its own error; equal times and 30 days to the minute are accepted. The nanoseconds of a long
-- range stop at the greatest duration, which is still too long, so no range gets by. The query of a
-- range that is accepted asks for the author's messages from the first second of `from` to that of
-- `to`.
pub build_user_activity_query-Accepts :
    (opts : UserActivityReportOptions) → Accepts opts (build_user_activity_query opts)
build_user_activity_query-Accepts opts = elim (Bool-cases (ltb opts.to opts.from)) [
  | inl e ↦ subst (Accepts opts) (sym (before opts e)) (inl (ground arith, refl))
  | inr e ↦
      let ordered : opts.from ≤ opts.to = ground arith in
      elim (Bool-cases (ltb (30 * 24 * 3600 * 10 ^ 9) (sub opts.to opts.from))) [
        | inl l ↦
            subst (Accepts opts) (sym (too_long opts e l))
              (inr ((sub_longer opts.to opts.from ordered).0 l, refl))
        | inr l ↦
            let (q, same, filter) = in_range opts e l in
            subst (Accepts opts) (sym same)
              (ordered, ground (arith, sub_longer opts.to opts.from ordered), filter)
      ]
]
