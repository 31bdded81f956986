-- ===== src/ChannelStore/Calls/Alone.antt =====
-- channel_store.go: calls that do not overlap.
use sockchat.Prelude.{String, ◌≡◌, refl, arith, ==_iff, string_key}
use sockchat.Prelude.GoMap.{get-set}
use sockchat.ChannelStore.{
  ChannelStore, UserRef, create_channel, add_user_to_channel, remove_user_from_channel, add_member,
  remove_member,
}
use sockchat.ChannelStore.Cases.{add_cases, remove_cases}
use sockchat.ChannelStore.Calls.{advance, run_alone, creates, seeks, entering, leaving, returned}

module _ {S : Type 0} (name : String) (user : UserRef) (s : ChannelStore S) where
  enters-alone :
      let (r, t) = add_user_to_channel name user s in
      run_alone 4 (seeks entering name user) s ≡ (returned r, t)
  unfolding run_alone advance
  enters-alone =
      add_cases (λ (r, t). run_alone 4 (seeks entering name user) s ≡ (returned r, t)) name user s
        (λ e. ground arith) (λ e m. ground arith) (λ c e m i. ground arith)
        (λ c e m o.
          ground (arith, get-set name name (add_member user.addr c) s.channels, ==_iff name name))

  leaves-alone :
      let (r, t) = remove_user_from_channel name user s in
      run_alone 4 (seeks leaving name user) s ≡ (returned r, t)
  unfolding run_alone advance
  leaves-alone =
      remove_cases (λ (r, t). run_alone 4 (seeks leaving name user) s ≡ (returned r, t)) name user s
        (λ e. ground arith) (λ e m. ground arith) (λ c e m i. ground arith)
        (λ c e m o.
          ground
            (arith, get-set name name (remove_member user.addr c) s.channels, ==_iff name name))

  -- A call that nothing disturbs returns after four critical sections at most, with the answer and
  -- the store of the model of the whole call. It never panics.
  channel_calls-alone :
      (let (r, t) = create_channel name s in run_alone 4 (creates name) s ≡ (returned r, t))
      × (let (r, t) = add_user_to_channel name user s in
          run_alone 4 (seeks entering name user) s ≡ (returned r, t))
      × (let (r, t) = remove_user_from_channel name user s in
          run_alone 4 (seeks leaving name user) s ≡ (returned r, t))
  unfolding run_alone advance
  channel_calls-alone = (refl, enters-alone, leaves-alone)
