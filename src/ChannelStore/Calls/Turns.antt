-- ===== src/ChannelStore/Calls/Turns.antt =====
-- channel_store.go: how many critical sections a call takes, whatever the others do.
use sockchat.Prelude.{
  ℕ, zero, suc, ◌≤◌, ◌≡◌, ◌≢◌, refl, List, [], ◌∷◌, arith, ◌==◌, ==_iff, nat_key, string_key,
  if◌then◌else◌, inl, inr, Bool-cases,
}
use sockchat.ChannelStore.{ChannelStore, get_channel}
use sockchat.ChannelStore.Calls.{
  entering, leaving, Thread, creates, seeks, checks, changes, tells, returned, panicked, advance,
  advance_at, overlap,
}

-- How many sections a thread has before it, at most.
unfoldable pub sections_left : Thread → ℕ
sections_left (creates name) = 1
sections_left (seeks change name user) = 4
sections_left (checks change name user) = 3
sections_left (changes change name user) = 2
sections_left (tells change name user) = 1
sections_left (returned r) = 0
sections_left panicked = 0

unfoldable pub left_at : ℕ → List Thread → ℕ
left_at n [] = 0
left_at zero (t ∷ ts) = sections_left t
left_at (suc n) (t ∷ ts) = left_at n ts

-- How often the scheduler picks a place.
unfoldable pub turns : ℕ → List ℕ → ℕ
turns n [] = 0
turns n (k ∷ ks) = if k == n then suc (turns n ks) else turns n ks

module _ {S : Type 0} where
  advance-less :
      (u : Thread) (t : ChannelStore S) (k : ℕ)
      → sections_left u ≤ suc k
      → sections_left (advance u t).0 ≤ k
  unfolding sections_left advance get_channel
  advance-less (creates name) t k l = ground arith
  advance-less (seeks change name user) t k l = ground arith
  advance-less (checks entering name user) t k l = ground arith
  advance-less (checks leaving name user) t k l = ground arith
  advance-less (changes change name user) t k l = ground arith
  advance-less (tells change name user) t k l = ground arith
  advance-less (returned r) t k l = ground arith
  advance-less panicked t k l = ground arith

  advance_at-less :
      (n : ℕ) (ts : List Thread) (t : ChannelStore S) (k : ℕ)
      → left_at n ts ≤ suc k
      → left_at n (advance_at n ts t).0 ≤ k
  unfolding left_at advance_at
  advance_at-less n [] t k l = ground arith
  advance_at-less zero (u ∷ us) t k l = advance-less u t k l
  advance_at-less (suc n) (u ∷ us) t k l = advance_at-less n us t k l

  -- A turn of another thread.
  advance_at-same :
      (m n : ℕ) (ts : List Thread) (t : ChannelStore S)
      → m ≢ n
      → left_at n (advance_at m ts t).0 ≡ left_at n ts
  unfolding left_at advance_at
  advance_at-same m n [] t ne = refl
  advance_at-same zero zero (u ∷ us) t ne = absurd (ne refl)
  advance_at-same zero (suc n) (u ∷ us) t ne = refl
  advance_at-same (suc m) zero (u ∷ us) t ne = refl
  advance_at-same (suc m) (suc n) (u ∷ us) t ne = advance_at-same m n us t (λ e. ne (omega arith))

  pub overlap-finishes :
      (n : ℕ) (ns : List ℕ) (ts : List Thread) (t : ChannelStore S)
      → left_at n ts ≤ turns n ns
      → left_at n (overlap ns ts t).0 ≡ 0
  unfolding overlap turns
  overlap-finishes n [] ts t l = omega arith
  overlap-finishes n (m ∷ ms) ts t l =
      let (us, q) = advance_at m ts t in
      overlap-finishes n ms us q (elim (Bool-cases (m == n)) [
        | inl e ↦ ground (arith, e, ==_iff m n, advance_at-less m ts t (turns n ms))
        | inr e ↦ ground (arith, e, ==_iff m n, advance_at-same m n ts t)
      ])
