-- ===== src/ChannelStore/Calls/Overlaps.antt =====
-- channel_store.go: calls that overlap, after any number of critical sections.
use sockchat.Prelude.{
  ℕ, zero, suc, ◌≤◌, String, ◌≡◌, refl, Bool, true, false, ◌||◌, List, [], ◌∷◌, arith, ==_iff,
  nat_key, string_key, All, All-mono,
}
use sockchat.ChannelStore.{ChannelStore}
use sockchat.ChannelStore.Rooms.{is_member}
use sockchat.ChannelStore.Calls.{
  Change, entering, leaving, Thread, creates, seeks, checks, changes, tells, returned, panicked,
  advance, advance_at, overlap,
}
use sockchat.ChannelStore.Calls.Turns.{sections_left, left_at, turns, overlap-finishes}
use sockchat.ChannelStore.Calls.Members.{
  Begins, is_asked, MovedBy, IsHonest, Grows, Moves, grown-IsHonest, create-Moves, seek-Moves,
  check-Moves, change-Moves, tell-Moves,
}

module _ {S : Type 0} (s : ChannelStore S) (calls : List Thread) where
  advance-Moves :
      (u : Thread) (t : ChannelStore S)
      → MovedBy s calls t
      → IsHonest s calls t u
      → Moves s calls t (advance u t)
  unfolding advance
  advance-Moves (creates name) t moved honest = create-Moves s calls name t moved
  advance-Moves (seeks change name user) t moved honest =
      seek-Moves s calls change name user t moved honest
  advance-Moves (checks change name user) t moved honest =
      check-Moves s calls change name user t moved honest
  advance-Moves (changes change name user) t moved honest =
      change-Moves s calls change name user t moved honest
  advance-Moves (tells change name user) t moved honest =
      tell-Moves s calls change name user t moved honest
  advance-Moves (returned r) t moved honest = ((λ n o. o), moved, tt)
  advance-Moves panicked t moved honest = absurd honest

  AllMove : ChannelStore S → List Thread × ChannelStore S → Type 0
  AllMove t (us, q) = Grows s calls t q × MovedBy s calls q × All (IsHonest s calls q) us

  advance_at-AllMove :
      (n : ℕ) (ts : List Thread) (t : ChannelStore S)
      → MovedBy s calls t
      → All (IsHonest s calls t) ts
      → AllMove t (advance_at n ts t)
  unfolding AllMove advance_at
  advance_at-AllMove n [] t moved all = ((λ n o. o), moved, tt)
  advance_at-AllMove zero (u ∷ us) t moved all =
      let (v, q) = advance u t in
      let (grows, kept, honest) = advance-Moves u t moved all.0 in
      (
        grows,
        kept,
        (
          honest,
          All-mono (IsHonest s calls t) (IsHonest s calls q) us
              (λ x. grown-IsHonest s calls t q x grows) all.1,
        ),
      )
  advance_at-AllMove (suc n) (u ∷ us) t moved all =
      let (vs, q) = advance_at n us t in
      let (grows, kept, honest) = advance_at-AllMove n us t moved all.1 in
      (grows, kept, (grown-IsHonest s calls t q u grows all.0, honest))

  Kept : List Thread × ChannelStore S → Type 0
  Kept (ts, t) = MovedBy s calls t × All (IsHonest s calls t) ts

  overlap-Kept :
      (ns : List ℕ) (ts : List Thread) (t : ChannelStore S)
      → MovedBy s calls t
      → All (IsHonest s calls t) ts
      → Kept (overlap ns ts t)
  unfolding Kept overlap AllMove
  overlap-Kept [] ts t moved all = (moved, all)
  overlap-Kept (n ∷ ns) ts t moved all =
      let (us, q) = advance_at n ts t in
      let (grows, kept, honest) = advance_at-AllMove n ts t moved all in
      overlap-Kept ns us q kept honest

  begin-IsHonest :
      (ts : List Thread)
      → ((change : Change) (name : String) (user : ℕ)
          → is_asked change name user ts ≡ true
          → is_asked change name user calls ≡ true)
      → All Begins ts
      → All (IsHonest s calls s) ts
  unfolding is_asked
  begin-IsHonest [] within begins = tt
  begin-IsHonest (creates name ∷ ts) within begins =
      (tt, begin-IsHonest ts (λ c n u e. within c n u (ground (arith, e))) begins.1)
  begin-IsHonest (seeks entering name user ∷ ts) within begins = (
    within entering name user.addr (ground (arith, ==_iff name name, ==_iff user.addr user.addr)),
    begin-IsHonest ts (λ c n u e. within c n u (ground (arith, e))) begins.1,
  )
  begin-IsHonest (seeks leaving name user ∷ ts) within begins = (
    within leaving name user.addr (ground (arith, ==_iff name name, ==_iff user.addr user.addr)),
    begin-IsHonest ts (λ c n u e. within c n u (ground (arith, e))) begins.1,
  )
  begin-IsHonest (checks change name user ∷ ts) within begins = absurd begins.0
  begin-IsHonest (changes change name user ∷ ts) within begins = absurd begins.0
  begin-IsHonest (tells change name user ∷ ts) within begins = absurd begins.0
  begin-IsHonest (returned r ∷ ts) within begins = absurd begins.0
  begin-IsHonest (panicked ∷ ts) within begins = absurd begins.0

-- Whether the call at a place has returned; beyond the end there is none that has not.
unfoldable pub has_returned : ℕ → List Thread → Bool
has_returned n [] = true
has_returned zero (returned r ∷ ts) = true
has_returned zero (t ∷ ts) = false
has_returned (suc n) (t ∷ ts) = has_returned n ts

module _ {S : Type 0} (s : ChannelStore S) (calls : List Thread) where
  begin-left : (n : ℕ) (ts : List Thread) → All Begins ts → left_at n ts ≤ 4
  unfolding left_at sections_left
  begin-left n [] begins = omega arith
  begin-left zero (t ∷ ts) begins = ground arith
  begin-left (suc n) (t ∷ ts) begins = begin-left n ts begins.1

  returned_at :
      (n : ℕ) (ts : List Thread) (t : ChannelStore S)
      → All (IsHonest s calls t) ts
      → left_at n ts ≡ 0
      → has_returned n ts ≡ true
  unfolding has_returned left_at sections_left
  returned_at n [] t all z = refl
  returned_at zero (creates name ∷ ts) t all z = ground arith
  returned_at zero (seeks change name user ∷ ts) t all z = ground arith
  returned_at zero (checks change name user ∷ ts) t all z = ground arith
  returned_at zero (changes change name user ∷ ts) t all z = ground arith
  returned_at zero (tells change name user ∷ ts) t all z = ground arith
  returned_at zero (returned r ∷ ts) t all z = refl
  returned_at zero (panicked ∷ ts) t all z = absurd all.0
  returned_at (suc n) (u ∷ ts) t all z = returned_at n ts t all.1 z

-- However calls of `CreateChannel`, `AddUserToChannel` and `RemoveUserFromChannel` overlap: whoever is
-- in a channel was in it or is added to it by one of the calls, and whoever was in it is still in it
-- or is removed from it by one of the calls. A call that the scheduler picks four times has returned
-- and has not panicked, whatever the others do.
pub overlap-Members :
    {S : Type 0} (s : ChannelStore S) (calls : List Thread) (ns : List ℕ)
    → All Begins calls
    → let (ts, t) = overlap ns calls s in
      ((name : String) (user : ℕ)
        → (is_member t name user ≡ true
            → (is_member s name user || is_asked entering name user calls) ≡ true)
          × (is_member s name user ≡ true
              → (is_member t name user || is_asked leaving name user calls) ≡ true))
      × ((n : ℕ) → 4 ≤ turns n ns → has_returned n ts ≡ true)
unfolding Kept
overlap-Members s calls ns begins =
    let (ts, t) = overlap ns calls s in
    let (moved, honest) =
      overlap-Kept s calls ns calls s (λ n u. (ground arith, ground arith))
        (begin-IsHonest s calls calls (λ c n u e. e) begins) in
    (
      moved,
      λ n l.
          returned_at s calls n ts t honest
            (overlap-finishes n ns calls s (omega (arith, begin-left s calls n calls begins, l))),
    )
