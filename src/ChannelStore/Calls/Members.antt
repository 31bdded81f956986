-- ===== src/ChannelStore/Calls/Members.antt =====
-- channel_store.go: who is in a channel after any number of critical sections of calls that overlap.
use sockchat.Prelude.{
  ℕ, String, ◌≡◌, sym, ◌∙◌, inl, inr, Bool, true, false, ◌&&◌, ◌||◌, some, List, [], ◌∷◌, arith,
  Option-cases, ◌==◌, ==_iff, nat_key, string_key,
}
use sockchat.ChannelStore.{
  ChannelStore, Channel, UserRef, channel_at, channel_exists, has_member, add_member, remove_member,
}
use sockchat.ChannelStore.Cases.{get_channel_cases}
use sockchat.ChannelStore.Rooms.{
  is_member, exists_at, member_at, has-add, has-remove, member-written, exists-rewritten,
  create_channel-refines, written,
}
use sockchat.ChannelStore.Calls.{
  Change, entering, leaving, Thread, creates, seeks, checks, changes, tells, returned, panicked,
  advance, changed, checked, sought,
}

abbrev is_same : Change → Change → Bool
is_same entering entering = true
is_same leaving leaving = true
is_same _ _ = false

-- Whether a thread is a call that makes the change to the user at the channel.
abbrev pub asks : Change → String → ℕ → Thread → Bool
asks change name user (seeks c n u) = is_same change c && name == n && user == u.addr
asks change name user _ = false

unfoldable pub is_asked : Change → String → ℕ → List Thread → Bool
is_asked change name user [] = false
is_asked change name user (t ∷ ts) = asks change name user t || is_asked change name user ts

-- Threads at the beginnings of their calls.
abbrev pub Begins : Thread → Type 0
Begins (creates name) = Unit
Begins (seeks change name user) = Unit
Begins _ = ⊥

module _ {S : Type 0} (s : ChannelStore S) (calls : List Thread) where
  -- Who is in a channel was in it or is put into it by a call, and who was in it is or is taken out.
  abbrev pub MovedBy : ChannelStore S → Type 0
  MovedBy t =
      (name : String) (user : ℕ)
      → (is_member t name user ≡ true
          → (is_member s name user || is_asked entering name user calls) ≡ true)
        × (is_member s name user ≡ true
            → (is_member t name user || is_asked leaving name user calls) ≡ true)

  -- A thread that changes a channel is one of the calls, and has found the channel.
  abbrev pub IsHonest : ChannelStore S → Thread → Type 0
  IsHonest t (creates name) = Unit
  IsHonest t (seeks change name user) = is_asked change name user.addr calls ≡ true
  IsHonest t (checks change name user) =
      (is_asked change name user.addr calls ≡ true) × (channel_exists name t ≡ true)
  IsHonest t (changes change name user) =
      (is_asked change name user.addr calls ≡ true) × (channel_exists name t ≡ true)
  IsHonest t (tells change name user) = channel_exists name t ≡ true
  IsHonest t (returned r) = Unit
  IsHonest t panicked = ⊥

  -- Channels stay.
  abbrev pub Grows : ChannelStore S → ChannelStore S → Type 0
  Grows t q = (name : String) → channel_exists name t ≡ true → channel_exists name q ≡ true

  pub grown-IsHonest : (t q : ChannelStore S) (u : Thread) → Grows t q → IsHonest t u → IsHonest q u
  grown-IsHonest t q (creates name) g h = tt
  grown-IsHonest t q (seeks change name user) g h = h
  grown-IsHonest t q (checks change name user) g (a, e) = (a, g name e)
  grown-IsHonest t q (changes change name user) g (a, e) = (a, g name e)
  grown-IsHonest t q (tells change name user) g e = g name e
  grown-IsHonest t q (returned r) g h = tt
  grown-IsHonest t q panicked g h = h

  -- What a section does keeps channels and moves nobody but by a call, and the thread stays honest.
  abbrev pub Moves : ChannelStore S → Thread × ChannelStore S → Type 0
  Moves t (u, q) = Grows t q × MovedBy q × IsHonest q u

  pub create-Moves :
      (name : String) (t : ChannelStore S) → MovedBy t → Moves t (advance (creates name) t)
  unfolding advance
  create-Moves name t moved =
      let (_, e, m) = create_channel-refines t name in
      (
        (λ n o. e n ∙ ground (arith, o)),
        (λ n u. (
          (λ i. (moved n u).0 (sym (m n u) ∙ i)),
          (λ i. ground (arith, m n u, (moved n u).1 i)),
        )),
        tt,
      )

  -- The channel that is there.
  found :
      (name : String) (t : ChannelStore S)
      → channel_exists name t ≡ true
      → (c : Channel) × (channel_at name t ≡ some c)
  unfolding channel_exists
  found name t e = elim (Option-cases (channel_at name t)) [
    | inl m ↦ absurd (ground arith)
    | inr (c, m) ↦ (c, m)
  ]

  pub seek-Moves :
      (change : Change) (name : String) (user : UserRef) (t : ChannelStore S)
      → MovedBy t
      → IsHonest t (seeks change name user)
      → Moves t (advance (seeks change name user) t)
  unfolding advance
  seek-Moves change name user t moved asked =
      get_channel_cases (λ (r, q). Moves t (sought change name user r, q)) name t
        (λ e. ((λ n o. o), moved, tt)) (λ e m. ((λ n o. o), moved, tt))
        (λ c e m. ((λ n o. o), moved, (asked, exists_at t name m)))

  pub check-Moves :
      (change : Change) (name : String) (user : UserRef) (t : ChannelStore S)
      → MovedBy t
      → IsHonest t (checks change name user)
      → Moves t (advance (checks change name user) t)
  unfolding advance
  check-Moves change name user t moved (asked, e) =
      let (c, m) = found name t e in
      rw m ((λ n o. o), moved, still change (has_member user.addr c) asked)
    where
      still :
          (change : Change) (b : Bool)
          → is_asked change name user.addr calls ≡ true
          → IsHonest t (checked change name user b)
      still entering true a = tt
      still entering false a = (a, e)
      still leaving true a = (a, e)
      still leaving false a = tt

  pub tell-Moves :
      (change : Change) (name : String) (user : UserRef) (t : ChannelStore S)
      → MovedBy t
      → IsHonest t (tells change name user)
      → Moves t (advance (tells change name user) t)
  unfolding advance is_member channel_exists
  tell-Moves change name user t moved e =
      let (c, m) = found name t e in rw m ((λ n o. o), moved, tt)

  -- The change of a member that a call asks for.
  change-MovedBy :
      (change : Change) (name : String) (user : UserRef) (t : ChannelStore S) (c : Channel)
      → MovedBy t
      → is_asked change name user.addr calls ≡ true
      → channel_at name t ≡ some c
      → MovedBy (written t name (changed change user.addr c) t.spawned)
  change-MovedBy entering name user t c moved asked m n u = ground (
    arith,
    moved n u,
    member-written t name (add_member user.addr c) t.spawned n u,
    has-add user.addr u c,
    ==_iff name n,
    ==_iff user.addr u,
    member_at t name u m,
  )
  change-MovedBy leaving name user t c moved asked m n u = ground (
    arith,
    moved n u,
    member-written t name (remove_member user.addr c) t.spawned n u,
    has-remove user.addr u c,
    ==_iff name n,
    ==_iff user.addr u,
    member_at t name u m,
  )

  pub change-Moves :
      (change : Change) (name : String) (user : UserRef) (t : ChannelStore S)
      → MovedBy t
      → IsHonest t (changes change name user)
      → Moves t (advance (changes change name user) t)
  unfolding advance
  change-Moves change name user t moved (asked, e) =
      let (c, m) = found name t e in
      let stay = exists-rewritten t name (changed change user.addr c) t.spawned c m in
      rw m ((λ n o. stay n ∙ o), change-MovedBy change name user t c moved asked m, stay name ∙ e)
