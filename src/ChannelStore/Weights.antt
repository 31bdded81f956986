-- ===== src/ChannelStore/Weights.antt =====
-- channel_store.go: how many goroutines the goroutines of the store can still spawn.
use sockchat.Prelude.{
  ℕ, suc, ◌+◌, ◌≤◌, String, ◌≡◌, refl, some, List, [], ◌∷◌, ◌++◌, map, arith, length, string_key,
  nat_key, Option-cases, inl, inr,
}
use sockchat.Prelude.GoMap
use sockchat.Prelude.GoMap.{Map}
use sockchat.Prelude.GoSet.{delete}
use sockchat.Api.WsMessages.{SocketMessage}
use sockchat.ChannelStore.{ChannelStore, Task, Channel, channel_at, run_task, writes, remove_member}
use sockchat.ChannelStore.Cases.{remove_cases}

-- The members of all channels, each as often as it stands in one.
unfoldable pub crowd : Map String Channel → ℕ
crowd [] = 0
crowd ((name, c) ∷ m) = length c.members + crowd m

-- No write spawns anything, and any other goroutine at most a write for each member of a channel.
unfoldable pub weight : ℕ → Task → ℕ
weight bound (Task.write user message) = 1
weight bound (Task.message_members name message) = suc bound
weight bound (Task.remove_user_from_channel name user) = suc bound

unfoldable pub weights : ℕ → List Task → ℕ
unfolding weight
weights bound [] = 0
weights bound (t ∷ ts) = weight bound t + weights bound ts

-- How many goroutines can run before none is left.
unfoldable pub pending : {S : Type 0} → ChannelStore S → ℕ
unfolding weights crowd
pending s = weights (crowd s.channels) s.spawned

weight-pos : (bound : ℕ) (t : Task) → 1 ≤ weight bound t
unfolding weight
weight-pos bound (Task.write user message) = omega arith
weight-pos bound (Task.message_members name message) = omega arith
weight-pos bound (Task.remove_user_from_channel name user) = omega arith

weight_less : (m n : ℕ) (t : Task) → m ≤ n → weight m t ≤ weight n t
unfolding weight
weight_less m n (Task.write user message) l = omega arith
weight_less m n (Task.message_members name message) l = omega arith
weight_less m n (Task.remove_user_from_channel name user) l = omega arith

weights_less : (m n : ℕ) (ts : List Task) → m ≤ n → weights m ts ≤ weights n ts
unfolding weights
weights_less m n [] l = omega arith
weights_less m n (t ∷ ts) l = omega (arith, weight_less m n t l, weights_less m n ts l)

pub weights-append :
    (bound : ℕ) (ts us : List Task) → weights bound (ts ++ us) ≡ weights bound ts + weights bound us
unfolding weights
weights-append bound [] us = omega arith
weights-append bound (t ∷ ts) us = ground (arith, weights-append bound ts us)

weights-writes :
    (bound : ℕ) (m : SocketMessage) (users : List ℕ)
    → weights bound (map (λ user. Task.write user m) users) ≡ length users
unfolding weights weight
weights-writes bound m [] = refl
weights-writes bound m (x ∷ users) = ground (arith, weights-writes bound m users)

length-delete_less : (u : ℕ) (xs : List ℕ) → length (delete u xs) ≤ length xs
unfolding delete
length-delete_less u [] = omega arith
length-delete_less u (x ∷ xs) = ground (arith, length-delete_less u xs)

crowd-at :
    (name : String) (c : Channel) (m : Map String Channel)
    → GoMap.get name m ≡ some c
    → length c.members ≤ crowd m
unfolding crowd GoMap.get
crowd-at name c [] e = absurd (cc e)
crowd-at name c ((k, d) ∷ m) e = ground (arith, crowd-at name c m)

crowd-set :
    (name : String) (c d : Channel) (m : Map String Channel)
    → GoMap.get name m ≡ some c
    → length d.members ≤ length c.members
    → crowd (GoMap.set name d m) ≤ crowd m
unfolding crowd GoMap.get GoMap.set
crowd-set name c d [] e l = absurd (cc e)
crowd-set name c d ((k, b) ∷ m) e l = ground (arith, crowd-set name c d m)

-- What a goroutine spawns weighs less than the goroutine, and the channels do not grow.
abbrev Lightens : {S : Type 0} → ChannelStore S → ℕ → ChannelStore S → Type 0
Lightens s w t = (crowd t.channels ≤ crowd s.channels) × (suc (pending t) ≤ w + pending s)

module _ {S : Type 0} (s : ChannelStore S) where
  written-Lightens :
      (c d : Channel) (name : String) (m : SocketMessage)
      → channel_at name s ≡ some c
      → length d.members ≤ length c.members
      → Lightens s
          (suc (crowd s.channels))
          (record s { channels = GoMap.set name d s.channels; spawned = s.spawned ++ writes m d })
  unfolding pending writes
  written-Lightens c d name m e l =
      let fewer = crowd-set name c d s.channels e l in
      let bound = crowd (GoMap.set name d s.channels) in
      (
        fewer,
        omega (
          arith,
          l,
          crowd-at name c s.channels e,
          weights-append bound s.spawned (writes m d),
          weights-writes bound m d.members,
          weights_less bound (crowd s.channels) s.spawned fewer,
        ),
      )

  pub run_task-Lightens : (t : Task) → Lightens s (weight (crowd s.channels) t) (run_task t s)
  unfolding run_task pending weight writes remove_member
  run_task-Lightens (Task.write user m) = (omega arith, omega arith)
  run_task-Lightens (Task.message_members name m) = elim (Option-cases (channel_at name s)) [
    | inl e ↦ rw (e, run_task) (omega arith, omega arith)
    | inr (c, e) ↦
        rw (e, run_task)
          (
            omega arith,
            omega (
              arith,
              crowd-at name c s.channels e,
              weights-append (crowd s.channels) s.spawned (writes m c),
              weights-writes (crowd s.channels) m c.members,
            ),
          )
  ]
  run_task-Lightens (Task.remove_user_from_channel name user) =
      remove_cases (λ o. Lightens s (suc (crowd s.channels)) o.1) name user s
        (λ e. (omega arith, omega arith)) (λ e m. (omega arith, omega arith))
        (λ c e m i. (omega arith, omega arith))
        (λ c e m o.
          written-Lightens c (remove_member user.addr c) name _ m
            (length-delete_less user.addr c.members))

-- What weighs nothing has no goroutine.
pub nothing_pending : {S : Type 0} (s : ChannelStore S) → pending s ≤ 0 → s.spawned ≡ []
unfolding pending weights
nothing_pending s l = weightless s.spawned l
  where
    weightless : (ts : List Task) → weights (crowd s.channels) ts ≤ 0 → ts ≡ []
    weightless [] l = refl
    weightless (t ∷ ts) l = absurd (omega (arith, l, weight-pos (crowd s.channels) t))
