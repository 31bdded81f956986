-- ===== src/Webserver/Startup/Laws.antt =====
-- webserver/: sequences of steps of a start.
use sockchat.Prelude.{
  String, ◌≡◌, ◌⊎◌, inl, inr, refl, sym, ap, ◌∙◌, Bool, Option, none, some, arith, string_key,
}
use sockchat.Webserver.Startup.{
  Machine, Progress, done, exits, panics, Startup, and_then, ◌>>=◌, or_exit, or_panic, exit_unless,
}

-- How a step can end.
pub progress_cases :
    {A M : Type 0} (o : Progress A × M)
    → ((a : A) × (u : M) × (o ≡ (done a, u)))
      ⊎ (((e : String) × (u : M) × (o ≡ (exits e, u))) ⊎ ((u : M) × (o ≡ (panics, u))))
progress_cases (done a, u) = inl (a, u, refl)
progress_cases (exits e, u) = inr (inl (e, u, refl))
progress_cases (panics, u) = inr (inr (u, refl))

module _ {D C E : Type 0} where
  module _ {A B : Type 0} (m : Startup D C E A) (f : A → Startup D C E B) (w : Machine D C E) where
    bind_done : (a : A) (u : Machine D C E) → m w ≡ (done a, u) → (m >>= f) w ≡ f a u
    bind_done a u e = ap (and_then f) e

    -- A sequence that gets to its end has got through its first step.
    pub bind_gets_through :
        (b : B)
        → ((m >>= f) w).0 ≡ done b
        → (a : A) × (u : Machine D C E) × (m w ≡ (done a, u)) × ((f a u).0 ≡ done b)
    bind_gets_through b e = elim (progress_cases (m w)) [
      | inl (a, u, h) ↦ (a, u, h, ap (λ o. o.0) (sym (ap (and_then f) h)) ∙ e)
      | inr (inl (x, u, h)) ↦ absurd (cc (sym (ap (λ o. (and_then f o).0) h) ∙ e))
      | inr (inr (u, h)) ↦ absurd (cc (sym (ap (λ o. (and_then f o).0) h) ∙ e))
    ]

  -- A step that leaves the database as it is.
  abbrev pub Keeps : {A : Type 0} → Startup D C E A → Type 0
  Keeps m = (w : Machine D C E) → (m w).1.database ≡ w.database

  pub bind-Keeps :
      {A B : Type 0} (m : Startup D C E A) (f : A → Startup D C E B)
      → Keeps m
      → ((a : A) → Keeps (f a))
      → Keeps (m >>= f)
  bind-Keeps m f k l w = elim (progress_cases (m w)) [
    | inl (a, u, h) ↦
        ap (λ o. (and_then f o).1.database) h ∙ l a u ∙ sym (ap (λ o. o.1.database) h) ∙ k w
    | inr (inl (x, u, h)) ↦
        ap (λ o. (and_then f o).1.database) h ∙ sym (ap (λ o. o.1.database) h) ∙ k w
    | inr (inr (u, h)) ↦
        ap (λ o. (and_then f o).1.database) h ∙ sym (ap (λ o. o.1.database) h) ∙ k w
  ]

  pub or_exit-Keeps : {A : Type 0} (format : String) (o : Option A) → Keeps (or_exit format o)
  or_exit-Keeps format none w = refl
  or_exit-Keeps format (some a) w = refl

  pub or_panic-Keeps : {A : Type 0} (o : Option A) → Keeps (or_panic o)
  or_panic-Keeps none w = refl
  or_panic-Keeps (some a) w = refl

  pub exit_unless-Keeps : (format : String) (b : Bool) → Keeps (exit_unless format b)
  exit_unless-Keeps format b w = ground arith

  pub done-Keeps :
      {A : Type 0} (m : Startup D C E A) (w u : Machine D C E) (a : A)
      → Keeps m
      → m w ≡ (done a, u)
      → u.database ≡ w.database
  done-Keeps m w u a k e = sym (ap (λ o. o.1.database) e) ∙ k w
