-- ===== src/Webserver/Main/Resets.antt =====
-- webserver/main.go: what the start does to the users table.
use sockchat.Prelude.{
  String, ◌≡◌, ◌⊎◌, inl, inr, refl, sym, ap, subst, ◌∙◌, Bool, true, false, not, List, arith,
  Bool-cases, Option-cases, ◌==◌, ==_iff, string_key,
}
use sockchat.Webserver.Startup.{
  Machine, Progress, done, Startup, and_then, ◌>>=◌, ◌>>◌, exit_unless,
}
use sockchat.Webserver.Startup.Laws.{Keeps, bind-Keeps, exit_unless-Keeps, progress_cases}
use sockchat.Webserver.ElasticSearch.{Client, test_elastic_search_connection}
use sockchat.Webserver.ElasticSearch.Checks.{test_elastic_search_connection-Keeps}
use sockchat.Webserver.Main.{
  RedisServers, MySql, Surroundings, Running, reset_users_table, data_source_name,
  test_redis_connection, must_connect_to_my_sql, test_my_sql_connection,
  reset_my_sql_for_dev_environment, must_initialize_redis_client, serve_grpc,
  must_initialize_elastic_search_client, start_services, main, atoi,
}

module _ {D C E : Type 0} (redis : RedisServers C) (es : Client E) (mysql : MySql D)
    (around : Surroundings) (documents : List (String × String)) where
  abbrev reset : D → Bool × D
  reset d = reset_users_table mysql around.create_users_sql d

  -- The database is as it was, or the users table has been reset, which only a development
  -- environment allows, and only after the database has answered.
  abbrev pub Leaves : D → D → Type 0
  Leaves before after =
      (after ≡ before)
      ⊎ ((around.getenv "ENVIRONMENT" ≡ "DEV")
          × (mysql.ping before ≡ true)
          × (after ≡ (reset before).1))

  abbrev Respects : {A : Type 0} → D → Startup D C E A → Type 0
  Respects d m = (w : Machine D C E) → w.database ≡ d → Leaves d (m w).1.database

  kept-Respects : {A : Type 0} (d : D) (m : Startup D C E A) → Keeps m → Respects d m
  kept-Respects d m k w e = inl (k w ∙ e)

  bind-Respects :
      {A B : Type 0} (d : D) (m : Startup D C E A) (f : A → Startup D C E B)
      → Keeps m
      → ((a : A) → Respects d (f a))
      → Respects d (m >>= f)
  bind-Respects d m f k l w e = elim (progress_cases (m w)) [
    | inl (a, u, h) ↦
        subst (Leaves d) (ap (λ o. (and_then f o).1.database) (sym h))
          (l a u (sym (ap (λ o. o.1.database) h) ∙ k w ∙ e))
    | inr (inl (x, u, h)) ↦
        inl (ap (λ o. (and_then f o).1.database) h ∙ sym (ap (λ o. o.1.database) h) ∙ k w ∙ e)
    | inr (inr (u, h)) ↦
        inl (ap (λ o. (and_then f o).1.database) h ∙ sym (ap (λ o. o.1.database) h) ∙ k w ∙ e)
  ]

  pub test_redis_connection-Keeps : Keeps (test_redis_connection {D = D} {E = E} redis)
  unfolding test_redis_connection
  test_redis_connection-Keeps w = ground arith

  start_services-Keeps : Keeps (start_services {D = D} {C = C} es around)
  unfolding start_services must_initialize_elastic_search_client must_initialize_redis_client
      serve_grpc
  start_services-Keeps w = elim (Option-cases (atoi (around.getenv "REDIS_DB"))) [
    | inl e ↦ ground arith
    | inr (db, e) ↦ ground arith
  ]

  abbrev cleaned : Machine D C E → Machine D C E
  cleaned w = record w { database = (reset w.database).1 }

  resets :
      (w : Machine D C E)
      → (around.getenv "ENVIRONMENT" == "DEV") ≡ true
      → reset_my_sql_for_dev_environment mysql around w
        ≡ exit_unless "error setting up the users table %v" (not (reset w.database).0) (cleaned w)
  unfolding reset_my_sql_for_dev_environment
  resets w dev = ground arith

  skips :
      (w : Machine D C E)
      → (around.getenv "ENVIRONMENT" == "DEV") ≡ false
      → reset_my_sql_for_dev_environment mysql around w ≡ (done tt, w)
  unfolding reset_my_sql_for_dev_environment
  skips w other = ground arith

  abbrev goes_on : Progress (Unit {0}) × Machine D C E → Progress Running × Machine D C E
  goes_on = and_then (λ _. start_services es around)

  reset-Respects :
      (d : D)
      → mysql.ping d ≡ true
      → Respects d (reset_my_sql_for_dev_environment mysql around >> start_services es around)
  reset-Respects d answers w e = elim (Bool-cases (around.getenv "ENVIRONMENT" == "DEV")) [
    | inl dev ↦
        let kept =
          bind-Keeps (exit_unless "error setting up the users table %v" (not (reset w.database).0))
            (λ _. start_services es around)
            (exit_unless-Keeps "error setting up the users table %v" (not (reset w.database).0))
            (λ _. start_services-Keeps) (cleaned w) in
        inr (
          (==_iff (around.getenv "ENVIRONMENT") "DEV").0 dev,
          answers,
          ap (λ o. (goes_on o).1.database) (resets w dev) ∙ kept ∙ ap (λ x. (reset x).1) e,
        )
    | inr other ↦
        inl (ap (λ o. (goes_on o).1.database) (skips w other) ∙ start_services-Keeps w ∙ e)
  ]

  ping-Respects :
      (d : D)
      → Respects d (
          test_my_sql_connection mysql around
          >> (reset_my_sql_for_dev_environment mysql around >> start_services es around))
  unfolding test_my_sql_connection
  ping-Respects d w e = elim (Bool-cases (mysql.ping d)) [
    | inl answers ↦
        subst (λ o. Leaves d o.1.database) (sym (passes answers)) (reset-Respects d answers w e)
    | inr silent ↦ inl (ground (arith, e, silent))
  ]
    where
      rest : Startup D C E Running
      rest = reset_my_sql_for_dev_environment mysql around >> start_services es around

      passes : mysql.ping d ≡ true → (test_my_sql_connection mysql around >> rest) w ≡ rest w
      passes answers =
          let pinged : test_my_sql_connection {C = C} {E = E} mysql around w ≡ (done tt, w) =
            ground (arith, e, answers) in
          ap (and_then (λ _. rest)) pinged

  -- However the start ends, with a server that listens, an exit or a panic: the database is as it was
  -- before, or the environment is `DEV`, the database has answered, and it is what `ResetUsersTable`
  -- makes of it.
  pub main-Leaves :
      (w : Machine D C E) → Leaves w.database (main redis es mysql around documents w).1.database
  unfolding main
  main-Leaves w =
      bind-Respects w.database (test_redis_connection redis) _ test_redis_connection-Keeps
        (λ _.
          bind-Respects w.database (test_elastic_search_connection es documents) _
            (test_elastic_search_connection-Keeps es documents)
            (λ _.
              bind-Respects w.database (must_connect_to_my_sql mysql around) _
                (exit_unless-Keeps _ (mysql.opens (data_source_name around)))
                (λ _. ping-Respects w.database)))
        w refl
