-- ===== src/Webserver/Main/Conditions.antt =====
-- webserver/main.go: what holds when the server listens.
use sockchat.Prelude.{
  String, ◌≡◌, ◌⊎◌, inl, inr, refl, sym, ap, subst, ◌∙◌, true, false, some, List, [], arith,
  Bool-cases, Option-cases, ==_iff, string_key,
}
use sockchat.Api.Json.{Fields, end}
use sockchat.Api.Maps.{decode_map, map_at}
use sockchat.Webserver.Startup.{Machine, done, ◌>>◌, print}
use sockchat.Webserver.Startup.Laws.{bind_gets_through, done-Keeps}
use sockchat.Webserver.ElasticSearch.{
  Client, Response, test_elastic_search_connection, check_cluster, index_documents, check_search,
}
use sockchat.Webserver.ElasticSearch.Checks.{test_elastic_search_connection-Keeps}
use sockchat.Webserver.Main.Resets.{test_redis_connection-Keeps}
use sockchat.Webserver.Main.{
  RedisServers, MySql, Surroundings, Running, Reading, hit, missing, broken, reset_users_table,
  data_source_name, test_redis_connection, must_connect_to_my_sql, test_my_sql_connection,
  reset_my_sql_for_dev_environment, must_initialize_redis_client, serve_grpc,
  must_initialize_elastic_search_client, start_services, main, local_redis, atoi, grpc_port,
  http_port,
}

reading_cases :
    (r : Reading) → ((value : String) × (r ≡ hit value)) ⊎ ((r ≡ missing) ⊎ (r ≡ broken))
reading_cases (hit value) = inl (value, refl)
reading_cases missing = inr (inl refl)
reading_cases broken = inr (inr refl)

module _ {D C E : Type 0} (redis : RedisServers C) (es : Client E) (mysql : MySql D)
    (around : Surroundings) (documents : List (String × String)) where
  -- The Redis server on the local host takes a key and gives one back.
  abbrev RedisWorks : C → Type 0
  RedisWorks c =
      let (failed, kept) = redis.set local_redis "key" "value" c in
      (failed ≡ false) × ((value : String) × (redis.get local_redis "key" kept ≡ hit value))

  redis-Works :
      (w : Machine D C E)
      → (test_redis_connection {D = D} {E = E} redis w).0 ≡ done tt
      → RedisWorks w.caches
  unfolding test_redis_connection
  redis-Works w e = elim (Bool-cases (redis.set local_redis "key" "value" w.caches).0) [
    | inl h ↦ absurd (ground (arith, e, h))
    | inr h ↦
        elim (reading_cases
          (redis.get local_redis "key" (redis.set local_redis "key" "value" w.caches).1)) [
            | inl (value, g) ↦ (h, (value, g))
            | inr (inl g) ↦ absurd (ground (arith, e, h, g))
            | inr (inr g) ↦ absurd (ground (arith, e, h, g))
          ]
  ]

  -- The cluster answers with its version.
  abbrev ClusterWorks : E → Type 0
  ClusterWorks search =
      (es.new_default_client ≡ true)
      × ((res : Response) × (es.info search ≡ some res)
          × (res.is_error ≡ false)
          × ((r : Fields) × (decode_map end res.body ≡ some r)
              × ((version : Fields) × (map_at "version" r ≡ some version))))

  cluster-Works :
      (w : Machine D C E) (r : Fields)
      → (check_cluster {D = D} {C = C} es w).0 ≡ done r
      → ClusterWorks w.search
  unfolding check_cluster
  cluster-Works w r e = elim (Bool-cases es.new_default_client) [
    | inl c ↦ elim (Option-cases (es.info w.search)) [
      | inl i ↦ absurd (ground (arith, e, c, i))
      | inr (res, i) ↦ elim (Bool-cases res.is_error) [
        | inl b ↦ absurd (ground (arith, e, c, i, b))
        | inr b ↦ elim (Option-cases (decode_map end res.body)) [
          | inl d ↦ absurd (ground (arith, e, c, i, b, d))
          | inr (m, d) ↦ elim (Option-cases (map_at "version" m)) [
            | inl v ↦ absurd (ground (arith, e, c, i, b, d, v))
            | inr (version, v) ↦ (c, (res, i, b, (m, d, (version, v))))
          ]
        ]
      ]
    ]
    | inr c ↦ absurd (ground (arith, e, c))
  ]

  search-Works :
      (w u : Machine D C E) (x : Unit {0})
      → test_elastic_search_connection {D = D} {C = C} es documents w ≡ (done x, u)
      → ClusterWorks w.search
  unfolding test_elastic_search_connection
  search-Works w u x e =
      let start = print {D = D} {C = C} "# Testing ElasticSearch connection... #\n" [] w in
      let (r, _, h, _) =
        bind_gets_through (check_cluster es)
          (λ r. index_documents es documents >> check_search es r) start.1 x (ap (λ o. o.0) e) in
      cluster-Works start.1 r (ap (λ o. o.0) h)

  services-Work :
      (w : Machine D C E) (s : Running)
      → (start_services {D = D} {C = C} es around w).0 ≡ done s
      → (atoi (around.getenv "REDIS_DB") ≡ some s.cache.db)
        × (around.listens_at grpc_port ≡ true)
        × (around.listens_at http_port ≡ true)
  unfolding start_services must_initialize_elastic_search_client must_initialize_redis_client
      serve_grpc
  services-Work w s e = elim (Option-cases (atoi (around.getenv "REDIS_DB"))) [
    | inl d ↦ absurd (ground (arith, e, d))
    | inr (db, d) ↦ (ground (arith, e, d), ground (arith, e, d), ground (arith, e, d))
  ]

  -- What a server that listens has been through.
  abbrev pub Passes : Machine D C E → Running → Type 0
  Passes w s =
      RedisWorks w.caches
      × ClusterWorks w.search
      × (mysql.opens (data_source_name around) ≡ true)
      × (mysql.ping w.database ≡ true)
      × (around.getenv "ENVIRONMENT" ≡ "DEV"
          → (reset_users_table mysql around.create_users_sql w.database).0 ≡ false)
      × (atoi (around.getenv "REDIS_DB") ≡ some s.cache.db)
      × (around.listens_at grpc_port ≡ true)
      × (around.listens_at http_port ≡ true)

  connected :
      (w u : Machine D C E) (x : Unit {0})
      → must_connect_to_my_sql mysql around w ≡ (done x, u)
      → (mysql.opens (data_source_name around) ≡ true) × (u ≡ w)
  unfolding must_connect_to_my_sql
  connected w u x e = elim (Bool-cases (mysql.opens (data_source_name around))) [
    | inl h ↦ (h, ground (arith, e, h))
    | inr h ↦ absurd (ground (arith, e, h))
  ]

  pinged :
      (w u : Machine D C E) (x : Unit {0})
      → test_my_sql_connection mysql around w ≡ (done x, u)
      → (mysql.ping w.database ≡ true) × (u ≡ w)
  unfolding test_my_sql_connection
  pinged w u x e = elim (Bool-cases (mysql.ping w.database)) [
    | inl h ↦ (h, ground (arith, e, h))
    | inr h ↦ absurd (ground (arith, e, h))
  ]

  was_reset :
      (w u : Machine D C E) (x : Unit {0})
      → reset_my_sql_for_dev_environment mysql around w ≡ (done x, u)
      → around.getenv "ENVIRONMENT" ≡ "DEV"
      → (reset_users_table mysql around.create_users_sql w.database).0 ≡ false
  unfolding reset_my_sql_for_dev_environment
  was_reset w u x e dev =
      elim (Bool-cases (reset_users_table mysql around.create_users_sql w.database).0) [
        | inl h ↦ absurd (ground (arith, e, h, dev, ==_iff (around.getenv "ENVIRONMENT") "DEV"))
        | inr h ↦ h
      ]

  redis-search :
      (w : Machine D C E) → (test_redis_connection {D = D} {E = E} redis w).1.search ≡ w.search
  unfolding test_redis_connection
  redis-search w = ground arith

  -- The server listens only if the Redis server on the local host has taken a key and given one back,
  -- Elasticsearch has told its version, MySQL has answered, the users table could be reset if the
  -- environment is `DEV`, `REDIS_DB` is a number, which is the cache's database, and both ports are
  -- free.
  pub main-Passes :
      (w : Machine D C E) (s : Running)
      → (main redis es mysql around documents w).0 ≡ done s
      → Passes w s
  unfolding main
  main-Passes w s e =
      let (_, w₁, h₁, e₁) = bind_gets_through (test_redis_connection redis) _ w s e in
      let (_, w₂, h₂, e₂) =
        bind_gets_through (test_elastic_search_connection es documents) _ w₁ s e₁ in
      let (_, w₃, h₃, e₃) = bind_gets_through (must_connect_to_my_sql mysql around) _ w₂ s e₂ in
      let (_, w₄, h₄, e₄) = bind_gets_through (test_my_sql_connection mysql around) _ w₃ s e₃ in
      let (_, w₅, h₅, e₅) =
        bind_gets_through (reset_my_sql_for_dev_environment mysql around)
          (λ _. start_services es around) w₄ s e₄ in
      let (opened, same₃) = connected w₂ w₃ _ h₃ in
      let (answers, same₄) = pinged w₃ w₄ _ h₄ in
      let (db, grpc, http) = services-Work w₅ s e₅ in
      let same : w₃.database ≡ w.database =
        ap (λ (x : Machine D C E). x.database) same₃
        ∙ done-Keeps (test_elastic_search_connection es documents) w₁ w₂ _
            (test_elastic_search_connection-Keeps es documents) h₂
        ∙ done-Keeps (test_redis_connection redis) w w₁ _
            (test_redis_connection-Keeps redis es mysql around documents) h₁ in
      (
        redis-Works w (ap (λ o. o.0) h₁),
        subst ClusterWorks (sym (ap (λ o. o.1.search) h₁) ∙ redis-search w)
            (search-Works w₁ w₂ _ h₂),
        opened,
        subst (λ d. mysql.ping d ≡ true) same answers,
        subst
            (λ d.
              around.getenv "ENVIRONMENT" ≡ "DEV"
              → (reset_users_table mysql around.create_users_sql d).0 ≡ false)
            (ap (λ (x : Machine D C E). x.database) same₄ ∙ same) (was_reset w₄ w₅ _ h₅),
        db,
        grpc,
        http,
      )
