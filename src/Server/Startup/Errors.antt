-- ===== src/Server/Startup/Errors.antt =====
-- What keeps the server from starting (run of cmd/server/main.go).
use rtmetrics.Base.{◌≡◌, ◌≢◌, ◌↔◌, ◌⊎◌, inl, inr, refl, Bool, false, some, arith, eq_iff}
use rtmetrics.Repository.{Error, Result, ok, err, is_ok}
use rtmetrics.Config.Server.{ServerConfig}
use rtmetrics.Server.{Server, Platform}
use rtmetrics.Server.Startup.{Outside, parse_cidr, private_key, grpc_server, run}

module _ {D Network : Type 0} (o : Outside D Network) (cfg : ServerConfig) where
  -- What is configured and does not work: the trusted subnet, the private key, or the listener for
  -- gRPC and its certificate.
  abbrev pub Broken : Type 0
  Broken =
      ((cfg.trusted_subnet ≢ "") × (is_ok (o.parse_cidr cfg.trusted_subnet) ≡ false))
      ⊎ (((cfg.crypto_key ≢ "") × (is_ok (o.load_private_key cfg.crypto_key) ≡ false))
          ⊎ ((cfg.grpc_address ≢ "")
              × (((e : Error) × (o.listen cfg.grpc_address ≡ some e))
                  ⊎ ((e : Error) × (o.credentials cfg.grpc_cert cfg.grpc_key ≡ some e)))))

  parse_cidr-fails :
      (is_ok (parse_cidr o cfg.trusted_subnet) ≡ false)
      ↔ ((cfg.trusted_subnet ≢ "") × (is_ok (o.parse_cidr cfg.trusted_subnet) ≡ false))
  unfolding parse_cidr
  parse_cidr-fails = ground (arith, eq_iff cfg.trusted_subnet "")

  private_key-fails :
      (is_ok (private_key o cfg) ≡ false)
      ↔ ((cfg.crypto_key ≢ "") × (is_ok (o.load_private_key cfg.crypto_key) ≡ false))
  unfolding private_key
  private_key-fails = ground (arith, eq_iff cfg.crypto_key "")

  grpc_server-fails : (is_ok (grpc_server o cfg) ≡ false) ↔ (
      (cfg.grpc_address ≢ "")
      × (((e : Error) × (o.listen cfg.grpc_address ≡ some e))
          ⊎ ((e : Error) × (o.credentials cfg.grpc_cert cfg.grpc_key ≡ some e))))
  unfolding grpc_server
  grpc_server-fails = ground (arith, eq_iff cfg.grpc_address "")

  -- The nested tests of run.
  any_err :
      {A B C R : Type 0} (a : Result A) (b : Result B) (c : Result C) (f : A → B → C → R)
      → (is_ok (elim a as (λ x. Result R) [
        | err e ↦ err e
        | ok x ↦ elim b as (λ x. Result R) [
          | err e ↦ err e
          | ok y ↦ elim c as (λ x. Result R) [ err e ↦ err e | ok z ↦ ok (f x y z) ]
        ]
      ])
          ≡ false)
        ↔ ((is_ok a ≡ false) ⊎ ((is_ok b ≡ false) ⊎ (is_ok c ≡ false)))
  any_err (err e) b c f = (λ h. inl refl, λ h. refl)
  any_err (ok x) (err e) c f = (λ h. inr (inl refl), λ h. refl)
  any_err (ok x) (ok y) (err e) f = (λ h. inr (inr refl), λ h. refl)
  any_err (ok x) (ok y) (ok z) f = ground arith

  -- With its configuration loaded, the server gets as far as making its HTTP server, unless, and only
  -- unless, the configured subnet does not parse, the configured private key does not load, or the
  -- configured gRPC address cannot be listened on or its certificate not be loaded: no failure of the
  -- database, its migrations, the snapshot or the audit file keeps it from there. (What comes after,
  -- ListenAndServe among it, is outside the statement.)
  pub run_fails_iff :
      (p : Platform) (readable : Bool) (s : Server)
      → (is_ok (run o p readable cfg s) ≡ false) ↔ Broken
  unfolding run
  run_fails_iff p readable s =
      let (to, from) =
        any_err (parse_cidr o cfg.trusted_subnet) (private_key o cfg) (grpc_server o cfg) _ in
      (
        λ h. elim (to h) [
          | inl bad ↦ inl (parse_cidr-fails.0 bad)
          | inr (inl bad) ↦ inr (inl (private_key-fails.0 bad))
          | inr (inr bad) ↦ inr (inr (grpc_server-fails.0 bad))
        ],
        λ h. from (elim h [
          | inl bad ↦ inl (parse_cidr-fails.1 bad)
          | inr (inl bad) ↦ inr (inl (private_key-fails.1 bad))
          | inr (inr bad) ↦ inr (inr (grpc_server-fails.1 bad))
        ]),
      )
