-- ===== src/Application/Connecting.antt =====
-- Which connection the data client of the main server gets.
use mhserver.Common.{
  ℕ, ◌≡◌, refl, ◌∙◌, true, not, ◌||◌, Option, none, some, [], ◌∷◌, Text, codes, arith, ok,
  if◌then◌else◌, inl, inr, Option-cases, Bool-cases,
}
use mhserver.Common.Dict.{Dict, lookup, insert, text_eq, NodupKeys, lookup-insert}
use mhserver.Config.{with_allocated}
use mhserver.Config.Application.{SubServer, SubServers, ApplicationConfig}
use mhserver.Server.{main_sem_size}
use mhserver.Application.{
  MainServer, connect, address_of, is_main, main_server, setup_auth_service, auth_limiter,
  data_limiter,
}

module _ {Conn : Type 0} (print : ℕ → Text) (new_client : Text → Option Conn) where
  abbrev client_of : Text → Option SubServer → Option Conn
  client_of name none = none
  client_of name (some srv) =
      if not srv.enabled || is_main name then none else new_client (address_of print new_client srv)

  -- The client of a subserver that is there and enabled, and is not the main one.
  abbrev pub wanted : Text → SubServers → Option Conn
  wanted name m = client_of name (lookup name m)

  abbrev or_else : Option Conn → Option Conn → Option Conn
  or_else none old = old
  or_else (some new) old = some new

  or_else-none : (o : Option Conn) → or_else o none ≡ o
  or_else-none none = refl
  or_else-none (some conn) = refl

  connect_lem :
      (name : Text) (m : SubServers) (old new : Dict Text Conn)
      → NodupKeys m
      → connect print new_client m old ≡ some new
      → lookup name new ≡ or_else (wanted name m) (lookup name old)
  unfolding connect lookup
  connect_lem name [] old new unique e = ground arith
  connect_lem name ((k, srv) ∷ m) old new unique e =
      elim (Bool-cases (not srv.enabled || is_main k)) [
        | inl skipped ↦ ground (
          arith,
          skipped,
          connect_lem name m old new unique.1 (ground (arith, skipped)),
          unique.0,
        )
        | inr taken ↦ elim (Option-cases (new_client (address_of print new_client srv))) [
          | inl failed ↦ absurd (ground (arith, taken, failed))
          | inr (conn, made) ↦ ground (
            arith,
            taken,
            made,
            connect_lem name m (insert k conn old) new unique.1 (ground (arith, taken, made)),
            lookup-insert name k conn old,
            unique.0,
          )
        ]
      ]

  -- What runMain has put together when it is about to serve.
  pub record Made (cfg : ApplicationConfig) (srv : MainServer Conn) : Type 0 where
    pub main : SubServer
    pub connections : Dict Text Conn
    pub found : lookup (codes "main") cfg.sub_servers ≡ some main
    pub enabled : main.enabled ≡ true
    pub connected : connect print new_client cfg.sub_servers [] ≡ some connections
    pub auth_limits : srv.auth_limiter ≡ auth_limiter
    pub data_limits : srv.data_limiter ≡ data_limiter
    pub files : srv.files ≡ lookup (codes "files") connections
    pub addr : srv.addr ≡ address_of print new_client main

  pub main_server-Made :
      (cfg : ApplicationConfig) (srv : MainServer Conn)
      → main_server print new_client cfg ≡ ok (some srv)
      → Made cfg srv
  unfolding main_server
  main_server-Made cfg srv e = elim (Option-cases (lookup (codes "main") cfg.sub_servers)) [
    | inl missing ↦ absurd (ground (arith, missing))
    | inr (main, found) ↦ elim (Bool-cases main.enabled) [
      | inr off ↦ absurd (ground (arith, found, off))
      | inl on ↦ elim (Option-cases (connect print new_client cfg.sub_servers [])) [
        | inl failed ↦ absurd (ground (arith, found, on, failed))
        | inr (connections, made) ↦
            elim (Option-cases
              (main_sem_size (with_allocated main.extra.allocated_memory cfg.memory))) [
                | inl no_size ↦ absurd (ground (arith, found, on, made, no_size))
                | inr (size, sized) ↦ elim (Option-cases (setup_auth_service cfg)) [
                  | inl no_auth ↦ absurd (ground (arith, found, on, made, sized, no_auth))
                  | inr (auth, set_up) ↦ record {
                    main = main;
                    connections = connections;
                    found = found;
                    enabled = on;
                    connected = made;
                    auth_limits = ground (arith, found, on, made, sized, set_up);
                    data_limits = ground (arith, found, on, made, sized, set_up);
                    files = ground (arith, found, on, made, sized, set_up);
                    addr = ground (arith, found, on, made, sized, set_up);
                  }
                ]
              ]
      ]
    ]
  ]

  -- A main server that is about to serve has, as the connection of its data client, that of "files" if that
  -- subserver is there and enabled, and else nil; its address is that of the subserver "main".
  pub files_connection :
      (cfg : ApplicationConfig) (srv : MainServer Conn)
      → NodupKeys cfg.sub_servers
      → main_server print new_client cfg ≡ ok (some srv)
      → (srv.files ≡ wanted (codes "files") cfg.sub_servers)
        × ((main : SubServer) × (lookup (codes "main") cfg.sub_servers ≡ some main)
            × (main.enabled ≡ true)
            × (srv.addr ≡ address_of print new_client main))
  unfolding lookup
  files_connection cfg srv unique e =
      let m = main_server-Made cfg srv e in
      (
        m.files
            ∙ connect_lem (codes "files") cfg.sub_servers [] m.connections unique m.connected
            ∙ or_else-none (wanted (codes "files") cfg.sub_servers),
        (m.main, m.found, m.enabled, m.addr),
      )
