-- ===== src/Server/Start.antt =====
-- src/relay/server.rs: `Relay::new` and `Relay::start`, up to the loops that accept connections.
use rust_croc.Common.{ℕ, ◌≡◌, refl, List, [], ◌∷◌, ◌++◌, map, Bytes, Outcome, ok, err, panic, codes}
use rust_croc.Server.{Rooms}

-- `Relay`, less the map of rooms, which is empty at first and which all instances share.
pub record RelayServer : Type 0 where
  pub bind_address : Bytes
  pub password : Bytes
  pub multiplex_ports : List ℕ

-- `Relay::new`
unfoldable pub new : Bytes → Bytes → List ℕ → RelayServer × Rooms
new bind_address password multiplex_ports = (
  record { bind_address = bind_address; password = password; multiplex_ports = multiplex_ports },
  [],
)

-- `run_instance` with its arguments: where it listens, and what it passes on to `handle`.
pub record Instance : Type 0 where
  pub ip : Bytes
  pub port : ℕ
  pub password : Bytes
  pub multiplex_ports : List ℕ

-- The instance for one of the ports.
unfoldable pub multiplexed : RelayServer → Bytes → ℕ → Instance
multiplexed r ip port = record {
  ip = ip;
  port = port;
  password = codes "pass123";
  multiplex_ports = r.multiplex_ports;
}

start_at : RelayServer → Outcome (Bytes × ℕ) → Outcome (List Instance)
unfolding multiplexed
start_at r (ok (ip, port)) = ok (
    map (multiplexed r ip) r.multiplex_ports
    ++ (record { ip = ip; port = port; password = r.password; multiplex_ports = r.multiplex_ports }
        ∷ []))
start_at r (err e) = err e
start_at r panic = panic

-- `Relay::start`, where `parse` is that of a `SocketAddr`: the instances that it runs, in order.
unfoldable pub start : (Bytes → Outcome (Bytes × ℕ)) → RelayServer → Outcome (List Instance)
unfolding start_at
start parse r = start_at r (parse r.bind_address)

-- What `main` starts.
two_instances :
    start
      (λ a. ok (codes "0.0.0.0", 9009))
      (new (codes "0.0.0.0:9009") (codes "secret") (9010 ∷ [])).0
    ≡ ok (
        record {
          ip = codes "0.0.0.0";
          port = 9010;
          password = codes "pass123";
          multiplex_ports = 9010 ∷ [];
        }
        ∷ record {
          ip = codes "0.0.0.0";
          port = 9009;
          password = codes "secret";
          multiplex_ports = 9010 ∷ [];
        }
        ∷ [])
unfolding start new
two_instances = refl
