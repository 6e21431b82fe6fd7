-- ===== src/Tests/Connect.antt =====
-- A client that connects to a relay.
use rust_croc.Common.{◌≡◌, refl, false, some, [], ◌∷◌, Bytes, ok, beq, codes, arith, ◌++◌, true}
use rust_croc.Server.{is_full, lookup, insert}
use rust_croc.Server.Answer.{handle}
use rust_croc.Client.{connect}
use rust_croc.Client.Connect.{Ends, connect-handle, fresh}
use rust_croc.Tests.Net.{net, socket_with}
use rust_croc.Tests.Crypto.{prim}
use rust_croc.Tests.Handshake.{
  pake, config, waiting, serving, addr, ready, random, a-IsClient, right_password, addr_text,
}
use rust_croc.Net.{Socket}
use rust_croc.Client.Handshake.{settled}
use rust_croc.Std.Slice.{str_prefix}

room_prefix : str_prefix 3 (codes "12345") ≡ ok (codes "123")
unfolding str_prefix
room_prefix = refl

connect-handle_example :
    (up : Bytes) × (down : Bytes) × ((rest : Bytes)
      → let t : Socket = record { incoming = rest; sent = down; writable = true } in
        handle net prim pake config
          (ok 4)
          []
          (ok addr)
          (record { session = socket_with (up ++ rest); rooms = (codes "123", waiting) ∷ [] })
        ≡ (
          ok (some (codes "123")),
          record { session = t; rooms = (codes "123", record waiting { second = some t }) ∷ [] },
        ))
    × ((rest : Bytes)
        → Ends net prim pake config
            (codes "pass123")
            (codes "123")
            (some waiting)
            (settled config addr up rest
              (fresh net prim pake (socket_with []) (codes "12345") false))
            (connect net prim pake random
              (ok (socket_with (down ++ rest)))
              (codes "pass123")
              (codes "12345")
              false))
unfolding lookup insert is_full beq
connect-handle_example =
    connect-handle net prim pake config random [] (codes "pass123") (codes "123") addr
      (codes "12345") 4 false serving (socket_with []) (λ p. omega arith) (omega arith) room_prefix
      (a-IsClient (codes "pass123") right_password (omega arith)) addr_text (omega arith) ready refl
      refl
