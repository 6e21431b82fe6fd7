-- ===== src/Tests/Echo.antt =====
-- The two clients of the echo over one relay with no rooms.
use rust_croc.Common.{◌≡◌, true, some, [], ◌∷◌, Bytes, ok, codes, arith}
use rust_croc.Net.{Socket}
use rust_croc.Program.Relay.{RelayRun}
use rust_croc.Echo.{client_a, client_b}
use rust_croc.Echo.Relayed.{echo_relayed}
use rust_croc.Tests.Net.{net, socket_with}
use rust_croc.Tests.Crypto.{prim}
use rust_croc.Tests.Handshake.{pake, config, addr, random}
use rust_croc.Tests.Keepalive.{texts_json}
use rust_croc.Tests.Messages.{messages_json}
use rust_croc.Tests.Relayed.{joins, no_room, ends, own_ips}

echo_relayed_example :
    (said : Bytes) × (heard : Bytes) × (said' : Bytes) × (heard' : Bytes) × (s : Socket)
    × (r : Socket) × RelayRun net prim pake config config
        (codes "123")
        []
        []
        addr
        addr
        4
        4
        2
        ends
        ends
        []
        said
        heard
        said'
        heard'
    × (client_a net prim pake messages_json texts_json [] 3 random (ok (socket_with heard))
        ≡ (ok true, some s))
    × (client_b net prim pake messages_json random (ok (socket_with heard')) ≡ (ok true, some r))
    × (s.sent ≡ said)
    × (r.sent ≡ said')
    × (s.incoming ≡ [])
    × (r.incoming ≡ [])
echo_relayed_example =
    echo_relayed net prim pake messages_json config config random random [] [] addr addr 4 4 2 ends
      ends [] texts_json [] (codes "9010" ∷ []) 3 (λ p. omega arith) joins joins no_room
      (omega arith) own_ips (omega arith)
