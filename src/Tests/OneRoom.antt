-- ===== src/Tests/OneRoom.antt =====
-- A client that sends something else than it should.
use rust_croc.Common.{◌≡◌, ◌⊎◌, false, some, [], ◌∷◌, Bytes, ok, beq, codes}
use rust_croc.Server.{Serving, lookup}
use rust_croc.Server.Negotiate.{placed, entered}
use rust_croc.Server.Answer.{handle}
use rust_croc.Server.OneRoom.{handle_touches_one_room}
use rust_croc.Tests.Net.{net, socket_with}
use rust_croc.Tests.Crypto.{prim}
use rust_croc.Tests.Handshake.{pake, config, waiting, addr}

abbrev odd : Serving
odd = record { session = socket_with (codes "GET / HTTP"); rooms = (codes "123", waiting) ∷ [] }

handle_touches_one_room_example :
    let (r, t) = handle net prim pake config (ok 4) [] (ok addr) odd in
    (t.rooms ≡ odd.rooms)
    ⊎ ((name : Bytes) × (r ≡ ok (some name))
        × (entered name (lookup name odd.rooms) ≡ some name)
        × (t.rooms ≡ placed 7 name (lookup name odd.rooms) t.session odd.rooms)
        × ((other : Bytes)
            → beq name other ≡ false
            → lookup other t.rooms ≡ lookup other odd.rooms))
handle_touches_one_room_example =
    handle_touches_one_room net prim pake config (ok 4) [] (ok addr) odd
