-- ===== src/Tests/Relaying.antt =====
-- Two connections with something to say to each other.
use rust_croc.Common.{◌≡◌, refl, true, [], ◌++◌, codes, arith}
use rust_croc.Server.Bridge.{Bridge, copy, Copied, a_to_b, b_to_a, Bridged, here, next}
use rust_croc.Server.Relaying.{bridge_keeps, bridge_delivers}
use rust_croc.Tests.Net.{net, socket_with}

abbrev talk : Bridge
talk = record { a = socket_with (codes "hello"); b = socket_with (codes "yes") }

abbrev two_over : Bridge
two_over = record {
  a = socket_with (codes "llo");
  b = record { incoming = codes "yes"; sent = codes "he"; writable = true };
}

abbrev one_back : Bridge
one_back = record {
  a = record { incoming = codes "llo"; sent = codes "y"; writable = true };
  b = record { incoming = codes "es"; sent = codes "he"; writable = true };
}

first_round : Copied net talk two_over
unfolding copy
first_round = a_to_b 2 (omega arith) (omega arith) (omega arith) refl

second_round : Copied net two_over one_back
unfolding copy
second_round = b_to_a 1 (omega arith) (omega arith) (omega arith) refl

bridge_keeps_example :
    (codes "he" ++ codes "llo" ≡ [] ++ codes "hello")
    × (codes "y" ++ codes "es" ≡ [] ++ codes "yes")
bridge_keeps_example = bridge_keeps net talk one_back (next (next here first_round) second_round)

bridge_delivers_example :
    (t : Bridge) × Bridged net talk t
    × (t.a.incoming ≡ [])
    × (t.b.sent ≡ codes "hello")
    × (t.b.incoming ≡ codes "yes")
bridge_delivers_example = bridge_delivers net (codes "hello") talk refl refl
