-- ===== src/Tests/Keepalive.antt =====
-- A toy JSON of texts, and a client that waits for its receiver.
use rust_croc.Common.{
  ℕ, zero, suc, ◌<◌, ◌≡◌, refl, ap, ◌∙◌, inl, inr, true, false, none, List, [], ◌∷◌, ◌++◌, length,
  All, Bytes, ok, ◌==◌, if◌then◌else◌, beq, codes, arith,
}
use rust_croc.Std.Utf8.{is_utf8_ascii}
use rust_croc.Json.{Json}
use rust_croc.Wire.RoundTrip.{framed}
use rust_croc.Wire.Tasks.{wire}
use rust_croc.Client.{RelayClient, outward, outward_all, local_ips, handle_keepalive}
use rust_croc.Client.Keepalive.{IsWaiting, replies, handle_keepalive_waits}
use rust_croc.Tests.Net.{net, socket_with}

-- A number is so many letters and a comma, a text its numbers and a semicolon.
abbrev write_number : ℕ → Bytes → Bytes
write_number zero rest = b',' ∷ rest
write_number (suc n) rest = b'a' ∷ write_number n rest

abbrev write_text : Bytes → Bytes → Bytes
write_text [] rest = b';' ∷ rest
write_text (n ∷ ns) rest = write_number n (write_text ns rest)

abbrev write_texts : List Bytes → Bytes
write_texts [] = []
write_texts (t ∷ ts) = write_text t (write_texts ts)

abbrev start_number : List Bytes → List Bytes
start_number [] = []
start_number (t ∷ ts) = (0 ∷ t) ∷ ts

abbrev count : List Bytes → List Bytes
count [] = []
count ([] ∷ ts) = [] ∷ ts
count ((n ∷ t) ∷ ts) = (suc n ∷ t) ∷ ts

abbrev read_texts : Bytes → List Bytes
read_texts [] = []
read_texts (b ∷ bs) =
    let rest = read_texts bs in
    if b == b';' then [] ∷ rest else if b == b',' then start_number rest else count rest

read_number :
    (n : ℕ) (rest t : Bytes) (ts : List Bytes)
    → read_texts rest ≡ t ∷ ts
    → read_texts (write_number n rest) ≡ (n ∷ t) ∷ ts
read_number zero rest t ts h = rw h refl
read_number (suc n) rest t ts h = rw (read_number n rest t ts h) refl

read_text : (t rest : Bytes) → read_texts (write_text t rest) ≡ t ∷ read_texts rest
read_text [] rest = refl
read_text (n ∷ ns) rest =
    read_number n (write_text ns rest) ns (read_texts rest) (read_text ns rest)

pub read_write : (ts : List Bytes) → read_texts (write_texts ts) ≡ ts
read_write [] = refl
read_write (t ∷ ts) = read_text t (write_texts ts) ∙ ap (λ x. t ∷ x) (read_write ts)

abbrev IsAscii : Bytes → Type 0
IsAscii bs = All (λ b. b < 128) bs

number-IsAscii : (n : ℕ) (rest : Bytes) → IsAscii rest → IsAscii (write_number n rest)
number-IsAscii zero rest h = (omega arith, h)
number-IsAscii (suc n) rest h = (omega arith, number-IsAscii n rest h)

text-IsAscii : (t rest : Bytes) → IsAscii rest → IsAscii (write_text t rest)
text-IsAscii [] rest h = (omega arith, h)
text-IsAscii (n ∷ ns) rest h = number-IsAscii n (write_text ns rest) (text-IsAscii ns rest h)

pub texts-IsAscii : (ts : List Bytes) → IsAscii (write_texts ts)
texts-IsAscii [] = tt
texts-IsAscii (t ∷ ts) = text-IsAscii t (write_texts ts) (texts-IsAscii ts)

abbrev pub texts_json : Json (List Bytes)
texts_json = record {
  to_string = λ ts. ok (write_texts ts);
  from_str = λ bs. ok (read_texts bs);
  from_slice = λ bs. ok (read_texts bs);
  text = write_texts;
  to_string_lem = λ ts. refl;
  from_str-text = λ ts. ap ok (read_write ts);
  from_slice-text = λ ts. ap ok (read_write ts);
  text-utf8 = λ ts. is_utf8_ascii (write_texts ts) (texts-IsAscii ts);
}

-- One port, and an interface with a loopback address.
abbrev client : RelayClient
client = record {
  stream = socket_with [];
  relay_ports = (1 ∷ []) ∷ [];
  external_ip = none;
  disable_local = false;
  shared_secret = codes "12345";
}

local :
    local_ips net texts_json (((9 ∷ [], true) ∷ (2 ∷ [], false) ∷ []) ∷ []) client
    ≡ ok ((1 ∷ []) ∷ (2 ∷ []) ∷ [])
unfolding local_ips outward outward_all
local = refl

-- Not a ping and not the question.
handshake_ends : ¬ IsWaiting (codes "handshake")
handshake_ends (inl h) = absurd (omega (arith, ap length h))
handshake_ends (inr h) = absurd (omega (arith, ap length h))

handle_keepalive_waits_example :
    handle_keepalive net texts_json
      (((9 ∷ [], true) ∷ (2 ∷ [], false) ∷ []) ∷ [])
      9
      (record client {
        stream = socket_with (
            wire ((1 ∷ []) ∷ codes "ips?" ∷ (1 ∷ []) ∷ [])
            ++ (framed (codes "handshake") ++ codes "z"));
      })
    ≡ (
      ok true,
      record client {
        stream = record { incoming = codes "z"; sent = framed (codes "a,;aa,;"); writable = true };
      },
    )
unfolding replies beq rust_croc.Std.LeBytes.to_le_bytes
handle_keepalive_waits_example =
    handle_keepalive_waits net texts_json (((9 ∷ [], true) ∷ (2 ∷ [], false) ∷ []) ∷ [])
      ((1 ∷ []) ∷ codes "ips?" ∷ (1 ∷ []) ∷ []) (codes "handshake") (codes "z") 9 client
      (inl refl, (inr refl, (inl refl, tt))) handshake_ends (omega arith) (omega arith) local
      (omega arith) refl
