-- ===== src/Client/Negotiate.antt =====
-- What the client makes of the banner and of the answer, and that it understands the server.
use rust_croc.Common.{
  ℕ, ◌<◌, ◌≡◌, ◌≢◌, ◌⊎◌, inl, inr, true, false, some, List, [], ◌∷◌, ◌++◌, map, suc, All,
  All-append, length, Bytes, ok, if◌then◌else◌, codes, arith, ◌==◌,
}
use rust_croc.Std.Utf8.{is_utf8, is_utf8_ascii, is_utf8-append}
use rust_croc.Net.{Net}
use rust_croc.Crypto.{Primitives}
use rust_croc.Std.Str.{
  contains, split, join, to_string, Lacks, IsDigits, split_two, split-join, contains-append,
  to_string-IsDigits,
}
use rust_croc.Server.{banner}
use rust_croc.Client.{RelayClient, take_banner}

-- The ports as the client keeps them: where the server has none, one that is called "ok".
abbrev pub port_names : List ℕ → List Bytes
port_names [] = codes "ok" ∷ []
port_names (p ∷ ps) = to_string p ∷ map to_string ps

digits-Lacks : (b : ℕ) (bs : Bytes) → (b < b'0') ⊎ (b'9' < b) → IsDigits bs → Lacks b bs
digits-Lacks b [] h d = tt
digits-Lacks b (c ∷ bs) h (d, ds) = ((λ e. absurd (omega arith)), digits-Lacks b bs h ds)

names-Lack : (b : ℕ) (ps : List ℕ) → (b < b'0') ⊎ (b'9' < b) → All (Lacks b) (map to_string ps)
names-Lack b [] h = tt
names-Lack b (p ∷ ps) h = (digits-Lacks b (to_string p) h (to_string-IsDigits p), names-Lack b ps h)

Lacks-join :
    (b : ℕ) (sep : Bytes) (xs : List Bytes) → Lacks b sep → All (Lacks b) xs → Lacks b (join sep xs)
unfolding join
Lacks-join b sep [] h hs = tt
Lacks-join b sep (x ∷ []) h (hx, hs) = hx
Lacks-join b sep (x ∷ y ∷ ys) h (hx, hs) =
    All-append (λ c. c ≢ b) x (sep ++ join sep (y ∷ ys)) hx
      (All-append (λ c. c ≢ b) sep (join sep (y ∷ ys)) h (Lacks-join b sep (y ∷ ys) h hs))

-- The part of the banner before the bars.
abbrev ports_part : List ℕ → Bytes
ports_part ports = if length ports == 0 then codes "ok" else join (codes ",") (map to_string ports)

ports_part-Lacks : (ports : List ℕ) → Lacks b'|' (ports_part ports)
ports_part-Lacks [] = omega arith
ports_part-Lacks (p ∷ ps) =
    let nonempty : (suc (length ps) == 0) ≡ false = ground arith in
    rw nonempty (
      Lacks-join b'|' (codes ",") (map to_string (p ∷ ps)) (omega arith)
        (names-Lack b'|' (p ∷ ps) (inr (omega arith))))

split-ports_part : (ports : List ℕ) → split (codes ",") (ports_part ports) ≡ port_names ports
unfolding join
split-ports_part [] = split-join b',' [] (codes "ok") [] (omega arith)
split-ports_part (p ∷ ps) =
    let nonempty : (suc (length ps) == 0) ≡ false = ground arith in
    rw nonempty (
      split-join b',' [] (to_string p) (map to_string ps)
        (names-Lack b',' (p ∷ ps) (inl (omega arith))))

-- The client reads off a banner the address that the server put in, and the names of its ports.
pub take_banner_lem :
    (net : Net) (prim : Primitives) (ports : List ℕ) (addr : Bytes) (c : RelayClient)
    → Lacks b'|' addr
    → take_banner net prim (banner ports addr) c
      ≡ (ok tt, record c { external_ip = some addr; relay_ports = port_names ports })
unfolding take_banner banner
take_banner_lem net prim ports addr c h = rw (
  split_two b'|' (codes "||") (ports_part ports) addr (ports_part-Lacks ports) h,
  split-ports_part ports,
)

pub contains-banner :
    (ports : List ℕ) (addr : Bytes) → contains (codes "|||") (banner ports addr) ≡ true
unfolding banner
contains-banner ports addr = contains-append b'|' (codes "||") (ports_part ports) addr

digits-ascii : (bs : Bytes) → IsDigits bs → All (λ b. b < 128) bs
digits-ascii [] d = tt
digits-ascii (c ∷ bs) (d, ds) = (omega arith, digits-ascii bs ds)

join-utf8 : (ps : List ℕ) → is_utf8 [] (join (codes ",") (map to_string ps)) ≡ true
unfolding join
join-utf8 [] = is_utf8_ascii [] tt
join-utf8 (p ∷ []) = is_utf8_ascii (to_string p) (digits-ascii (to_string p) (to_string-IsDigits p))
join-utf8 (p ∷ q ∷ ps) =
    is_utf8-append [] (to_string p) (codes "," ++ join (codes ",") (map to_string (q ∷ ps)))
      (is_utf8_ascii (to_string p) (digits-ascii (to_string p) (to_string-IsDigits p)))
      (is_utf8-append [] (codes ",") (join (codes ",") (map to_string (q ∷ ps)))
        (is_utf8_ascii (codes ",") (omega arith)) (join-utf8 (q ∷ ps)))

ports_part-utf8 : (ports : List ℕ) → is_utf8 [] (ports_part ports) ≡ true
ports_part-utf8 [] = is_utf8_ascii (codes "ok") (omega arith)
ports_part-utf8 (p ∷ ps) =
    let nonempty : (suc (length ps) == 0) ≡ false = ground arith in rw nonempty (join-utf8 (p ∷ ps))

pub banner-utf8 :
    (ports : List ℕ) (addr : Bytes) → is_utf8 [] addr ≡ true → is_utf8 [] (banner ports addr) ≡ true
unfolding banner
banner-utf8 ports addr h =
    is_utf8-append [] (ports_part ports) (codes "|||" ++ addr) (ports_part-utf8 ports)
      (is_utf8-append [] (codes "|||") addr (is_utf8_ascii (codes "|||") (omega arith)) h)
