-- ===== src/Discovery/Master/RoundTrip.antt =====
-- The packed list of servers against an encoder of its own, both ways.
use reveille.Prelude.{
  ℕ, zero, suc, ◌/◌, ◌%◌, ◌<◌, ◌≡◌, ◌≢◌, refl, ap, sym, ◌∙◌, List, [], ◌∷◌, ◌++◌, some, ok,
  bind-eq-ok, arith, ◌==◌, length, take, take-length, take-append-drop, length-take, drop, All, inl,
  inr, Option-cases, Bool-cases,
}
use reveille.Text.{Bytes, find_sub, find_sub-starts_with, append-starts_with, find_sub-lt-length}
use reveille.Discovery.Model.{MasterEndpoint}
use reveille.Discovery.Encode.Decode.{AreBytes}
use reveille.Discovery.Master.{master_terminator, master_records, parse_master_response, port_of}

-- Six bytes for each server, the port in network order.
abbrev pub pack : List MasterEndpoint → Bytes
pack [] = []
pack (e ∷ es) = e.a ∷ e.b ∷ e.c ∷ e.d ∷ (e.query_port / 256) ∷ (e.query_port % 256) ∷ pack es

-- A registered port is not zero.
abbrev pub HavePorts : List MasterEndpoint → Type 0
HavePorts = All (λ e. e.query_port ≢ 0)

master_records-pack : (es : List MasterEndpoint) → HavePorts es → master_records (pack es) ≡ ok es
unfolding master_records
master_records-pack [] h = refl
master_records-pack (e ∷ es) h =
    let port : port_of (e.query_port / 256) (e.query_port % 256) ≡ e.query_port = omega arith in
    rw port (rw (master_records-pack es h.1) (ground (arith, h.0)))

length-pack : (es : List MasterEndpoint) → length (pack es) % 6 ≡ 0
length-pack [] = omega arith
length-pack (e ∷ es) = omega (arith, length-pack es)

-- The list that the master packs is read back, whatever follows the terminator, if the first
-- terminator in the reply is the one behind the list.
pub parse_master_response-pack :
    (es : List MasterEndpoint) (rest : Bytes)
    → HavePorts es
    → find_sub master_terminator (pack es ++ (master_terminator ++ rest)) ≡ some (length (pack es))
    → parse_master_response (pack es ++ (master_terminator ++ rest)) ≡ ok es
unfolding parse_master_response
parse_master_response-pack es rest h first = rw first (
    rw (take-length (pack es) (master_terminator ++ rest))
      (ground (arith, length-pack es, master_records-pack es h)))

-- What is read off a body is the body, if no bytes are left over.
pub record Reads (body : Bytes) (es : List MasterEndpoint) : Type 0 where
  pub is_pack : body ≡ pack es
  pub ports : HavePorts es

Reads-cons :
    (a b c d high low : ℕ) (rest : Bytes) (es : List MasterEndpoint)
    → high < 256
    → low < 256
    → port_of high low ≢ 0
    → Reads rest es
    → Reads
        (a ∷ b ∷ c ∷ d ∷ high ∷ low ∷ rest)
        (record { a = a; b = b; c = c; d = d; query_port = port_of high low } ∷ es)
Reads-cons a b c d high low rest es hh hl port r = record {
  is_pack = ground (arith, r.is_pack);
  ports = (port, r.ports);
}

master_records-cons :
    (a b c d high low : ℕ) (rest : Bytes) (es : List MasterEndpoint)
    → master_records (a ∷ b ∷ c ∷ d ∷ high ∷ low ∷ rest) ≡ ok es
    → (port_of high low ≢ 0)
      × (later : List MasterEndpoint) × (master_records rest ≡ ok later)
      × (es ≡ record { a = a; b = b; c = c; d = d; query_port = port_of high low } ∷ later)
unfolding master_records
master_records-cons a b c d high low rest es h = elim (Bool-cases (port_of high low == 0)) [
  | inl zero_port ↦ cc (rw zero_port at h)
  | inr used ↦
      let (later, e, last) = bind-eq-ok (master_records rest) _ (rw used at h) in
      (ground (arith, used), later, e, ground (arith, last))
]

master_records-Reads :
    (body : Bytes) (es : List MasterEndpoint)
    → AreBytes body
    → length body % 6 ≡ 0
    → master_records body ≡ ok es
    → Reads body es
master_records-Reads (a ∷ b ∷ c ∷ d ∷ high ∷ low ∷ rest) es hb n h =
    let (used, later, e, is) = master_records-cons a b c d high low rest es h in
    rw is (
      Reads-cons a b c d high low rest later hb.1.1.1.1.0 hb.1.1.1.1.1.0 used
        (master_records-Reads rest later hb.1.1.1.1.1.1 (omega arith) e))
master_records-Reads [] es hb n h =
    let e : es ≡ [] = unfold master_records in (ground arith) in
    rw e (record { is_pack = refl; ports = tt })
master_records-Reads _ es hb n h = absurd (omega arith)

-- A reply that is accepted is a packed list whose ports are not 0, then the first terminator.
pub record Accepted (response : Bytes) (es : List MasterEndpoint) : Type 0 where
  pub rest : Bytes
  pub splits : response ≡ pack es ++ (master_terminator ++ rest)
  pub ports : HavePorts es
  pub first : find_sub master_terminator response ≡ some (length (pack es))

All-take : (n : ℕ) (s : Bytes) → AreBytes s → AreBytes (take n s)
All-take zero s h = tt
All-take (suc n) [] h = tt
All-take (suc n) (x ∷ s) h = (h.0, All-take n s h.1)

-- The steps of a reply that is accepted.
accepted_steps :
    (response : Bytes) (es : List MasterEndpoint)
    → parse_master_response response ≡ ok es
    → (end : ℕ) × (find_sub master_terminator response ≡ some end)
      × (length (take end response) % 6 ≡ 0)
      × (master_records (take end response) ≡ ok es)
unfolding parse_master_response
accepted_steps response es h = elim (Option-cases (find_sub master_terminator response)) [
  | inl absent ↦ cc (rw absent at h)
  | inr (end, found) ↦ elim (Bool-cases (length (take end response) % 6 == 0)) [
    | inl whole ↦ (end, found, ground (arith, whole), rw whole at (rw found at h))
    | inr torn ↦ cc (rw torn at (rw found at h))
  ]
]

at_terminator :
    (response : Bytes) (es : List MasterEndpoint) (end : ℕ)
    → find_sub master_terminator response ≡ some end
    → Reads (take end response) es
    → Accepted response es
at_terminator response es end found r =
    let (rest, tail) =
      append-starts_with master_terminator (drop end response)
        (find_sub-starts_with master_terminator response end found) in
    record {
      rest = rest;
      splits = sym (take-append-drop end response) ∙ cc (r.is_pack, tail);
      ports = r.ports;
      first =
          found
          ∙ ap some (
              omega (
                arith,
                ap (length {A = ℕ}) r.is_pack,
                length-take end response,
                find_sub-lt-length master_terminator response end found,
              ));
    }

-- Whatever the master sends, a reply that is accepted is the packed form of the servers returned,
-- none with port 0, up to the first terminator.
pub parse_master_response-Accepted :
    (response : Bytes) (es : List MasterEndpoint)
    → AreBytes response
    → parse_master_response response ≡ ok es
    → Accepted response es
parse_master_response-Accepted response es bytes h =
    let (end, found, whole, read) = accepted_steps response es h in
    at_terminator response es end found
      (master_records-Reads (take end response) es (All-take end response bytes) whole read)
