-- ===== src/Client/RoundTrip.antt =====
-- A request of a client (Client.Request), as it arrives at the meter.
use test.Memory.Word.{swap16}
use test.Prelude.{
  Bool-cases, inl, inr, ◌==◌, ℕ, ◌+◌, ◌%◌, ◌^◌, ◌≤◌, ◌≡◌, refl, ap, subst, ◌∙◌, arith, List, ◌∷◌,
  some, true, leb, ltb, length,
}
use test.Prelude.Int.{pos}
use test.Memory.{bytes, store, store16}
use test.Memory.Block.{bytes_agree, store_self, store_ne}
use test.Packet.{Packet, data_bytes, packet_bytes, set_packet_buffer, set16}
use test.Packet.Laws.{IsOwn, received, set_packet_buffer-received, set_data_area_buffer_lem}
use test.Packet.Dlms47.{format_packet, parse_packet, parse_header, set_host_id}
use test.Packet.Dlms47.RoundTrip.{
  IsReady, parse_packet-format_packet, format_packet-data, format_packet-len,
}
use test.Meter.Apdu.{finish}
use test.Client.Association.{format_packet_cosem}

-- A packet with a message in its data area.
pub record Carries (message : List ℕ) (p : Packet) : Type 0 where
  pub ready : IsReady (length message) p
  pub carried : bytes p.mem 8 (length message) ≡ message

pub finish-Carries :
    (message : List ℕ) (p : Packet)
    → IsOwn 8 p
    → length message ≤ 1024
    → (q : Packet) × (finish message p ≡ some (format_packet q)) × Carries message q
unfolding finish
finish-Carries message p o h =
    let (q, e, d, n, w) = (set_data_area_buffer_lem 8 message p o (omega arith)).0 (omega arith) in
    let small : leb (length message) 1024 ≡ true = ground arith in
    let off : q.data_off ≡ 8 = w.area in
    let at_data : bytes q.mem 8 (length message) ≡ data_bytes q = rw (off, n) refl in
    (
      q,
      rw (small, e) refl,
      record {
        ready = record { fresh = w; filled = n; fits = omega arith };
        carried = at_data ∙ d;
      },
    )

-- A message stays while the header is written.
pub format_packet-Carries :
    (message : List ℕ) (p : Packet) → Carries message p → Carries message (format_packet p)
unfolding format_packet set16
format_packet-Carries message p c = record {
  ready = record {
    fresh = record {
      at_own = ground (arith, c.ready.fresh.at_own);
      head_len = ground (arith, c.ready.fresh.head_len);
      area = ground (arith, c.ready.fresh.area);
    };
    filled = ground (arith, c.ready.filled);
    fits = c.ready.fits;
  };
  carried = format_packet-data (length message) p c.ready ∙ c.carried;
}

set16-Carries :
    (off v : ℕ) (message : List ℕ) (p : Packet)
    → off + 2 ≤ 8
    → Carries message p
    → Carries message (set16 off v p)
unfolding set16 store16 store
set16-Carries off v message p h c =
    let own_header = c.ready.fresh.at_own in
    record {
      ready = record {
        fresh = record {
          at_own = ground (arith, own_header);
          head_len = ground (arith, c.ready.fresh.head_len);
          area = ground (arith, c.ready.fresh.area);
        };
        filled = ground (arith, own_header, c.ready.filled);
        fits = c.ready.fits;
      };
      carried =
          bytes_agree (length message) (set16 off v p).mem p.mem 8
            (λ j lo hi. ground (arith, own_header))
          ∙ c.carried;
    }

set_host_id-Carries :
    (host : ℕ) (message : List ℕ) (p : Packet)
    → Carries message p
    → Carries message (set_host_id host p)
unfolding set_host_id
set_host_id-Carries host message p c = elim (Bool-cases (p.kind == 1)) [
  | inl e ↦ rw (e) (set16-Carries 2 (swap16 host) message p (omega arith) c)
  | inr e ↦ rw (e) (set16-Carries 4 (swap16 host) message p (omega arith) c)
]

-- The byte behind the first two is written.
store-Carries :
    (v a b x : ℕ) (rest : List ℕ) (p : Packet)
    → Carries (a ∷ b ∷ x ∷ rest) p
    → Carries (a ∷ b ∷ v ∷ rest) (record p { mem = store p.mem 10 v })
unfolding bytes
store-Carries v a b x rest p c =
    let behind =
      bytes_agree (length rest) (store p.mem 10 v) p.mem 11
        (λ j lo hi. store_ne p.mem 10 v j (omega arith)) in
    let n8 = store_ne p.mem 10 v 8 (omega arith) in
    let n9 = store_ne p.mem 10 v 9 (omega arith) in
    let n10 = store_self p.mem 10 v in
    let before = c.carried in
    record {
      ready = record {
        fresh = record {
          at_own = c.ready.fresh.at_own;
          head_len = c.ready.fresh.head_len;
          area = c.ready.fresh.area;
        };
        filled = c.ready.filled;
        fits = c.ready.fits;
      };
      carried = ground (arith, behind, n8, n9, n10, before);
    }

store_at-Carries :
    (at v a b x : ℕ) (rest : List ℕ) (p : Packet)
    → 10 ≡ at
    → Carries (a ∷ b ∷ x ∷ rest) p
    → Carries (a ∷ b ∷ v ∷ rest) (record p { mem = store p.mem at v })
store_at-Carries at v a b x rest p e c =
    subst (λ k. Carries (a ∷ b ∷ v ∷ rest) (record p { mem = store p.mem k v })) e
      (store-Carries v a b x rest p c)

-- A request is numbered and formatted again.
pub format_packet_cosem-Carries :
    (host id a b x : ℕ) (rest : List ℕ) (p : Packet)
    → Carries (a ∷ b ∷ x ∷ rest) p
    → (q : Packet) × (format_packet_cosem host id p ≡ some (format_packet q))
      × Carries (a ∷ b ∷ id % 2 ^ 8 ∷ rest) q
unfolding format_packet_cosem
format_packet_cosem-Carries host id a b x rest p c =
    let k = set_host_id-Carries host (a ∷ b ∷ x ∷ rest) p c in
    let q = set_host_id host p in
    let off : 10 ≡ q.data_off + 2 = omega (arith, k.ready.fresh.area) in
    let inside : ltb (q.data_off + 2) 1536 ≡ true = ground arith in
    (
      record q { mem = store q.mem (q.data_off + 2) (id % 2 ^ 8) },
      rw (inside) refl,
      store_at-Carries (q.data_off + 2) (id % 2 ^ 8) a b x rest q off k,
    )

-- What the peer finds of a message: its bytes, behind the header of eight bytes.
pub record Arrives (message : List ℕ) (q r : Packet) : Type 0 where
  pub arrived : Packet
  pub accepted : set_packet_buffer (some (packet_bytes q)) q.len_packet r ≡ some arrived
  pub positive : (parse_packet arrived).1 ≡ pos (length message + 8)
  pub content : data_bytes (parse_packet arrived).0 ≡ message
  pub area : (parse_packet arrived).0.data_off ≡ 8

parse_packet-data_off : (p : Packet) → (parse_packet p).0.data_off ≡ p.data_off
unfolding parse_packet parse_header
parse_packet-data_off p = ground arith

pub Carries-Arrives :
    (message : List ℕ) (p r : Packet)
    → Carries message p
    → IsOwn 8 r
    → Arrives message (format_packet p) r
Carries-Arrives message p r c o =
    let n = length message in
    let (r', e, ret, d, port, all) = parse_packet-format_packet n p r c.ready o in
    let q = format_packet p in
    let len = format_packet-len n p c.ready in
    let got : set_packet_buffer (some (packet_bytes q)) q.len_packet r
        ≡ some (received q (n + 8) r) =
      rw (len) (set_packet_buffer-received q (n + 8) r c.ready.fits) in
    let same : r' ≡ received q (n + 8) r = cc in
    let own_bytes : data_bytes p ≡ message = rw (c.ready.fresh.area, c.ready.filled) c.carried in
    record {
      arrived = r';
      accepted = e;
      positive = ret;
      content = d ∙ own_bytes;
      area = parse_packet-data_off r' ∙ (ap (λ (x : Packet). x.data_off) same ∙ o.area);
    }
