-- ===== src/Network/Layers/Filter.antt =====
-- network/filter/filter.go: packets on well-known ports are dropped.
use ipxbox.Common.{
  ℕ, ◌≡◌, refl, ap, arith, Bool, true, false, not, ◌||◌, List, [], ◌∷◌, ◌++◌, none, some, Result,
  ok, err, ◌==◌, if◌then◌else◌, All, inl, inr, Bool-cases,
}
use ipxbox.Ipx.{Header, Packet}
use ipxbox.Network.Layers.{Error, filtered_packet, Reading, read_until}

-- `netbiosPorts`
abbrev pub netbios_ports : List ℕ
netbios_ports = 0x451 ∷ 0x452 ∷ 0x453 ∷ 0x455 ∷ 0x551 ∷ 0x552 ∷ 0x553 ∷ 0x900F ∷ 0x9010 ∷ []

abbrev pub listed : List ℕ → ℕ → Bool
listed [] port = false
listed (p ∷ ps) port = p == port || listed ps port

unfoldable pub should_filter : Header → Bool
should_filter hdr = listed netbios_ports hdr.dest.socket || listed netbios_ports hdr.src.socket

-- filter.ReadPacket
unfoldable pub filter_read : List (Result Error Packet) → Reading
filter_read incoming = read_until (λ packet. not (should_filter packet.header)) incoming

-- filter.WritePacket, whose result is the inner node's unless the packet is refused.
unfoldable pub filter_write :
    {S : Type 0}
    → (Packet → S → S × Result Error (Unit {0}))
    → Packet
    → S
    → S × Result Error (Unit {0})
filter_write inner packet s =
    if should_filter packet.header then (s, err filtered_packet) else inner packet s

-- The packets before the result are those that are not kept.
abbrev pub Skipped : (Packet → Bool) → Result Error Packet → Type 0
Skipped keep (ok packet) = keep packet ≡ false
Skipped keep (err e) = ⊥

-- A result that is returned: an error, or a packet that is kept.
abbrev pub Kept : (Packet → Bool) → Result Error Packet → Type 0
Kept keep (ok packet) = keep packet ≡ true
Kept keep (err e) = Unit

-- What a loop of ReadPacket does to what the inner node returns: it passes over packets that are
-- not kept, up to the first error or the first packet that is kept.
pub data IsFirst (keep : Packet → Bool) (incoming : List (Result Error Packet)) (r : Reading)
    : Type 0 where
  found :
      (skipped : List (Result Error Packet)) (x : Result Error Packet)
      → incoming ≡ skipped ++ (x ∷ r.rest)
      → r.result ≡ some x
      → All (Skipped keep) skipped
      → Kept keep x
      → IsFirst keep incoming r
  waiting : r.result ≡ none → r.rest ≡ [] → All (Skipped keep) incoming → IsFirst keep incoming r

skip :
    (keep : Packet → Bool) (packet : Packet) (incoming : List (Result Error Packet)) (r : Reading)
    → keep packet ≡ false
    → IsFirst keep incoming r
    → IsFirst keep (ok packet ∷ incoming) r
skip keep packet incoming r k (found skipped x e f a kept) =
    found (ok packet ∷ skipped) x (ap (λ z. ok packet ∷ z) e) f (k, a) kept
skip keep packet incoming r k (waiting e f a) = waiting e f (k, a)

pub read_until-IsFirst :
    (keep : Packet → Bool) (incoming : List (Result Error Packet))
    → IsFirst keep incoming (read_until keep incoming)
unfolding read_until
read_until-IsFirst keep [] = waiting refl refl tt
read_until-IsFirst keep (err e ∷ rest) = found [] (err e) refl refl tt tt
read_until-IsFirst keep (ok packet ∷ rest) = elim (Bool-cases (keep packet)) [
  | inl k ↦ rw k (found [] (ok packet) refl refl tt k)
  | inr k ↦ rw k (skip keep packet rest (read_until keep rest) k (read_until-IsFirst keep rest))
]

-- A packet passes the filter only if both its ports are unlisted.
abbrev pub passes : Packet → Bool
passes packet = not (should_filter packet.header)

-- ReadPacket of the filter passes over packets with a listed port, and only those, up to the first
-- error or packet without one; WritePacket hands exactly the packets without a listed port on.
pub filter_lem :
    {S : Type 0} (inner : Packet → S → S × Result Error (Unit {0})) (packet : Packet) (s : S)
    (incoming : List (Result Error Packet))
    → IsFirst passes incoming (filter_read incoming)
      × (passes packet ≡ true → filter_write inner packet s ≡ inner packet s)
      × (passes packet ≡ false → filter_write inner packet s ≡ (s, err filtered_packet))
unfolding filter_read filter_write
filter_lem inner packet s incoming =
    (read_until-IsFirst passes incoming, (λ p. ground (arith, p)), (λ p. ground (arith, p)))
