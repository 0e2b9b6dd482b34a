-- ===== src/Network/Layers/Tappable.antt =====
-- network/tappable/tappable.go: taps that see every packet that is written to the network. The taps
-- stand in the map with their pipes; a tap that was closed keeps its own pipe, which nothing writes
-- to from then on.
use ipxbox.Common.{
  ℕ, ◌+◌, ◌≤◌, ◌≡◌, ◌≢◌, refl, arith, [], ◌∷◌, Option, none, some, Result, ℕ_discrete,
}
use ipxbox.Common.Assoc.{Assoc, find, put, delete, find-put, find-delete}
use ipxbox.Ipx.{Packet}
use ipxbox.Network.Pipe
use ipxbox.Network.Pipe.{Pipe}
use ipxbox.Network.Layers.{Error}

pub record TappableNetwork : Type 0 where
  pub next_tap_id : ℕ
  pub taps : Assoc ℕ Pipe

-- `Wrap`
abbrev pub wrap : TappableNetwork
wrap = record { next_tap_id = 0; taps = [] }

-- NewTap returns the network and the number of the tap.
unfoldable pub new_tap : TappableNetwork → TappableNetwork × ℕ
new_tap n = (
  record { next_tap_id = n.next_tap_id + 1; taps = put ℕ_discrete n.next_tap_id Pipe.new n.taps },
  n.next_tap_id,
)

-- deleteTap
unfoldable pub delete_tap : ℕ → TappableNetwork → TappableNetwork
delete_tap id n = record n { taps = delete ℕ_discrete id n.taps }

-- The loop of writeToTaps, which drops the pipes' errors.
unfoldable pub write_each : Packet → Assoc ℕ Pipe → Assoc ℕ Pipe
write_each packet [] = []
write_each packet ((id, p) ∷ taps) = (id, (Pipe.write packet p).0) ∷ write_each packet taps

-- writeToTaps
unfoldable pub write_to_taps : Packet → TappableNetwork → TappableNetwork
write_to_taps packet n = record n { taps = write_each packet n.taps }

-- node.WritePacket
unfoldable pub tappable_write :
    {S : Type 0}
    → (Packet → S → S × Result Error (Unit {0}))
    → Packet
    → TappableNetwork × S
    → (TappableNetwork × S) × Result Error (Unit {0})
tappable_write inner packet (n, s) = let i = inner packet s in ((write_to_taps packet n, i.0), i.1)

-- Every tap has a number below the next one.
pub record IsValid (n : TappableNetwork) : Type 0 where
  pub below : (id : ℕ) → n.next_tap_id ≤ id → find ℕ_discrete id n.taps ≡ none

abbrev pub written : Packet → Option Pipe → Option Pipe
written packet none = none
written packet (some p) = some (Pipe.write packet p).0

find-write_each :
    (packet : Packet) (id : ℕ) (taps : Assoc ℕ Pipe)
    → find ℕ_discrete id (write_each packet taps) ≡ written packet (find ℕ_discrete id taps)
unfolding find write_each
find-write_each packet id [] = refl
find-write_each packet id ((j, p) ∷ taps) = ground (arith, find-write_each packet id taps)

-- A write puts the packet into the pipe of every tap that is in the map, and the inner network sees
-- the same write with the same result as without the taps.
pub tappable_write_lem :
    {S : Type 0} (inner : Packet → S → S × Result Error (Unit {0})) (packet : Packet)
    (n : TappableNetwork) (s : S)
    → let after : (TappableNetwork × S) × Result Error (Unit {0}) =
        tappable_write inner packet (n, s) in
      ((id : ℕ) → find ℕ_discrete id after.0.0.taps ≡ written packet (find ℕ_discrete id n.taps))
      × (after.0.1 ≡ (inner packet s).0)
      × (after.1 ≡ (inner packet s).1)
unfolding tappable_write write_to_taps
tappable_write_lem inner packet n s = ((λ id. find-write_each packet id n.taps), refl, refl)

-- A new tap takes no other tap's place: it starts with an empty pipe under a number that no tap
-- has, the other taps stay, and a tap that is closed is gone from the map while the others stay.
pub new_tap-delete_tap :
    (n : TappableNetwork) (id : ℕ)
    → IsValid n
    → IsValid (new_tap n).0
      × IsValid (delete_tap id n)
      × (find ℕ_discrete (new_tap n).1 n.taps ≡ none)
      × (find ℕ_discrete (new_tap n).1 (new_tap n).0.taps ≡ some Pipe.new)
      × (find ℕ_discrete id (delete_tap id n).taps ≡ none)
      × ((q : ℕ)
          → q ≢ (new_tap n).1
          → find ℕ_discrete q (new_tap n).0.taps ≡ find ℕ_discrete q n.taps)
      × ((q : ℕ) → q ≢ id → find ℕ_discrete q (delete_tap id n).taps ≡ find ℕ_discrete q n.taps)
unfolding new_tap delete_tap
new_tap-delete_tap n id v =
    let k : ℕ = n.next_tap_id in
    (
      record {
        below = λ q l. ground (arith, l, find-put ℕ_discrete q k Pipe.new n.taps, v.below q);
      },
      record { below = λ q l. ground (arith, l, find-delete ℕ_discrete q id n.taps, v.below q) },
      ground (arith, v.below k),
      ground (arith, find-put ℕ_discrete k k Pipe.new n.taps),
      ground (arith, find-delete ℕ_discrete id id n.taps),
      (λ q d. ground (arith, d, find-put ℕ_discrete q k Pipe.new n.taps)),
      (λ q d. ground (arith, d, find-delete ℕ_discrete q id n.taps)),
    )
