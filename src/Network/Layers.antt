-- ===== src/Network/Layers.antt =====
-- network/filter, network/addressable, network/stats and network/tappable: networks that wrap
-- another network. What the inner node's ReadPacket returns, call after call, is a list of packets
-- and errors, and what its WritePacket returns is an argument.
pub mod Filter
pub mod Addressable
pub mod Stats
pub mod Tappable
mod Examples
use ipxbox.Common.{ℕ, Bool, List, [], ◌∷◌, Option, none, some, Result, ok, err, if◌then◌else◌}
use ipxbox.Ipx.{Packet}

-- The errors of the layers, and the inner node's own, which are numbered.
pub data Error : Type 0 where
  filtered_packet : Error
  wrong_address : Error
  inner_error : ℕ → Error

-- The result of a ReadPacket, or `none` while it waits, and what the inner node has not been asked
-- for yet.
pub record Reading : Type 0 where
  pub result : Option (Result Error Packet)
  pub rest : List (Result Error Packet)

-- `for { packet, err := inner.ReadPacket(ctx); if err != nil { return nil, err }; … }`, which
-- returns the first packet that is to be kept.
unfoldable pub read_until : (keep : Packet → Bool) → List (Result Error Packet) → Reading
read_until keep [] = record { result = none; rest = [] }
read_until keep (err e ∷ rest) = record { result = some (err e); rest = rest }
read_until keep (ok packet ∷ rest) =
    let more = read_until keep rest in
    if keep packet then record { result = some (ok packet); rest = rest } else more
