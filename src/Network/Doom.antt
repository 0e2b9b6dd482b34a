-- ===== src/Network/Doom.antt =====
-- network/doom/protocol.go: the messages of Doom's network protocol. Bytes are numbers below 256 and
-- uint32 arithmetic is written modulo 2 ^ 32.
pub mod MessageFormat
pub mod TicNumbers
pub mod Stream
mod Examples
use ipxbox.Common.{
  ℕ, zero, suc, ◌+◌, ◌-◌, ◌*◌, ◌/◌, ◌%◌, ◌<◌, Bool, true, false, not, ◌&&◌, ◌||◌, List, [], ◌∷◌,
  ◌++◌, Result, ok, err, ◌>>=◌, ltb, ◌==◌, if◌then◌else◌, length, take, drop,
}
use ipxbox.Common.Bytes.{byte_at, slice, le16, le32, put_le16, put_le32}
use ipxbox.Common.{suc}

-- The bits of a checksum word: the lowest is that of NcmdSetup.
abbrev pub ncmd_setup : ℕ
ncmd_setup = 0x20000000

-- NcmdChecksum + 1: the checksum proper is the word modulo this.
abbrev pub ncmd_checksum_size : ℕ
ncmd_checksum_size = 0x10000000

pub data Error : Type 0 where
  short_packet : Error

pub record GamePacket : Type 0 where
  pub checksum : ℕ
  pub retransmit_from : ℕ
  pub start_tic : ℕ
  pub player : ℕ
  pub num_tics : ℕ
  pub commands : List ℕ

-- ExpandTicNum
unfoldable pub expand_tic_num : (low base : ℕ) → ℕ
expand_tic_num low base =
    let expanded : ℕ = base - base % 256 + low in
    if ltb base expanded && ltb 64 (expanded - base)
    then (expanded + 4294967296 - 256) % 4294967296
    else if ltb expanded base && ltb 64 (base - expanded)
    then (expanded + 256) % 4294967296
    else expanded

-- The loop of GamePacketChecksum over `n` words, the first of which is number `i`.
unfoldable pub checksum_loop : (n i : ℕ) → List ℕ → (sum : ℕ) → ℕ
checksum_loop zero i bytes sum = sum
checksum_loop (suc n) i bytes sum =
    checksum_loop n (i + 1) (drop 4 bytes)
      ((sum + (le32 (slice bytes 0 4) 0 * (i + 1)) % 4294967296) % 4294967296)

-- GamePacketChecksum
unfoldable pub game_packet_checksum : List ℕ → ℕ
game_packet_checksum bytes = checksum_loop (length bytes / 4) 0 bytes 0x1234567 % ncmd_checksum_size

-- GamePacket.MarshalBinary
unfoldable pub marshal_game : GamePacket → List ℕ
marshal_game p =
    put_le32 p.checksum ++ (p.retransmit_from ∷ p.start_tic ∷ p.player ∷ p.num_tics ∷ p.commands)

-- GamePacket.UpdateChecksum keeps the four high bits.
unfoldable pub update_checksum : GamePacket → GamePacket
update_checksum p = record p {
  checksum =
      p.checksum / ncmd_checksum_size * ncmd_checksum_size
      + game_packet_checksum (drop 4 (marshal_game p));
}

-- GamePacket.UnmarshalBinary
unfoldable pub unmarshal_game : List ℕ → Result Error GamePacket
unmarshal_game bytes =
    if ltb (length bytes) 8
    then err short_packet
    else ok (record {
      checksum = le32 (slice bytes 0 4) 0;
      retransmit_from = byte_at bytes 4;
      start_tic = byte_at bytes 5;
      player = byte_at bytes 6;
      num_tics = byte_at bytes 7;
      commands = drop 8 bytes;
    })

pub record SetupPacket : Type 0 where
  pub game_id : ℕ
  pub drone : ℕ
  pub nodes_found : ℕ
  pub nodes_wanted : ℕ
  pub extra : List ℕ

-- SetupPacket.MarshalBinary
unfoldable pub marshal_setup : SetupPacket → List ℕ
marshal_setup p =
    put_le16 p.game_id
    ++ (put_le16 p.drone ++ (put_le16 p.nodes_found ++ (put_le16 p.nodes_wanted ++ p.extra)))

-- SetupPacket.UnmarshalBinary
unfoldable pub unmarshal_setup : List ℕ → Result Error SetupPacket
unmarshal_setup bytes =
    if ltb (length bytes) 8
    then err short_packet
    else ok (record {
      game_id = le16 (slice bytes 0 2) 0;
      drone = le16 (slice bytes 2 4) 0;
      nodes_found = le16 (slice bytes 4 6) 0;
      nodes_wanted = le16 (slice bytes 6 8) 0;
      extra = drop 8 bytes;
    })

-- The implementations of `Payload`.
pub data Payload : Type 0 where
  game : GamePacket → Payload
  setup : SetupPacket → Payload

pub record IpxPacket : Type 0 where
  pub sequence : ℕ
  pub tail : ℕ
  pub payload : Payload

abbrev pub marshal_payload : Payload → List ℕ
marshal_payload (game p) = marshal_game p
marshal_payload (setup p) = marshal_setup p

-- IPXPacket.MarshalBinary
unfoldable pub marshal : IpxPacket → List ℕ
marshal p = put_le32 p.sequence ++ (marshal_payload p.payload ++ put_le32 p.tail)

-- The kind of payload goes by the sequence number.
abbrev pub unmarshal_payload : (sequence : ℕ) → List ℕ → Result Error Payload
unmarshal_payload sequence bytes =
    if sequence == 0xffffffff
    then (unmarshal_setup bytes >>= λ p. ok (setup p))
    else (unmarshal_game bytes >>= λ p. ok (game p))

-- IPXPacket.UnmarshalBinary
unfoldable pub unmarshal : List ℕ → Result Error IpxPacket
unmarshal bytes =
    let sequence = le32 (slice bytes 0 4) 0 in
    if ltb (length bytes) 8
    then err short_packet
    else (unmarshal_payload sequence (slice bytes 4 (length bytes - 4)) >>= λ p. ok (record {
      sequence = sequence;
      tail = le32 (drop (length bytes - 4) bytes) 0;
      payload = p;
    }))
