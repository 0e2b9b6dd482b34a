-- ===== src/Network/Doom/MessageFormat.antt =====
-- The messages of network/doom/protocol.go on the wire.
use ipxbox.Common.{
  ℕ, ◌+◌, ◌-◌, ◌/◌, ◌%◌, ◌≡◌, ◌≢◌, arith, List, ◌++◌, ok, length, drop, length-append, take-append,
  drop-append,
}
use ipxbox.Common.Bytes.{IsByte, IsU16, IsU32, slice, put_le32}
use ipxbox.Network.Doom.{
  GamePacket, game_packet_checksum, ncmd_checksum_size, marshal_game, unmarshal_game,
  update_checksum, SetupPacket, marshal_setup, unmarshal_setup, Payload, game, setup, IpxPacket,
  marshal_payload, marshal, unmarshal_payload, unmarshal,
}
use ipxbox.Common.{suc}

-- Every field of a game packet fits its width.
pub record GameFits (p : GamePacket) : Type 0 where
  pub checksum_fits : IsU32 p.checksum
  pub retransmit_from_fits : IsByte p.retransmit_from
  pub start_tic_fits : IsByte p.start_tic
  pub player_fits : IsByte p.player
  pub num_tics_fits : IsByte p.num_tics

pub record SetupFits (p : SetupPacket) : Type 0 where
  pub game_id_fits : IsU16 p.game_id
  pub drone_fits : IsU16 p.drone
  pub nodes_found_fits : IsU16 p.nodes_found
  pub nodes_wanted_fits : IsU16 p.nodes_wanted

unmarshal_game-marshal_game : (p : GamePacket) → GameFits p → unmarshal_game (marshal_game p) ≡ ok p
unfolding unmarshal_game marshal_game
unmarshal_game-marshal_game p f = ground (arith, f.checksum_fits)

unmarshal_setup-marshal_setup :
    (p : SetupPacket) → SetupFits p → unmarshal_setup (marshal_setup p) ≡ ok p
unfolding unmarshal_setup marshal_setup
unmarshal_setup-marshal_setup p f =
    ground (arith, f.game_id_fits, f.drone_fits, f.nodes_found_fits, f.nodes_wanted_fits)

-- A payload whose fields fit, of the kind that the sequence number says.
abbrev pub PayloadFits : (sequence : ℕ) → Payload → Type 0
PayloadFits sequence (game p) = (sequence ≢ 0xffffffff) × GameFits p
PayloadFits sequence (setup p) = (sequence ≡ 0xffffffff) × SetupFits p

unmarshal_payload-marshal_payload :
    (sequence : ℕ) (p : Payload)
    → PayloadFits sequence p
    → unmarshal_payload sequence (marshal_payload p) ≡ ok p
unmarshal_payload-marshal_payload sequence (game p) (n, f) =
    ground (arith, n, unmarshal_game-marshal_game p f)
unmarshal_payload-marshal_payload sequence (setup p) (e, f) =
    ground (arith, e, unmarshal_setup-marshal_setup p f)

-- The bytes of a message between its first four and its last four.
middle-append :
    (sequence : ℕ) (body : List ℕ) (tail : ℕ)
    → let bytes : List ℕ = put_le32 sequence ++ (body ++ put_le32 tail) in
      (slice bytes 4 (length bytes - 4) ≡ body)
      × (drop (length bytes - 4) bytes ≡ put_le32 tail)
      × (length bytes ≡ length body + 8)
middle-append sequence body tail =
    let n : ℕ = length (body ++ put_le32 tail) in
    let p : n ≡ length body + 4 = length-append body (put_le32 tail) in
    let q : suc (suc (suc (suc n))) - 4 ≡ suc (suc (suc (suc (length body)))) = ground (arith, p) in
    let r : suc (suc (suc (suc n))) - 4 - 4 ≡ length body = ground (arith, p) in
    (
      rw r (take-append body (put_le32 tail)),
      rw q (drop-append body (put_le32 tail)),
      ground (arith, p),
    )

-- A message whose fields fit is what its encoding decodes to; the receiver tells setup messages
-- from game messages by the sequence number.
pub doom_unmarshal-marshal :
    (p : IpxPacket)
    → IsU32 p.sequence
    → IsU32 p.tail
    → PayloadFits p.sequence p.payload
    → unmarshal (marshal p) ≡ ok p
unfolding unmarshal marshal
doom_unmarshal-marshal p s t f =
    let m = middle-append p.sequence (marshal_payload p.payload) p.tail in
    rw (m.0, m.1)
      (ground (arith, s, t, m.2, unmarshal_payload-marshal_payload p.sequence p.payload f))

-- An update of the checksum is found right by a receiver that computes it over the message after
-- its first four bytes; the four flag bits above it stay as they were.
pub update_checksum_lem :
    (p : GamePacket)
    → ((update_checksum p).checksum % ncmd_checksum_size
        ≡ game_packet_checksum (drop 4 (marshal_game (update_checksum p))))
      × ((update_checksum p).checksum / ncmd_checksum_size ≡ p.checksum / ncmd_checksum_size)
unfolding update_checksum marshal_game game_packet_checksum
update_checksum_lem p = ground arith
