-- ===== src/Network/Doom/Examples.antt =====
-- Doom's messages and the tic window at concrete packets.
use ipxbox.Common.{◌+◌, ◌-◌, ◌/◌, ◌%◌, ◌≡◌, refl, arith, [], ◌∷◌, none, some, ok}
use ipxbox.Network.Doom.{
  GamePacket, IpxPacket, game, marshal, unmarshal, expand_tic_num, update_checksum,
  ncmd_checksum_size,
}
use ipxbox.Network.Doom.TicNumbers.{expand_tic_num_lem, expand_tic_num_wraps}
use ipxbox.Network.Doom.MessageFormat.{doom_unmarshal-marshal, update_checksum_lem}
use ipxbox.Network.Doom.Stream.{Stream, handle_game_packet}
use ipxbox.Network.Doom.Stream.Window.{IsValid}
use ipxbox.Network.Doom.Stream.Packets.{Sent, handle_game_packet_lem}
use ipxbox.Network.Doom.Stream.Endless.{handle_game_packet_endless}

expand_tic_num_example : expand_tic_num (300 % 256) 255 ≡ 300
expand_tic_num_example =
    expand_tic_num_lem 300 255 (omega arith) (omega arith) (omega arith) (omega arith)

expand_tic_num_wraps_example : expand_tic_num 200 3 ≡ 4294967296 - 256 + 200
expand_tic_num_wraps_example = expand_tic_num_wraps 200 3 (omega arith) (omega arith)

-- Two tics of two bytes from tic 0 on.
abbrev two_tics : GamePacket
two_tics = record {
  checksum = 0;
  retransmit_from = 0;
  start_tic = 0;
  player = 1;
  num_tics = 2;
  commands = 10 ∷ 11 ∷ 20 ∷ 21 ∷ [];
}

abbrev message : IpxPacket
message = record { sequence = 4; tail = 5; payload = game two_tics }

doom_unmarshal-marshal_example : unmarshal (marshal message) ≡ ok message
doom_unmarshal-marshal_example = doom_unmarshal-marshal message (omega arith) (omega arith) (
  (λ e. ground (arith, e)),
  record {
    checksum_fits = omega arith;
    retransmit_from_fits = omega arith;
    start_tic_fits = omega arith;
    player_fits = omega arith;
    num_tics_fits = omega arith;
  },
)

update_checksum_example :
    (update_checksum two_tics).checksum / ncmd_checksum_size
    ≡ two_tics.checksum / ncmd_checksum_size
update_checksum_example = (update_checksum_lem two_tics).1

abbrev empty : Stream
empty = record { window = λ _. none; window_head = 0; window_tail = 0; ipx_packet_counter = 0 }

empty-IsValid : IsValid empty
empty-IsValid = record { in_order = omega arith; at_most = omega arith; head_fits = omega arith }

expand_zero : expand_tic_num 0 0 ≡ 0
unfolding expand_tic_num
expand_zero = refl

handle_game_packet_example :
    (s' : Stream) × (r : GamePacket) × (handle_game_packet 10 two_tics empty ≡ some (s', r))
    × Sent (expand_tic_num 0 0) two_tics empty s' r
handle_game_packet_example =
    handle_game_packet_lem 10 two_tics empty empty-IsValid refl (omega arith)
      (ground (arith, expand_zero)) (ground (arith, expand_zero))

abbrev late : GamePacket
late = record two_tics { start_tic = 255 }

handle_game_packet_endless_example : handle_game_packet 1000 late empty ≡ none
handle_game_packet_endless_example =
    handle_game_packet_endless 1000 1 late empty empty-IsValid refl refl refl (omega arith)
