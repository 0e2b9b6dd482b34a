-- ===== src/Network/Doom/Stream/Endless.antt =====
-- The tic number 2 ^ 32 - 1 in network/doom/stream.go.
use ipxbox.Common.{
  ℕ, zero, suc, ◌+◌, ◌*◌, ◌/◌, ◌%◌, ◌<◌, ◌≡◌, refl, arith, false, ◌||◌, List, none, ◌==◌, length,
}
use ipxbox.Common.Bytes.{slice}
use ipxbox.Network.Doom.{GamePacket, expand_tic_num, ncmd_setup}
use ipxbox.Network.Doom.TicNumbers.{expand_tic_num_wraps}
use ipxbox.Network.Doom.Stream.{
  Stream, advance_one, advance, place, add_tics, add_new_tics, handle_game_packet,
}
use ipxbox.Network.Doom.Stream.Window.{IsValid}

advance_endless :
    (fuel : ℕ) (s : Stream) → s.window_head < 4294967296 → advance fuel 4294967295 s ≡ none
unfolding advance advance_one
advance_endless zero s h = ground (arith, h)
advance_endless (suc fuel) s h =
    ground (arith, h, advance_endless fuel (advance_one s) (ground arith))

place_endless :
    (fuel tic : ℕ) (commands : List ℕ) (s : Stream)
    → IsValid s
    → tic ≡ 4294967295
    → place fuel tic commands s ≡ none
unfolding place
place_endless fuel tic commands s v e =
    ground (arith, e, v.in_order, v.head_fits, advance_endless fuel s v.head_fits)

add_tics_endless :
    (fuel start tic_len n : ℕ) (commands : List ℕ) (s : Stream)
    → IsValid s
    → start ≡ 4294967295
    → add_tics fuel start tic_len (suc n) 0 commands s ≡ none
unfolding add_tics
add_tics_endless fuel start tic_len n commands s v e =
    let tic : (start + 0) % 4294967296 ≡ 4294967295 = ground (arith, e) in
    rw
      (
        add_tics,
        place_endless fuel ((start + 0) % 4294967296)
            (slice commands (tic_len * 0) (tic_len * (0 + 1))) s v tic,
      )
      refl

-- Near the start of a game, a game packet whose first tic has the low byte 255 makes
-- handleGamePacket run forever: no fuel is enough.
pub handle_game_packet_endless :
    (fuel n : ℕ) (gp : GamePacket) (s : Stream)
    → IsValid s
    → gp.checksum / ncmd_setup % 2 ≡ 0
    → gp.num_tics ≡ suc n
    → gp.start_tic ≡ 255
    → s.window_head < 191
    → handle_game_packet fuel gp s ≡ none
unfolding handle_game_packet add_new_tics
handle_game_packet_endless fuel n gp s v c p l h =
    let e : expand_tic_num gp.start_tic s.window_head ≡ 4294967295 =
      ground (arith, l, h, expand_tic_num_wraps gp.start_tic s.window_head) in
    let b : (gp.checksum / ncmd_setup % 2 == 1 || gp.num_tics == 0) ≡ false =
      ground (arith, c, p) in
    let none_left =
      add_tics_endless fuel (expand_tic_num gp.start_tic s.window_head) (length gp.commands / suc n)
        n gp.commands s v e in
    rw (b, p, none_left) refl
