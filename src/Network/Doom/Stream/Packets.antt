-- ===== src/Network/Doom/Stream/Packets.antt =====
-- handleGamePacket of network/doom/stream.go.
use ipxbox.Common.{
  ℕ, zero, suc, ◌+◌, ◌-◌, ◌/◌, ◌%◌, ◌<◌, ◌≤◌, ◌≡◌, ◌≢◌, refl, arith, false, ◌||◌, List, [], ◌++◌,
  none, some, ◌==◌, length,
}
use mathlib.Core.Path.{subst}
use ipxbox.Network.Doom.{GamePacket, expand_tic_num, ncmd_setup}
use ipxbox.Network.Doom.Stream.{
  Stream, window_size, send_extra_tics, next_tic, add_new_tics, tics_loop, tics_to_send, join_tics,
  handle_game_packet,
}
use ipxbox.Network.Doom.Stream.Window.{IsValid, tic_data}
use ipxbox.Network.Doom.Stream.Forward.{Added, add_tics_lem, tics_loop_lem}

-- The commands that the window holds for `n` tics, one after the other.
abbrev pub held_tics : (from n : ℕ) → Stream → List ℕ
held_tics from zero s = []
held_tics from (suc n) s =
    elim (tic_data s from) [ none ↦ [] | some commands ↦ commands ] ++ held_tics (from + 1) n s

join_tics-held :
    (from n : ℕ) (s : Stream)
    → IsValid s
    → ((q : ℕ) → from ≤ q → q < from + n → tic_data s q ≢ none)
    → join_tics from n s ≡ held_tics from n s
unfolding join_tics
join_tics-held from zero s v h = refl
join_tics-held from (suc n) s v h =
    let first : tic_data s from ≡ s.window (from % 4294967296 % window_size) =
      ground (arith, v.head_fits, h from (omega arith) (omega arith)) in
    let rest =
      join_tics-held (from + 1) n s v (λ q l r. h q (omega (arith, l)) (omega (arith, r))) in
    rw (first, rest) refl

-- What handleGamePacket makes of a packet whose tics start at `start`: the window has taken its
-- tics, and the packet it returns ends at the same tic, has at most 5 tics, and carries what the
-- window holds for each of them.
pub record Sent (start : ℕ) (gp : GamePacket) (s s' : Stream) (r : GamePacket) : Type 0 where
  pub taken : Added start (length gp.commands / gp.num_tics) start gp.num_tics gp.commands s s'
  pub from : ℕ
  pub same_end : from + r.num_tics ≡ start + gp.num_tics
  pub at_most : r.num_tics ≤ send_extra_tics
  pub start_lem : r.start_tic ≡ from % 256
  pub held : (q : ℕ) → from ≤ q → q < from + r.num_tics → tic_data s' q ≢ none
  pub commands_lem : r.commands ≡ held_tics from r.num_tics s'
  pub checksum_lem : r.checksum ≡ gp.checksum
  pub player_lem : r.player ≡ gp.player

-- The packet that handleGamePacket returns.
abbrev pub answer : GamePacket → (first n : ℕ) → Stream → GamePacket
answer gp first n s = record gp {
  start_tic = first % 256;
  num_tics = n % 256;
  commands = join_tics first n s;
}

answer-Sent :
    (start : ℕ) (gp : GamePacket) (s s' : Stream)
    → 0 < gp.num_tics
    → start + gp.num_tics < 4294967296
    → Added start (length gp.commands / gp.num_tics) start gp.num_tics gp.commands s s'
    → Sent start gp s s' (
        answer gp
          (tics_to_send (start + gp.num_tics) s').0
          (tics_to_send (start + gp.num_tics) s').1
          s')
unfolding tics_to_send
answer-Sent start gp s s' p t a =
    let end_tic : ℕ = start + gp.num_tics in
    let send : ℕ × ℕ = tics_loop send_extra_tics end_tic 0 s' in
    let last : end_tic - 1 < s'.window_head = a.covers (end_tic - 1) (ground (arith, p)) in
    let l : end_tic ≤ s'.window_head = ground (arith, last, p) in
    let sum = (tics_loop_lem send_extra_tics end_tic 0 s' 0 l).0 in
    let most = (tics_loop_lem send_extra_tics end_tic 0 s' 0 l).1 in
    let small : send.1 % 256 ≡ send.1 = ground (arith, most) in
    let holds : (q : ℕ) → send.0 ≤ q → q < send.0 + send.1 → tic_data s' q ≢ none =
      λ q x y. (tics_loop_lem send_extra_tics end_tic 0 s' q l).2 x (omega (arith, sum, y)) in
    record {
      taken = a;
      from = send.0;
      same_end = rw small (ground (arith, sum));
      at_most = rw small (ground (arith, most));
      start_lem = refl;
      held = λ q x y. holds q x (rw (← small) y);
      commands_lem = rw small (join_tics-held send.0 send.1 s' a.valid holds);
      checksum_lem = refl;
      player_lem = refl;
    }

handled :
    (fuel : ℕ) (gp : GamePacket) (s s' : Stream)
    → gp.checksum / ncmd_setup % 2 ≡ 0
    → 0 < gp.num_tics
    → expand_tic_num gp.start_tic s.window_head + gp.num_tics < 4294967296
    → add_new_tics fuel gp s ≡ some s'
    → let send : ℕ × ℕ =
        tics_to_send (expand_tic_num gp.start_tic s.window_head + gp.num_tics) s' in
      handle_game_packet fuel gp s ≡ some (s', answer gp send.0 send.1 s')
unfolding handle_game_packet
handled fuel gp s s' c p t e =
    let b : (gp.checksum / ncmd_setup % 2 == 1 || gp.num_tics == 0) ≡ false =
      ground (arith, c, p) in
    let n : next_tic gp s ≡ expand_tic_num gp.start_tic s.window_head + gp.num_tics =
      ground (arith, t) in
    rw (b, e, n) refl

-- On a game packet whose tics lie below 2 ^ 32, with enough fuel, handleGamePacket returns: the
-- window has then taken the packet's tics, and the packet that is returned ends at the same tic, has
-- at most 5 tics (also when the packet that came had more), and carries the commands that the
-- window holds for each of them.
pub handle_game_packet_lem :
    (fuel : ℕ) (gp : GamePacket) (s : Stream)
    → IsValid s
    → gp.checksum / ncmd_setup % 2 ≡ 0
    → 0 < gp.num_tics
    → expand_tic_num gp.start_tic s.window_head + gp.num_tics < 4294967296
    → expand_tic_num gp.start_tic s.window_head + gp.num_tics ≤ fuel
    → (s' : Stream) × (r : GamePacket) × (handle_game_packet fuel gp s ≡ some (s', r))
      × Sent (expand_tic_num gp.start_tic s.window_head) gp s s' r
unfolding handle_game_packet add_new_tics
handle_game_packet_lem fuel gp s v c p t f =
    let start : ℕ = expand_tic_num gp.start_tic s.window_head in
    let len : ℕ = length gp.commands / gp.num_tics in
    let a =
      add_tics_lem fuel start len gp.num_tics 0 gp.commands s v (ground (arith, t))
        (ground (arith, f)) in
    let z : start + 0 ≡ start = omega arith in
    let added : Added start len start gp.num_tics gp.commands s a.0 =
      subst (λ x. Added start len x gp.num_tics gp.commands s a.0) z a.2 in
    let send : ℕ × ℕ = tics_to_send (start + gp.num_tics) a.0 in
    (
      a.0,
      answer gp send.0 send.1 a.0,
      handled fuel gp s a.0 c p t a.1,
      answer-Sent start gp s a.0 p t added,
    )
