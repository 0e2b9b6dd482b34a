-- ===== src/Network/Doom/Stream.antt =====
-- network/doom/stream.go: the window of a game's latest tics. A uint32 is a number below 2 ^ 32. The
-- window is a function of the slot. The loop that moves the window forward recurses on fuel, with
-- `none` when the fuel runs out.
pub mod Window
pub mod Forward
pub mod Packets
pub mod Endless
use ipxbox.Common.{
  ℕ, zero, suc, ◌+◌, ◌-◌, ◌*◌, ◌/◌, ◌%◌, ◌<◌, Bool, true, false, not, ◌&&◌, ◌||◌, List, [], ◌∷◌,
  ◌++◌, Option, none, some, ltb, ◌==◌, if◌then◌else◌, length,
}
use ipxbox.Common.Bytes.{slice}
use ipxbox.Network.Doom.{GamePacket, SetupPacket, expand_tic_num, ncmd_setup}

abbrev pub window_size : ℕ
window_size = 32

abbrev pub send_extra_tics : ℕ
send_extra_tics = 5

pub record Stream : Type 0 where
  pub window : ℕ → Option (List ℕ)
  pub window_head : ℕ
  pub window_tail : ℕ
  pub ipx_packet_counter : ℕ

abbrev pub set_slot : ℕ → Option (List ℕ) → (ℕ → Option (List ℕ)) → ℕ → Option (List ℕ)
set_slot slot v window n = if n == slot then v else window n

-- handleSetupPacket
unfoldable pub handle_setup_packet : SetupPacket → Stream → Stream
handle_setup_packet sp s = record s { window_head = 0; window_tail = 0; ipx_packet_counter = 0 }

-- The body of the inner loop of addNewTics.
unfoldable pub advance_one : Stream → Stream
advance_one s =
    let head : ℕ = (s.window_head + 1) % 4294967296 in
    record s {
      window = set_slot (s.window_head % window_size) none s.window;
      window_head = head;
      window_tail =
          if ltb window_size ((head + 4294967296 - s.window_tail) % 4294967296)
          then (head + 4294967296 - window_size) % 4294967296
          else s.window_tail;
    }

-- The inner loop of addNewTics.
unfoldable pub advance : (fuel tic : ℕ) → Stream → Option Stream
advance zero tic s = if ltb tic s.window_head then some s else none
advance (suc fuel) tic s =
    let more = advance fuel tic (advance_one s) in if ltb tic s.window_head then some s else more

-- The assignment at the end of the outer loop's body.
abbrev pub store : (tic : ℕ) → List ℕ → Stream → Stream
store tic commands s = record s { window = set_slot (tic % window_size) (some commands) s.window }

-- The body of the outer loop of addNewTics.
unfoldable pub place : (fuel tic : ℕ) → List ℕ → Stream → Option Stream
place fuel tic commands s =
    if ltb tic s.window_tail
    then some s
    else elim (advance fuel tic s) [ none ↦ none | some s' ↦ some (store tic commands s') ]

-- The outer loop, with `n` turns to go from turn `i`.
unfoldable pub add_tics :
    (fuel start tic_len n i : ℕ) → (commands : List ℕ) → Stream → Option Stream
add_tics fuel start tic_len zero i commands s = some s
add_tics fuel start tic_len (suc n) i commands s =
    elim (place fuel ((start + i) % 4294967296) (slice commands (tic_len * i) (tic_len * (i + 1)))
      s) [ none ↦ none | some s' ↦ add_tics fuel start tic_len n (i + 1) commands s' ]

-- The number that addNewTics returns.
abbrev pub next_tic : GamePacket → Stream → ℕ
next_tic gp s = (expand_tic_num gp.start_tic s.window_head + gp.num_tics) % 4294967296

-- addNewTics on a packet with at least one tic.
unfoldable pub add_new_tics : (fuel : ℕ) → GamePacket → Stream → Option Stream
add_new_tics fuel gp s =
    add_tics fuel (expand_tic_num gp.start_tic s.window_head) (length gp.commands / gp.num_tics)
      gp.num_tics 0 gp.commands s

-- The loop of ticsToSend, with `left` tics that may still be added.
unfoldable pub tics_loop : (left idx count : ℕ) → Stream → ℕ × ℕ
tics_loop zero idx count s = (idx, count)
tics_loop (suc left) idx count s =
    let more = tics_loop left (idx - 1) (count + 1) s in
    if ltb s.window_tail idx
    then elim (s.window ((idx - 1) % window_size)) [ none ↦ (idx, count) | some _ ↦ more ]
    else (idx, count)

-- ticsToSend
unfoldable pub tics_to_send : (end_tic : ℕ) → Stream → ℕ × ℕ
tics_to_send end_tic s = tics_loop send_extra_tics end_tic 0 s

-- `bytes.Join` of the slots of `n` tics; the join of an empty slot adds nothing.
unfoldable pub join_tics : (start n : ℕ) → Stream → List ℕ
join_tics start zero s = []
join_tics start (suc n) s =
    elim (s.window (start % 4294967296 % window_size)) [ none ↦ [] | some commands ↦ commands ]
    ++ join_tics (start + 1) n s

-- handleGamePacket returns the stream and the packet.
unfoldable pub handle_game_packet : (fuel : ℕ) → GamePacket → Stream → Option (Stream × GamePacket)
handle_game_packet fuel gp s =
    if gp.checksum / ncmd_setup % 2 == 1 || gp.num_tics == 0
    then some (s, gp)
    else elim (add_new_tics fuel gp s) [
      | none ↦ none
      | some s' ↦
          let send = tics_to_send (next_tic gp s) s' in
          some (
            s',
            record gp {
              start_tic = send.0 % 256;
              num_tics = send.1 % 256;
              commands = join_tics send.0 send.1 s';
            },
          )
    ]
