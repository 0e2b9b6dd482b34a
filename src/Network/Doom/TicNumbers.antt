-- ===== src/Network/Doom/TicNumbers.antt =====
-- ExpandTicNum of network/doom/protocol.go.
use ipxbox.Common.{ℕ, ◌+◌, ◌-◌, ◌%◌, ◌<◌, ◌≤◌, ◌≡◌, arith}
use ipxbox.Common.Bytes.{IsByte, IsU32}
use ipxbox.Network.Doom.{expand_tic_num}

-- A tic number that is at most 64 away from the base, in either direction, is what its low byte
-- expands to.
pub expand_tic_num_lem :
    (tic base : ℕ)
    → IsU32 tic
    → IsU32 base
    → tic ≤ base + 64
    → base ≤ tic + 64
    → expand_tic_num (tic % 256) base ≡ tic
unfolding expand_tic_num
expand_tic_num_lem tic base t b l r = ground (arith, t, b, l, r)

-- Near the start of a game, a low byte more than 64 above the base expands to a number just below
-- 2 ^ 32: the subtraction of 256 wraps around.
pub expand_tic_num_wraps :
    (low base : ℕ) → IsByte low → base + 64 < low → expand_tic_num low base ≡ 4294967296 - 256 + low
unfolding expand_tic_num
expand_tic_num_wraps low base b l = ground (arith, b, l)
