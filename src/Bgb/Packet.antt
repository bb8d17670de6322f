-- ===== src/Bgb/Packet.antt =====
-- source/bgblink.c: the packets of the link, as structures and as bytes.
use libmobile_bgb.Prelude.{
  ℕ, ◌+◌, ◌*◌, ◌/◌, ◌%◌, Bool, true, false, ◌&&◌, Option, none, some, List, [], ◌∷◌, bit_or, ◌==◌,
  if◌then◌else◌,
}

-- `struct bgb_packet`
pub record Packet : Type 0 where
  pub cmd : ℕ
  pub b2 : ℕ
  pub b3 : ℕ
  pub b4 : ℕ
  pub timestamp : ℕ

-- The packed structure in memory, on a host that stores the least significant byte first.
unfoldable pub packet_bytes : Packet → List ℕ
packet_bytes p =
    p.cmd
    ∷ p.b2
    ∷ p.b3
    ∷ p.b4
    ∷ (p.timestamp % 256)
    ∷ (p.timestamp / 256 % 256)
    ∷ (p.timestamp / 65536 % 256)
    ∷ (p.timestamp / 16777216 % 256)
    ∷ []

-- The structure that a read filled, if it filled all of it.
unfoldable pub bytes_packet : List ℕ → Option Packet
bytes_packet (cmd ∷ b2 ∷ b3 ∷ b4 ∷ t0 ∷ t1 ∷ t2 ∷ t3 ∷ []) = some (record {
  cmd = cmd;
  b2 = b2;
  b3 = b3;
  b4 = b4;
  timestamp = t0 + 256 * t1 + 65536 * t2 + 16777216 * t3;
})
bytes_packet _ = none

-- `memcmp(a, b, n) == 0`
unfoldable pub same_bytes : List ℕ → List ℕ → Bool
same_bytes [] [] = true
same_bytes (a ∷ as') (b ∷ bs) = a == b && same_bytes as' bs
same_bytes _ _ = false

abbrev pub packet_size : ℕ
packet_size = 8

-- `enum bgb_cmd`, by its numbers.
abbrev pub cmd_version : ℕ
cmd_version = 1

abbrev pub cmd_joypad : ℕ
cmd_joypad = 101

abbrev pub cmd_sync1 : ℕ
cmd_sync1 = 104

abbrev pub cmd_sync2 : ℕ
cmd_sync2 = 105

abbrev pub cmd_sync3 : ℕ
cmd_sync3 = 106

abbrev pub cmd_status : ℕ
cmd_status = 108

abbrev pub cmd_wantdisconnect : ℕ
cmd_wantdisconnect = 109

-- The cases of the switch in `bgb_loop`.
pub data Command : Type 0 where
  joypad sync1 sync2 sync3 status wantdisconnect unknown : Command

unfoldable pub command : ℕ → Command
command cmd =
    if cmd == cmd_joypad
    then joypad
    else if cmd == cmd_sync1
    then sync1
    else if cmd == cmd_sync2
    then sync2
    else if cmd == cmd_sync3
    then sync3
    else if cmd == cmd_status
    then status
    else if cmd == cmd_wantdisconnect
    then wantdisconnect
    else unknown

abbrev pub handshake : Packet
handshake = record { cmd = cmd_version; b2 = 1; b3 = 4; b4 = 0; timestamp = 0 }

-- BGB_STATUS_RUNNING | BGB_STATUS_PAUSED | BGB_STATUS_SUPPORTRECONNECT, and without PAUSED.
abbrev pub status_paused : ℕ
status_paused = bit_or (bit_or 1 2) 4

abbrev pub status_running : ℕ
status_running = bit_or 1 4

-- The answer to a SYNC1.
abbrev pub sync2_answer : ℕ → Packet
sync2_answer byte = record { cmd = cmd_sync2; b2 = byte; b3 = 0x80; b4 = 0; timestamp = 0 }
