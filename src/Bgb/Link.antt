-- ===== src/Bgb/Link.antt =====
-- source/bgblink.h and source/bgblink.c: the state of the link, and its two operations.
use libmobile_bgb.Prelude.{
  ℕ, ◌+◌, ◌-◌, ◌%◌, ◌^◌, Bool, true, false, not, ◌&&◌, Option, none, some, bit_and, is_minus_one,
  is_nonpos, is_pos, ◌==◌, leb, if◌then◌else◌,
}
use libmobile_bgb.Os.{Os}
use libmobile_bgb.Socket.{socket_hasdata}
use libmobile_bgb.Bgb.Packet.{
  Packet, packet_bytes, bytes_packet, packet_size, same_bytes, handshake, status_paused,
  status_running, cmd_status, sync2_answer, command, joypad, sync1, sync2, sync3, status,
  wantdisconnect, unknown,
}

-- `struct bgb_state`. A callback carries its `user` argument.
pub record Bgb (W : Type 0) : Type 0 where
  pub socket : ℕ
  pub byte : ℕ
  pub callback_transfer : Option (ℕ → W → ℕ × W)
  pub callback_timestamp : Option (ℕ → W → W)
  pub timestamp_last : ℕ
  pub timestamp_init : Bool

-- A function that returns false at the first step that fails: `none`, with the world as that
-- step left it.
abbrev pub Attempt : Type 0 → Type 0 → Type 0
Attempt W A = W → Option A × W

infixl 5 ◌>>=◌ ◌>>◌
abbrev pub ◌>>=◌ : {W A B : Type 0} → Attempt W A → (A → Attempt W B) → Attempt W B
◌>>=◌ m f w = let (r, w') = m w in elim r [ none ↦ (none, w') | some a ↦ f a w' ]

abbrev pub ◌>>◌ : {W B : Type 0} → Attempt W (Unit {0}) → Attempt W B → Attempt W B
m >> k = m >>= λ _. k

abbrev pub require : {W : Type 0} → Bool → Attempt W (Unit {0})
require b w = (if b then some tt else none, w)

module _ {W : Type 0} (os : Os W) where
  unfoldable pub bgb_send : ℕ → Packet → Attempt W (Unit {0})
  bgb_send sock p w =
      let (num, w') = os.send sock (packet_bytes p) w in
      if is_minus_one num
      then (none, w')
      else if is_pos num packet_size
      then (some tt, w')
      else (none, w')

  unfoldable pub bgb_recv : ℕ → Attempt W Packet
  bgb_recv sock w =
      let (r, w') = os.recv sock packet_size w in
      elim r [ none ↦ (none, w') | some bytes ↦ (bytes_packet bytes, w') ]

  -- The exchange of `bgb_init`, up to its last packet. The last one keeps the timestamp of the
  -- status packet that came in.
  unfoldable pub bgb_greet : ℕ → Attempt W (Unit {0})
  bgb_greet sock = do
    bgb_send sock handshake
    version ← bgb_recv sock
    require (same_bytes (packet_bytes version) (packet_bytes handshake))
    bgb_send sock
        (record version { cmd = cmd_status; b2 = status_paused; b3 = 0; b4 = 0; timestamp = 0 })
    reply ← bgb_recv sock
    require (reply.cmd == cmd_status)
    bgb_send sock (record reply { cmd = cmd_status; b2 = status_running; b3 = 0; b4 = 0 })

  -- The state is filled in before the exchange, and stays so when that fails.
  unfoldable pub bgb_init :
      ℕ → ℕ → Option (ℕ → W → ℕ × W) → Option (ℕ → W → W) → W → Bool × Bgb W × W
  bgb_init sock init_byte transfer timestamp w =
      let state : Bgb W = record {
        socket = sock;
        byte = init_byte;
        callback_transfer = transfer;
        callback_timestamp = timestamp;
        timestamp_last = 0;
        timestamp_init = false;
      } in
      let (r, w') = bgb_greet sock w in (elim r [ none ↦ false | some _ ↦ true ], state, w')

  -- The switch of `bgb_loop`: the timestamp that it goes on with, or `none` where the function
  -- returns false.
  unfoldable pub handle_packet : Bgb W → Packet → W → Option ℕ × Bgb W × W
  handle_packet s p w = elim (command p.cmd) [
    | joypad ↦ (some s.timestamp_last, s, w)
    | sync1 ↦
        let (sent, w1) = bgb_send s.socket (sync2_answer s.byte) w in
        elim sent [
          | none ↦ (none, s, w1)
          | some _ ↦ elim s.callback_transfer [
            | none ↦ (some p.timestamp, s, w1)
            | some transfer ↦
                let (byte, w2) = transfer p.b2 w1 in
                (some p.timestamp, record s { byte = byte }, w2)
          ]
        ]
    | sync2 ↦ (some s.timestamp_last, s, w)
    | sync3 ↦
        if not (p.b2 == 0)
        then (some p.timestamp, s, w)
        else let (sent, w1) = bgb_send s.socket p w in
          elim sent [ none ↦ (none, s, w1) | some _ ↦ (some p.timestamp, s, w1) ]
    | status ↦ (some s.timestamp_last, s, w)
    | wantdisconnect ↦ (some s.timestamp_last, s, w)
    | unknown ↦ (none, s, w)
  ]

-- `(timestamp_last - timestamp_cur) & 0x7FFFFFFF` on `uint32_t`.
unfoldable pub clock_lag : ℕ → ℕ → ℕ
clock_lag last cur = bit_and ((last + 2 ^ 32 - cur) % 2 ^ 32) 0x7FFFFFFF

module _ {W : Type 0} where
  -- The rest of `bgb_loop`, which reports the emulator's clock.
  unfoldable pub report_timestamp : Bgb W → ℕ → W → Bgb W × W
  report_timestamp s cur w = elim s.callback_timestamp [
    | none ↦ (s, w)
    | some callback ↦
        let (s1, w1) : Bgb W × W =
          if s.timestamp_init
          then (s, w)
          else (record s { timestamp_last = cur; timestamp_init = true }, callback cur w) in
        let diff = clock_lag s1.timestamp_last cur in
        let kept = if not (diff == 0) && leb diff 0x100 then s1.timestamp_last else cur in
        let w2 = if not (s1.timestamp_last == kept) then callback kept w1 else w1 in
        (record s1 { timestamp_last = kept }, w2)
  ]

  -- After the switch: nothing more if it returned false, else the clock.
  unfoldable pub finish_loop : Option ℕ × Bgb W × W → Bool × Bgb W × W
  finish_loop (none, s, w) = (false, s, w)
  finish_loop (some cur, s, w) = let (s', w') = report_timestamp s cur w in (true, s', w')

module _ {W : Type 0} (os : Os W) where
  unfoldable pub bgb_loop : Bgb W → W → Bool × Bgb W × W
  bgb_loop s w =
      let (rc, w1) = socket_hasdata os s.socket w in
      if is_nonpos rc
      then (true, s, w1)
      else let (received, w2) = bgb_recv os s.socket w1 in
        elim received [ none ↦ (false, s, w2) | some p ↦ finish_loop (handle_packet os s p w2) ]
