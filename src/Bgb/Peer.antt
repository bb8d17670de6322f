-- ===== src/Bgb/Peer.antt =====
-- source/bgblink.c, run against an emulator: a world that delivers a script of reads, takes the
-- packets that are sent until it has no room, and logs the bytes of the serial line.
use libmobile_bgb.Prelude.{
  ℕ, zero, suc, Bool, true, false, Option, none, some, List, [], ◌∷◌, ◌++◌, ℤ, pos, negsuc, length,
  ◌==◌, ◌≡◌, arith, if◌then◌else◌,
}
use libmobile_bgb.Os.{Os, success, stream}
use libmobile_bgb.Socket.{socket_hasdata}
use libmobile_bgb.Bgb.Packet.{Packet, bytes_packet, command, Command, sync1, cmd_sync2}
use libmobile_bgb.Bgb.Link.{Bgb, bgb_recv, handle_packet, finish_loop, bgb_loop}

-- What each read will return; what was sent, and how many more packets can be; the bytes that
-- the adapter was asked to transfer and those that it returned; and the adapter.
pub record Peer (U : Type 0) : Type 0 where
  pub inbox : List (List ℕ)
  pub sent : List (List ℕ)
  pub room : ℕ
  pub asked : List ℕ
  pub returned : List ℕ
  pub user : U

unfoldable pub peer_poll : List (List ℕ) → ℤ
peer_poll [] = pos 0
peer_poll _ = pos 1

module _ {U : Type 0} where
  unfoldable pub peer_send : List ℕ → ℕ → Peer U → ℤ × Peer U
  peer_send bytes zero w = (negsuc 0, w)
  peer_send bytes (suc room) w =
      (pos (length bytes), record w { sent = w.sent ++ (bytes ∷ []); room = room })

  unfoldable pub peer_recv : List (List ℕ) → Peer U → Option (List ℕ) × Peer U
  peer_recv [] w = (none, w)
  peer_recv (bytes ∷ rest) w = (some bytes, record w { inbox = rest })

  abbrev pub peer_os : Os (Peer U)
  peer_os = record {
    errno = λ w. success;
    set_errno = λ e w. w;
    inet_ntop_world = λ f host w. w;
    socket = λ f t w. (none, w);
    close = λ fd w. w;
    connect = λ fd a w. (pos 0, w);
    bind = λ fd a w. (pos 0, w);
    listen = λ fd n w. (pos 0, w);
    accept = λ fd w. (none, w);
    send = λ fd bytes w. peer_send bytes w.room w;
    recv = λ fd size w. peer_recv w.inbox w;
    sendto = λ fd bytes a w. peer_send bytes w.room w;
    recvfrom = λ fd size peek w. (none, w);
    poll = λ fds delay w. (peer_poll w.inbox, w);
    setsockopt = λ fd o v w. (pos 0, w);
    get_type = λ fd w. (some stream, w);
    get_error = λ fd w. (success, w);
    sigaction = λ w. (pos 0, w);
    get_flags = λ fd w. (pos 0, w);
    set_flags = λ fd flags w. (pos 0, w);
  }

  -- The callbacks, which act on the adapter.
  abbrev pub logged_transfer : (ℕ → U → ℕ × U) → ℕ → Peer U → ℕ × Peer U
  logged_transfer transfer byte w =
      let (reply, user) = transfer byte w.user in
      (
        reply,
        record w {
          asked = w.asked ++ (byte ∷ []);
          returned = w.returned ++ (reply ∷ []);
          user = user;
        },
      )

  abbrev pub on_user : (ℕ → U → U) → ℕ → Peer U → Peer U
  on_user f t w = record w { user = f t w.user }

  -- `bgb_loop` over and over, until it returns false.
  unfoldable pub loops : ℕ → Bgb (Peer U) → Peer U → Bool × Bgb (Peer U) × Peer U
  loops zero s w = (true, s, w)
  loops (suc n) s w =
      let (ok, s', w') = bgb_loop peer_os s w in
      let rest = loops n s' w' in if ok then rest else (false, s', w')

-- The serial bytes in the answers that were sent.
abbrev answer_byte : List ℕ → List ℕ
answer_byte (cmd ∷ byte ∷ rest) = if cmd == cmd_sync2 then byte ∷ [] else []
answer_byte _ = []

abbrev pub answered : List (List ℕ) → List ℕ
answered [] = []
answered (bytes ∷ rest) = answer_byte bytes ++ answered rest

-- The serial bytes in the packets that are still to be read.
abbrev pub transfer_byte : Command → ℕ → List ℕ
transfer_byte sync1 byte = byte ∷ []
transfer_byte _ byte = []

abbrev pub request_byte : Option Packet → List ℕ
request_byte none = []
request_byte (some p) = transfer_byte (command p.cmd) p.b2

abbrev pub requested : List (List ℕ) → List ℕ
requested [] = []
requested (bytes ∷ rest) = request_byte (bytes_packet bytes) ++ requested rest

-- One round of the loop, by what there is to read.
module _ {U : Type 0} (s : Bgb (Peer U)) (w : Peer U) where
  pub bgb_loop_quiet : w.inbox ≡ [] → bgb_loop peer_os s w ≡ (true, s, w)
  unfolding bgb_loop socket_hasdata peer_poll
  bgb_loop_quiet e = rw (e, peer_poll)

  module _ (bytes : List ℕ) (rest : List (List ℕ)) where
    pub bgb_loop_malformed :
        w.inbox ≡ bytes ∷ rest
        → bytes_packet bytes ≡ none
        → bgb_loop peer_os s w ≡ (false, s, record w { inbox = rest })
    unfolding bgb_loop bgb_recv socket_hasdata peer_poll peer_recv
    bgb_loop_malformed e bad = ground arith

    pub bgb_loop_delivers :
        (p : Packet)
        → w.inbox ≡ bytes ∷ rest
        → bytes_packet bytes ≡ some p
        → bgb_loop peer_os s w ≡ finish_loop (handle_packet peer_os s p (record w { inbox = rest }))
    unfolding bgb_loop bgb_recv socket_hasdata peer_poll peer_recv
    bgb_loop_delivers p e good = ground arith
