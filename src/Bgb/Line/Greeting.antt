-- ===== src/Bgb/Line/Greeting.antt =====
-- source/bgblink.c: the exchange of `bgb_init` answers no transfer.
use mathlib.Core.List.{append-nil}
use libmobile_bgb.Prelude.{
  ℕ, ◌≡◌, refl, ◌∙◌, false, Option, List, [], ◌∷◌, ◌++◌, ◌==◌, inl, inr, Option-cases,
}
use libmobile_bgb.Os.{Os}
use libmobile_bgb.Bgb.Packet.{Packet, packet_bytes, cmd_sync2}
use libmobile_bgb.Bgb.Link.{bgb_send, bgb_recv, bgb_init}
use libmobile_bgb.Bgb.Exchange.{bgb_greet_keeps}
use libmobile_bgb.Bgb.Peer.{answered}
use libmobile_bgb.Bgb.Serial.{answered-append}
use libmobile_bgb.Bgb.Line.{Log, IsLog, InStep, bgb_send-Extends, bgb_recv-Same}

answered-other :
    (p : Packet) (xs : List (List ℕ))
    → (p.cmd == cmd_sync2) ≡ false
    → answered (xs ++ (packet_bytes p ∷ [])) ≡ answered xs
unfolding packet_bytes
answered-other p xs e = rw answered-append (rw e (append-nil (answered xs)))

module _ {W : Type 0} (os : Os W) (log : Log W) (h : IsLog os log) where
  -- No answer goes out, and the adapter returns nothing.
  abbrev pub Quiet : W → W → Type 0
  Quiet w w' = (answered (log.sent w') ≡ answered (log.sent w)) × (log.returned w' ≡ log.returned w)

  bgb_send-Quiet :
      (w0 : W) (sock : ℕ) (p : Packet) (w : W)
      → (p.cmd == cmd_sync2) ≡ false
      → Quiet w0 w
      → Quiet w0 (bgb_send os sock p w).1
  bgb_send-Quiet w0 sock p w other (sent0, returned0) =
      let out = bgb_send-Extends os log h sock p w in
      elim (Option-cases (bgb_send os sock p w).0) [
        | inl lost ↦ let (sent, returned) = rw lost at out in (rw sent sent0, returned ∙ returned0)
        | inr (_, went) ↦
            let (sent, returned) = rw went at out in
            (rw sent (answered-other p (log.sent w) other ∙ sent0), returned ∙ returned0)
      ]

  bgb_recv-Quiet : (w0 : W) (sock : ℕ) (w : W) → Quiet w0 w → Quiet w0 (bgb_recv os sock w).1
  bgb_recv-Quiet w0 sock w (sent0, returned0) =
      let (sent, returned) = bgb_recv-Same os log h sock w in (rw sent sent0, returned ∙ returned0)

  -- Where nothing was answered and nothing returned, `bgb_init` puts the line in step, whether it
  -- succeeds or not.
  pub bgb_init-InStep :
      (sock byte : ℕ) (transfer : Option (ℕ → W → ℕ × W)) (timestamp : Option (ℕ → W → W)) (w : W)
      → answered (log.sent w) ≡ []
      → log.returned w ≡ []
      → InStep os log byte
          (bgb_init os sock byte transfer timestamp w).1
          (bgb_init os sock byte transfer timestamp w).2
  unfolding bgb_init
  bgb_init-InStep sock byte transfer timestamp w sent returned =
      let (sent', returned') =
        bgb_greet_keeps os (Quiet w) (bgb_send-Quiet w) (bgb_recv-Quiet w) sock w (refl, refl) in
      rw (sent', sent, returned', returned) refl
