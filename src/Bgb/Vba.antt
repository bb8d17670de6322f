-- ===== src/Bgb/Vba.antt =====
-- source/bgblink.c: the link with VBA-M. It is disabled there by #if 0. What the functions print is
-- left out.
pub mod Echo
use libmobile_bgb.Prelude.{
  ℕ, zero, suc, Bool, true, false, not, Option, none, some, List, [], ◌∷◌, is_minus_one, set, take,
  if◌then◌else◌,
}
use libmobile_bgb.Os.{Os}

-- What recv() leaves in a buffer.
abbrev pub overwrite : List ℕ → List ℕ → List ℕ
overwrite buffer [] = buffer
overwrite [] (b ∷ bytes) = []
overwrite (x ∷ buffer) (b ∷ bytes) = b ∷ overwrite buffer bytes

-- `data[0]`. The buffer has eight bytes.
abbrev pub first_byte : List ℕ → ℕ
first_byte [] = 0
first_byte (b ∷ _) = b

module _ {W : Type 0} (os : Os W) (sock : ℕ) where
  -- The first `size` bytes of the buffer are sent.
  unfoldable pub vba_send : List ℕ → ℕ → W → Bool × W
  vba_send buffer size w =
      let (num, w') = os.send sock (take size buffer) w in (not (is_minus_one num), w')

  unfoldable pub vba_recv : List ℕ → ℕ → W → Bool × List ℕ × W
  vba_recv buffer size w =
      let (num, w') = os.recv sock size w in
      elim num [ none ↦ (false, buffer, w') | some bytes ↦ (true, overwrite buffer bytes, w') ]

  module _ (callback_transfer : ℕ → W → ℕ × W) where
    -- The loop, up to a number of rounds: whether it has returned, `transfer_last`, and the world.
    unfoldable pub vba_rounds : ℕ → ℕ → List ℕ → W → Bool × ℕ × W
    vba_rounds zero transfer_last buffer w = (false, transfer_last, w)
    vba_rounds (suc rounds) transfer_last buffer w =
        let (received, buffer1, w1) = vba_recv buffer 1 w in
        let buffer2 = set buffer1 0 transfer_last in
        let (sent, w2) = vba_send buffer2 1 w1 in
        let (reply, w3) = callback_transfer (first_byte buffer1) w2 in
        let rest = vba_rounds rounds reply buffer2 w3 in
        if not received
        then (true, transfer_last, w1)
        else if not sent
        then (true, transfer_last, w2)
        else rest

    -- `buffer` is what `data` holds at first.
    unfoldable pub vba_loop : ℕ → List ℕ → W → Bool × ℕ × W
    vba_loop rounds buffer w =
        let (received, buffer1, w1) = vba_recv buffer 8 w in
        let (received', buffer2, w2) = vba_recv buffer1 5 w1 in
        let buffer3 = set buffer2 0 0xD2 in
        let (sent, w3) = vba_send buffer3 1 w2 in
        let run = vba_rounds rounds 0xD2 buffer3 w3 in
        if not received
        then (true, 0xD2, w1)
        else if not received'
        then (true, 0xD2, w2)
        else if not sent
        then (true, 0xD2, w3)
        else run
