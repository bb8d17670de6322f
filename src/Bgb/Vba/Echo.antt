-- ===== src/Bgb/Vba/Echo.antt =====
-- source/bgblink.c: the bytes that the link with VBA-M sends.
use mathlib.Core.Path.{subst}
use libmobile_bgb.Prelude.{
  ℕ, zero, suc, ◌≡◌, ◌<◌, refl, sym, ap, ◌∙◌, ◌⊎◌, inl, inr, Bool, true, false, not, List, [], ◌∷◌,
  ◌++◌, arith, length, set, take, is_minus_one, is_pos, Bool-cases, Option-cases, if◌then◌else◌,
}
use libmobile_bgb.Os.{Os}
use libmobile_bgb.Bgb.Line.{Log, Same, IsLog}
use libmobile_bgb.Bgb.Vba.{overwrite, first_byte, vba_send, vba_recv, vba_rounds, vba_loop}

-- A text for each byte.
abbrev pub texts : List ℕ → List (List ℕ)
texts [] = []
texts (b ∷ bytes) = (b ∷ []) ∷ texts bytes

texts-append : (xs ys : List ℕ) → texts (xs ++ ys) ≡ texts xs ++ texts ys
texts-append [] ys = refl
texts-append (x ∷ xs) ys = ap (◌∷◌ (x ∷ [])) (texts-append xs ys)

length-overwrite : (buffer bytes : List ℕ) → length (overwrite buffer bytes) ≡ length buffer
length-overwrite buffer [] = refl
length-overwrite [] (b ∷ bytes) = refl
length-overwrite (x ∷ buffer) (b ∷ bytes) = ap suc (length-overwrite buffer bytes)

take-set : (buffer : List ℕ) (b : ℕ) → 0 < length buffer → take 1 (set buffer 0 b) ≡ b ∷ []
take-set [] b h = absurd (omega arith)
take-set (x ∷ buffer) b h = ground arith

length-set_first : (buffer : List ℕ) (b : ℕ) → length (set buffer 0 b) ≡ length buffer
length-set_first [] b = refl
length-set_first (x ∷ buffer) b = refl

-- The bytes that went out, and the next one to go.
abbrev Echoes : {W : Type 0} → Log W → ℕ → W → Type 0
Echoes log last w = log.sent w ++ texts (last ∷ []) ≡ texts (0xD2 ∷ 0xD2 ∷ log.returned w)

abbrev Ends : {W : Type 0} → Log W → Bool × ℕ × W → Type 0
Ends log (returned, last, w) = Echoes log last w

-- Nothing was sent and returned, or the bytes that went out, followed by `transfer_last`, are 0xD2
-- twice and those that the adapter returned.
abbrev pub HasEchoed : {W : Type 0} → Log W → Bool × ℕ × W → Type 0
HasEchoed log (returned, last, w) = ((log.sent w ≡ []) × (log.returned w ≡ [])) ⊎ Echoes log last w

module _ {W : Type 0} (os : Os W) (log : Log W) (h : IsLog os log) (sock : ℕ)
    (whole : (b : ℕ) (w : W)
      → is_minus_one (os.send sock (b ∷ []) w).0 ≡ false
      → is_pos (os.send sock (b ∷ []) w).0 1 ≡ true) where
  vba_recv-Same :
      (buffer : List ℕ) (size : ℕ) (w : W)
      → Same log w (vba_recv os sock buffer size w).2
        × (length (vba_recv os sock buffer size w).1 ≡ length buffer)
  unfolding vba_recv
  vba_recv-Same buffer size w = elim (Option-cases (os.recv sock size w).0) [
    | inl e ↦ ground (arith, h.recv_same sock size w)
    | inr (bytes, e) ↦ ground (arith, h.recv_same sock size w, length-overwrite buffer bytes)
  ]

  -- A byte that is sent is logged, and one that is not is not.
  module _ (buffer : List ℕ) (b : ℕ) (w : W) (room : 0 < length buffer) where
    vba_send-sent :
        (vba_send os sock (set buffer 0 b) 1 w).0 ≡ true
        → log.sent (vba_send os sock (set buffer 0 b) 1 w).1 ≡ log.sent w ++ texts (b ∷ [])
    unfolding vba_send
    vba_send-sent went =
        let one = take-set buffer b room in
        let went' : not (is_minus_one (os.send sock (b ∷ []) w).0) ≡ true = rw one at went in
        rw one (h.send_whole sock (b ∷ []) w (whole b w (ground arith)))

    vba_send-lost :
        (vba_send os sock (set buffer 0 b) 1 w).0 ≡ false
        → log.sent (vba_send os sock (set buffer 0 b) 1 w).1 ≡ log.sent w
    unfolding vba_send
    vba_send-lost lost =
        let one = take-set buffer b room in
        let lost' : not (is_minus_one (os.send sock (b ∷ []) w).0) ≡ false = rw one at lost in
        rw one (h.send_cut sock (b ∷ []) w (ground arith))

    vba_send-returned : log.returned (vba_send os sock (set buffer 0 b) 1 w).1 ≡ log.returned w
    unfolding vba_send
    vba_send-returned = h.send_returned sock (take 1 (set buffer 0 b)) w

  Echoes-Same : (last : ℕ) (w w' : W) → Same log w w' → Echoes log last w → Echoes log last w'
  Echoes-Same last w w' (sent, returned) k = rw (sent, returned) k

  module _ (transfer : ℕ → W → ℕ × W)
      (transfer_sent : (c : ℕ) (w : W) → log.sent (transfer c w).1 ≡ log.sent w)
      (transfer_returned : (c : ℕ) (w : W)
        → log.returned (transfer c w).1 ≡ log.returned w ++ ((transfer c w).0 ∷ [])) where
    -- The last byte went out, and the adapter has returned the next one.
    transfer-Echoes :
        (last c : ℕ) (w w2 : W)
        → Echoes log last w
        → log.sent w2 ≡ log.sent w ++ texts (last ∷ [])
        → log.returned w2 ≡ log.returned w
        → Echoes log (transfer c w2).0 (transfer c w2).1
    transfer-Echoes last c w w2 k sent returned =
        rw (transfer_sent c w2, transfer_returned c w2, sent, returned, k)
          (sym (texts-append (0xD2 ∷ 0xD2 ∷ log.returned w) ((transfer c w2).0 ∷ [])))

    rounds-Echoes :
        (rounds last : ℕ) (buffer : List ℕ) (w : W)
        → 0 < length buffer
        → Echoes log last w
        → Ends log (vba_rounds os sock transfer rounds last buffer w)
    unfolding vba_rounds
    rounds-Echoes zero last buffer w room k = k
    rounds-Echoes (suc rounds) last buffer w room k =
        let (received, buffer1, w1) = vba_recv os sock buffer 1 w in
        let (same1, long) = vba_recv-Same buffer 1 w in
        let k1 = Echoes-Same last w w1 same1 k in
        let room1 : 0 < length buffer1 = omega arith in
        let (sent, w2) = vba_send os sock (set buffer1 0 last) 1 w1 in
        let back = vba_send-returned buffer1 last w1 room1 in
        let (reply, w3) = transfer (first_byte buffer1) w2 in
        elim (Bool-cases received) [
          | inr no_byte ↦
              let ends : vba_rounds os sock transfer (suc rounds) last buffer w ≡ (true, last, w1) =
                ground arith in
              subst (Ends log) (sym ends) k1
          | inl byte ↦ elim (Bool-cases sent) [
            | inr lost ↦
                let ends : vba_rounds os sock transfer (suc rounds) last buffer w
                    ≡ (true, last, w2) =
                  ground arith in
                subst (Ends log) (sym ends)
                  (Echoes-Same last w1 w2 (vba_send-lost buffer1 last w1 room1 lost, back) k1)
            | inl went ↦
                let k3 =
                  transfer-Echoes last (first_byte buffer1) w1 w2 k1
                    (vba_send-sent buffer1 last w1 room1 went) back in
                let ends : vba_rounds os sock transfer (suc rounds) last buffer w
                    ≡ vba_rounds os sock transfer rounds reply (set buffer1 0 last) w3 =
                  ground arith in
                subst (Ends log) (sym ends) (
                  rounds-Echoes rounds reply (set buffer1 0 last) w3
                    (omega (arith, length-set_first buffer1 last)) k3)
          ]
        ]

    if_HasEchoed :
        (b : Bool) (r r' : Bool × ℕ × W)
        → (b ≡ true → HasEchoed log r)
        → (b ≡ false → HasEchoed log r')
        → HasEchoed log (if b then r else r')
    if_HasEchoed true r r' k k' = k refl
    if_HasEchoed false r r' k k' = k' refl

    -- Where the log is that of the system and of the callback, nothing was sent or returned yet,
    -- send() sends a single byte or fails, and the buffer is not empty: in any number of rounds of
    -- `vba_loop`, whatever is received, the bytes that are sent, followed by `transfer_last`, are 0xD2
    -- twice and then the bytes that the callback returned, or none are sent and returned.
    pub vba_loop-HasEchoed :
        (rounds : ℕ) (buffer : List ℕ) (w : W)
        → 0 < length buffer
        → log.sent w ≡ []
        → log.returned w ≡ []
        → HasEchoed log (vba_loop os sock transfer rounds buffer w)
    unfolding vba_loop
    vba_loop-HasEchoed rounds buffer w room none_sent none_returned =
        let (received, buffer1, w1) = vba_recv os sock buffer 8 w in
        let ((sent1, back1), long1) = vba_recv-Same buffer 8 w in
        let (received', buffer2, w2) = vba_recv os sock buffer1 5 w1 in
        let ((sent2, back2), long2) = vba_recv-Same buffer1 5 w1 in
        let room2 : 0 < length buffer2 = omega arith in
        let (sent, w3) = vba_send os sock (set buffer2 0 0xD2) 1 w2 in
        let back3 = vba_send-returned buffer2 0xD2 w2 room2 in
        let none1 = sent1 ∙ none_sent in
        let none2 = sent2 ∙ none1 in
        let empty1 = back1 ∙ none_returned in
        let empty2 = back2 ∙ empty1 in
        let empty3 = back3 ∙ empty2 in
        if_HasEchoed (not received) _ _ (λ _. inl (none1, empty1))
          λ _.
            if_HasEchoed (not received') _ _ (λ _. inl (none2, empty2))
              λ _. elim (Bool-cases sent) [
                | inr lost ↦
                    if_HasEchoed (not sent) _ _
                      (λ _. inl (vba_send-lost buffer2 0xD2 w2 room2 lost ∙ none2, empty3))
                      (λ e. absurd (ground arith))
                | inl went ↦
                    if_HasEchoed (not sent) _ _ (λ e. absurd (ground arith))
                      λ _. inr (
                        rounds-Echoes rounds 0xD2 (set buffer2 0 0xD2) w3
                          (omega (arith, length-set_first buffer2 0xD2))
                          (rw (vba_send-sent buffer2 0xD2 w2 room2 went, none2, empty3) refl))
              ]
