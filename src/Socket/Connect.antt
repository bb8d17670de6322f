-- ===== src/Socket/Connect.antt =====
-- source/socket.c: what `socket_connect` does to the descriptors that are open.
use libmobile_bgb.Prelude.{
  ℕ, ◌≡◌, refl, ◌∙◌, false, ◌||◌, Option, none, some, List, [], ◌∷◌, arith, ◌==◌, is_pos, inl, inr,
  Option-cases, Bool-cases,
}
use libmobile_bgb.Os.{Os, Errno, success, stream, Family, SockAddr}
use libmobile_bgb.Os.Descriptors.{Descriptors, is_returned}
use libmobile_bgb.Socket.{connect_first, socket_connect}

module _ {W : Type 0} (os : Os W) (D : Descriptors os) where
  open D use {is_open}

  -- A call that opens the descriptor that it returns, if any, which was not open, and no other.
  pub record Returns (w : W) (r : Option ℕ) (w' : W) : Type 0 where
    pub is_new : (fd : ℕ) → r ≡ some fd → is_open w fd ≡ false
    pub opens : (d : ℕ) → is_open w' d ≡ (is_returned r d || is_open w d)

  connect_first-Returns :
      (addresses : List (Family × SockAddr)) (error : Errno) (w : W)
      → Returns w (connect_first os addresses error w).0 (connect_first os addresses error w).2
  unfolding connect_first
  connect_first-Returns [] error w = record { is_new = λ fd e. ground arith; opens = λ d. refl }
  connect_first-Returns ((family, addr) ∷ rest) error w =
      let w0 = os.set_errno success w in
      let w1 = (os.socket family stream w0).1 in
      elim (Option-cases (os.socket family stream w0).0) [
        | inl e ↦
            let tail = connect_first-Returns rest error w1 in
            rw (connect_first, e)
              (record {
                is_new = λ fd e'. ground (
                  arith,
                  tail.is_new fd,
                  D.socket_opens family stream w0 fd,
                  D.set_errno_keeps success w fd,
                );
                opens = λ d. ground (
                  arith,
                  tail.opens d,
                  D.socket_opens family stream w0 d,
                  D.set_errno_keeps success w d,
                );
              })
        | inr (sock, e) ↦
            let w2 = (os.connect sock (some addr) w1).1 in
            let tail = connect_first-Returns rest (os.errno w2) (os.close sock w2) in
            let before : (d : ℕ) → is_open w2 d ≡ (d == sock || is_open w d) = λ d. ground (
              arith,
              D.connect_keeps sock (some addr) w1 d,
              D.socket_opens family stream w0 d,
              D.set_errno_keeps success w d,
            ) in
            let new : is_open w sock ≡ false =
              ground
                (arith, D.socket_fresh family stream w0 sock, D.set_errno_keeps success w sock) in
            elim (Bool-cases (is_pos (os.connect sock (some addr) w1).0 0)) [
              | inl e' ↦
                  rw (connect_first, e, e')
                    (record { is_new = λ fd e''. ground (arith, new); opens = λ d. before d })
              | inr e' ↦
                  rw (connect_first, e, e')
                    (record {
                      is_new = λ fd e''.
                          ground (arith, tail.is_new fd, D.close_closes sock w2 fd, before fd, new);
                      opens = λ d.
                          ground (arith, tail.opens d, D.close_closes sock w2 d, before d, new);
                    })
            ]
      ]

  -- Whatever addresses there are, and however the attempts fail: `socket_connect` opens only the
  -- descriptor that it returns, if any, and that one was not open.
  pub socket_connect-Returns :
      (addresses : Option (List (Family × SockAddr))) (w : W)
      → Returns w (socket_connect os addresses w).0 (socket_connect os addresses w).1
  unfolding socket_connect
  socket_connect-Returns none w = record { is_new = λ fd e. ground arith; opens = λ d. refl }
  socket_connect-Returns (some addresses) w =
      let (found, error, w1) = connect_first os addresses success w in
      let r = connect_first-Returns addresses success w in
      record { is_new = r.is_new; opens = λ d. D.set_errno_keeps error w1 d ∙ r.opens d }
