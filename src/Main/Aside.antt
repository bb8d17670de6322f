-- ===== src/Main/Aside.antt =====
-- source/main.c with source/socket.c: the calls of a session that do not concern the serial line.
use mathlib.Core.Path.{subst}
use libmobile_bgb.Prelude.{
  ℕ, ◌≡◌, refl, sym, Option, none, some, List, [], ◌∷◌, arith, inl, inr, Option-cases, Bool-cases,
  is_pos,
}
use libmobile_bgb.Os.{Os, Family, SockType, stream, SockAddr, SockOpt, Errno, success}
use libmobile_bgb.Socket.{connect_first, socket_connect}
use libmobile_bgb.SocketImpl.Types.{SocketImpl}
use libmobile_bgb.SocketImpl.Defs.{stop_all, socket_impl_stop}
use libmobile_bgb.Bgb.Line.{Log, Same}
use libmobile_bgb.Main.Line.{Same-trans}

module _ {W : Type 0} (os : Os W) (log : Log W) where
  -- The other calls that a session makes leave the log as it is.
  pub record IsAside : Type 0 where
    pub set_errno_same : (e : Errno) (w : W) → Same log w (os.set_errno e w)
    pub socket_same : (f : Family) (t : SockType) (w : W) → Same log w (os.socket f t w).1
    pub connect_same : (fd : ℕ) (a : Option SockAddr) (w : W) → Same log w (os.connect fd a w).1
    pub close_same : (fd : ℕ) (w : W) → Same log w (os.close fd w)
    pub setsockopt_same :
        (fd : ℕ) (o : SockOpt) (n : ℕ) (w : W) → Same log w (os.setsockopt fd o n w).1
    pub sigaction_same : (w : W) → Same log w (os.sigaction w).1

  module _ (aside : IsAside) where
    connect_first-Same :
        (addresses : List (Family × SockAddr)) (error : Errno) (w : W)
        → Same log w (connect_first os addresses error w).2
    unfolding connect_first
    connect_first-Same [] error w = (refl, refl)
    connect_first-Same ((family, addr) ∷ rest) error w =
        let w0 = os.set_errno success w in
        let (created, w1) = os.socket family stream w0 in
        let same1 =
          Same-trans log w w0 w1 (aside.set_errno_same success w)
            (aside.socket_same family stream w0) in
        elim (Option-cases created) [
          | inl failed ↦
              let ends : connect_first os ((family, addr) ∷ rest) error w
                  ≡ connect_first os rest error w1 =
                ground arith in
              subst (λ r. Same log w r.2) (sym ends)
                (Same-trans log w w1 _ same1 (connect_first-Same rest error w1))
          | inr (sock, opened) ↦
              let (rc, w2) = os.connect sock (some addr) w1 in
              let same2 = Same-trans log w w1 w2 same1 (aside.connect_same sock (some addr) w1) in
              let w3 = os.close sock w2 in
              let same3 = Same-trans log w w2 w3 same2 (aside.close_same sock w2) in
              let later = connect_first-Same rest (os.errno w2) w3 in
              elim (Bool-cases (is_pos rc 0)) [
                | inl reached ↦
                    let ends : connect_first os ((family, addr) ∷ rest) error w
                        ≡ (some sock, error, w2) =
                      ground arith in
                    subst (λ r. Same log w r.2) (sym ends) same2
                | inr refused ↦
                    let ends : connect_first os ((family, addr) ∷ rest) error w
                        ≡ connect_first os rest (os.errno w2) w3 =
                      ground arith in
                    subst (λ r. Same log w r.2) (sym ends) (Same-trans log w w3 _ same3 later)
              ]
        ]

    pub connect-Same :
        (addresses : Option (List (Family × SockAddr))) (w : W)
        → Same log w (socket_connect os addresses w).1
    unfolding socket_connect
    connect-Same none w = (refl, refl)
    connect-Same (some addresses) w =
        let (found, error, w1) = connect_first os addresses success w in
        Same-trans log w w1 (os.set_errno error w1) (connect_first-Same addresses success w)
          (aside.set_errno_same error w1)

    stop_all-Same : (sockets : List (Option ℕ)) (w : W) → Same log w (stop_all os sockets w)
    unfolding stop_all
    stop_all-Same [] w = (refl, refl)
    stop_all-Same (none ∷ rest) w = stop_all-Same rest w
    stop_all-Same (some fd ∷ rest) w =
        Same-trans log w (os.close fd w) _ (aside.close_same fd w)
          (stop_all-Same rest (os.close fd w))

    pub stop-Same : (s : SocketImpl) (w : W) → Same log w (socket_impl_stop os s w)
    unfolding socket_impl_stop
    stop-Same s w = stop_all-Same s.sockets w
