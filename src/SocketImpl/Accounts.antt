-- ===== src/SocketImpl/Accounts.antt =====
-- source/socket_impl.c: the invariant on descriptors. Those that are open are the ones in the
-- table, each in one slot, and the ones that were open before (`base`).
use libmobile_bgb.Prelude.{
  ℕ, ◌≡◌, refl, Bool, true, false, not, ◌&&◌, ◌||◌, Option, none, some, List, [], ◌∷◌, arith,
  get_elem?, set, ◌==◌, inl, inr, Option-cases,
}
use libmobile_bgb.Os.{Os}
use libmobile_bgb.Os.Descriptors.{Descriptors}
use libmobile_bgb.SocketImpl.Types.{
  MobileSockType, MobileAddrType, SocketImpl, socket_impl_init, assert_open, assert_closed,
  sock_type, sock_addrtype,
}
use libmobile_bgb.SocketImpl.Defs.{
  open_socket, socket_impl_open, socket_impl_close, stop_all, socket_impl_stop,
}
use libmobile_bgb.SocketImpl.Slots.{
  holds, AreDistinct, holds-replicate, replicate-AreDistinct, holds_of_slot, holds-set_empty,
  set_empty-AreDistinct, holds-set-none, set-none-AreDistinct,
}
use libmobile_bgb.SocketImpl.Opening.{Opened, failed, opened, open_socket-Opened}

assert_closed_slot :
    (s : SocketImpl) (conn : ℕ)
    → assert_closed s conn ≡ some tt
    → get_elem? s.sockets conn ≡ some none
unfolding assert_closed
assert_closed_slot s conn h = ground arith

pub assert_open_slot :
    (s : SocketImpl) (conn fd : ℕ)
    → assert_open s conn ≡ some fd
    → get_elem? s.sockets conn ≡ some (some fd)
unfolding assert_open
assert_open_slot s conn fd h = ground arith

module _ {W : Type 0} (os : Os W) (D : Descriptors os) (base : ℕ → Bool) where
  open D use {is_open}

  pub record Accounts (s : SocketImpl) (w : W) : Type 0 where
    pub owned : (d : ℕ) → is_open w d ≡ (holds s.sockets d || base d)
    pub foreign : (d : ℕ) → holds s.sockets d ≡ true → base d ≡ false
    pub distinct : AreDistinct s.sockets

  -- At the start the table is empty.
  pub init-Accounts :
      (n : ℕ) (w : W) → ((d : ℕ) → is_open w d ≡ base d) → Accounts (socket_impl_init n) w
  unfolding socket_impl_init
  init-Accounts n w h = record {
    owned = λ d. ground (arith, h d, holds-replicate n d);
    foreign = λ d e. ground (arith, holds-replicate n d);
    distinct = replicate-AreDistinct n;
  }

  -- A world in which the same descriptors are open.
  pub same-Accounts :
      (s : SocketImpl) (w w' : W)
      → ((d : ℕ) → is_open w' d ≡ is_open w d)
      → Accounts s w
      → Accounts s w'
  same-Accounts s w w' h a = record {
    owned = λ d. ground (arith, h d, a.owned d);
    foreign = a.foreign;
    distinct = a.distinct;
  }

  -- A descriptor that is in use is not new.
  pub absent_of_fresh :
      (s : SocketImpl) (w : W) (fd : ℕ)
      → Accounts s w
      → is_open w fd ≡ false
      → (holds s.sockets fd ≡ false) × (base fd ≡ false)
  absent_of_fresh s w fd a new = ground (arith, a.owned fd)

  -- A new descriptor that enters an empty slot.
  filled-Accounts :
      (s : SocketImpl) (conn fd : ℕ) (w w' : W)
      → get_elem? s.sockets conn ≡ some none
      → is_open w fd ≡ false
      → ((d : ℕ) → is_open w' d ≡ (d == fd || is_open w d))
      → Accounts s w
      → Accounts (record { sockets = set s.sockets conn (some fd) }) w'
  filled-Accounts s conn fd w w' slot new h a =
      let absent = absent_of_fresh s w fd a new in
      record {
        owned = λ d. ground (arith, h d, a.owned d, holds-set_empty s.sockets conn fd d slot);
        foreign =
            λ d e. ground (arith, absent, a.foreign d, holds-set_empty s.sockets conn fd d slot);
        distinct = set_empty-AreDistinct s.sockets conn fd slot absent.0 a.distinct;
      }

  Opened-Accounts :
      (s : SocketImpl) (conn : ℕ) (w : W) (r : Bool × SocketImpl × W)
      → get_elem? s.sockets conn ≡ some none
      → Opened os D s conn w r
      → Accounts s w
      → Accounts r.1 r.2
  Opened-Accounts s conn w r slot (failed f e h) a = rw e (same-Accounts s w r.2 h a)
  Opened-Accounts s conn w r slot (opened fd o new e h) a =
      rw e (filled-Accounts s conn fd w r.2 slot new h a)

  -- `socket_impl_open` keeps the accounts, whether it succeeds or fails.
  pub open-Accounts :
      (s : SocketImpl) (conn : ℕ) (type : MobileSockType) (addrtype : MobileAddrType) (port : ℕ)
      (w : W) (r : Bool × SocketImpl × W)
      → socket_impl_open os s conn type addrtype port w ≡ some r
      → Accounts s w
      → Accounts r.1 r.2
  unfolding socket_impl_open
  open-Accounts s conn type addrtype port w r e a = elim (Option-cases (assert_closed s conn)) [
    | inl bad ↦ absurd (ground arith)
    | inr (_, closed) ↦ elim (Option-cases (sock_type type)) [
      | inl bad ↦ absurd (ground arith)
      | inr (t, et) ↦ elim (Option-cases (sock_addrtype addrtype)) [
        | inl bad ↦ absurd (ground arith)
        | inr (f, ef) ↦
            let result : open_socket os s conn t f port w ≡ r = ground arith in
            Opened-Accounts s conn w r (assert_closed_slot s conn closed)
              (rw result at (open_socket-Opened os D s conn t f port w)) a
      ]
    ]
  ]

  -- A descriptor that leaves the table is closed.
  pub close-Accounts :
      (s : SocketImpl) (conn : ℕ) (w : W) (r : SocketImpl × W)
      → socket_impl_close os s conn w ≡ some r
      → Accounts s w
      → Accounts r.0 r.1
  unfolding socket_impl_close
  close-Accounts s conn w r e a = elim (Option-cases (assert_open s conn)) [
    | inl bad ↦ absurd (ground arith)
    | inr (fd, found) ↦
        let slot = assert_open_slot s conn fd found in
        let result : (record { sockets = set s.sockets conn none }, os.close fd w) ≡ r =
          ground arith in
        rw (← result) (record {
          owned = λ d. ground (
            arith,
            D.close_closes fd w d,
            a.owned d,
            a.foreign d,
            holds-set-none s.sockets conn fd d slot a.distinct,
            holds_of_slot s.sockets conn fd slot,
          );
          foreign = λ d h.
              ground (arith, a.foreign d, holds-set-none s.sockets conn fd d slot a.distinct);
          distinct = set-none-AreDistinct s.sockets conn a.distinct;
        })
  ]

  -- `socket_impl_stop` leaves open what was open before the adapter started.
  stop_all-closes :
      (xs : List (Option ℕ)) (w : W) (d : ℕ)
      → is_open (stop_all os xs w) d ≡ (not (holds xs d) && is_open w d)
  unfolding stop_all holds
  stop_all-closes [] w d = refl
  stop_all-closes (none ∷ xs) w d = stop_all-closes xs w d
  stop_all-closes (some fd ∷ xs) w d =
      ground (arith, stop_all-closes xs (os.close fd w) d, D.close_closes fd w d)

  pub stop-closes :
      (s : SocketImpl) (w : W) (d : ℕ) → Accounts s w → is_open (socket_impl_stop os s w) d ≡ base d
  unfolding socket_impl_stop
  stop-closes s w d a = ground (arith, stop_all-closes s.sockets w d, a.owned d, a.foreign d)
