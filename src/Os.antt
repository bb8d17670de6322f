-- ===== src/Os.antt =====
-- The operating system's socket interface, as source/socket.c, source/socket_impl.c and
-- source/bgblink.c use it. None of it is code of the repository: it is a parameter, a record of
-- operations over an unknown world `W`. A descriptor is a number, and `none` is INVALID_SOCKET.
pub mod Descriptors
pub mod Table
pub mod Script
use libmobile_bgb.Prelude.{ℕ, Bool, Option, List, ℤ}

-- `errno`, by the values that the program tells apart. `success` is 0.
pub data Errno : Type 0 where
  success would_block in_progress already is_conn : Errno
  other : ℕ → Errno

-- AF_INET and AF_INET6.
pub data Family : Type 0 where
  inet inet6 : Family

-- SOCK_STREAM and SOCK_DGRAM.
pub data SockType : Type 0 where
  stream dgram : SockType

-- `struct sockaddr` and its two variants: the port as it is stored, in network byte order, and
-- the bytes of the host. `unknown` is any other family.
pub data SockAddr : Type 0 where
  in4 : ℕ → List ℕ → SockAddr
  in6 : ℕ → List ℕ → SockAddr
  unknown : SockAddr

-- The options that the program sets to 1: SO_REUSEADDR and TCP_NODELAY.
pub data SockOpt : Type 0 where
  reuse_addr no_delay : SockOpt

-- The events that the program polls for: POLLIN | POLLPRI, POLLOUT, POLLIN.
pub data Events : Type 0 where
  readable_or_urgent writable readable : Events

-- A read from a descriptor fails with -1, which is `none`, or returns the bytes that it wrote to
-- the buffer; their number is the call's result.
pub record Os (W : Type 0) : Type 0 where
  pub errno : W → Errno
  pub set_errno : Errno → W → W
  -- What inet_ntop() leaves, which may set errno. Its text is a parameter of `Socket/Straddr`.
  pub inet_ntop_world : Family → List ℕ → W → W
  pub socket : Family → SockType → W → Option ℕ × W
  pub close : ℕ → W → W
  pub connect : ℕ → Option SockAddr → W → ℤ × W
  pub bind : ℕ → SockAddr → W → ℤ × W
  pub listen : ℕ → ℕ → W → ℤ × W
  pub accept : ℕ → W → Option ℕ × W
  pub send : ℕ → List ℕ → W → ℤ × W
  pub recv : ℕ → ℕ → W → Option (List ℕ) × W
  pub sendto : ℕ → List ℕ → Option SockAddr → W → ℤ × W
  -- The flag is MSG_PEEK. The address is `none` where its length comes back as 0.
  pub recvfrom : ℕ → ℕ → Bool → W → Option (List ℕ × Option SockAddr) × W
  pub poll : List (ℕ × Events) → ℕ → W → ℤ × W
  pub setsockopt : ℕ → SockOpt → ℕ → W → ℤ × W
  -- getsockopt() of SO_TYPE (`none` on failure) and of SO_ERROR.
  pub get_type : ℕ → W → Option SockType × W
  pub get_error : ℕ → W → Errno × W
  -- sigaction() for SIGINT.
  pub sigaction : W → ℤ × W
  -- fcntl() with F_GETFL and F_SETFL.
  pub get_flags : ℕ → W → ℤ × W
  pub set_flags : ℕ → ℕ → W → ℤ × W
