-- ===== src/Socket/Perror.antt =====
-- source/socket.c: `socket_perror`, as a Unix system compiles it: the text that goes to stderr.
use libmobile_bgb.Prelude.{Option, none, some, ℕ, List, [], ◌∷◌, ◌++◌}
use libmobile_bgb.Os.{Errno}
use libmobile_bgb.Text.{codes}

-- `func` and what follows it, and the text of an error, where strerror_r() finds one.
unfoldable pub socket_perror : (Errno → Option (List ℕ)) → Option (List ℕ) → Errno → List ℕ
socket_perror strerror_r func errno =
    elim func [ none ↦ [] | some name ↦ name ++ codes ": " ]
    ++ elim (strerror_r errno) [ none ↦ 10 ∷ [] | some error ↦ error ++ (10 ∷ []) ]
