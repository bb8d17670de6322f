-- ===== src/Lib.antt =====
-- libmobile-bgb connects the Mobile Adapter GB of libmobile to the emulator BGB: it speaks
-- BGB's link protocol over one TCP connection, hands every serial byte to the adapter, keeps
-- the adapter's clock by the emulator's timestamps, and gives the adapter real sockets and a
-- configuration file.
--
-- The parts and their files, by paths from the repository's root:
--
-- - source/bgblink.c, source/bgblink.h: the link. `Bgb/Packet` has the packets as structures
--   and as their eight bytes; `Bgb/Link` has `bgb_send`, `bgb_recv`, `bgb_init` and `bgb_loop`
--   (its switch is `handle_packet`, its last part `report_timestamp`). `Bgb/Peer` is an
--   emulator to run them against: a script of reads, a number of packets that it takes, and a
--   log. `Bgb/Codec`, `Bgb/Clock`, `Bgb/Reports`, `Bgb/Serial`, `Bgb/Service`, `Bgb/Greeting`,
--   `Bgb/Failure`, `Bgb/Exchange` and `Bgb/Keeps` hold proofs. `Bgb/Line` is about the serial
--   line over any operating system, by a log of what was sent and returned (`Bgb/Logged` is
--   that of `Bgb/Peer`). `Bgb/Vba` is the link with VBA-M, which the file disables by #if 0,
--   and `Bgb/Vba/Echo` holds proofs.
-- - source/socket.c, source/socket.h: `Socket`, for a Unix system with poll(), and
--   `Socket/Straddr` and `Socket/Perror`, which have `socket_straddr` and the text of
--   `socket_perror`; `Socket/Connect` and `Socket/Blocking` hold proofs.
-- - source/socket_impl.c, source/socket_impl.h: the adapter's connections. `SocketImpl/Types`
--   has the table, the addresses and the assertions, `SocketImpl/Defs` one function for each
--   operation of the same name, `SocketImpl/Messages` what `socket_impl_connect` prints.
--   `SocketImpl/Callbacks` runs histories of the callbacks `impl_sock_*` of source/main.c
--   (`Call`, `perform`); `SocketImpl/Lifetime`, `Slots`, `Accounts`, `Opening`, `Accepting`,
--   `Results` and `Addresses` (an address on its way to the text of `socket_straddr`) hold
--   proofs.
-- - source/main.c: `Main/User` has `struct mobile_user` with the timers and the timestamp
--   callbacks, `Main/Config` the configuration file (a read or a write may be cut off after any
--   number of bytes, the padding does not fail), `Main/Hex` the parser of the relay token,
--   `Main/Number` the phone numbers, `Main/Title` the title of the terminal's window, with the
--   conversion of the locale as a parameter. `Main/Memory`, `Main/Clock` and `Main/Reset` hold
--   proofs; the last is about the callback of main.c under the link of bgblink.c.
--   `Main/Session` is `main` from the connection to the emulator on: `mobile_handle_loop`, the
--   loop that waits for the clock, the main loop and the end, with the functions of libmobile
--   as a record of parameters. `Main/Running` (which states what is relied on about libmobile),
--   `Main/Rounds`, `Main/Ending`, `Main/Closing` and `Main/Waiting` hold proofs, over
--   `Bgb/Keeps`; so does `Main/Restart`, over `Main/Reset`. `Main/Signal` has SIGINT and these
--   loops as a relation of steps, with proofs in `Main/Signal/Rounds`, `Main/Signal/Schedules`,
--   `Main/Signal/Runs`, `Main/Signal/Silent` and `Main/Signal/Stop`. `Main/Line`, `Main/Aside`
--   and `Main/Served` hold proofs over `Bgb/Line`. `Main/Args` is the loop over the options,
--   with libmobile's parser of addresses as a parameter; `Main/Ready`, `Main/Ports` and
--   `Main/Tokens` hold proofs. `Main/Usage` is what is printed where that loop ends the
--   program, and `Main/Usage/Complaints` holds proofs. `Main/Program` is `main` as a whole,
--   from the command line to the exit: it takes what the program calls of libmobile, of the C
--   library's files and memory, and of the resolver as records of functions. `Main/Setup`
--   states what is relied on about these; `Main/Whole` holds proofs. `Main/Sample` is a run for
--   the tests.
-- - `Text` is what the program uses of the C library's texts: the codes of characters and
--   decimal numbers, with strtol() in `Text/Strtol`; `Text/Decimal` holds proofs.
-- - `Os` is what the program uses of the operating system: a record of operations over an
--   unknown world, which every function above takes as a parameter. `Os/Descriptors` states
--   what is relied on about descriptors, and `Os/Table` and `Os/Script` are small systems that
--   meet it.
-- - `Prelude` passes on the names of the libraries, with numbers, masks and lists on native
--   numbers.
--
-- How the code is rendered: a function takes the world and returns it. A call that can fail
-- returns what the code returns for it. An assertion that fails, an access outside of a table
-- and a cast outside of its range are `none`. Machine integers are natural numbers with the
-- wrap written out. Loops are over lists, or over the rounds that are left, which the code
-- knows beforehand (`size * 2` digits, the bytes that the file lacks); `loops` runs `bgb_loop`
-- any number of times. The wait for the clock takes the number of rounds after which it is
-- given up (`none`; the code waits on), the main loop the number of rounds after which SIGINT
-- comes, and the link with VBA-M the number of rounds after which it is looked at. The relation
-- of `Main/Signal` takes no such numbers: SIGINT comes between any two steps, where it sets the
-- flag; whether it makes a system call fail is up to the operating system, a parameter. The
-- host stores the least significant byte first.
--
-- Not modelled: libmobile (a submodule), messages on stderr (but for those of
-- `socket_impl_connect` and of the options), `impl_debug_log` (it prints a line) and what the
-- link with VBA-M prints, the escape codes around the title, and the variants of
-- source/socket.c with select() and for Windows.
pub mod Prelude
pub mod Text
pub mod Os
pub mod Socket
pub mod Bgb
pub mod SocketImpl
pub mod Main
