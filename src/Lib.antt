-- ===== src/Lib.antt =====
-- wol, a client that wakes machines with Wake On LAN magic packets.
--
-- The program (src/wol.c) reads its command line, opens a socket, and for each address of the
-- command line, or of a macfile, assembles a magic packet and sends it.
--
-- - Base, Base/*: shared names, tests, lists over the native numbers, classes of characters, and
--   memory blocks as lists of bytes, where a store outside the block gives `none`.
-- - Scan, Scan/*: the C library's `sscanf`, for the directives of the program's formats. A number
--   follows the C standard: leading white space, a sign, and `0x` for `%x`, where `0x` without a
--   digit fails; unsigned int has 32 bits and unsigned long has 64.
-- - Stream: the C library's FILE read by lines. A stream is its complete lines, the text behind the
--   last newline, the end-of-file and error flags, and whether its end is a read error.
-- - Magic, Magic/*: src/magic.c and include/magic.h. `Magic` is `struct magic`; `magic_assemble`
--   returns its status, errno and the buffer, and is composed of `resolve_mac`, `fit`, `put_frame`
--   and `put_passwd` in the order of the source. The allocator (`xmalloc`, `xrealloc`, whose new
--   bytes are not determined) and the ethers database are parameters.
-- - Macfile, Macfile/*: src/macfile.c. `get_tokens` tries the four formats by `attempt`, which
--   fills the targets that its conversions reach; arrays are indeterminate until they are filled,
--   and `overflow` records a string longer than its array. `macfile_parse` is a loop on fuel: two
--   rounds more than there are complete lines, which is always enough.
--   Macfile/Fitting says of a stream that none of its hosts is too long for the array `host`.
-- - System: the system calls and library calls, answered by a parameter that sees all that was
--   done before, and the history of events. A piece of the program returns, exits, crashes or is
--   unfinished. A store behind an array, a read behind one and a read of bytes never written are
--   recorded as faults; the program then goes on as if the store had not been made. `freed` records a
--   call of free on a string that a pointer of the program holds, or on the packet, and whether it is
--   valid is not looked at; such strings are the words of the command line and the copies and lines
--   on the heap, which have numbers. `xmalloced` and `xfreed` record the block that `proxy_send`
--   takes for itself. The block in which `macfile_parse` has getline put its lines is not recorded.
-- - System/Rules, System/Blocks: the rule by which what holds behind a piece of the program is put
--   together, and which strings a piece allocates and frees, which blocks it leaves, and which stores
--   it makes behind an array.
-- - Net, Net/*: src/net.c, function by function; a descriptor of -1 is `none`.
-- - Proxy, Proxy/*: src/proxy.c. The digest and what the arrays hold at first are parameters.
--   Proxy/Summed puts lib/md5.c in the digest's place.
-- - Md5, Md5/*: lib/md5.c and lib/md5.h. A `struct md5_ctx` is a record; a word is a number below
--   2 ^ 32, and a store outside the buffer of 128 bytes gives `none`. Md5/Rfc describes RFC 1321
--   without the code. `copy_blocks` has a round for each 64 bytes of its data, and the loop of
--   `md5_stream` goes through the list of what `fread` returns. Md5/Chunks and Md5/Stream are about
--   a whole digest.
-- - Getopt, Getopt/*: lib/getopt.c, lib/getopt1.c, lib/getopt.h and lib/getopt_int.h, as they are built
--   outside of the GNU C library: `advance` goes on to the next element of argv and `decode` takes an
--   option from it. `exchange_loop` has `top - bottom` rounds, which fall in each. Getopt/Ends measures
--   what is left to scan; Getopt/Decoded, Getopt/Shorts, Getopt/Advanced and Getopt/Settled follow it
--   through the parts of a call.
-- - Getpass, Getpass/*: lib/getpass4.c. The terminal's settings are its echo and all others.
-- - Fallback: lib/usleep.c and lib/ether_hostton.c, which stand in for functions that a system may
--   lack.
-- - Getline, Getline/*: lib/getline.c and lib/getstr.c. `getstr` works on a block that grows by the
--   heap's answers, a parameter with the laws of `malloc` and `realloc`. An int is its 32 bits and a
--   size_t its 64. A store outside the block
--   and a failed assertion are results of their own.
-- - Wol, Wol/*: src/wol.c. The globals are the record `Globals`. `parse_args` works on
--   the list of what `getopt_long` returns, which its theorems take as it comes; Wol/Options makes that
--   list of a command line, by a loop with more rounds than the command line has characters and
--   words, and gives `none` where they do not do; Wol/Reading is about that loop.
--   `assemble_and_send` is composed of `magic_assemble`, `udp_send`, `raw_send` and `proxy_send` as in
--   the source.
-- - Wol/Deliver, Wol/Deliver/*: what the program sends as a whole, in UDP and in raw mode, described
--   by the jobs that it is given (`MakesAll`, `Holds`) and by what a network does with a job (`effect`),
--   and not by the program's code.
-- - Wol/Main, Wol/Main/*: `main`. Its loop over a macfile runs on fuel, of which two rounds more than
--   there are lines are enough where the loop ends at all. Wol/Main/Strings and Wol/Main/Proxied are
--   about the strings that an entry of a macfile allocates, in UDP or raw mode and in proxy mode.
--   Wol/Main/Denied is about the exit status in proxy mode. Wol/Main/Run and Wol/Args/Halts follow the
--   program from its command line to its end.
-- - Tests/*: runs at concrete inputs.
--
-- Not modelled: the locale; the scripts; the library gettext, of which intl/, most of what the
-- repository holds, is a copy; and the copies in lib/ of error, xmalloc, realloc and gettext.h.
-- Where the program calls these they are parameters, or the outcome
-- of the call is written out (`error`, which prints and may exit; `xmalloc`, which returns a block).
-- The effect of a store behind the end of an array on what lies there is not modelled either.
pub mod Base
pub mod Scan
pub mod Magic
pub mod Stream
pub mod Macfile
pub mod System
pub mod Net
pub mod Proxy
pub mod Getpass
pub mod Fallback
pub mod Getline
pub mod Md5
pub mod Getopt
pub mod Wol
pub mod Tests
