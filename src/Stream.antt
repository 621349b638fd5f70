-- ===== src/Stream.antt =====
-- A C library stream that is read by lines. It is the standard library's `FILE` with `getline`,
-- `feof` and `ferror` (lib/getline.c and lib/getstr.c stand in where the system lacks `getline`),
-- so no line of the repository is mapped to it.
use wake_on_lan.Base.{Bool, not, List, [], ◌∷◌, ◌++◌, ◌==◌, if◌then◌else◌, Text}

-- The lines to come, each without its newline, the text behind the last newline, whether the
-- input ends in a read error, and the two flags.
pub record Stream : Type 0 where
  pub lines : List Text
  pub rest : Text
  pub broken : Bool
  pub feof : Bool
  pub ferror : Bool

-- What `getline` returns: -1, or a line with the newline that ended it.
pub data Line : Type 0 where
  no_line : Stream → Line
  line : Text → Stream → Line

-- The stream after a read has met the end of the input.
abbrev pub ended : Stream → Stream
ended st = record st { rest = []; feof = not st.broken; ferror = st.broken }

abbrev read_rest : Text → Stream → Line
read_rest [] st = no_line (ended st)
read_rest (c ∷ s) st = line (c ∷ s) (ended st)

abbrev read_line : List Text → Stream → Line
read_line [] st = read_rest st.rest st
read_line (s ∷ ss) st = line (s ++ (b'\n' ∷ [])) (record st { lines = ss })

unfoldable pub getline : Stream → Line
getline st = read_line st.lines st

-- The string that a function of <string.h> or `sscanf` sees: it ends at the first zero byte.
unfoldable pub c_string : Text → Text
c_string [] = []
c_string (c ∷ s) = if c == 0 then [] else c ∷ c_string s
