-- ===== src/Getpass/Typed.antt =====
-- What `getpass4` of lib/getpass4.c returns for a line that is typed.
use wake_on_lan.Base.{◌+◌, ◌≡◌, refl, Option, some, List, [], ◌∷◌, ◌++◌, All, arith, Text}
use wake_on_lan.Stream.{getline, c_string}
use wake_on_lan.Macfile.Bytes.{is_char, c_string-All, All-append}
use wake_on_lan.System.{Os, World, Outcome, returns, Termios, gives, Pointer, heap}
use wake_on_lan.Getpass.{hidden, ask_hidden, getpass4}

-- A new string with the line and its newline is returned, and the line is read.
abbrev pub Types : Text → List Text → World → Outcome (Option Pointer) × World → Type 0
Types s more w (returns (some p), w') =
    (p.string ≡ s ++ (b'\n' ∷ []))
    × (p.origin ≡ heap w.next)
    × (w'.next ≡ w.next + 1)
    × (w'.stdin ≡ record w.stdin { lines = more })
Types s more w (o, w') = ⊥

-- On a terminal whose echo can be turned off, a typed line without zero bytes is returned whole, with
-- the newline that ended it, in a string on the heap, and no more is read.
pub getpass4-Types :
    (os : Os) (prompt s : Text) (more : List Text) (old : Termios) (w : World)
    → os.tcgetattr w.history ≡ gives old
    → os.tcsetattr w.history (hidden old) ≡ gives tt
    → w.stdin.lines ≡ s ∷ more
    → All is_char s
    → Types s more w (getpass4 os (some prompt) w)
unfolding getpass4 getline ask_hidden
getpass4-Types os prompt s more old w got set typed chars =
    let whole : c_string (s ++ (b'\n' ∷ [])) ≡ s ++ (b'\n' ∷ []) =
      c_string-All (s ++ (b'\n' ∷ [])) (All-append is_char s (b'\n' ∷ []) chars (refl, tt)) in
    rw got (rw set (ground (arith, typed, whole)))
