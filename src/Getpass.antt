-- ===== src/Getpass.antt =====
-- lib/getpass4.c: a line is read with the terminal's echo turned off, and the terminal is set back.
-- -1 is `none`; so is a line that cannot be read, although its block is allocated.
pub mod Echo
pub mod Typed
use wake_on_lan.Base.{ℕ, ◌+◌, Bool, true, false, Option, none, some, Text}
use wake_on_lan.Stream.{Stream, Line, no_line, line, getline, c_string}
use wake_on_lan.System.{
  Os, World, Outcome, returns, M, ◌>>=◌, ◌>>◌, pure, tell, Pointer, heap, log, Termios,
  set_terminal, Answer, gives, fails, answered, password_prompt, newline,
}

-- `getline` into a null pointer: a string on the heap, with its newline.
read_line : M (Option Pointer)
read_line w = elim (getline w.stdin) [
  | no_line st ↦ (returns none, record w { stdin = st; next = w.next + 1 })
  | line s st ↦ (
    returns (some (record { origin = heap w.next; string = c_string s })),
    record w { stdin = st; next = w.next + 1 },
  )
]

abbrev succeeded : Answer (Unit {0}) → Bool
succeeded (gives u) = true
succeeded (fails e) = false

-- `new.c_lflag &= ~ECHO`
abbrev pub hidden : Termios → Termios
hidden t = record t { echo = false }

-- `if (prompt) fprintf (stderr, …)`
abbrev say_prompt : Option Text → M (Unit {0})
say_prompt none = pure tt
say_prompt (some prompt) = tell (password_prompt prompt)

abbrev end_prompt : Option Text → M (Unit {0})
end_prompt none = pure tt
end_prompt (some prompt) = tell newline

module _ (os : Os) where
  sys_tcgetattr : M (Option Termios)
  sys_tcgetattr w = answered (os.tcgetattr w.history) w

  sys_tcsetattr : Termios → M (Option (Unit {0}))
  sys_tcsetattr t w =
      let answer = os.tcsetattr w.history t in
      answered answer (log (set_terminal t (succeeded answer)) w)

  -- What follows once the echo is off. The last setting's result is not looked at.
  ask_hidden : Option Text → Termios → M (Option Pointer)
  unfolding read_line sys_tcsetattr
  ask_hidden prompt old = do
    say_prompt prompt
    nread ← read_line
    end_prompt prompt
    _ ← sys_tcsetattr old
    pure nread

  unfoldable pub getpass4 : Option Text → M (Option Pointer)
  unfolding sys_tcgetattr sys_tcsetattr ask_hidden
  getpass4 prompt = do
    got ← sys_tcgetattr
    elim got [
      | none ↦ pure none
      | some old ↦ (do
        r ← sys_tcsetattr (hidden old)
        elim r [ none ↦ pure none | some _ ↦ ask_hidden prompt old ])
    ]
