-- ===== src/Getpass/Echo.antt =====
-- `getpass4` of lib/getpass4.c leaves the terminal as it found it.
use wake_on_lan.Base.{◌≡◌, refl, inl, inr, Option, none, some, List, [], ◌∷◌, arith, Text}
use wake_on_lan.System.{
  Answer-cases, Os, World, Outcome, returns, Event, Termios, set_terminal, Answer, gives, fails,
  Pointer,
}
use wake_on_lan.Getpass.{hidden, ask_hidden, getpass4}

-- The settings of the terminal that were asked for, newest first.
abbrev pub settings : List Event → List Termios
settings [] = []
settings (set_terminal t ok ∷ h) = t ∷ settings h
settings (e ∷ h) = settings h

-- Returned, with these settings asked for.
abbrev Asks : List Termios → Outcome (Option Pointer) × World → Type 0
Asks ts (returns r, w) = settings w.history ≡ ts
Asks ts (o, w) = ⊥

-- Returned -1, with these settings asked for, and nothing read.
abbrev Refuses : List Termios → World → Outcome (Option Pointer) × World → Type 0
Refuses ts w (returns none, w') = (settings w'.history ≡ ts) × (w'.stdin ≡ w.stdin)
Refuses ts w (o, w') = ⊥

abbrev Hides : Answer (Unit {0}) → Termios → World → Outcome (Option Pointer) × World → Type 0
Hides (gives u) old w r = Asks (old ∷ hidden old ∷ settings w.history) r
Hides (fails e) old w r = Refuses (hidden old ∷ settings w.history) w r

-- By what the system answers to the question for the terminal's state and to the first setting.
abbrev pub Restores : Os → Answer Termios → World → Outcome (Option Pointer) × World → Type 0
Restores os (gives old) w r = Hides (os.tcsetattr w.history (hidden old)) old w r
Restores os (fails e) w r = Refuses (settings w.history) w r

Asks-read :
    (prompt : Option Text) (os : Os) (old : Termios) (w : World)
    → Asks (old ∷ settings w.history) (ask_hidden os prompt old w)
unfolding ask_hidden
Asks-read none os old w = ground arith
Asks-read (some p) os old w = ground arith

-- Where the state of the terminal is not known, or its echo cannot be turned off, `getpass4` reads
-- nothing and returns -1, and in the first case sets nothing. Otherwise it returns, whatever is
-- read, and the terminal's former state is what it asks for last, after the echo was off.
pub getpass4-Restores :
    (os : Os) (prompt : Option Text) (w : World)
    → Restores os (os.tcgetattr w.history) w (getpass4 os prompt w)
unfolding getpass4
getpass4-Restores os prompt w = elim (Answer-cases (os.tcgetattr w.history)) [
  | inr (e, k) ↦ rw k (refl, refl)
  | inl (old, k) ↦ elim (Answer-cases (os.tcsetattr w.history (hidden old))) [
    | inr (e, j) ↦ rw k (rw j (refl, refl))
    | inl (u, j) ↦ rw k (rw j (Asks-read prompt os old _))
  ]
]
