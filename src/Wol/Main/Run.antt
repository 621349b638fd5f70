-- ===== src/Wol/Main/Run.antt =====
-- How `main` of src/wol.c ends on a command line, and the descriptors that it leaves.
use wake_on_lan.Base.{ℕ, ◌<◌, ◌≡◌}
use wake_on_lan.System.{World, Outcome, returns, exits, crashes, live}
use wake_on_lan.Wol.{Globals}
use wake_on_lan.Wol.Args.Halts.{Halts}
use wake_on_lan.Wol.Send.{Host}
use wake_on_lan.Wol.Main.Exit.{Reads}

-- The program ends with 0 or 1, and the same descriptors are open.
abbrev pub Ends : World → Outcome (Unit {0}) × World → Type 0
Ends w (exits n, w') = (n < 2) × (live w'.history ≡ live w.history)
Ends w (o, w') = ⊥

-- The command line does not misuse `getline`, and what it asks to read ends, with hosts that fit.
abbrev pub Prepares : Host → ℕ → Outcome Globals × World → Type 0
Prepares h n (returns g, w) = Reads h n g w.stdin
Prepares h n (crashes, w) = ⊥
Prepares h n (o, w) = Unit
