-- ===== src/Tests/GetoptTests.antt =====
-- lib/getopt.c at command lines of wol.
use mathlib.Core.List.{Perm}
use wake_on_lan.Base.{[], ◌∷◌, ◌++◌, ◌≡◌, refl, length, ◌+◌, codes, Text, some, false, List}
use wake_on_lan.Getopt.{fresh}
use wake_on_lan.Getopt.State.{Data, exchange}
use wake_on_lan.Getopt.Exchanged.{exchange-Swaps}
use wake_on_lan.Wol.Args.{Getopt}
use wake_on_lan.Wol.Options.{read_options}
use wake_on_lan.Wol.Reading.{read_options_total}

-- Two words, and behind them an option that was scanned.
abbrev scanned : Data
scanned = record (fresh (codes "wol" ∷ codes "a" ∷ codes "b" ∷ codes "-v" ∷ codes "c" ∷ [])) {
  first_nonopt = 1;
  last_nonopt = 3;
  optind = 4;
}

exchange-Swaps_example :
    ((exchange scanned).argv
      ≡ (codes "wol" ∷ [])
        ++ ((codes "-v" ∷ []) ++ ((codes "a" ∷ codes "b" ∷ []) ++ (codes "c" ∷ []))))
    × ((exchange scanned).first_nonopt
        ≡ length {A = Text} ((codes "wol" ∷ []) ++ (codes "-v" ∷ [])))
    × ((exchange scanned).last_nonopt
        ≡ (exchange scanned).first_nonopt + length {A = Text} (codes "a" ∷ codes "b" ∷ []))
    × ((exchange scanned).optind ≡ scanned.optind)
exchange-Swaps_example =
    exchange-Swaps scanned (codes "wol" ∷ []) (codes "a" ∷ codes "b" ∷ []) (codes "-v" ∷ [])
      (codes "c" ∷ []) refl refl refl refl

-- An operand before two options, of which one has an argument.
abbrev mixed : List Text
mixed = codes "wol" ∷ codes "a" ∷ codes "-vp9" ∷ codes "--raw" ∷ codes "b" ∷ []

read_options_total_example :
    (opt : Getopt) × (scanned : List Text) × (read_options false mixed ≡ some opt)
    × Perm mixed (scanned ++ opt.operands)
read_options_total_example = read_options_total false mixed
