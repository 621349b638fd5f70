-- ===== src/Tests/MainTests.antt =====
-- `main` of src/wol.c, and the streams that it reads, at concrete inputs.
use wake_on_lan.Wol.Main.Exit.{Closes, file_ends, wake_up-Closes}
use wake_on_lan.Base.{◌≡◌, refl, none, some, [], ◌∷◌, codes, Text, inl, inr, arith}
use wake_on_lan.Stream.{Stream, c_string}
use wake_on_lan.Macfile.{Parsed, macfile_parse}
use wake_on_lan.Macfile.Fitting.{HostsFit, written-Fits, empty-Fits, AllFit-Skips}
use wake_on_lan.Macfile.Next.{Skips}
use wake_on_lan.Tests.MacfileTests.{lab, lab_line, lab-IsWanted, spacing, spacing-IsSpacing}
use wake_on_lan.Macfile.Unended.{IsUnended, GivesUnended, macfile_parse-GivesUnended}
use wake_on_lan.Macfile.Terminated.{Shrinks, macfile_parse-Shrinks}
use wake_on_lan.System.{unfinished, World, log, gives, opened, pf_inet, sock_dgram}
use wake_on_lan.Wol.{initial}
use wake_on_lan.Wol.Send.{Host, assemble_and_send}
use wake_on_lan.Wol.Send.Total.{Safe, ValidSent, assemble_and_send-Safe}
use wake_on_lan.Wol.Main.{Session, file, wake_file, wake_up}
use wake_on_lan.Wol.Main.Strings.{IsReady}
use wake_on_lan.Wol.Main.Endless.{wake_file_endless}
use wake_on_lan.Wol.Main.Ends.{Finishes, wake_file-Finishes}
use wake_on_lan.Tests.MagicTests.{used}
use wake_on_lan.Tests.Values.{calm, host, start, empty}

abbrev pub session : Session
session = record { globals = initial; magic = used; ret = 0 }

session-IsReady : IsReady session
session-IsReady = record { local = inl refl; valid = refl }

abbrev entry_line : Text
entry_line = codes "00:11:22:aB:4:55 lab:9"

-- One entry and a comment, each with its newline.
abbrev complete : Stream
complete = record empty { lines = lab_line ∷ codes "# end" ∷ [] }

-- The same, without the last newline.
abbrev cut_short : Stream
cut_short = record empty { lines = entry_line ∷ []; rest = codes "# end" }

cut_short-IsUnended : IsUnended cut_short
cut_short-IsUnended = record { whole = refl; no_error = refl; behind = inr (λ e. cc) }

end_mark-Skips : Skips (codes "# end" ∷ [])
unfolding c_string
end_mark-Skips = (refl, tt)

complete-HostsFit : HostsFit complete
complete-HostsFit = (
  written-Fits spacing lab spacing-IsSpacing lab-IsWanted (omega arith),
  AllFit-Skips (codes "# end" ∷ []) [] [] end_mark-Skips empty-Fits,
)

assemble_and_send-Safe_example :
    Safe ValidSent start
      (assemble_and_send host initial used (codes "nobody") (codes "lab") 9 none 3 start)
assemble_and_send-Safe_example =
    assemble_and_send-Safe host initial used (codes "nobody") (codes "lab") 9 none 3 start
      (inl refl) refl

macfile_parse-GivesUnended_example :
    (r : Parsed) × (macfile_parse cut_short ≡ some r) × GivesUnended r
macfile_parse-GivesUnended_example = macfile_parse-GivesUnended cut_short cut_short-IsUnended

macfile_parse-Shrinks_example : (r : Parsed) × (macfile_parse complete ≡ some r) × Shrinks 3 r
macfile_parse-Shrinks_example = macfile_parse-Shrinks 3 complete (inr (refl, inl refl, omega arith))

wake_file_endless_example : (wake_file host 3 1000 (file cut_short) session start).0 ≡ unfinished
wake_file_endless_example =
    wake_file_endless host 3 1000 (file cut_short) session start session-IsReady cut_short-IsUnended

wake_file-Finishes_example : Finishes start (wake_file host 3 4 (file complete) session start)
wake_file-Finishes_example =
    wake_file-Finishes host 3 3 4 (file complete) session start session-IsReady
      (inr (refl, inl refl, omega arith)) complete-HostsFit (omega arith)

abbrev with_file : Host
with_file = record host { os = record calm { fopen = λ past name. gives complete } }

abbrev reading : Session
reading = record session { globals = record initial { pathname = some (codes "macs") } }

reading-IsReady : IsReady reading
reading-IsReady = record { local = inl refl; valid = refl }

abbrev connected_world : World
connected_world = log (opened pf_inet sock_dgram (some 3)) start

wake_up-Closes_example :
    Closes 3 connected_world
      (wake_up with_file (codes "00:11:22:aB:4:55" ∷ []) 4 reading 3 connected_world)
wake_up-Closes_example =
    wake_up-Closes with_file 3 3 4 (codes "00:11:22:aB:4:55" ∷ []) reading connected_world
      reading-IsReady
      (file_ends (codes "macs") refl refl
        (λ past. (complete, refl, inr (refl, inl refl, omega arith), complete-HostsFit)))
      (omega arith)
