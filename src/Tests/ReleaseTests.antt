-- ===== src/Tests/ReleaseTests.antt =====
-- src/wol.c in proxy mode, what it frees and how it ends, at concrete inputs.
use wake_on_lan.Base.{some, [], ◌∷◌, codes, refl, false}
use wake_on_lan.Macfile.{Entry, holds}
use wake_on_lan.System.{heap, argument, Pointer}
use wake_on_lan.Wol.{Globals, initial}
use wake_on_lan.Wol.Send.{assemble_and_send}
use wake_on_lan.Wol.Send.Proxied.{Spends, assemble_and_send-Spends}
use wake_on_lan.Wol.Main.{Session, wake_all, wake_entry, wake_up}
use wake_on_lan.Wol.Main.Proxied.{Frees, FreesEntry, wake_all-Frees, wake_entry_double_free}
use wake_on_lan.System.{World, magic_block, packet_block}
use wake_on_lan.Wol.Main.Denied.{Accepts, FailsWith, wake_up_denied}
use wake_on_lan.Tests.MagicTests.{used}
use wake_on_lan.Tests.Values.{host, start, challenge}

abbrev word : Pointer
word = record { origin = argument; string = codes "pw" }

abbrev by_proxy : Globals
by_proxy = record initial { packet_mode = 4; passwd = some word }

abbrev session : Session
session = record { globals = by_proxy; magic = used; ret = 0 }

abbrev entry : Entry
entry = record {
  mac = holds (codes "00:11:22:33:44:55");
  host = holds (codes "lab");
  port = 9;
  passwd = some (holds (codes "secret"));
  overflow = false;
}

assemble_and_send-Spends_example :
    Spends argument used start
      (assemble_and_send host by_proxy used (codes "nobody") (codes "lab") 9 (some word) 3 start)
assemble_and_send-Spends_example =
    assemble_and_send-Spends host by_proxy used (codes "nobody") (codes "lab") 9 3 (some word) word
      start refl refl

wake_all-Frees_example :
    Frees
      (argument ∷ argument ∷ [])
      session
      start
      (wake_all host 3 (codes "nobody" ∷ codes "00:11:22:33:44:55" ∷ []) session start)
wake_all-Frees_example =
    wake_all-Frees host 3 (codes "nobody" ∷ codes "00:11:22:33:44:55" ∷ []) session word start refl
      refl

wake_entry_double_free_example :
    FreesEntry
      (heap 2 ∷ heap 1 ∷ heap 0 ∷ heap 2 ∷ [])
      start
      (wake_entry host 3 entry session start)
wake_entry_double_free_example =
    wake_entry_double_free host 3 entry (holds (codes "secret")) session start refl refl

host-Accepts : Accepts host 3
host-Accepts = record {
  challenges = λ past. (challenge, refl, refl);
  takes = λ past buf. (32, refl);
}

abbrev asked : Pointer
asked = record { origin = heap 0; string = codes "pw" }

abbrev waking : Session
waking = record session { globals = record by_proxy { passwd = some asked } }

abbrev behind_password : World
behind_password = record start { next = 1 }

wake_up_denied_example :
    FailsWith 1
      (magic_block ∷ packet_block ∷ heap 0 ∷ [])
      behind_password
      (wake_up host (codes "nobody" ∷ []) 0 waking 3 behind_password)
wake_up_denied_example =
    wake_up_denied host 3 host-Accepts 0 (codes "nobody") waking asked 0 behind_password refl refl
      refl refl refl refl
