-- ===== src/Tests/RunTests.antt =====
-- `parse_args`, `assemble_and_send` and `main` of src/wol.c, and how they end, at concrete inputs.
use wake_on_lan.Base.{refl, arith, codes, none, some, [], ◌∷◌, true, false}
use wake_on_lan.Wol.Main.{wake_up}
use wake_on_lan.System.{fails}
use wake_on_lan.Wol.{initial, default_ipaddr, default_port}
use wake_on_lan.Wol.Send.{Host, assemble_and_send}
use wake_on_lan.Wol.Deliver.{Sends}
use wake_on_lan.Wol.Deliver.Network.{Network, Follows, by_udp, sent_for}
use wake_on_lan.Wol.Deliver.Packets.{packet_for, made, no_passwd}
use wake_on_lan.Wol.Deliver.Jobs.{Reports, assemble_and_send-Sends}
use wake_on_lan.Wol.Deliver.Words.{jobs_for, word, no_word}
use wake_on_lan.Wol.Deliver.Unopened.{GivesUp, wake_up_unopened}
use wake_on_lan.Tests.MagicTests.{used, octets}
use wake_on_lan.Tests.WolTests.{written}
use wake_on_lan.Tests.DeliverTests.{network, with_file, opened_world, written-Denotes}
use wake_on_lan.Tests.Values.{start, host, cut_off, calm}

-- No name has an address, and every datagram is taken.
abbrev nowhere : Network
nowhere = record { lookup = λ name. none; refuses = λ packet to. false }

abbrev lost : Host
lost = record host { os = cut_off }

lost-Follows : Follows lost 3 nowhere
lost-Follows = record { names = λ past name. refl; sending = λ past buf to. (102, refl) }

assemble_and_send-Sends_example :
    Sends
      (Reports true)
      []
      start
      (assemble_and_send lost initial used written (codes "lab") 9 none 3 start)
assemble_and_send-Sends_example =
    assemble_and_send-Sends lost initial written (codes "lab") 9 3 nowhere by_udp used none none
      (some (packet_for octets none)) start lost-Follows refl refl
      (made (written-Denotes lost) no_passwd) refl

-- No file can be opened.
abbrev shut : Host
shut = record host { os = record calm { fopen = λ past name. fails 2 } }

shut-Follows : Follows shut 3 network
shut-Follows = record { names = λ past name. refl; sending = λ past buf to. (102, refl) }

wake_up_unopened_example :
    GivesUp
      (codes "macs")
      (sent_for by_udp network
        (jobs_for default_ipaddr default_port (some (packet_for octets none) ∷ [])))
      opened_world
      (wake_up shut (written ∷ []) 0 with_file 3 opened_world)
wake_up_unopened_example =
    wake_up_unopened shut 3 network by_udp shut-Follows (codes "macs")
      (some (packet_for octets none) ∷ []) 0 (written ∷ []) with_file opened_world refl refl refl
      refl refl (λ past. (2, refl)) (word (made (written-Denotes shut) no_passwd) no_word)
      (omega arith)
