-- ===== src/Wol/Deliver/Words.antt =====
-- The loop of `main` in src/wol.c over the words of the command line, in UDP and in raw mode.
use wake_on_lan.Base.{
  ℕ, ◌+◌, ◌<◌, ◌^◌, ◌≡◌, refl, Bool, true, false, Option, List, [], ◌∷◌, arith, Text,
}
use wake_on_lan.Magic.Assemble.{IsValid}
use wake_on_lan.System.{World}
use wake_on_lan.Wol.{Globals}
use wake_on_lan.Wol.Send.{Host, assemble_and_send}
use wake_on_lan.Wol.Main.{Session, add_code, wake, wake_all}
use wake_on_lan.Wol.Deliver.{Sends, Sends-bind}
use wake_on_lan.Wol.Deliver.Network.{
  Route, mode_of, Network, Job, effect, count, failures, sent_for, Carries,
}
use wake_on_lan.Wol.Deliver.Packets.{text_of, Makes}
use wake_on_lan.Wol.Deliver.Jobs.{code_of, Reports, assemble_and_send-Sends}

-- These packets are made of the words, with one password for all of them.
pub data MakesAll (h : Host) (passwd : Option Text)
    : List Text → List (Option (List ℕ)) → Type 0 where
  no_word : MakesAll h passwd [] []
  word :
      {mac : Text} {packet : Option (List ℕ)} {macs : List Text} {more : List (Option (List ℕ))}
      → Makes h mac passwd packet
      → MakesAll h passwd macs more
      → MakesAll h passwd (mac ∷ macs) (packet ∷ more)

-- All of them go to the same host and port.
abbrev pub jobs_for : Text → ℕ → List (Option (List ℕ)) → List Job
jobs_for host port [] = []
jobs_for host port (packet ∷ more) =
    record { packet = packet; host = host; port = port } ∷ jobs_for host port more

-- These globals, a valid packet, and so many failures.
abbrev pub Counts : ℕ → Globals → Session → Type 0
Counts n g s = (s.globals ≡ g) × (s.ret ≡ n) × IsValid s.magic

add_code-count :
    (failed : Bool) (ret : ℕ)
    → count failed + ret < 2 ^ 32
    → add_code (code_of failed) ret ≡ count failed + ret
add_code-count true ret lt = omega arith
add_code-count false ret lt = omega arith

module _ (h : Host) (sock : ℕ) (net : Network) (route : Route) (up : Carries route h sock net) where
  pub wake-Sends :
      (mac : Text) (text : Option Text) (packet : Option (List ℕ)) (s : Session) (w : World)
      → let j : Job = record {
        packet = packet;
        host = s.globals.host_str.string;
        port = s.globals.port;
      } in
        let e = effect route net j in
        s.globals.packet_mode ≡ mode_of route
        → IsValid s.magic
        → Makes h mac text packet
        → text_of s.globals.passwd ≡ text
        → count e.0 + s.ret < 2 ^ 32
        → Sends (Counts (count e.0 + s.ret) s.globals) e.1 w (wake h sock mac s w)
  unfolding wake
  wake-Sends mac text packet s w mode v makes f lt =
      let g = s.globals in
      let j : Job = record { packet = packet; host = g.host_str.string; port = g.port } in
      let e = effect route net j in
      Sends-bind (Reports e.0) (Counts (count e.0 + s.ret) g) e.1 []
        (assemble_and_send h g s.magic mac g.host_str.string g.port g.passwd sock) _ w
        (assemble_and_send-Sends h g mac g.host_str.string g.port sock net route s.magic g.passwd
          text packet w up mode v makes f)
        (λ sent w' (code, valid).
          ((refl, rw code (add_code-count e.0 s.ret lt), valid), refl, (refl, refl)))

  pub wake_all-Sends :
      (text : Option Text) (macs : List Text) (packets : List (Option (List ℕ))) (n : ℕ)
      (s : Session) (w : World)
      → let js = jobs_for s.globals.host_str.string s.globals.port packets in
        s.globals.packet_mode ≡ mode_of route
        → IsValid s.magic
        → MakesAll h text macs packets
        → text_of s.globals.passwd ≡ text
        → failures route net js + s.ret ≡ n
        → n < 2 ^ 32
        → Sends (Counts n s.globals) (sent_for route net js) w (wake_all h sock macs s w)
  unfolding wake_all
  wake_all-Sends text _ _ n s w mode v no_word f sum lt =
      ((refl, omega arith, v), refl, (refl, refl))
  wake_all-Sends text _ _ n s w mode v (word {mac} {packet} {macs} {more} makes rest) f sum lt =
      let g = s.globals in
      let j : Job = record { packet = packet; host = g.host_str.string; port = g.port } in
      let js = jobs_for g.host_str.string g.port more in
      let e = effect route net j in
      Sends-bind (Counts (count e.0 + s.ret) g) (Counts n g) e.1 (sent_for route net js)
        (wake h sock mac s) _ w (wake-Sends mac text packet s w mode v makes f (omega arith))
        (λ next w' (same, r, valid). rw (← same) (
          wake_all-Sends text macs more n next w' (rw same mode) valid rest (rw same f)
            (rw (same, r) (omega arith)) lt))
