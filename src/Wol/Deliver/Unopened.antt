-- ===== src/Wol/Deliver/Unopened.antt =====
-- `main` of src/wol.c from the socket on, where the file that it is to read cannot be opened.
use wake_on_lan.Base.{ℕ, ◌<◌, ◌^◌, ◌≡◌, refl, false, Option, some, List, ◌∷◌, arith, Text}
use wake_on_lan.Magic.Assemble.{IsValid}
use wake_on_lan.System.{
  Event, told, cannot_open, Address, World, Outcome, exits, M, ◌>>=◌, opened_file, fails,
}
use wake_on_lan.System.Rules.{Post-then}
use wake_on_lan.Net.Sending.{Trace}
use wake_on_lan.Wol.Send.{Host}
use wake_on_lan.Wol.Main.{Session, wake_all, wake_input, wake_up}
use wake_on_lan.Wol.Deliver.Network.{Route, mode_of, Network, failures, sent_for, Carries}
use wake_on_lan.Wol.Deliver.Packets.{text_of}
use wake_on_lan.Wol.Deliver.Words.{MakesAll, jobs_for, wake_all-Sends}

-- The program ends with 1 and has handed over just these datagrams; the last that it did was to ask
-- for the file and to report it. Every descriptor is left open.
abbrev pub GivesUp : Text → List (List ℕ × Address) → World → Outcome (Unit {0}) × World → Type 0
GivesUp name ds w (exits n, w') =
    (n ≡ 1)
    × Trace ds w w'
    × ((older : List Event) × (w'.history ≡ told (cannot_open name) ∷ opened_file name ∷ older))
GivesUp name ds w (o, w') = ⊥

module _ (h : Host) (sock : ℕ) (net : Network) (route : Route) (up : Carries route h sock net) where
  unopened-GivesUp :
      (name : Text) (ds : List (List ℕ × Address)) (e fuel : ℕ) (s : Session) (w w' : World)
      (f : Session → M (Unit {0}))
      → s.globals.request_stdin ≡ false
      → s.globals.pathname ≡ some name
      → h.os.fopen w'.history name ≡ fails e
      → Trace ds w w'
      → GivesUp name ds w ((wake_input h sock fuel s >>= f) w')
  unfolding wake_input
  unopened-GivesUp name ds e fuel s w w' f i path refused t =
      simp (i, path, refused) (refl, t, (w'.history, refl))

  -- In UDP or raw mode, with a valid packet and no failure so far, where a file is to be read that
  -- cannot be opened, in UDP mode on a system that answers as the network says, and with fewer than
  -- 2 ^ 31 failures: the program hands over the packets of the words, as it does without a file,
  -- and no other; then it reports the file and exits with 1, and its socket is left open.
  pub wake_up_unopened :
      (name : Text) (packets : List (Option (List ℕ))) (fuel : ℕ) (operands : List Text)
      (s : Session) (w : World)
      → s.ret ≡ 0
      → s.globals.packet_mode ≡ mode_of route
      → IsValid s.magic
      → s.globals.request_stdin ≡ false
      → s.globals.pathname ≡ some name
      → ((past : List Event) → (e : ℕ) × (h.os.fopen past name ≡ fails e))
      → MakesAll h (text_of s.globals.passwd) operands packets
      → let js = jobs_for s.globals.host_str.string s.globals.port packets in
        failures route net js < 2 ^ 31
        → GivesUp name (sent_for route net js) w (wake_up h operands fuel s sock w)
  unfolding wake_up
  wake_up_unopened name packets fuel operands s w z mode v i path closed words few =
      let g = s.globals in
      let js = jobs_for g.host_str.string g.port packets in
      simp (i) (
        Post-then _ (GivesUp name (sent_for route net js) w) (wake_all h sock operands s) _ w
          (wake_all-Sends h sock net route up (text_of g.passwd) operands packets
            (failures route net js) s w mode v words refl (omega arith) (omega arith))
          λ named w1 ((same, counted, valid), stdin, t).
            let (e, refused) = closed w1.history in
            unopened-GivesUp name (sent_for route net js) e fuel named w w1 _ (rw same i)
              (rw same path) refused t)
