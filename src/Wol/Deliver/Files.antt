-- ===== src/Wol/Deliver/Files.antt =====
-- The loop of `main` in src/wol.c over a macfile, or over the standard input, in UDP and in raw mode.
use wake_on_lan.Base.{
  ℕ, zero, suc, ◌+◌, ◌<◌, ◌^◌, ◌≡◌, refl, ◌||◌, false, Option, none, some, List, [], ◌∷◌, ◌++◌,
  arith, length, Text,
}
use wake_on_lan.Stream.{Stream}
use wake_on_lan.Magic.Assemble.{IsValid}
use wake_on_lan.Macfile.{failed, macfile_parse, host_size}
use wake_on_lan.Macfile.Entries.{Wanted, IsWanted, Spacing, IsSpacing, written}
use wake_on_lan.Macfile.Written.{number_or}
use wake_on_lan.Macfile.Next.{Skips, entry_of, macfile_parse-written}
use wake_on_lan.Macfile.End.{macfile_parse-Skips}
use wake_on_lan.System.{Address, World, Outcome, Pointer}
use wake_on_lan.System.Rules.{Post, Post-mono, Post-then}
use wake_on_lan.Wol.{Globals}
use wake_on_lan.Wol.Send.{Host}
use wake_on_lan.Wol.Main.{
  Session, Input, standard, file, current, leave, leave_world, valid_port, hand_over, free_passwd,
  wake, wake_entry, wake_file,
}
use wake_on_lan.Wol.Main.Endless.{wake_file_round, current-leave}
use wake_on_lan.Wol.Deliver.{Sends, Sends-bind, Sends-silent}
use wake_on_lan.Net.Sending.{Trace, Trace-trans}
use wake_on_lan.Wol.Deliver.Network.{
  Route, mode_of, Network, Job, effect, count, failures, sent_for, Carries,
}
use wake_on_lan.Wol.Deliver.Packets.{Makes, text_of}
use wake_on_lan.Wol.Deliver.Words.{Counts, wake-Sends}

-- The lines of a macfile hold these jobs, in order, and lines that are ignored.
pub data Holds (h : Host) : List Text → List Job → Type 0 where
  no_job : {ls : List Text} → Skips ls → Holds h ls []
  job :
      {more : List Text} {js : List Job} {packet : Option (List ℕ)} (skipped : List Text)
      (g : Spacing) (w : Wanted)
      → Skips skipped
      → IsSpacing g
      → IsWanted w
      → length w.host < host_size
      → Makes h w.mac w.passwd packet
      → Holds h more js
      → Holds h
          (skipped ++ (written g w ∷ more))
          (record { packet = packet; host = w.host; port = valid_port (number_or w.port 0) } ∷ js)

-- The stream is whole lines, which hold the jobs, and its end is not yet met.
pub record Offers (h : Host) (st : Stream) (js : List Job) : Type 0 where
  pub fresh : (st.feof || st.ferror) ≡ false
  pub whole : st.rest ≡ []
  pub lines : Holds h st.lines js

-- The route's mode, so many failures, and a valid packet.
pub record Ready (route : Route) (ret : ℕ) (s : Session) : Type 0 where
  pub mode : s.globals.packet_mode ≡ mode_of route
  pub same : s.ret ≡ ret
  pub valid : IsValid s.magic

-- A piece returns such a session, and hands over just these datagrams.
abbrev pub Brings : Route → ℕ → List (List ℕ × Address) → World → Outcome Session × World → Type 0
Brings route ret ds w r = Post (λ s w'. Ready route ret s × Trace ds w w') r

-- The strings that an entry hands over.
record Given (route : Route) (w : Wanted) (given : Pointer × Globals) : Type 0 where
  mac : given.0.string ≡ w.mac
  host : given.1.host_str.string ≡ w.host
  port : given.1.port ≡ valid_port (number_or w.port 0)
  passwd : text_of given.1.passwd ≡ w.passwd
  mode : given.1.packet_mode ≡ mode_of route

module _ (h : Host) (sock : ℕ) where
  hand_over-Sends :
      (route : Route) (m t : Text) (port passwd : Option Text) (g : Globals) (world : World)
      → g.packet_mode ≡ mode_of route
      → length t < host_size
      → let w : Wanted = record { mac = m; host = t; port = port; passwd = passwd } in
        Sends (Given route w) [] world (hand_over h.os (entry_of w) g world)
  unfolding hand_over
  hand_over-Sends route m t port none g world mode short = ground arith
  hand_over-Sends route m t port (some p) g world mode short = ground arith

  free_passwd-Sends :
      (p : Option Pointer) (w : World) → Sends (λ u. Unit {0}) [] w (free_passwd p w)
  unfolding free_passwd
  free_passwd-Sends none w = (tt, refl, (refl, refl))
  free_passwd-Sends (some p) w = (tt, refl, (refl, refl))

  Trace-leave :
      (input : Input) (st : Stream) (ds : List (List ℕ × Address)) (w w' : World)
      → Trace ds (leave_world input st w) w'
      → Trace ds w w'
  Trace-leave standard st ds w w' t = t
  Trace-leave (file old) st ds w w' t = t

module _ (h : Host) (sock : ℕ) (net : Network) (route : Route) (up : Carries route h sock net) where
  wake_entry-Sends :
      (w : Wanted) (packet : Option (List ℕ)) (s : Session) (world : World)
      → let j : Job = record {
        packet = packet;
        host = w.host;
        port = valid_port (number_or w.port 0);
      } in
        let e = effect route net j in
        Ready route s.ret s
        → length w.host < host_size
        → Makes h w.mac w.passwd packet
        → count e.0 + s.ret < 2 ^ 32
        → Sends (Ready route (count e.0 + s.ret)) e.1 world (wake_entry h sock (entry_of w) s world)
  unfolding wake_entry
  wake_entry-Sends w packet s world r short makes lt =
      let j : Job = record {
        packet = packet;
        host = w.host;
        port = valid_port (number_or w.port 0);
      } in
      let e = effect route net j in
      let n = count e.0 + s.ret in
      Sends-silent (Given route w) (Ready route n) e.1 (hand_over h.os (entry_of w) s.globals) _
        world
        (hand_over-Sends h sock route w.mac w.host w.port w.passwd s.globals world r.mode short)
        λ given w1 v.
          Sends-bind (Counts n given.1) (Ready route n) e.1 []
            (wake h sock given.0.string (record s { globals = given.1 })) _ w1
            (rw (← v.host, ← v.port)
              (wake-Sends h sock net route up given.0.string w.passwd packet
                (record s { globals = given.1 }) w1 v.mode r.valid (rw v.mac makes) v.passwd
                (rw (v.host, v.port) lt)))
            λ next w2 (same, ret, valid).
              Sends-bind (λ u. Unit {0}) (Ready route n) [] [] (free_passwd given.1.passwd) _ _
                (free_passwd-Sends h sock given.1.passwd _)
                (λ u w3 x.
                  (record { mode = rw same v.mode; same = ret; valid = valid }, refl, (refl, refl)))

  wake_file_last :
      (n fuel : ℕ) (input : Input) (s : Session) (world : World) (port : ℕ) (st : Stream)
      → macfile_parse (current input world) ≡ some (failed port st)
      → Ready route n s
      → Brings route n [] world (wake_file h sock (suc fuel) input s world)
  unfolding wake_file
  wake_file_last n fuel input s world port st e r =
      let last = record s { globals = record s.globals { port = port } } in
      let ready : Ready route n last = record { mode = r.mode; same = r.same; valid = r.valid } in
      rw (e, wake_file)
        (ready, Trace-leave h sock input st [] world (leave_world input st world) (refl, refl))

  wake_file-Holds :
      (ls : List Text) (js : List Job) (n fuel : ℕ) (input : Input) (s : Session) (world : World)
      → Holds h ls js
      → (current input world).lines ≡ ls
      → ((current input world).feof || (current input world).ferror) ≡ false
      → (current input world).rest ≡ []
      → length js < fuel
      → Ready route s.ret s
      → failures route net js + s.ret ≡ n
      → n < 2 ^ 32
      → Brings route n (sent_for route net js) world (wake_file h sock fuel input s world)
  wake_file-Holds ls js n zero input s world hs e f rest lt r sum few = absurd (omega arith)
  wake_file-Holds _ _ n (suc fuel) input s world (no_job k) e f rest lt r sum few =
      wake_file_last n fuel input s world _ _
        (macfile_parse-Skips (current input world) f (rw e k) rest)
        (record { mode = r.mode; same = omega arith; valid = r.valid })
  wake_file-Holds _ _ n (suc fuel) input s world
        (job {more} {js} {packet} skipped g w k sp hw short makes hs) e f rest lt r sum few =
      let st = current input world in
      let st' = record st { lines = more } in
      let j : Job = record {
        packet = packet;
        host = w.host;
        port = valid_port (number_or w.port 0);
      } in
      let ds = (effect route net j).1 in
      let es = sent_for route net js in
      let world' = leave_world input st' world in
      rw
        (wake_file_round h sock fuel input s world (entry_of w) st'
          (macfile_parse-written st skipped more g w f e k sp hw))
        (Post-then _ (Brings route n (es ++ ds) world) (wake_entry h sock (entry_of w) s)
          (wake_file h sock fuel (leave input st')) world'
          (wake_entry-Sends w packet s world' r short makes (omega arith))
          (λ next w' (ready, stdin, t).
            let same = current-leave h sock input st' world w' stdin in
            Post-mono _ _ (wake_file h sock fuel (leave input st') next w')
              (wake_file-Holds more js n fuel (leave input st') next w' hs (rw same refl)
                (rw same f) (rw same rest) (omega arith)
                (record { mode = ready.mode; same = refl; valid = ready.valid })
                (omega (arith, ready.same)) few)
              (λ last w'' (ready', t'). (
                ready',
                Trace-leave h sock input st' (es ++ ds) world w''
                    (Trace-trans ds es world' w' w'' t t'),
              ))))

  -- The loop does each job of the stream, in order, and ends.
  pub wake_file-Brings :
      (js : List Job) (n fuel : ℕ) (input : Input) (s : Session) (world : World)
      → Offers h (current input world) js
      → length js < fuel
      → Ready route s.ret s
      → failures route net js + s.ret ≡ n
      → n < 2 ^ 32
      → Brings route n (sent_for route net js) world (wake_file h sock fuel input s world)
  wake_file-Brings js n fuel input s world o =
      wake_file-Holds (current input world).lines js n fuel input s world o.lines refl o.fresh
        o.whole
