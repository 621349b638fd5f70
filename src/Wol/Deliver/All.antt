-- ===== src/Wol/Deliver/All.antt =====
-- `main` of src/wol.c from the socket on, in UDP and in raw mode: the jobs for the words of the
-- command line, then those of a file or of the standard input, and the exit status.
use wake_on_lan.Base.{
  ℕ, ◌+◌, ◌<◌, ◌^◌, ◌≡◌, refl, ◌∙◌, ◌==◌, if◌then◌else◌, true, false, Option, none, some, List, [],
  ◌++◌, append_assoc, arith, length, Text,
}
use wake_on_lan.Stream.{Stream}
use wake_on_lan.Magic.Assemble.{IsValid}
use wake_on_lan.System.{
  Event, Address, World, Outcome, returns, exits, crashes, unfinished, live, remove, M, ◌>>=◌, ◌>>◌,
  exit, emit, pure, closed_file, opened_file, log, gives,
}
use wake_on_lan.System.Rules.{Post-then}
use wake_on_lan.Net.{net_close}
use wake_on_lan.Net.Sending.{datagrams, Trace}
use wake_on_lan.Wol.{Globals}
use wake_on_lan.Wol.Send.{Host}
use wake_on_lan.Wol.Main.{
  Session, standard, file, wake_all, wake_file, wake_input, wake_up, magic_destroy,
}
use wake_on_lan.Wol.Deliver.Network.{
  Route, mode_of, Network, Job, failures, sent_for, failures-append, sent_for-append, Carries,
  Succeed, failures-Succeed,
}
use wake_on_lan.Wol.Deliver.Packets.{text_of}
use wake_on_lan.Wol.Deliver.Words.{MakesAll, jobs_for, wake_all-Sends}
use wake_on_lan.Wol.Deliver.Files.{Offers, Ready, Brings, wake_file-Brings}

-- The program ends with a status, and has handed over just these datagrams and closed its socket.
abbrev pub Exits : ℕ → ℕ → List (List ℕ × Address) → World → Outcome (Unit {0}) × World → Type 0
Exits status sock ds w (exits n, w') =
    (n ≡ status)
    × (live w'.history ≡ remove sock (live w.history))
    × (datagrams w'.history ≡ ds ++ datagrams w.history)
Exits status sock ds w (o, w') = ⊥

Exits-after :
    (status sock : ℕ) (ds es : List (List ℕ × Address)) (w w' : World)
    (r : Outcome (Unit {0}) × World)
    → Trace ds w w'
    → Exits status sock es w' r
    → Exits status sock (es ++ ds) w r
Exits-after status sock ds es w w' (exits n, w'') (l, d) (z, l', d') =
    (z, rw (← l) l', d' ∙ rw (d, append_assoc es ds (datagrams w.history)))
Exits-after status sock ds es w w' (returns b, w'') t x = absurd x
Exits-after status sock ds es w w' (crashes, w'') t x = absurd x
Exits-after status sock ds es w w' (unfinished, w'') t x = absurd x

-- The words that are looked at.
abbrev pub words_of : Globals → List Text → List Text
words_of g operands = if g.request_stdin then [] else operands

-- What is read behind the words: nothing, a file, or the standard input.
pub data Asks (h : Host) (g : Globals) (st : Stream) : List Job → Type 0 where
  no_file : g.request_stdin ≡ false → g.pathname ≡ none → Asks h g st []
  a_file :
      {js : List Job} (name : Text)
      → g.request_stdin ≡ false
      → g.pathname ≡ some name
      → ((past : List Event)
          → (opened : Stream) × (h.os.fopen past name ≡ gives opened) × Offers h opened js)
      → Asks h g st js
  standard_input : {js : List Job} → g.request_stdin ≡ true → Offers h st js → Asks h g st js

-- 0 where no job failed.
abbrev pub status_of : ℕ → ℕ
status_of n = if n == 0 then 0 else 1

module _ (h : Host) (sock : ℕ) (net : Network) (route : Route) (up : Carries route h sock net) where
  Brings-closed_file :
      (n : ℕ) (ds : List (List ℕ × Address)) (m : M Session) (w : World)
      → Brings route n ds w (m w)
      → Brings route n ds w ((m >>= λ next. emit closed_file >> pure next) w)
  Brings-closed_file n ds m w b =
      Post-then _ (Brings route n ds w) m _ w b λ next w' (ready, (l, d)). (ready, (l, d))

  wake_input-Brings :
      (js : List Job) (n fuel : ℕ) (s : Session) (w : World)
      → Asks h s.globals w.stdin js
      → length js < fuel
      → Ready route s.ret s
      → failures route net js + s.ret ≡ n
      → n < 2 ^ 32
      → Brings route n (sent_for route net js) w (wake_input h sock fuel s w)
  unfolding wake_input
  wake_input-Brings _ n fuel s w (no_file i e) lt r sum few =
      simp (i, e) (record { mode = r.mode; same = omega arith; valid = r.valid }, (refl, refl))
  wake_input-Brings _ n fuel s w (a_file {js} name i e opens) lt r sum few =
      let (st, k, o) = opens w.history in
      let w' = log (opened_file name) w in
      simp (i, e, k)
        (Brings-closed_file n (sent_for route net js) (wake_file h sock fuel (file st) s) w'
          (wake_file-Brings h sock net route up js n fuel (file st) s w' o lt r sum few))
  wake_input-Brings _ n fuel s w (standard_input {js} i o) lt r sum few = simp (i) (
      Brings-closed_file n (sent_for route net js) (wake_file h sock fuel standard s) w
        (wake_file-Brings h sock net route up js n fuel standard s w o lt r sum few))

  ending-Exits :
      (ret n : ℕ) (w : World)
      → ret ≡ n
      → Exits
          (status_of n)
          sock
          []
          w
          ((net_close h.os sock >>= λ u. magic_destroy >> exit (if ret == 0 then 0 else 1)) w)
  unfolding net_close magic_destroy
  ending-Exits ret n w e = ground arith

  rest-Exits :
      (js : List Job) (n fuel : ℕ) (s : Session) (w : World)
      → Asks h s.globals w.stdin js
      → length js < fuel
      → Ready route s.ret s
      → failures route net js + s.ret ≡ n
      → n < 2 ^ 32
      → Exits (status_of n) sock (sent_for route net js) w (
          (wake_input h sock fuel s >>= λ last.
          net_close h.os sock >>= λ u. magic_destroy >> exit (if last.ret == 0 then 0 else 1))
            w)
  rest-Exits js n fuel s w asks lt r sum few =
      Post-then _ (Exits (status_of n) sock (sent_for route net js) w) (wake_input h sock fuel s) _
        w (wake_input-Brings js n fuel s w asks lt r sum few)
        λ last w' (ready, t).
          Exits-after (status_of n) sock (sent_for route net js) [] w w' _ t
            (ending-Exits last.ret n w' ready.same)

  -- In UDP or raw mode, with a valid packet and no failure so far, in UDP mode on a system that
  -- answers as the network says, with more fuel than there are entries, and fewer than 2 ^ 31
  -- failures: the program hands over the packets of the jobs in order and no other, each to its
  -- host's address and port or in raw mode to the link, closes its socket, and exits with 0 where
  -- no job fails and else with 1. The jobs are the words of the command line, all with the given
  -- host, port and password, unless the standard input is read, and then the entries of the file,
  -- which can be opened, or of the standard input, if one is read, whose lines all end with a
  -- newline and are ignored or entries, each with its own host of fewer than 255 characters, port
  -- and password. A job has a packet where its address is written or found in the ethers database
  -- and its password, if there is one, is six bytes; it has none where its address is neither or
  -- its password is not six bytes. A job fails that has no packet, and in UDP mode one whose host
  -- has no address or whose datagram the network refuses.
  pub wake_up-Exits :
      (packets : List (Option (List ℕ))) (js : List Job) (fuel : ℕ) (operands : List Text)
      (s : Session) (w : World)
      → s.ret ≡ 0
      → s.globals.packet_mode ≡ mode_of route
      → IsValid s.magic
      → MakesAll h (text_of s.globals.passwd) (words_of s.globals operands) packets
      → Asks h s.globals w.stdin js
      → length js < fuel
      → let all = jobs_for s.globals.host_str.string s.globals.port packets ++ js in
        failures route net all < 2 ^ 31
        → Exits
            (status_of (failures route net all))
            sock
            (sent_for route net all)
            w
            (wake_up h operands fuel s sock w)
  unfolding wake_up
  wake_up-Exits packets js fuel operands s w z mode v words asks lt few =
      let g = s.globals in
      let first = jobs_for g.host_str.string g.port packets in
      let n = failures route net (first ++ js) in
      let sum = failures-append route net first js in
      rw (sent_for-append route net first js) (
        Post-then _ (Exits (status_of n) sock (sent_for route net js ++ sent_for route net first) w)
          (wake_all h sock (words_of g operands) s) _ w
          (wake_all-Sends h sock net route up (text_of g.passwd) (words_of g operands) packets
            (failures route net first) s w mode v words refl (omega arith) (omega arith))
          λ named w1 ((same, counted, valid), stdin, t).
            Exits-after (status_of n) sock (sent_for route net first) (sent_for route net js) w w1 _
              t
              (rest-Exits js n fuel named w1 (rw (same, stdin) asks) lt
                (record { mode = rw same mode; same = refl; valid = valid }) (omega arith)
                (omega arith)))

  -- Where each job succeeds, the status is 0.
  pub wake_up-Succeeds :
      (packets : List (Option (List ℕ))) (js : List Job) (fuel : ℕ) (operands : List Text)
      (s : Session) (w : World)
      → s.ret ≡ 0
      → s.globals.packet_mode ≡ mode_of route
      → IsValid s.magic
      → MakesAll h (text_of s.globals.passwd) (words_of s.globals operands) packets
      → Asks h s.globals w.stdin js
      → length js < fuel
      → let all = jobs_for s.globals.host_str.string s.globals.port packets ++ js in
        Succeed route net all
        → Exits 0 sock (sent_for route net all) w (wake_up h operands fuel s sock w)
  wake_up-Succeeds packets js fuel operands s w z mode v words asks lt good =
      let all = jobs_for s.globals.host_str.string s.globals.port packets ++ js in
      let none_failed = failures-Succeed route net all good in
      let status : status_of (failures route net all) ≡ 0 = rw none_failed in
      rw (← status)
        (wake_up-Exits packets js fuel operands s w z mode v words asks lt (omega arith))
