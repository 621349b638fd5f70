-- ===== src/Wol/Main/Exit.antt =====
-- How `main` of src/wol.c ends once the socket is open.
use wake_on_lan.Base.{
  ap, ◌+◌, ◌++◌, inl, inr, ℕ, ◌<◌, ◌≡◌, refl, ◌∙◌, ◌==◌, if◌then◌else◌, true, false, none, some,
  List, [], ◌∷◌, arith, Text,
}
use wake_on_lan.Stream.{Stream}
use wake_on_lan.Macfile.Terminated.{IsTerminated}
use wake_on_lan.Macfile.Fitting.{HostsFit}
use wake_on_lan.System.{
  pure, Event, log, opened_file, World, Outcome, exits, live, remove, M, ◌>>=◌, ◌>>◌, exit, gives,
  emit, closed_file,
}
use wake_on_lan.System.{Answer-cases, magic_block, packet_block}
use wake_on_lan.System.Rules.{Post-mono, Post-then}
use wake_on_lan.System.Blocks.{frees, strays, blocks, Releases, Releases-Calm, Releases-trans}
use wake_on_lan.Net.{net_close}
use wake_on_lan.Wol.{Globals}
use wake_on_lan.Wol.Send.{Host}
use wake_on_lan.Wol.Send.Total.{Safe, Safe-bind}
use wake_on_lan.Wol.Main.{
  Session, standard, file, wake, wake_all, wake_input, wake_file, wake_up, magic_destroy,
}
use wake_on_lan.Wol.Main.Strings.{IsReady, Same, wake-Same}
use wake_on_lan.Wol.Main.Ends.{Finishes, wake_file-Finishes}

-- The program ends with 0 or 1, and its socket is closed. What was freed are the strings that were
-- given numbers, each once, and then the two blocks of the packet. No store was made behind an array.
abbrev pub Closes : ℕ → World → Outcome (Unit {0}) × World → Type 0
Closes sock w (exits n, w') =
    (n < 2)
    × (live w'.history ≡ remove sock (live w.history))
    × ((count : ℕ) × (w'.next ≡ count + w.next)
        × (frees w'.history
            ≡ magic_block ∷ packet_block ∷ (blocks count w.next ++ frees w.history)))
    × (strays w'.history ≡ strays w.history)
Closes sock w (o, w') = ⊥

Finishes-closed_file :
    (w : World) (m : M Session)
    → Finishes w (m w)
    → Finishes w ((m >>= λ next. emit closed_file >>= λ u. pure next) w)
Finishes-closed_file w m done = Post-then _ (Finishes w) m _ w done λ next w' (ready, r). (
  ready,
  Releases-trans w w' (log closed_file w') r
      (Releases-Calm w' (log closed_file w') (refl, refl, refl, refl, refl)),
)

Finishes-opened_file :
    (w : World) (name : Text) (r : Outcome Session × World)
    → Finishes (log (opened_file name) w) r
    → Finishes w r
Finishes-opened_file w name r done = Post-mono _ _ r done λ s w' (ready, released). (
  ready,
  Releases-trans w (log (opened_file name) w) w' (Releases-Calm _ _ (refl, refl, refl, refl, refl))
      released,
)

-- What is read after the words: nothing, or a stream that ends, within the fuel, and whose hosts fit.
pub data Reads (h : Host) (n : ℕ) (g : Globals) (st : Stream) : Type 0 where
  nothing : g.request_stdin ≡ false → g.pathname ≡ none → Reads h n g st
  stdin_ends : g.request_stdin ≡ true → IsTerminated n st → HostsFit st → Reads h n g st
  file_ends :
      (name : Text)
      → g.request_stdin ≡ false
      → g.pathname ≡ some name
      → ((past : List Event)
          → (fst : Stream) × (h.os.fopen past name ≡ gives fst) × IsTerminated n fst × HostsFit fst)
      → Reads h n g st

module _ (h : Host) (sock : ℕ) where
  wake_all-Same :
      (macs : List Text) (s s0 : Session) (w : World)
      → Same s0 s
      → Safe (Same s0) w (wake_all h sock macs s w)
  unfolding wake_all
  wake_all-Same [] s s0 w e = (e, (refl, refl, refl, refl, refl))
  wake_all-Same (mac ∷ macs) s s0 w (r, e) =
      Safe-bind (Same s) (Same s0) (wake h sock mac s) _ w (wake-Same h sock mac s w r)
        (λ next w' (r', e'). wake_all-Same macs next s0 w' (r', e' ∙ e))

  wake_input-Finishes :
      (n fuel : ℕ) (s : Session) (w : World)
      → IsReady s
      → Reads h n s.globals w.stdin
      → n < fuel
      → Finishes w (wake_input h sock fuel s w)
  unfolding wake_input
  wake_input-Finishes n fuel s w r (nothing e f) lt =
      simp (e, f) (r, Releases-Calm w w (refl, refl, refl, refl, refl))
  wake_input-Finishes n fuel s w r (stdin_ends e t hosts) lt = simp (e) (
      Finishes-closed_file w (wake_file h sock fuel standard s)
        (wake_file-Finishes h sock n fuel standard s w r t hosts lt))
  wake_input-Finishes n fuel s w r (file_ends name e f opens) lt =
      let (st, k, t, hosts) = opens w.history in
      let w' = log (opened_file name) w in
      simp (e, f, k)
        (Finishes-opened_file w name _ (
          Finishes-closed_file w' (wake_file h sock fuel (file st) s)
            (wake_file-Finishes h sock n fuel (file st) s w' r t hosts lt)))

  -- The last lines of `main`.
  ending-Closes :
      (ret : ℕ) (w w' : World)
      → Releases w w'
      → Closes sock w
          ((net_close h.os sock >>= λ u. magic_destroy >> exit (if ret == 0 then 0 else 1)) w')
  unfolding net_close magic_destroy
  ending-Closes ret w w' r = elim (Answer-cases (h.os.close w'.history sock)) [
    | inl (u, e) ↦ rw e (
      ground arith,
      ap (remove sock) r.descriptors,
      (r.count, r.allocated, ap (λ l. magic_block ∷ packet_block ∷ l) r.released),
      r.inside,
    )
    | inr (k, e) ↦ rw e (
      ground arith,
      ap (remove sock) r.descriptors,
      (r.count, r.allocated, ap (λ l. magic_block ∷ packet_block ∷ l) r.released),
      r.inside,
    )
  ]

  -- In UDP or raw mode, with a valid packet: where nothing is read after the words, or the standard
  -- input or a file that ends in a newline or a read error, and in which no host is too long for its
  -- array, and the fuel exceeds the number of its lines by two, the program ends, with 0 or 1, and its
  -- socket is closed. No store was made behind an array. Of the blocks that a pointer of the program
  -- holds, each copy that `strdup` made of an entry's words is freed once, then the packet and its
  -- record, and no other. The block in which `macfile_parse` keeps a line is its own and is not
  -- counted.
  pub wake_up-Closes :
      (n fuel : ℕ) (operands : List Text) (s : Session) (w : World)
      → IsReady s
      → Reads h n s.globals w.stdin
      → n < fuel
      → Closes sock w (wake_up h operands fuel s sock w)
  unfolding wake_up
  wake_up-Closes n fuel operands s w r reads lt =
      let words = if s.globals.request_stdin then [] else operands in
      Post-then _ (Closes sock w) (wake_all h sock words s) _ w
        (wake_all-Same words s s w (r, refl))
        λ named w1 ((ready, same), (st, l, n1, f, t)).
          Post-then _ (Closes sock w) (wake_input h sock fuel named) _ w1
            (wake_input-Finishes n fuel named w1 ready (rw (same, st) reads) lt)
            λ last w2 (ready2, released).
              ending-Closes last.ret w w2
                (Releases-trans w w1 w2 (Releases-Calm w w1 (st, l, n1, f, t)) released)
