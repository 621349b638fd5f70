-- ===== src/Wol/Main/Ends.antt =====
-- The loop of `main` in src/wol.c over a macfile whose lines all end with a newline.
use wake_on_lan.Base.{ℕ, zero, suc, ◌<◌, ◌≡◌, refl, false, some, arith}
use wake_on_lan.Stream.{Stream}
use wake_on_lan.Macfile.{Entry, Parsed, failed, parsed, macfile_parse}
use wake_on_lan.Macfile.Terminated.{IsTerminated, Shrinks, macfile_parse-Shrinks}
use wake_on_lan.Macfile.Fitting.{HostsFit, macfile_parse-Within}
use wake_on_lan.System.{World, Outcome, returns, M, ◌>>=◌}
use wake_on_lan.Wol.Send.{Host}
use wake_on_lan.Wol.Main.{
  Session, Input, standard, file, current, leave, leave_world, wake_entry, wake_file,
}
use wake_on_lan.System.Rules.{Post, Post-mono, Post-then}
use wake_on_lan.System.Blocks.{Releases, Releases-Calm, Releases-trans}
use wake_on_lan.Wol.Main.Strings.{IsReady, Serves, wake_entry-Serves}
use wake_on_lan.Wol.Main.Endless.{wake_file_round, current-leave}

-- The piece returns, ready for more, and has released its strings.
abbrev pub Finishes : World → Outcome Session × World → Type 0
Finishes w r = Post (λ s w'. IsReady s × Releases w w') r

bind-Finishes :
    (entry : Entry) (m : M Session) (f : Session → M Session) (w : World)
    → entry.overflow ≡ false
    → Serves entry w (m w)
    → ((s : Session) (w' : World) → IsReady s → w'.stdin ≡ w.stdin → Finishes w' (f s w'))
    → Finishes w ((m >>= f) w)
bind-Finishes entry m f w fits serves k =
    Post-then _ (Finishes w) m f w serves λ s w' (ready, stdin, released).
      Post-mono _ _ (f s w') (k s w' ready stdin)
        λ s' w'' (ready', more). (ready', Releases-trans w w' w'' (released fits) more)

Releases-leave :
    (input : Input) (st : Stream) (w w' : World)
    → Releases (leave_world input st w) w'
    → Releases w w'
Releases-leave standard st w w' r = record {
  count = r.count;
  descriptors = r.descriptors;
  allocated = r.allocated;
  released = r.released;
  inside = r.inside;
}
Releases-leave (file old) st w w' r = r

Finishes-leave :
    (input : Input) (st : Stream) (w : World) (r : Outcome Session × World)
    → Finishes (leave_world input st w) r
    → Finishes w r
Finishes-leave input st w r f =
    Post-mono _ _ r f λ s w' (ready, released). (ready, Releases-leave input st w w' released)

module _ (h : Host) (sock : ℕ) where
  -- The round that meets the end.
  wake_file_last :
      (fuel : ℕ) (input : Input) (s : Session) (w : World) (port : ℕ) (st : Stream)
      → macfile_parse (current input w) ≡ some (failed port st)
      → IsReady s
      → Finishes w (wake_file h sock (suc fuel) input s w)
  unfolding wake_file
  wake_file_last fuel input s w port st e r =
      let last = record s { globals = record s.globals { port = port } } in
      let ready : IsReady last = record { local = r.local; valid = r.valid } in
      rw (e, wake_file)
        (Finishes-leave input st w (returns last, leave_world input st w)
          (ready, Releases-Calm _ _ (refl, refl, refl, refl, refl)))

  -- One round, if every later one finishes.
  round-Finishes :
      (n fuel : ℕ) (input : Input) (s : Session) (w : World)
      → IsReady s
      → ((m : ℕ) (input' : Input) (s' : Session) (w' : World)
          → IsReady s'
          → IsTerminated m (current input' w')
          → HostsFit (current input' w')
          → m < n
          → Finishes w' (wake_file h sock fuel input' s' w'))
      → HostsFit (current input w)
      → (p : Parsed) × (macfile_parse (current input w) ≡ some p) × Shrinks n p
      → Finishes w (wake_file h sock (suc fuel) input s w)
  round-Finishes n fuel input s w r later hosts (failed port st, e, g) =
      wake_file_last fuel input s w port st e r
  round-Finishes zero fuel input s w r later hosts (parsed entry st, e, g) = absurd g
  round-Finishes (suc n) fuel input s w r later hosts (parsed entry st, e, g) =
      let (fits, hosts') = macfile_parse-Within (current input w) (parsed entry st) hosts e in
      rw (wake_file_round h sock fuel input s w entry st e) (
        Finishes-leave input st w _ (
          bind-Finishes entry (wake_entry h sock entry s) (wake_file h sock fuel (leave input st))
            (leave_world input st w) fits
            (wake_entry-Serves h sock entry s (leave_world input st w) r)
            (λ next w' ready stdin.
              let same = current-leave h sock input st w w' stdin in
              later n (leave input st) next w' ready (rw same g) (rw same hosts') (omega arith))))

  -- In UDP or raw mode, with a valid packet: the loop over a macfile whose last line ends with a
  -- newline, or that ends in a read error, and in which no host is too long for its array, returns if
  -- the fuel exceeds the number of lines by two, with a valid packet in the same kinds of mode. The same
  -- descriptors are open as before, no store was made behind an array, and of the strings that a
  -- pointer of the program holds, each copy that `strdup` made of an entry's words was freed once,
  -- and no other. The block in which `macfile_parse` keeps a line is its own and is not counted.
  pub wake_file-Finishes :
      (n fuel : ℕ) (input : Input) (s : Session) (w : World)
      → IsReady s
      → IsTerminated n (current input w)
      → HostsFit (current input w)
      → n < fuel
      → Finishes w (wake_file h sock fuel input s w)
  wake_file-Finishes n zero input s w r t hosts lt = absurd (omega arith)
  wake_file-Finishes n (suc fuel) input s w r t hosts lt =
      round-Finishes n fuel input s w r
        (λ m input' s' w' r' t' hosts' le.
          wake_file-Finishes m fuel input' s' w' r' t' hosts' (omega arith))
        hosts (macfile_parse-Shrinks n (current input w) t)
