-- ===== src/Wol/Main/Endless.antt =====
-- The loop of `main` in src/wol.c over a macfile whose last line has no newline.
use wake_on_lan.Base.{ℕ, zero, suc, ◌≡◌, refl, some}
use wake_on_lan.Stream.{Stream}
use wake_on_lan.Macfile.{Entry, Parsed, failed, parsed, macfile_parse}
use wake_on_lan.Macfile.Unended.{IsUnended, GivesUnended, macfile_parse-GivesUnended}
use wake_on_lan.System.{World, unfinished, ◌>>=◌}
use wake_on_lan.Wol.Send.{Host}
use wake_on_lan.System.Rules.{Post-then}
use wake_on_lan.Wol.Main.Strings.{IsReady, wake_entry-Serves}
use wake_on_lan.Wol.Main.{
  Session, Input, standard, file, current, leave, leave_world, wake_entry, wake_file,
}

gives_entry :
    (st : Stream)
    → (r : Parsed) × (macfile_parse st ≡ some r) × GivesUnended r
    → (entry : Entry) × (st' : Stream) × (macfile_parse st ≡ some (parsed entry st'))
      × IsUnended st'
gives_entry st (failed port st', e, g) = absurd g
gives_entry st (parsed entry st', e, g) = (entry, st', e, g)

module _ (h : Host) (sock : ℕ) where
  -- The stream that the next round reads is the one that the parser left.
  pub current-leave :
      (input : Input) (st : Stream) (w w' : World)
      → w'.stdin ≡ (leave_world input st w).stdin
      → current (leave input st) w' ≡ st
  current-leave standard st w w' e = e
  current-leave (file old) st w w' e = refl

  -- One round on an entry.
  pub wake_file_round :
      (fuel : ℕ) (input : Input) (s : Session) (w : World) (entry : Entry) (st : Stream)
      → macfile_parse (current input w) ≡ some (parsed entry st)
      → wake_file h sock (suc fuel) input s w
        ≡ (wake_entry h sock entry s >>= wake_file h sock fuel (leave input st))
            (leave_world input st w)
  unfolding wake_file
  wake_file_round fuel input s w entry st e = rw (e, wake_file)

  -- In UDP or raw mode, and with a valid packet, the loop over a macfile whose last line has no
  -- newline does not end: it runs out of whatever fuel it is given.
  pub wake_file_endless :
      (fuel : ℕ) (input : Input) (s : Session) (w : World)
      → IsReady s
      → IsUnended (current input w)
      → (wake_file h sock fuel input s w).0 ≡ unfinished
  unfolding wake_file
  wake_file_endless zero input s w r u = refl
  wake_file_endless (suc fuel) input s w r u =
      let (entry, st, e, u') =
        gives_entry (current input w) (macfile_parse-GivesUnended (current input w) u) in
      rw (wake_file_round fuel input s w entry st e) (
        Post-then _ (λ r. r.0 ≡ unfinished) (wake_entry h sock entry s)
          (wake_file h sock fuel (leave input st)) (leave_world input st w)
          (wake_entry-Serves h sock entry s (leave_world input st w) r)
          (λ next w' (ready, stdin, released).
            let same = current-leave input st w w' stdin in
            wake_file_endless fuel (leave input st) next w' ready (rw same u')))
