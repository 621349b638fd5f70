-- ===== src/Wol/Main/Strings.antt =====
-- One entry of a macfile in `main` of src/wol.c, in UDP or raw mode: its strings and their release.
use wake_on_lan.Base.{ℕ, ◌+◌, ◌≡◌, refl, ◌∙◌, false, ◌⊎◌, Option, none, some, arith, Text}
use wake_on_lan.Magic.Assemble.{IsValid}
use wake_on_lan.Macfile.{Entry, Buffer}
use wake_on_lan.System.{pure, World, Outcome, live, ◌>>=◌, Pointer, heap, freed, log}
use wake_on_lan.System.Rules.{Post, Post-then}
use wake_on_lan.System.Blocks.{frees, strays, Calm, Releases}
use wake_on_lan.Wol.{Globals}
use wake_on_lan.Wol.Send.{Host, assemble_and_send}
use wake_on_lan.Wol.Send.Total.{Safe, Safe-bind, ValidSent, assemble_and_send-Safe}
use wake_on_lan.Wol.Main.{Session, hand_over, free_passwd, wake, wake_entry}

-- UDP or raw mode, and a valid packet.
pub record IsReady (s : Session) : Type 0 where
  pub local : (s.globals.packet_mode ≡ 1) ⊎ (s.globals.packet_mode ≡ 2)
  pub valid : IsValid s.magic

-- Sessions that are ready, with the same globals.
abbrev pub Same : Session → Session → Type 0
Same s s' = IsReady s' × (s'.globals ≡ s.globals)

-- The password's block, if there is one, is the third.
abbrev pub Third : ℕ → Option Pointer → ℕ → Type 0
Third n none next = next ≡ 2 + n
Third n (some p) next = (p.origin ≡ heap (2 + n)) × (next ≡ 3 + n)

abbrev pub Both : Option Buffer → Option Pointer → Type 0
Both none none = Unit
Both (some b) (some p) = Unit
Both b p = ⊥

-- The strings of an entry are the next blocks.
pub record Hands (entry : Entry) (g : Globals) (w : World) (given : Pointer × Globals) (w' : World)
    : Type 0 where
  pub mode : given.1.packet_mode ≡ g.packet_mode
  pub stdin : w'.stdin ≡ w.stdin
  pub descriptors : live w'.history ≡ live w.history
  pub released : frees w'.history ≡ frees w.history
  pub mac : given.0.origin ≡ heap (0 + w.next)
  pub host : given.1.host_str.origin ≡ heap (1 + w.next)
  pub passwd : Third w.next given.1.passwd w'.next
  pub both : Both entry.passwd given.1.passwd
  pub inside : entry.overflow ≡ false → strays w'.history ≡ strays w.history

-- The standard input is as before, and if the host fits, the strings are released.
abbrev pub Serves : Entry → World → Outcome Session × World → Type 0
Serves entry w r =
    Post (λ s w'. IsReady s × (w'.stdin ≡ w.stdin) × (entry.overflow ≡ false → Releases w w')) r

module _ (h : Host) (sock : ℕ) where
  pub hand_over-Hands :
      (entry : Entry) (g : Globals) (w : World) → Post (Hands entry g w) (hand_over h.os entry g w)
  unfolding hand_over
  hand_over-Hands entry g w = ground arith

  pub wake-Same :
      (mac : Text) (s : Session) (w : World) → IsReady s → Safe (Same s) w (wake h sock mac s w)
  unfolding wake
  wake-Same mac s w r =
      let g = s.globals in
      Safe-bind ValidSent (Same s)
        (assemble_and_send h g s.magic mac g.host_str.string g.port g.passwd sock) _ w
        (assemble_and_send-Safe h g s.magic mac g.host_str.string g.port g.passwd sock w r.local
          r.valid)
        (λ sent w' v.
          ((record { local = r.local; valid = v }, refl), (refl, refl, refl, refl, refl)))

  free_strings :
      (entry : Entry) (g : Globals) (w w1 w2 : World) (given : Pointer × Globals) (next : Session)
      → IsReady next
      → Hands entry g w given w1
      → Calm w1 w2
      → Serves entry w (
          (free_passwd given.1.passwd >>= λ u. pure next)
            (log (freed given.1.host_str.origin) (log (freed given.0.origin) w2)))
  unfolding free_passwd
  free_strings entry g w w1 w2 given next r k (i, l, n, f, t5) = go given.1.passwd k.passwd
    where
      go :
          (p : Option Pointer)
          → Third w.next p w1.next
          → Serves entry w (
              (free_passwd p >>= λ u. pure next)
                (log (freed given.1.host_str.origin) (log (freed given.0.origin) w2)))
      go none t = (
        r,
        ground (arith, k.stdin),
        λ fits. record {
          count = 2;
          inside = t5 ∙ k.inside fits;
          descriptors = ground (arith, k.descriptors);
          allocated = omega (arith);
          released = rw (k.mac, k.host, f, k.released);
        },
      )
      go (some p) (e, t) = (
        r,
        ground (arith, k.stdin),
        λ fits. record {
          count = 3;
          inside = t5 ∙ k.inside fits;
          descriptors = ground (arith, k.descriptors);
          allocated = omega (arith);
          released = rw (k.mac, k.host, e, f, k.released);
        },
      )

  -- An entry leaves a ready session, and the standard input as it was; its strings are freed, if its
  -- host fits.
  pub wake_entry-Serves :
      (entry : Entry) (s : Session) (w : World)
      → IsReady s
      → Serves entry w (wake_entry h sock entry s w)
  unfolding wake_entry
  wake_entry-Serves entry s w r =
      Post-then (Hands entry s.globals w) (Serves entry w) (hand_over h.os entry s.globals) _ w
        (hand_over-Hands entry s.globals w)
        λ given w1 k.
          Post-then _ (Serves entry w) (wake h sock given.0.string (record s { globals = given.1 }))
            _ w1
            (wake-Same given.0.string (record s { globals = given.1 }) w1
              (record { local = rw (k.mode) r.local; valid = r.valid }))
            λ next w2 ((ready, same), q). free_strings entry s.globals w w1 w2 given next ready k q
