-- ===== src/Wol/Deliver/Network.antt =====
-- What src/wol.c promises as a whole: the jobs that it is given, and what becomes of them on a
-- network. It is described without its code.
use wake_on_lan.Base.{
  ℕ, ◌+◌, ◌%◌, ◌^◌, ◌≡◌, sym, Bool, true, false, Option, none, some, List, [], ◌∷◌, ◌++◌,
  append_assoc, append-nil, arith, Text,
}
use wake_on_lan.System.{Event, Address, inet, link, Answer, gives, fails}
use wake_on_lan.Wol.Send.{Host}

-- The packets go to a host's port, or to the link.
pub data Route : Type 0 where
  by_udp : Route
  by_raw : Route

-- The mode, as in `packet_mode`.
abbrev pub mode_of : Route → ℕ
mode_of by_udp = 1
mode_of by_raw = 2

-- The addresses of names, and the datagrams that cannot be sent.
pub record Network : Type 0 where
  pub lookup : Text → Option (List ℕ)
  pub refuses : List ℕ → Address → Bool

-- A packet for a machine, if one can be made, and the host and port that it is sent to.
pub record Job : Type 0 where
  pub packet : Option (List ℕ)
  pub host : Text
  pub port : ℕ

-- Whether a job fails, and what is handed to the network.
abbrev pub Effect : Type 0
Effect = Bool × List (List ℕ × Address)

abbrev pub to_address : Network → List ℕ → ℕ → Option (List ℕ) → Effect
to_address net packet port none = (true, [])
to_address net packet port (some addr) =
    let to = inet addr (port % 2 ^ 16) in (net.refuses packet to, (packet, to) ∷ [])

-- A job without a packet fails. To the link, a packet is sent whatever becomes of it. To a host, a
-- job fails where the name has no address, or the datagram cannot be sent.
abbrev pub effect_of : Route → Network → Text → ℕ → Option (List ℕ) → Effect
effect_of route net host port none = (true, [])
effect_of by_raw net host port (some packet) = (false, (packet, link) ∷ [])
effect_of by_udp net host port (some packet) = to_address net packet port (net.lookup host)

abbrev pub effect : Route → Network → Job → Effect
effect route net j = effect_of route net j.host j.port j.packet

abbrev pub count : Bool → ℕ
count true = 1
count false = 0

-- How many jobs fail.
abbrev pub failures : Route → Network → List Job → ℕ
failures route net [] = 0
failures route net (j ∷ js) = count (effect route net j).0 + failures route net js

-- What is handed over for the jobs in order, newest first.
abbrev pub sent_for : Route → Network → List Job → List (List ℕ × Address)
sent_for route net [] = []
sent_for route net (j ∷ js) = sent_for route net js ++ (effect route net j).1

pub failures-append :
    (route : Route) (net : Network) (js ks : List Job)
    → failures route net (js ++ ks) ≡ failures route net js + failures route net ks
failures-append route net [] ks = omega arith
failures-append route net (j ∷ js) ks = omega (arith, failures-append route net js ks)

pub sent_for-append :
    (route : Route) (net : Network) (js ks : List Job)
    → sent_for route net (js ++ ks) ≡ sent_for route net ks ++ sent_for route net js
sent_for-append route net [] ks = sym (append-nil (sent_for route net ks))
sent_for-append route net (j ∷ js) ks =
    rw (sent_for-append route net js ks)
      (append_assoc (sent_for route net ks) (sent_for route net js) (effect route net j).1)

-- Each job succeeds.
abbrev pub Succeed : Route → Network → List Job → Type 0
Succeed route net [] = Unit
Succeed route net (j ∷ js) = ((effect route net j).0 ≡ false) × Succeed route net js

pub failures-Succeed :
    (route : Route) (net : Network) (js : List Job)
    → Succeed route net js
    → failures route net js ≡ 0
failures-Succeed route net [] good = omega arith
failures-Succeed route net (j ∷ js) (e, good) =
    let rest = failures-Succeed route net js good in rw e (omega arith)

abbrev pub Answers : Bool → Answer ℕ → Type 0
Answers true r = (e : ℕ) × (r ≡ fails e)
Answers false r = (n : ℕ) × (r ≡ gives n)

-- The system's answers are those of the network.
pub record Follows (h : Host) (sock : ℕ) (net : Network) : Type 0 where
  pub names : (past : List Event) (name : Text) → h.os.gethostbyname past name ≡ net.lookup name
  pub sending :
      (past : List Event) (buf : List ℕ) (to : Address)
      → Answers (net.refuses buf to) (h.os.sendto past sock buf to)

-- Nothing is asked of the system where the answer is not looked at.
abbrev pub Carries : Route → Host → ℕ → Network → Type 0
Carries by_udp h sock net = Follows h sock net
Carries by_raw h sock net = Unit
