-- ===== src/Wol/Deliver/Packets.antt =====
-- The packet that src/wol.c makes of a text and a password, or the error that it reports.
use wake_on_lan.Base.{
  ℕ, ◌≡◌, refl, ◌∙◌, Option, none, some, List, [], ◌++◌, length, map, length-map, length-append,
  arith, Text,
}
use wake_on_lan.Scan.Laws.{Ends}
use wake_on_lan.Magic.{
  Magic, Status, success, bad_address, bad_password, mac_len, octet, read_six, resolve_mac,
}
use wake_on_lan.Magic.Layout.{frame, length-frame}
use wake_on_lan.Magic.Assemble.{
  IsValid, assemble_plain, assemble_secure, assemble_bad_address, assemble_bad_password,
}
use wake_on_lan.Magic.Written.{
  Field, values, length-values, joined, read_six-joined, resolve_mac-joined, map-octet-values,
}
use wake_on_lan.System.{World, returns, Pointer}
use wake_on_lan.Wol.{Globals}
use wake_on_lan.Wol.Send.{Host, string_of, assemble}
use wake_on_lan.Wol.Deliver.{Sends}

-- A text is six bytes with a separator, and then no digit.
pub data Spells (c : ℕ) : Text → List ℕ → Type 0 where
  spelled :
      (fs : List Field) (rest : Text)
      → length fs ≡ 6
      → Ends rest
      → Spells c (joined c fs rest) (values fs)

-- What a text stands for: the address that it spells, or, where it is no address, the bytes that the
-- ethers database has for it.
pub data Denotes (h : Host) : Text → List ℕ → Type 0 where
  address : {t : Text} {octets : List ℕ} → Spells b':' t octets → Denotes h t octets
  listed :
      {t : Text} {found : List ℕ}
      → read_six b':' t ≡ none
      → h.ethers.hostton t ≡ some found
      → Denotes h t (map octet found)

record Resolves (h : Host) (t : Text) (octets : List ℕ) : Type 0 where
  found : List ℕ
  resolved : resolve_mac h.ethers t ≡ some found
  bytes : map octet found ≡ octets
  six : length octets ≡ mac_len

Denotes-Resolves :
    {h : Host} {t : Text} {octets : List ℕ} → Denotes h t octets → Resolves h t octets
unfolding resolve_mac
Denotes-Resolves {h} (address (spelled fs rest six e)) = record {
  found = values fs;
  resolved = resolve_mac-joined h.ethers fs rest six e;
  bytes = map-octet-values fs;
  six = length-values fs ∙ six;
}
Denotes-Resolves {h} {t} (listed {found} e k) = record {
  found = found;
  resolved = rw (e, resolve_mac) k;
  bytes = refl;
  six = length-map octet found ∙ h.ethers.length-hostton t found k;
}

pub data SpellsPasswd : Option Text → Option (List ℕ) → Type 0 where
  no_passwd : SpellsPasswd none none
  has_passwd :
      {t : Text} {octets : List ℕ} → Spells b'-' t octets → SpellsPasswd (some t) (some octets)

abbrev pub text_of : Option Pointer → Option Text
text_of none = none
text_of (some p) = some p.string

-- The packet's bytes: the frame, and the password behind it.
abbrev pub packet_for : List ℕ → Option (List ℕ) → List ℕ
packet_for octets none = frame octets
packet_for octets (some s) = frame octets ++ s

abbrev pub size_for : Option (List ℕ) → ℕ
size_for none = 102
size_for (some s) = 108

-- What `magic_assemble` makes of a text and a password: a packet, or none.
pub data Makes (h : Host) (mac : Text) : Option Text → Option (List ℕ) → Type 0 where
  made :
      {octets : List ℕ} {passwd : Option Text} {secret : Option (List ℕ)}
      → Denotes h mac octets
      → SpellsPasswd passwd secret
      → Makes h mac passwd (some (packet_for octets secret))
  no_address : {passwd : Option Text} → resolve_mac h.ethers mac ≡ none → Makes h mac passwd none
  no_secret :
      {octets : List ℕ} {passwd : Text}
      → Denotes h mac octets
      → read_six b'-' passwd ≡ none
      → Makes h mac (some passwd) none

-- The errors of `magic_assemble`.
abbrev pub Refused : Status × Magic → Type 0
Refused (success, m) = ⊥
Refused (bad_address, m) = IsValid m
Refused (bad_password, m) = IsValid m

module _ (h : Host) (g : Globals) where
  pub assemble-Denotes :
      (m : Magic) (mac : Text) (octets : List ℕ) (pass : Option Pointer) (text : Option Text)
      (secret : Option (List ℕ)) (w : World)
      → IsValid m
      → Denotes h mac octets
      → text_of pass ≡ text
      → SpellsPasswd text secret
      → assemble h g m mac pass w ≡ (
        returns (success, record { packet = packet_for octets secret; size = size_for secret }),
        w,
      )
  unfolding assemble
  assemble-Denotes m mac octets none _ _ w v d f no_passwd =
      let r = Denotes-Resolves d in
      rw (← r.bytes) (rw (assemble_plain h.alloc h.ethers w.errno m mac v r.resolved, assemble))
  assemble-Denotes m mac octets (some p) _ _ w v d f (has_passwd (spelled ps more six e)) =
      let r = Denotes-Resolves d in
      let q = read_six-joined b'-' ps more (refl, refl) six e in
      rw (← r.bytes, ← map-octet-values ps)
        (rw (
          f,
          assemble_secure h.alloc h.ethers w.errno m mac (joined b'-' ps more) v r.resolved q,
          assemble,
        ))
  assemble-Denotes m _ _ (some p) _ _ w v s f no_passwd = absurd (cc)
  assemble-Denotes m _ _ none _ _ w v s f (has_passwd t) = absurd (cc)

  pub assemble-Refused :
      (m : Magic) (mac : Text) (pass : Option Pointer) (text : Option Text) (w : World)
      → IsValid m
      → Makes h mac text none
      → text_of pass ≡ text
      → Sends Refused [] w (assemble h g m mac pass w)
  unfolding assemble
  assemble-Refused m mac pass _ w v (no_address e) f =
      let refused = assemble_bad_address h.alloc h.ethers w.errno m mac (string_of pass) e in
      rw (refused, assemble) (v, refl, (refl, refl))
  assemble-Refused m mac none _ w v (no_secret d e) f = absurd (cc)
  assemble-Refused m mac (some p) _ w v (no_secret {octets} {passwd} d e) f =
      let r = Denotes-Resolves d in
      let same : p.string ≡ passwd = cc in
      let e' : read_six b'-' p.string ≡ none = rw same e in
      let (tail, len, k) =
        assemble_bad_password h.alloc h.ethers w.errno m mac p.string v r.resolved e' in
      let six : length (map octet r.found) ≡ mac_len = rw r.bytes r.six in
      rw (k, assemble)
        (
          omega (
            arith,
            len,
            length-append (frame (map octet r.found)) tail,
            length-frame (map octet r.found) six,
          ),
          refl,
          (refl, refl),
        )

length-Spells : {c : ℕ} {t : Text} {octets : List ℕ} → Spells c t octets → length octets ≡ 6
length-Spells (spelled fs rest six e) = length-values fs ∙ six

pub packet_for-IsValid :
    {h : Host} {t : Text} {text : Option Text} {octets : List ℕ} {secret : Option (List ℕ)}
    → Denotes h t octets
    → SpellsPasswd text secret
    → length (packet_for octets secret) ≡ size_for secret
packet_for-IsValid {octets = octets} d no_passwd = length-frame octets (Denotes-Resolves d).six
packet_for-IsValid {octets = octets} d (has_passwd {octets = extra} p) = omega (
  arith,
  length-append (frame octets) extra,
  length-frame octets (Denotes-Resolves d).six,
  length-Spells p,
)
