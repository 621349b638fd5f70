-- ===== src/Proxy/Placed.antt =====
-- Stores of unsigned ints into the challenge of src/proxy.c, which has room for bytes.
use wake_on_lan.Base.{
  ℕ, suc, ◌+◌, ◌-◌, ◌/◌, ◌%◌, ◌≡◌, ◌<◌, ◌≤◌, refl, List, [], ◌∷◌, ◌++◌, append_assoc, length,
  length-append, arith,
}
use wake_on_lan.System.{World, Outcome, returns, Event, faulted, stray_write, log}
use wake_on_lan.Proxy.{poke, poke_word}
use wake_on_lan.Proxy.Reply.{poke_inside, poke_outside}

-- The stores behind the end of an array.
abbrev pub strays : List Event → ℕ
strays [] = 0
strays (faulted stray_write ∷ h) = suc (strays h)
strays (e ∷ h) = strays h

-- A store at an index behind what is done and a middle part.
poke_at :
    (done mid rest : List ℕ) (y v i : ℕ) (w : World)
    → i ≡ length done + length mid
    → poke (done ++ (mid ++ (y ∷ rest))) i v w ≡ (returns (done ++ (mid ++ (v ∷ rest))), w)
poke_at done mid rest y v i w e =
    rw (← append_assoc done mid (y ∷ rest), ← append_assoc done mid (v ∷ rest))
      (poke_inside (done ++ mid) rest y v i w (omega (arith, length-append done mid)))

poke_end :
    (done mid : List ℕ) (v i : ℕ) (w : World)
    → length done + length mid ≤ i
    → poke (done ++ mid) i v w ≡ (returns (done ++ mid), log (faulted stray_write) w)
poke_end done mid v i w h = poke_outside (done ++ mid) i v w (omega (arith, length-append done mid))

-- The array with a byte in place, and three bytes of zero behind it as far as it goes.
pub record Placed (done rest : List ℕ) (v : ℕ) (w : World) (r : Outcome (List ℕ) × World)
    : Type 0 where
  pub next : List ℕ
  pub after : World
  pub same_length : length next ≡ length rest
  pub result : r ≡ (returns (done ++ (v ∷ next)), after)
  pub count : strays after.history ≡ (3 - length rest) + strays w.history

pub poke_word-Placed :
    (done rest : List ℕ) (y v j : ℕ) (w : World)
    → v < 256
    → j ≡ length done
    → Placed done rest v w (poke_word (done ++ (y ∷ rest)) j v w)
unfolding poke_word
poke_word-Placed done [] y v j w small e =
    let low : v % 256 ≡ v = omega arith in
    let out = log (faulted stray_write) in
    record {
      next = [];
      after = out (out (out w));
      same_length = refl;
      result = rw (
        low,
        poke_at done [] [] y v j w (omega arith),
        poke_end done (v ∷ []) (v / 256 % 256) (j + 1) w (omega arith),
        poke_end done (v ∷ []) (v / 65536 % 256) (j + 2) (out w) (omega arith),
        poke_end done (v ∷ []) (v / 16777216 % 256) (j + 3) (out (out w)) (omega arith),
      );
      count = omega arith;
    }
poke_word-Placed done (a ∷ []) y v j w small e =
    let low : v % 256 ≡ v = omega arith in
    let out = log (faulted stray_write) in
    let b = v / 256 % 256 in
    record {
      next = b ∷ [];
      after = out (out w);
      same_length = refl;
      result = rw (
        low,
        poke_at done [] (a ∷ []) y v j w (omega arith),
        poke_at done (v ∷ []) [] a b (j + 1) w (omega arith),
        poke_end done (v ∷ b ∷ []) (v / 65536 % 256) (j + 2) w (omega arith),
        poke_end done (v ∷ b ∷ []) (v / 16777216 % 256) (j + 3) (out w) (omega arith),
      );
      count = omega arith;
    }
poke_word-Placed done (a1 ∷ a2 ∷ []) y v j w small e =
    let low : v % 256 ≡ v = omega arith in
    let b = v / 256 % 256 in
    let c = v / 65536 % 256 in
    record {
      next = b ∷ c ∷ [];
      after = log (faulted stray_write) w;
      same_length = refl;
      result = rw (
        low,
        poke_at done [] (a1 ∷ a2 ∷ []) y v j w (omega arith),
        poke_at done (v ∷ []) (a2 ∷ []) a1 b (j + 1) w (omega arith),
        poke_at done (v ∷ b ∷ []) [] a2 c (j + 2) w (omega arith),
        poke_end done (v ∷ b ∷ c ∷ []) (v / 16777216 % 256) (j + 3) w (omega arith),
      );
      count = omega arith;
    }
poke_word-Placed done (a1 ∷ a2 ∷ a3 ∷ rest) y v j w small e =
    let low : v % 256 ≡ v = omega arith in
    let b = v / 256 % 256 in
    let c = v / 65536 % 256 in
    let d = v / 16777216 % 256 in
    record {
      next = b ∷ c ∷ d ∷ rest;
      after = w;
      same_length = refl;
      result = rw (
        low,
        poke_at done [] (a1 ∷ a2 ∷ a3 ∷ rest) y v j w (omega arith),
        poke_at done (v ∷ []) (a2 ∷ a3 ∷ rest) a1 b (j + 1) w (omega arith),
        poke_at done (v ∷ b ∷ []) (a3 ∷ rest) a2 c (j + 2) w (omega arith),
        poke_at done (v ∷ b ∷ c ∷ []) rest a3 d (j + 3) w (omega arith),
      );
      count = omega arith;
    }
