-- ===== src/Tests/Values.antt =====
-- A system in which every call succeeds, and what else src/wol.c takes from outside.
use wake_on_lan.Base.{ℕ, ◌∷◌, [], List, some, none, false, true, replicate, length-replicate, codes}
use wake_on_lan.Stream.{Stream}
use wake_on_lan.System.{Os, World, gives, fails}
use wake_on_lan.Proxy.{Md5}
use wake_on_lan.Wol.Send.{Host}
use wake_on_lan.Tests.MagicTests.{zeroes, no_ethers}

abbrev pub empty : Stream
empty = record { lines = []; rest = []; broken = false; feof = false; ferror = false }

-- 32 digits and a newline.
abbrev pub challenge : List ℕ
challenge = codes "00112233445566778899aabbccddeeff\n"

abbrev pub calm : Os
calm = record {
  gethostbyname = λ past name. some (10 ∷ 0 ∷ 0 ∷ 255 ∷ []);
  socket = λ past d k. gives 3;
  setsockopt = λ past fd. gives tt;
  connect = λ past fd to. gives tt;
  sendto = λ past fd buf to. gives 102;
  send = λ past fd buf. gives 33;
  recv = λ past fd len. gives challenge;
  close = λ past fd. gives tt;
  tcgetattr = λ past. gives (record { echo = true; others = 7 });
  tcsetattr = λ past t. gives tt;
  fopen = λ past name. gives empty;
  stack = λ past n. [];
}

-- The same without a network: no name resolves, no socket can broadcast, and a proxy says little.
abbrev pub cut_off : Os
cut_off = record calm {
  gethostbyname = λ past name. none;
  setsockopt = λ past fd. fails 13;
  recv = λ past fd len. gives (codes "no");
}

abbrev pub start : World
start = record { history = []; errno = 0; next = 0; stdin = empty }

abbrev pub constant_md5 : Md5
constant_md5 = record {
  digest = λ bytes. replicate 16 0xab;
  length-digest = λ bytes. length-replicate {A = ℕ} 16 0xab;
}

abbrev pub host : Host
host = record { os = calm; alloc = zeroes; ethers = no_ethers; md5 = constant_md5 }
