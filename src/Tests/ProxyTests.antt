-- ===== src/Tests/ProxyTests.antt =====
-- src/proxy.c at concrete inputs.
use wake_on_lan.Base.{ℕ, some, List, ◌++◌, replicate, ◌≡◌, refl, [], ◌∷◌, codes, Text, arith}
use wake_on_lan.System.{Os, fails}
use wake_on_lan.Proxy.{proxy_send}
use wake_on_lan.Proxy.Challenge.{Answers, proxy_send-Answers}
use wake_on_lan.Proxy.Unreceived.{proxy_send_unreceived}
use wake_on_lan.Proxy.Decoded.{Digits, no_byte, byte}
use wake_on_lan.Proxy.Digested.{Digests, proxy_send-Digests}
use wake_on_lan.Proxy.Summed.{rfc_sum, secret, proxy_send-Sums}
use wake_on_lan.Md5.{md5_buffer}
use wake_on_lan.Tests.Md5Tests.{stack}
use wake_on_lan.Tests.Values.{calm, start, challenge, constant_md5}

abbrev mac : Text
mac = codes "00:11:22:aB:4:55"

-- `recv` fails.
abbrev silent : Os
silent = record calm { recv = λ past fd len. fails 104 }

proxy_send_unreceived_example :
    Answers silent constant_md5 3 mac
      (codes "pw")
      (replicate 33 0)
      (proxy_send silent constant_md5 3 mac (codes "pw") start)
proxy_send_unreceived_example =
    proxy_send_unreceived silent constant_md5 3 mac (codes "pw") 104 start refl

proxy_send-Answers_example :
    Answers calm constant_md5 3 mac
      (codes "pw")
      challenge
      (proxy_send calm constant_md5 3 mac (codes "pw") start)
proxy_send-Answers_example =
    proxy_send-Answers calm constant_md5 3 mac (codes "pw") challenge start refl refl

abbrev challenge_bytes : List ℕ
challenge_bytes =
    0 ∷ 0x11 ∷ 0x22 ∷ 0x33 ∷ 0x44 ∷ 0x55 ∷ 0x66 ∷ 0x77 ∷ 0x88 ∷ 0x99 ∷ 0xaa ∷ 0xbb ∷ 0xcc ∷ 0xdd
    ∷ 0xee ∷ 0xff ∷ []

abbrev challenge_digits : Text
challenge_digits = codes "00112233445566778899aabbccddeeff"

challenge-Digits : Digits challenge_digits challenge_bytes
challenge-Digits = byte refl refl (
    byte refl refl (
      byte refl refl (
        byte refl refl (
          byte refl refl (
            byte refl refl (
              byte refl refl (
                byte refl refl (
                  byte refl refl (
                    byte refl refl (
                      byte refl refl (
                        byte refl refl (
                          byte refl refl
                            (byte refl refl (byte refl refl (byte refl refl no_byte)))))))))))))))

proxy_send-Digests_example :
    Digests calm constant_md5 3 mac
      (codes "pw")
      (challenge_bytes ++ codes "00:11:pw")
      b'\n'
      start
      (proxy_send calm constant_md5 3 mac (codes "pw") start)
proxy_send-Digests_example =
    proxy_send-Digests calm constant_md5 3 mac (codes "pw") challenge_digits challenge_bytes b'\n'
      start refl challenge-Digits refl (omega arith)

proxy_send-Sums_example :
    (md5_buffer stack 2 (secret challenge_bytes mac (codes "pw"))
      ≡ some (rfc_sum.digest (secret challenge_bytes mac (codes "pw"))))
    × Digests calm rfc_sum 3 mac
        (codes "pw")
        (secret challenge_bytes mac (codes "pw"))
        b'\n'
        start
        (proxy_send calm rfc_sum 3 mac (codes "pw") start)
proxy_send-Sums_example =
    proxy_send-Sums calm 3 mac (codes "pw") challenge_digits challenge_bytes b'\n' start stack 2
      refl challenge-Digits refl (omega arith) (omega arith) refl
