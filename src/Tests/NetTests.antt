-- ===== src/Tests/NetTests.antt =====
-- src/net.c at concrete inputs.
use wake_on_lan.Base.{◌≡◌, some, [], codes}
use wake_on_lan.System.{World, live, log, opened, pf_inet, sock_stream}
use wake_on_lan.Net.{tcp_open, net_close}
use wake_on_lan.Net.Descriptors.{Opens, tcp_open-Opens, net_close-live}
use wake_on_lan.Tests.Values.{calm, start}

tcp_open-Opens_example : Opens start (tcp_open calm (some (codes "lab")) 40000 start)
tcp_open-Opens_example = tcp_open-Opens calm (some (codes "lab")) 40000 start

abbrev connection : World
connection = log (opened pf_inet sock_stream (some 3)) start

connection_closed : live (net_close calm 3 connection).1.history ≡ []
connection_closed = net_close-live calm 3 connection
