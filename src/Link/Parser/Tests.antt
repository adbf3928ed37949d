-- ===== src/Link/Parser/Tests.antt =====
-- A short line: noise, a frame, noise again and the start of another frame.
use go_dnp.Common.{◌+◌, true, false, [], ◌∷◌, ◌≡◌, refl, arith}
use go_dnp.Link.Parser.{Parser, new_parser, next, drain_held}
use go_dnp.Link.Parser.Progress.{Accounts, next-Accounts}
use go_dnp.Link.Parser.Stream.{Packet, IsSendable, line, sent_frame, drain_held-line}

abbrev packet : Packet
packet = record {
  noise = 7 ∷ 0x64 ∷ [];
  header = record {
    control = record { dir = true; prm = true; fcb = false; fcv = false; func = 4 };
    dest = 1;
    src = 1024;
    len = 0;
  };
  payload = 0xc0 ∷ [];
}

abbrev loaded : Parser
loaded = record new_parser { held = line (packet ∷ []) (5 ∷ []) }

packet-IsSendable : IsSendable packet
packet-IsSendable = record {
  quiet = (omega arith, (omega arith, tt));
  wire = record { func_fits = omega arith; dest_fits = omega arith; src_fits = omega arith };
  fits = omega arith;
}

drain_held-line_example :
    ((drain_held 3 loaded).0 ≡ sent_frame packet ∷ [])
    × ((drain_held 3 loaded).1.held ≡ 5 ∷ [])
    × ((drain_held 3 loaded).1.stats.bytes_discarded ≡ 0 + 2)
drain_held-line_example =
    drain_held-line (packet ∷ []) (5 ∷ []) 3 loaded (packet-IsSendable, tt) (omega arith)
      (omega arith) refl

abbrev noisy : Parser
noisy = record new_parser { held = 1 ∷ 2 ∷ 3 ∷ 4 ∷ 5 ∷ 6 ∷ 7 ∷ 8 ∷ 9 ∷ 10 ∷ 5 ∷ [] }

next-Accounts_example : Accounts noisy (next noisy)
next-Accounts_example = next-Accounts noisy
