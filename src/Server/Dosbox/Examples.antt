-- ===== src/Server/Dosbox/Examples.antt =====
-- The DOSBox protocol at concrete packets.
use ipxbox.Common.{◌≡◌, refl, false, [], ◌∷◌, ok}
use ipxbox.Ipx.{Packet, addr_null, zero_header, zero_header_addr}
use ipxbox.Server.Dosbox.{
  Client, is_registration_packet, read_packet, Answers, read_packet-Answers, ping_reply_lem,
  addr_ping_reply,
}

abbrev registration : Packet
registration = record {
  header = record zero_header { dest = record zero_header_addr { socket = 2 } };
  payload = [];
}

abbrev pong : Packet
pong = record {
  header = record zero_header {
    dest = record zero_header_addr { addr = addr_ping_reply; socket = 2 };
  };
  payload = [];
}

abbrev client : Client
client = record { node_addr = addr_null; last_recv_time = 0; written = [] }

read_packet-Answers_example :
    Answers
      ((1, ok registration) ∷ (2, ok pong) ∷ [])
      client
      (read_packet ((1, ok registration) ∷ (2, ok pong) ∷ []) client)
read_packet-Answers_example = read_packet-Answers ((1, ok registration) ∷ (2, ok pong) ∷ []) client

ping_reply_example : is_registration_packet pong ≡ false
ping_reply_example = ping_reply_lem pong refl
