-- ===== src/Qproxy/Proxy/Examples.antt =====
-- module/qproxy/proxy.go on a client that connects to a server.
use ipxbox.Common.{
  ℕ, ◌≡◌, refl, Bool, true, false, List, [], ◌∷◌, ◌++◌, Option, none, some, inl, inr, replicate,
}
use ipxbox.Common.Assoc.{Assoc, find}
use ipxbox.Ipx.{Addr, HeaderAddr, Packet, zero_header, zero_header_addr}
use ipxbox.Qproxy.Proxy.{
  UdpAddr, Proxy, new, new_connection, dispatch, process_packet, handle_accept,
}
use ipxbox.Qproxy.Proxy.Valid.{IsValid}
use ipxbox.Qproxy.Proxy.Collecting.{Event, from_node, from_server, proxy_run, proxy_run-IsValid}

abbrev node : Addr
node = record { a0 = 2; a1 = 0; a2 = 0; a3 = 0; a4 = 0; a5 = 1 }

abbrev client : HeaderAddr
client = record zero_header_addr { socket = 5 }

abbrev server : UdpAddr
server = record { ip = 7; port = 26000 }

abbrev hello : Packet
hello = record {
  header = record zero_header { dest = record zero_header_addr { socket = 26000 }; src = client };
  payload = 0 ∷ 0 ∷ 0 ∷ 0 ∷ 1 ∷ [];
}

abbrev started : Proxy
started = record {
  conns = (client, new_connection 3 client) ∷ [];
  address = server;
  udp = record { sender = client; receiver = server; bytes = 1 ∷ [] } ∷ [];
  to_node = [];
}

starts_test :
    proxy_run node (from_node (some server) true true true 3 [] hello ∷ []) new ≡ some started
unfolding dispatch process_packet find ipxbox.Common.Assoc.put
starts_test = refl

proxy_run-IsValid_example : IsValid node started
proxy_run-IsValid_example =
    proxy_run-IsValid node (from_node (some server) true true true 3 [] hello ∷ []) started
      starts_test

-- The server accepts with the port 0x1234, in the place of which the client is given 26001.
accepts_test :
    (handle_accept server
      (0 ∷ 0 ∷ 0 ∷ 0 ∷ 0x81 ∷ 0x34 ∷ 0x12 ∷ 0 ∷ 0 ∷ [])
      (new_connection 3 client)).0
    ≡ 0 ∷ 0 ∷ 0 ∷ 0 ∷ 0x81 ∷ 0x91 ∷ 0x65 ∷ 0 ∷ 0 ∷ []
unfolding handle_accept
accepts_test = refl

abbrev stub : Packet
stub = record hello { payload = 0 ∷ [] }

stub_panics : dispatch node none true true true 4 [] stub started ≡ none
unfolding dispatch process_packet find ipxbox.Ipx.HeaderAddr-discrete
stub_panics = refl

-- The hello, and after it an empty datagram of the server's port, behind which the buffer still
-- holds what it held before.
abbrev events : List Event
events =
    from_node (some server) true true true 3 [] hello
    ∷ from_server true true 5 client server (replicate 9000 0) []
    ∷ []
