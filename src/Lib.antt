-- ===== src/Lib.antt =====
-- ipxbox: a server that carries IPX, the network protocol of old games, over the Internet.
--
-- The parts and how they interact. Clients reach the program over UDP (server/server.go, with the
-- protocols of server/dosbox and server/uplink), over PPTP and PPP (ppp/), or through a driver that
-- tunnels Ethernet frames in IPX packets (module/ipxpkt). Each client is given a node of a network
-- (network/), which is a stack of layers: the switch (network/ipxswitch) at the bottom, whose nodes
-- receive from bounded pipes (network/pipe), and around it a filter, statistics, taps and address
-- assignment. Two parts rewrite a game's own protocol: the Quake proxy (module/qproxy) and the Doom
-- stream (network/doom). All of them exchange packets in the format of ipx/.
--
-- Which file models which part, with paths from the repository's root:
--   Common.antt           the names of the library that the parts share; tests, lists, bytes and Go
--                         maps as association lists below it
--   Ipx.antt              ipx/ipx.go and ipx/packet.go: HeaderAddr, Header and Packet with
--                         MarshalBinary and UnmarshalBinary
--   Network/Pipe.antt     network/pipe/pipe.go: New, Close, WritePacket, ReadPacket
--   Network/Switch.antt   network/ipxswitch/ipxswitch.go: NewNode, Close, ReadPacket, WritePacket,
--                         broadcastPacket, forwardPacket; Network/Switch/Table.antt is table.go:
--                         Record (record_src), checkDestPort, LookupDest, AddPort, DeletePort
--   Network/Layers.antt   the loop that filter and addressable share; below it network/filter,
--                         network/addressable, network/stats and network/tappable, one file each,
--                         with <layer>_read and <layer>_write for ReadPacket and WritePacket
--   Network/Doom.antt     network/doom/protocol.go: the messages, ExpandTicNum and the checksum;
--                         Network/Doom/Stream.antt is stream.go
--   Ppp/Lcp.antt          ppp/lcp/lcp.go: the messages of LCP and of the protocols like it
--   Ppp/Negotiate.antt    ppp/negotiate.go: option, negotiator and its handlers, one turn of
--                         StartNegotiation
--   Ppp/Session.antt      ppp/session.go: handleLCP, recvAndProcess, Terminate, and the goroutines of
--                         Run as steps
--   Ppp/Pptp/Gre.antt     ppp/pptp/gre.go: greSession with Read and Write (send_packet), greServer with
--                         startSession, processPacket and both Close methods
--   Ppp/Pptp/Control.antt ppp/pptp/server.go: the messages of the control connection and its loop
--   Ipxpkt.antt           module/ipxpkt: Header (HeaderFormat), fragmentFrame (Fragment),
--                         frameReassembler (Reassembly) and Router (Router)
--   Qproxy/Sharder.antt   module/qproxy/protocol.go: the reliable messages and reliableSharder, with
--                         receiveFromUpstream and receiveFromDownstream
--   Qproxy/Proxy.antt     module/qproxy/proxy.go: handleAccept, receivePackets, processPacket,
--                         processConnectedPacket, garbageCollect
--   Server/Clients.antt   server/server.go: the map of clients, processPacket, checkClientTimeouts,
--                         poll, Close
--   Server/Dosbox.antt    server/dosbox/protocol.go
--   Server/Uplink.antt    server/uplink/protocol.go: the challenge and the response
--   Client.antt           the loop that sends and waits in client/uplink/client.go and
--                         client/dosbox/client.go; Client/Uplink.antt and Client/Dosbox.antt are the
--                         rest of the two: handshakeConnect and recvLoop
--   Phys.antt             phys/framing.go: Frame and Unframe of the framers, the automatic framer; of
--                         phys/phys.go, Sink.WritePacket and a turn of Phys.Run
-- The lemmas of a part stand in the modules below it, named for what they are about, and its
-- concrete runs in its module Examples.
--
-- How the code is modelled. A struct is a record, and a method that changes it returns the new
-- record beside its result. A byte, a uint16 and a uint32 are numbers, with their wrap-around
-- written out. A Go map is an association list, in whose order the map is ranged over; where
-- objects are shared by pointer they are named by numbers. Code under a mutex is one step.
-- ReadPacket of the pipe, which releases its mutex in between, is two steps. WritePacket and Close
-- of the switch and processPacket of server/server.go are functions as a whole, and the runs of the
-- two parts also have their sections as steps of their own (note, hand_over, detach and close_pipe;
-- client_made and packet_put). NewNode of the switch, which takes two locks in turn, is one step.
-- Goroutines are sequences of such steps in any order. What a blocking call returns is an argument,
-- or a list for a loop of calls, and a call that still waits returns `none`. Times, random numbers
-- and what an array holds after a slice are arguments. Errors are values, and so is a panic where
-- the code can reach one. encoding/json, crypto/sha256 and gopacket are parameters.
--
-- Fuel. Three functions take fuel. The options of LCP are read with one unit
-- per byte of input, which is enough (lcp_unmarshal-ne-out_of_fuel in Ppp/Lcp/Messages.antt). The loop
-- of a control connection takes one unit per message; the number of pieces and bytes that arrive is
-- enough, since each turn reads a byte or the end of a piece. The loop that moves Doom's window takes
-- its fuel as an argument: the number of the last tic is enough where the tic numbers stay below
-- 2 ^ 32, and for the tic 2 ^ 32 - 1 none is enough.
--
-- Not modelled: sockets, devices, subprocesses, logging, flags and start-up (ipxbox.go, module/*,
-- the devices of phys/, logging); gopacket's layers and checksums; and the goroutines that copy packets
-- between connections.
pub mod Common
pub mod Ipx
pub mod Network
pub mod Ppp
pub mod Ipxpkt
pub mod Qproxy
pub mod Server
pub mod Client
pub mod Phys
