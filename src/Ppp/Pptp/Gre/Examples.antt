-- ===== src/Ppp/Pptp/Gre/Examples.antt =====
-- ppp/pptp/gre.go on two sessions of one server.
use ipxbox.Common.{ℕ, ◌≡◌, ◌≢◌, refl, arith, true, false, List, [], ◌∷◌, none, some}
use ipxbox.Common.Assoc.{find-put_self}
use ipxbox.Ppp.Pptp.Gre.{
  GrePacket, GreHeader, GreSession, GreServer, SessionKey-discrete, Layer, ipv4, gre, frame,
  blocked, eof, read, start_gre_server, start_session, send_packet, process_packet, close_server,
}
use ipxbox.Ppp.Pptp.Gre.Reading.{Drained, reads-Drained, reads}
use ipxbox.Ppp.Pptp.Gre.Sessions.{
  IsValid, Event, started, received, was_read, written, was_closed, gre_run, gre_run-IsValid,
}
use ipxbox.Ppp.Pptp.Gre.Shutdown.{close_server-refuses}
use ipxbox.Ppp.Pptp.Gre.Acks.{Action, reads_one, writes, acts, Increasing, acts-Increasing}
use ipxbox.Ppp.Pptp.Gre.Transfer.{carry_all, as_frames, carry_all-as_frames}
use ipxbox.Common.{◌≤◌}

-- A packet with a sequence number for the call 7.
abbrev numbered : ℕ → List ℕ → GrePacket
numbered n bytes = record {
  header = record {
    version = 1;
    protocol = 0x880b;
    key_present = true;
    key = 65543;
    seq_present = true;
    seq = n;
    ack_present = false;
    ack = 0;
  };
  payload = bytes;
}

abbrev client_ip : ℕ
client_ip = 10

-- One session for the call 7; it sends to the call 9.
abbrev one_session : GreServer
one_session = (start_session client_ip 9 7 start_gre_server).0

-- A session in whose queue a packet is out of sequence and one is empty.
abbrev reordered : GreSession
reordered = record (one_session.objects 0) {
  recv_queue =
      numbered 1 (11 ∷ []) ∷ numbered 3 (13 ∷ []) ∷ numbered 2 (12 ∷ []) ∷ numbered 4 [] ∷ [];
}

reads_test : (reads 5 reordered).1 ≡ (11 ∷ []) ∷ (13 ∷ []) ∷ []
unfolding reads read start_session ipxbox.Ppp.Pptp.Gre.read_loop ipxbox.Ppp.Pptp.Gre.recv_packet
reads_test = refl

reads-Drained_example : Drained reordered (reads 5 reordered)
reads-Drained_example = reads-Drained 5 reordered (omega arith)

abbrev history : List Event
history =
    started client_ip 9 7
    ∷ started client_ip 9 8
    ∷ received (ipv4 client_ip ∷ gre (numbered 0 (11 ∷ [])) ∷ [])
    ∷ was_read 0
    ∷ written 0 (1 ∷ [])
    ∷ was_closed 1
    ∷ []

gre_run-IsValid_example : IsValid (gre_run history start_gre_server)
gre_run-IsValid_example = gre_run-IsValid history

close_server-refuses_example :
    (h : GreServer) × (close_server (gre_run history start_gre_server) ≡ some h)
    × ((ls : List Layer) → ((process_packet ls h).0 ≡ h) × ((process_packet ls h).1 ≢ none))
close_server-refuses_example = close_server-refuses history

abbrev talk : List Action
talk =
    writes (1 ∷ [])
    ∷ reads_one (numbered 3 (11 ∷ []) ∷ [])
    ∷ writes []
    ∷ writes (2 ∷ [])
    ∷ reads_one (numbered 5 (11 ∷ []) ∷ [])
    ∷ writes (3 ∷ [])
    ∷ []

acts-Increasing_example :
    Increasing 0 (acts talk (one_session.objects 0)).1
    × ((acts talk (one_session.objects 0)).0.recv_acked
        ≤ (acts talk (one_session.objects 0)).0.recv_seq)
unfolding start_session
acts-Increasing_example = acts-Increasing talk (one_session.objects 0) (omega arith)

-- The other end of the session: it sends to the call 7.
abbrev peer : GreSession
peer = record (one_session.objects 0) { send_call_id = 7; recv_call_id = 9 }

abbrev three_frames : List (List ℕ)
three_frames = (1 ∷ 2 ∷ []) ∷ (3 ∷ []) ∷ (4 ∷ 5 ∷ 6 ∷ []) ∷ []

carry_all-as_frames_example :
    carry_all client_ip 0 three_frames peer one_session ≡ as_frames three_frames
unfolding start_session
carry_all-as_frames_example =
    carry_all-as_frames client_ip 0 three_frames peer one_session (refl, (refl, (refl, tt)))
      (record {
        found = find-put_self SessionKey-discrete (record { ip = client_ip; call_id = 7 }) 0 [];
        opened = refl;
        waiting = refl;
      })
      (omega arith) (omega arith) (omega arith)
