-- ===== src/Client/Dosbox/Registration.antt =====
-- The registration of client/dosbox/client.go with the server of server/dosbox/protocol.go.
use ipxbox.Common.{
  ℕ, ◌<◌, ◌≡◌, ◌≢◌, refl, arith, List, [], ◌∷◌, ◌++◌, none, some, Result, ok, length, All,
}
use ipxbox.Ipx.{Addr, Packet, addr_broadcast}
use ipxbox.Server.Dosbox.{
  Error, running, start_client, registration_reply, ping, is_registration_packet,
  send_registration_reply,
}
use ipxbox.Client.{Turn, got, max_connect_attempts}
use ipxbox.Client.Retries.{Ignored, await_answered}
use ipxbox.Client.Dosbox.{
  registration_packet, is_registration_response, registration_answer, handshake_connect,
}

registration_answer-registration_reply :
    (addr : Addr)
    → addr ≢ addr_broadcast
    → registration_answer (registration_reply addr) ≡ some addr
unfolding is_registration_response
registration_answer-registration_reply addr n = ground (arith, n)

pub ping-Ignored : registration_answer ping ≡ none
unfolding is_registration_response
ping-Ignored = ground arith

-- The client's registration packet starts a client at the server, which replies with the node's
-- address; and of that reply, after few reads that are no answer, the client takes this address
-- for its own, unless it is the broadcast address.
pub registration_agrees :
    (second start now t : ℕ) (addr : Addr) (incoming : List (ℕ × Result Error Packet))
    (noise rest : List Turn)
    → addr ≢ addr_broadcast
    → All (λ t. Ignored registration_answer second t.event) noise
    → length noise < max_connect_attempts
    → (start_client (ok addr) now ((t, ok registration_packet) ∷ incoming)
        ≡ running
            (record {
              node_addr = addr;
              last_recv_time = now;
              written = registration_reply addr ∷ [];
            })
            incoming)
      × ((handshake_connect second start
            (noise ++ (record { now = t; event = got (registration_reply addr) } ∷ rest))).result
          ≡ some (ok addr))
unfolding start_client is_registration_packet send_registration_reply handshake_connect
registration_agrees second start now t addr incoming noise rest n i l =
    let a =
      await_answered registration_answer second start 0 noise t (registration_reply addr) addr rest
        i (registration_answer-registration_reply addr n) (omega (arith, l)) in
    (ground arith, rw (handshake_connect, a) refl)
