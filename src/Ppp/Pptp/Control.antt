-- ===== src/Ppp/Pptp/Control.antt =====
-- ppp/pptp/server.go: the control connection of PPTP. A TCP connection is the list of the pieces in
-- which the bytes arrive, and a Read gets no more than what is left of one piece; it ends with the
-- list, when the peer or the end of the PPP session closes it. What is written is returned, and
-- what an index or a slice out of range does, a panic, is `none`. The network and the goroutine of
-- the PPP session are not part of it: `node_made` says whether NewNode succeeds.
pub mod Messages
pub mod Safety
pub mod Calls
mod Examples
use ipxbox.Common.{
  ℕ, zero, suc, ◌+◌, ◌-◌, ◌%◌, Bool, true, false, not, ◌&&◌, ◌||◌, List, [], ◌∷◌, ◌++◌, Option,
  none, some, Result, ok, err, ltb, ◌==◌, if◌then◌else◌, length, take, drop, replicate, map,
}
use ipxbox.Common.Bytes.{put_be16, put_be32, be16, be32, slice}
use ipxbox.Ppp.Pptp.Gre.{GreServer, start_session, close_session}

abbrev pub magic_number : ℕ
magic_number = 0x1a2b3c4d

-- The types of the messages that the server tells apart.
pub data MessageType : Type 0 where
  start_control_connection_request : MessageType
  echo_request : MessageType
  outgoing_call_request : MessageType
  call_clear_request : MessageType
  other_type : MessageType

abbrev pub message_type : ℕ → MessageType
message_type n =
    if n == 1
    then start_control_connection_request
    else if n == 5
    then echo_request
    else if n == 7
    then outgoing_call_request
    else if n == 12
    then call_clear_request
    else other_type

-- The errors of readNextMessage.
pub data ReadError : Type 0 where
  read_failed : ReadError
  too_short : ReadError
  too_long : ReadError
  wrong_message_type : ReadError
  wrong_magic_number : ReadError

abbrev pub Conn : Type 0
Conn = List (List ℕ)

-- `conn.Read` into a buffer of `n` bytes.
unfoldable pub conn_read : (n : ℕ) → Conn → Option (List ℕ × Conn)
conn_read n [] = none
conn_read n (piece ∷ conn) =
    some (take n piece, if ltb n (length piece) then drop n piece ∷ conn else conn)

-- A buffer of `n` zero bytes after a Read has put `bytes` into it.
abbrev pub filled : (n : ℕ) → List ℕ → List ℕ
filled n bytes = bytes ++ replicate (n - length bytes) 0

-- The end of readNextMessage, on the bytes behind the length.
abbrev pub check_message : List ℕ → Result ReadError (List ℕ)
check_message msg =
    if not (be16 msg 0 == 1)
    then err wrong_message_type
    else if not (magic_number == be32 msg 2)
    then err wrong_magic_number
    else ok msg

-- The message that follows its length.
unfoldable pub read_body : (msglen : ℕ) → Conn → Result ReadError (List ℕ) × Conn
read_body msglen conn =
    if ltb msglen 16
    then (err too_short, conn)
    else if ltb 256 msglen
    then (err too_long, conn)
    else elim (conn_read (msglen - 2) conn) [
      | none ↦ (err read_failed, conn)
      | some r ↦ (check_message (filled (msglen - 2) r.0), r.1)
    ]

unfoldable pub read_next_message : Conn → Result ReadError (List ℕ) × Conn
read_next_message conn = elim (conn_read 2 conn) [
  | none ↦ (err read_failed, conn)
  | some r ↦ read_body (be16 (filled 2 r.0) 0) r.1
]

-- sendMessage: what it writes.
abbrev pub send_message : List ℕ → List ℕ
send_message msg = put_be16 ((length msg + 2) % 65536) ++ msg

-- A message's type, the magic cookie, the type of the control message, and the reserved field.
abbrev pub reply_head : (control_type : ℕ) → List ℕ
reply_head control_type = put_be16 1 ++ put_be32 magic_number ++ put_be16 control_type ++ put_be16 0

-- A name in a field of 64 bytes.
abbrev pub name_field : List ℕ → List ℕ
name_field name = name ++ replicate (64 - length name) 0

abbrev pub hostname : List ℕ
hostname = name_field (115 ∷ 101 ∷ 114 ∷ 118 ∷ 101 ∷ 114 ∷ [])

abbrev pub vendor : List ℕ
vendor = name_field (105 ∷ 112 ∷ 120 ∷ 98 ∷ 111 ∷ 120 ∷ [])

-- handleStartControl
abbrev pub handle_start_control : List ℕ
handle_start_control = send_message (
    reply_head 2
    ++ (1 ∷ 0 ∷ 1 ∷ 0 ∷ 0 ∷ 0 ∷ 0 ∷ 0 ∷ 0 ∷ 0 ∷ 0 ∷ 0 ∷ 0 ∷ 1 ∷ 0 ∷ 1 ∷ [])
    ++ hostname
    ++ vendor)

-- `msg[lo:hi]`
abbrev pub checked_slice : List ℕ → (lo hi : ℕ) → Option (List ℕ)
checked_slice msg lo hi = if ltb (length msg) hi then none else some (slice msg lo hi)

-- handleEcho
unfoldable pub handle_echo : List ℕ → Option (List ℕ)
handle_echo msg = elim (checked_slice msg 10 14) [
  | none ↦ none
  | some identifier ↦ some (send_message (reply_head 6 ++ identifier ++ (1 ∷ 0 ∷ 0 ∷ 0 ∷ [])))
]

-- A connection: its call ID, whether the TCP connection is open, and the number of the GRE session
-- of its PPP session.
pub record Connection : Type 0 where
  pub call_id : ℕ
  pub connected : Bool
  pub ppp : Option ℕ

abbrev pub new_connection : (call_id : ℕ) → Connection
new_connection call_id = record { call_id = call_id; connected = true; ppp = none }

-- What run comes to.
pub data Outcome : Type 0 where
  panics : Outcome
  out_of_fuel : Outcome
  ends : (replies : List (List ℕ)) → Connection → GreServer → Outcome

abbrev pub after : List (List ℕ) → Outcome → Outcome
after replies panics = panics
after replies out_of_fuel = out_of_fuel
after replies (ends more c g) = ends (replies ++ more) c g

-- The reply of handleOutgoingCall.
abbrev pub call_reply : (call_id : ℕ) → (peer_call_id connect_speed : List ℕ) → List ℕ
call_reply call_id peer_call_id connect_speed =
    reply_head 8
    ++ put_be16 call_id
    ++ peer_call_id
    ++ (1 ∷ 0 ∷ 0 ∷ 0 ∷ [])
    ++ connect_speed
    ++ put_be16 1024
    ++ (0 ∷ 0 ∷ 0 ∷ 0 ∷ 0 ∷ 0 ∷ [])

module _ (node_made : Bool) (remote_ip : ℕ) where
  -- startPPPSession
  unfoldable pub start_ppp_session :
      (send_call_id : ℕ) → Connection → GreServer → Connection × GreServer
  start_ppp_session send_call_id c g = elim c.ppp [
    | some session ↦ (c, g)
    | none ↦
        let r = start_session remote_ip send_call_id c.call_id g in
        if node_made
        then (record c { ppp = some r.1 }, r.0)
        else (record c { connected = false }, close_session r.1 r.0)
  ]

  -- handleOutgoingCall, with what it writes. A write on a closed connection fails.
  unfoldable pub handle_outgoing_call :
      List ℕ → Connection → GreServer → Option (List (List ℕ) × Connection × GreServer)
  handle_outgoing_call msg c g =
      if ltb (length msg) 22
      then some ([], c, g)
      else let r = start_ppp_session (be16 msg 10) c g in
        some (
          if r.0.connected
              then send_message (call_reply c.call_id (slice msg 10 12) (slice msg 18 22)) ∷ []
              else [],
          r.0,
          r.1,
        )

  -- What run does with a message of a type; the last Boolean says whether the loop ends.
  unfoldable pub handle_as :
      MessageType
      → List ℕ
      → Connection
      → GreServer
      → Option (List (List ℕ) × Connection × GreServer × Bool)
  handle_as start_control_connection_request msg c g = some (handle_start_control ∷ [], c, g, false)
  handle_as echo_request msg c g = elim (handle_echo msg) [
    | none ↦ none
    | some reply ↦ some (reply ∷ [], c, g, false)
  ]
  handle_as outgoing_call_request msg c g = elim (handle_outgoing_call msg c g) [
    | none ↦ none
    | some r ↦ some (r.0, r.1, r.2, false)
  ]
  handle_as call_clear_request msg c g = some ([], c, g, true)
  handle_as other_type msg c g = some ([], c, g, false)

  -- What run does with a message.
  unfoldable pub handle_message :
      List ℕ → Connection → GreServer → Option (List (List ℕ) × Connection × GreServer × Bool)
  handle_message msg c g =
      if ltb (length msg) 8 then none else handle_as (message_type (be16 msg 6)) msg c g

  -- The end of run: Terminate and Close of the PPP session close its GRE session.
  unfoldable pub finish : Connection → GreServer → Connection × GreServer
  finish c g = (
    record c { connected = false },
    elim c.ppp [ none ↦ g | some session ↦ close_session session g ],
  )

  -- run, on fuel; a closed connection reads nothing.
  unfoldable pub run : (fuel : ℕ) → Conn → Connection → GreServer → Outcome
  run zero conn c g = out_of_fuel
  run (suc fuel) conn c g =
      let m = read_next_message (if c.connected then conn else []) in
      elim m.0 [
        | err e ↦ ends [] (finish c g).0 (finish c g).1
        | ok msg ↦ elim (handle_message msg c g) [
          | none ↦ panics
          | some r ↦
              let rest = run fuel m.1 r.1 r.2 in
              if r.3 then ends r.0 (finish r.1 r.2).0 (finish r.1 r.2).1 else after r.0 rest
        ]
      ]

-- The call IDs of Server.Run: the next one after each connection.
abbrev pub next_call_id : ℕ → ℕ
next_call_id n = ((n + 1) % 65536) % 65536

abbrev pub first_call_id : ℕ
first_call_id = 384
