-- ===== src/Ppp/Lcp.antt =====
-- ppp/lcp/lcp.go: messages of the Link Control Protocol and of its dialects.
-- A decoder returns an error of the code, or `slice_panic` where Go panics at a slice expression
-- out of range. `out_of_fuel` is no Go value: the option loop runs on fuel, the length of its input.
pub mod Options
pub mod Messages
mod Examples
use ipxbox.Common.{
  ℕ, zero, suc, ◌+◌, ◌%◌, ◌<◌, ◌≤◌, ◌≡◌, Bool, ◌||◌, ◌&&◌, List, [], ◌∷◌, ◌++◌, Option, none, some,
  Result, ok, err, ◌>>=◌, ltb, leb, ◌==◌, if◌then◌else◌, length, drop, take, All,
}
use ipxbox.Common.Bytes.{IsByte, IsU16, IsU32, byte_at, slice, be16, be32, put_be16, put_be32}

pub data Error : Type 0 where
  message_too_short : Error
  slice_panic : Error
  out_of_fuel : Error

-- `Option` of the source, renamed: `Option` is the library's type.
pub record LcpOption : Type 0 where
  pub type : ℕ
  pub body : List ℕ

-- `PerTypeData` and its implementations.
pub data PerTypeData : Type 0 where
  configure : List LcpOption → PerTypeData
  terminate : List ℕ → PerTypeData
  echo : (magic_number : ℕ) → List ℕ → PerTypeData
  protocol_reject : (ppp_type : ℕ) → List ℕ → PerTypeData

-- `contents` is the field of the same name of gopacket's BaseLayer.
pub record Lcp : Type 0 where
  pub contents : List ℕ
  pub type : ℕ
  pub identifier : ℕ
  pub body : Option PerTypeData

-- `MessageType`
abbrev pub configure_request : ℕ
configure_request = 1

abbrev pub configure_ack : ℕ
configure_ack = 2

abbrev pub configure_nak : ℕ
configure_nak = 3

abbrev pub configure_reject : ℕ
configure_reject = 4

abbrev pub terminate_request : ℕ
terminate_request = 5

abbrev pub terminate_ack : ℕ
terminate_ack = 6

abbrev pub code_reject : ℕ
code_reject = 7

abbrev pub protocol_reject_type : ℕ
protocol_reject_type = 8

abbrev pub echo_request : ℕ
echo_request = 9

abbrev pub echo_reply : ℕ
echo_reply = 10

abbrev pub discard_request : ℕ
discard_request = 11

-- The loop of ConfigureData.UnmarshalBinary; `result` is what has been decoded so far.
unfoldable pub unmarshal_options : ℕ → List ℕ → List LcpOption → Result Error (List LcpOption)
unmarshal_options fuel [] result = ok result
unmarshal_options zero (_ ∷ _) result = err out_of_fuel
unmarshal_options (suc fuel) (t ∷ []) result = err message_too_short
unmarshal_options (suc fuel) (t ∷ n ∷ rest) result =
    let bytes = t ∷ n ∷ rest in
    let more =
      unmarshal_options fuel (drop n bytes)
        (result ++ (record { type = t; body = slice bytes 2 n } ∷ [])) in
    if ltb (length bytes) n
    then err message_too_short
    else if ltb n 2
    then err slice_panic
    else more

unfoldable pub unmarshal_configure : List ℕ → Result Error PerTypeData
unmarshal_configure bytes = do
  options ← unmarshal_options (length bytes) bytes []
  ok (configure options)

-- ConfigureData.MarshalBinary
unfoldable pub marshal_options : List LcpOption → List ℕ
marshal_options [] = []
marshal_options (o ∷ os) = o.type ∷ ((length o.body + 2) % 256) ∷ (o.body ++ marshal_options os)

unfoldable pub unmarshal_echo : List ℕ → Result Error PerTypeData
unmarshal_echo bytes =
    if ltb (length bytes) 4
    then err message_too_short
    else ok (echo (be32 (slice bytes 0 4) 0) (drop 4 bytes))

unfoldable pub unmarshal_protocol_reject : List ℕ → Result Error PerTypeData
unmarshal_protocol_reject bytes =
    if ltb (length bytes) 2
    then err message_too_short
    else ok (protocol_reject (be16 (slice bytes 0 2) 0) (drop 2 bytes))

-- MarshalBinary of the four kinds of data.
unfoldable pub marshal_data : PerTypeData → List ℕ
unfolding marshal_options
marshal_data (configure options) = marshal_options options
marshal_data (terminate bytes) = bytes
marshal_data (echo magic_number bytes) = put_be32 magic_number ++ bytes
marshal_data (protocol_reject ppp_type bytes) = put_be16 ppp_type ++ bytes

abbrev pub is_configure : ℕ → Bool
is_configure t =
    t == configure_request || (t == configure_ack || (t == configure_nak || t == configure_reject))

abbrev pub is_terminate : ℕ → Bool
is_terminate t = t == terminate_request || t == terminate_ack

abbrev pub is_echo : ℕ → Bool
is_echo t = t == echo_request || (t == echo_reply || t == discard_request)

-- The `switch` on the type, with the decoding of the data that it chose.
unfoldable pub unmarshal_data : ℕ → List ℕ → Result Error (Option PerTypeData)
unmarshal_data t bytes =
    if is_configure t
    then (unmarshal_configure bytes >>= λ d. ok (some d))
    else if is_terminate t
    then ok (some (terminate bytes))
    else if is_echo t
    then (unmarshal_echo bytes >>= λ d. ok (some d))
    else if t == protocol_reject_type
    then (unmarshal_protocol_reject bytes >>= λ d. ok (some d))
    else ok none

-- LCP.UnmarshalBinary
unfoldable pub unmarshal : List ℕ → Result Error Lcp
unmarshal bytes =
    if ltb (length bytes) 4
    then err message_too_short
    else if ltb (length bytes) (be16 (slice bytes 2 4) 0)
    then err message_too_short
    else do
      d ← unmarshal_data (byte_at bytes 0) (drop 4 bytes)
      ok (record {
        contents = bytes;
        type = byte_at bytes 0;
        identifier = byte_at bytes 1;
        body = d;
      })

abbrev pub extra_bytes : Option PerTypeData → List ℕ
extra_bytes none = []
extra_bytes (some d) = marshal_data d

-- LCP.MarshalBinary
unfoldable pub marshal : Lcp → List ℕ
marshal l =
    l.type
    ∷ l.identifier
    ∷ (put_be16 ((length (extra_bytes l.body) + 4) % 65536) ++ extra_bytes l.body)
