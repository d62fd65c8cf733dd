-- ===== src/Tpck.antt =====
-- src/tekmar_482/tpck.py: TPCK framing. `serialize`, and the incremental parser of `TpckParser`,
-- whose methods return the parser's new state beside the result, since an exception leaves behind
-- what was written before it. The proofs are in the modules below.
pub mod Frame
pub mod Decode
pub mod Stream
pub mod Parser
mod Tests
use tekmar.Prelude.{
  ℕ, ◌+◌, ◌%◌, Bool, true, false, ◌||◌, Option, none, some, List, [], ◌∷◌, ◌++◌, Bytes, length, ltb,
  leb, ◌==◌, if◌then◌else◌,
}
use tekmar.Exceptions.{Result, ok, err, protocol_error, ◌>>=◌}
use tekmar.Packet.{Packet, new_packet}

abbrev pub sof : ℕ
sof = 0xCA

abbrev pub eof : ℕ
eof = 0x35

abbrev pub esc : ℕ
esc = 0x2F

abbrev pub max_data_length : ℕ
max_data_length = 0xFF

unfoldable pub is_stuffed_byte : ℕ → Bool
is_stuffed_byte value = value == sof || value == eof || value == esc

pub sum : Bytes → ℕ
sum [] = 0
sum (b ∷ bs) = b + sum bs

-- `& 0xFF` is the remainder by 256.
unfoldable pub checksum : ℕ → Bytes → ℕ
unfolding sum
checksum packet_type payload = (packet_type + length payload + sum payload) % 256

-- What `append_stuffed` appends for one value.
unfoldable pub stuffed : ℕ → Bytes
unfolding is_stuffed_byte
stuffed value = if is_stuffed_byte value then esc ∷ value ∷ [] else value ∷ []

-- The loop over `packet.data`.
unfoldable pub stuffed_all : Bytes → Bytes
unfolding stuffed
stuffed_all [] = []
stuffed_all (value ∷ values) = stuffed value ++ stuffed_all values

unfoldable pub serialize : Packet → Result Bytes
unfolding stuffed_all checksum
serialize packet =
    if ltb max_data_length (length packet.payload)
    then err protocol_error
    else ok (
        sof
        ∷ (stuffed (length packet.payload)
            ++ (stuffed packet.type
                ++ (stuffed_all packet.payload
                    ++ (stuffed (checksum packet.type packet.payload) ++ (eof ∷ []))))))

pub data State : Type 0 where
  wait_sof in_length in_type in_data in_checksum in_eof : State

-- The fields of `TpckParser`; `payload` is `_data`.
pub record TpckParser : Type 0 where
  pub strict_checksum : Bool
  pub state : State
  pub escaped : Bool
  pub length_byte : ℕ
  pub type_byte : ℕ
  pub payload : Bytes
  pub checksum_byte : ℕ

abbrev pub new_parser : Bool → TpckParser
new_parser strict_checksum = record {
  strict_checksum = strict_checksum;
  state = wait_sof;
  escaped = false;
  length_byte = 0;
  type_byte = 0;
  payload = [];
  checksum_byte = 0;
}

abbrev pub reset : TpckParser → TpckParser
reset p = record p {
  state = wait_sof;
  escaped = false;
  length_byte = 0;
  type_byte = 0;
  payload = [];
  checksum_byte = 0;
}

abbrev pub start_frame : TpckParser → TpckParser
start_frame p = record p {
  state = in_length;
  escaped = false;
  length_byte = 0;
  type_byte = 0;
  payload = [];
  checksum_byte = 0;
}

unfoldable pub finish_frame : TpckParser → Result (Option Packet)
unfolding checksum new_packet
finish_frame p =
    if checksum p.type_byte p.payload == p.checksum_byte
    then (do packet ← new_packet p.type_byte p.payload; ok (some packet))
    else if p.strict_checksum
    then err protocol_error
    else ok none

abbrev pub Fed : Type 0
Fed = TpckParser × Result (Option Packet)

-- In the state EOF: `reset` is not reached when `finish_frame` raises.
finished : TpckParser → Result (Option Packet) → Fed
finished p (ok packet) = (reset p, ok packet)
finished p (err e) = (p, err e)

-- `feed` behind the escape handling, by the state.
unfoldable pub advance : State → TpckParser → ℕ → Fed
unfolding finished
advance wait_sof p value = (p, ok none)
advance in_length p value = (record p { length_byte = value; state = in_type }, ok none)
advance in_type p value = (
  record p {
    type_byte = value;
    payload = [];
    state = if p.length_byte == 0 then in_checksum else in_data;
  },
  ok none,
)
advance in_data p value =
    let payload = p.payload ++ (value ∷ []) in
    (
      record p {
        payload = payload;
        state = if leb p.length_byte (length payload) then in_checksum else in_data;
      },
      ok none,
    )
advance in_checksum p value = (record p { checksum_byte = value; state = in_eof }, ok none)
advance in_eof p value = if value == eof then finished p (finish_frame p) else (p, ok none)

-- `feed` once the state is not WAIT_SOF.
unfoldable pub feed_frame : TpckParser → ℕ → Fed
feed_frame p value =
    if p.escaped
    then advance p.state (record p { escaped = false }) value
    else if value == esc
    then (record p { escaped = true }, ok none)
    else if value == sof
    then (start_frame p, ok none)
    else advance p.state p value

feed_in : State → TpckParser → ℕ → Fed
unfolding feed_frame
feed_in wait_sof p value = ((if value == sof then start_frame p else p), ok none)
feed_in _ p value = feed_frame p value

unfoldable pub feed : TpckParser → ℕ → Fed
unfolding feed_in
feed p value = feed_in p.state p (value % 256)

abbrev pub FedMany : Type 0
FedMany = TpckParser × Result (List Packet)

abbrev pub add_packet : Option Packet → List Packet → List Packet
add_packet none packets = packets
add_packet (some packet) packets = packet ∷ packets

-- An exception ends the loop: the packets of this call are lost, the state stays.
after_feed : Result (Option Packet) → TpckParser → FedMany → FedMany
after_feed (err e) p rest = (p, err e)
after_feed (ok packet) p (q, ok packets) = (q, ok (add_packet packet packets))
after_feed (ok packet) p (q, err e) = (q, err e)

unfoldable pub feed_many : TpckParser → Bytes → FedMany
unfolding after_feed
feed_many p [] = (p, ok [])
feed_many p (value ∷ values) =
    let fed = feed p value in after_feed fed.1 fed.0 (feed_many fed.0 values)
