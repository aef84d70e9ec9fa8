-- ===== src/Ota/Sender.antt =====
-- matter-prototype/controller-node/components/lo_ota_provider/include/esp_matter_ota_bdx_sender.h and
-- src/esp_matter_ota_bdx_sender.cpp: the sender of an image over BDX. The transfer session, the exchange and the
-- HTTP client are the SDK's: what they answer comes with the event, what is asked of them is a list of effects.
pub mod Blocks
pub mod Transfer
pub mod Peers
use led_orchestra.Base.{
  ℕ, zero, suc, ◌+◌, ◌-◌, ◌*◌, ◌^◌, Bool, true, false, not, ◌&&◌, ◌||◌, Option, none, some, List,
  [], ◌∷◌, ◌++◌, ltb, leb, ◌==◌, if◌then◌else◌, length, take, drop,
}
use led_orchestra.Base.Words.{u32, u64, sub64}
use led_orchestra.Platform.{
  EspErr, esp_ok, esp_fail, esp_err_invalid_arg, esp_err_invalid_state, is_ok,
}
use led_orchestra.Ota.Candidates.{ota_url_max_len}
use led_orchestra.Ota.Download.{
  ConnectAnswer, ReadAnswer, ReadResult, Call, waiting, returned, overlay, http_downloader_start,
  http_downloader_read,
}

-- `OtaBdxSender`; `has_exchange` and `has_client` say whether the pointers are set.
pub record Sender : Type 0 where
  pub num_bytes_sent : ℕ
  pub initialized : Bool
  pub fabric_index : Option ℕ
  pub node_id : Option ℕ
  pub ota_image_url : List ℕ
  pub ota_image_size : ℕ
  pub has_client : Bool
  pub has_exchange : Bool

-- What the sender asks of the session, the exchange and the client.
pub data Effect : Type 0 where
  reset_transfer close_exchange abort_client accept_transfer abort_transfer send_message : Effect
  prepare_block : (block : List ℕ) (eof : Bool) → Effect
  still_waiting : Effect

abbrev pub initial_sender : Sender
initial_sender = record {
  num_bytes_sent = 0;
  initialized = false;
  fabric_index = none;
  node_id = none;
  ota_image_url = [];
  ota_image_size = 0;
  has_client = false;
  has_exchange = false;
}

abbrev pub when_set : Bool → Effect → List Effect
when_set b effect = if b then effect ∷ [] else []

unfoldable pub reset : Sender → List Effect × Sender
reset s = (
  reset_transfer ∷ (when_set s.has_exchange close_exchange ++ when_set s.has_client abort_client),
  initial_sender,
)

abbrev pub is_value : Option ℕ → ℕ → Bool
is_value none n = false
is_value (some m) n = m == n

abbrev pub is_other : Option ℕ → ℕ → Bool
is_other none n = false
is_other (some m) n = not (m == n)

abbrev pub assign_peer : ℕ → ℕ → Sender → Sender
assign_peer fabric node s = record s {
  fabric_index = some fabric;
  node_id = some node;
  initialized = true;
}

unfoldable pub initialize_transfer : ℕ → ℕ → Sender → EspErr × List Effect × Sender
unfolding reset
initialize_transfer fabric node s =
    if not s.initialized
    then (esp_ok, [], assign_peer fabric node s)
    else if is_value s.fabric_index fabric && is_value s.node_id node
    then (esp_ok, (reset s).0, assign_peer fabric node (reset s).1)
    else if is_other s.fabric_index fabric || is_other s.node_id node
    then (esp_err_invalid_state, [], s)
    else (esp_fail, [], s)

-- `strncpy` of as many bytes as the text has: what the member held beyond them stays.
unfoldable pub set_ota_image_url : List ℕ → Sender → Sender
set_ota_image_url url s = record s {
  ota_image_url = overlay (take ota_url_max_len url) s.ota_image_url;
}

abbrev pub header_prefix_size : ℕ
header_prefix_size = 16

abbrev pub ota_image_file_identifier : ℕ
ota_image_file_identifier = 0x1BEEF11E

-- The little-endian number of some bytes.
unfoldable pub little_endian : List ℕ → ℕ
little_endian [] = 0
little_endian (b ∷ bytes) = b + 2 ^ 8 * little_endian bytes

abbrev pub file_identifier : List ℕ → ℕ
file_identifier header = u32 (little_endian (take 4 header))

abbrev pub total_size : List ℕ → ℕ
total_size header = u64 (little_endian (take 8 (drop 4 header)))

abbrev pub header_size : List ℕ → ℕ
header_size header = u32 (little_endian (take 4 (drop 12 header)))

-- The sum is a `size_t` of 32 bits. A pass answers with the new `mOtaImageSize`.
unfoldable pub parse_ota_image_header : List ℕ → ℕ → Option ℕ
unfolding little_endian
parse_ota_image_header header header_buf_size =
    if ltb header_buf_size header_prefix_size
    then none
    else if not (file_identifier header == ota_image_file_identifier)
    then none
    else if leb (total_size header) (u32 (header_size header + header_prefix_size))
    then none
    else some (total_size header)

abbrev pub smaller : ℕ → ℕ → ℕ
smaller a b = if ltb b a then b else a

abbrev pub block_length : ℕ → Sender → ℕ
block_length bytes_read s = smaller bytes_read (sub64 s.ota_image_size s.num_bytes_sent)

abbrev pub is_eof : ℕ → ℕ → Sender → Bool
is_eof bytes_to_read bytes_read s =
    ltb (block_length bytes_read s) bytes_to_read
    || (u64 (s.num_bytes_sent + block_length bytes_read s) == s.ota_image_size)

-- `prepared` is the answer of PrepareBlock.
unfoldable pub send_block : Bool → ℕ → ℕ → List ℕ → Sender → List Effect × Sender
send_block prepared bytes_to_read bytes_read buffer s = (
  prepare_block (take (block_length bytes_read s) buffer) (is_eof bytes_to_read bytes_read s)
      ∷ (if prepared then [] else abort_transfer ∷ []),
  record s { num_bytes_sent = u64 (s.num_bytes_sent + block_length bytes_read s) },
)

-- The first block, with what its header says of the size.
abbrev pub first_block : Bool → ℕ → ℕ → List ℕ → Option ℕ → Sender → List Effect × Sender
first_block prepared bytes_to_read bytes_read buffer none s = (abort_transfer ∷ [], s)
first_block prepared bytes_to_read bytes_read buffer (some size) s =
    send_block prepared bytes_to_read bytes_read buffer (record s { ota_image_size = size })

abbrev pub at_start : Sender → Bool
at_start s = (s.ota_image_size == 0) && (s.num_bytes_sent == 0)

-- What follows the read.
abbrev pub answer_bytes : Bool → ℕ → Option ℕ → List ℕ → Sender → List Effect × Sender
answer_bytes prepared bytes_to_read none buffer s = (abort_transfer ∷ [], s)
answer_bytes prepared bytes_to_read (some bytes_read) buffer s =
    if at_start s
    then first_block prepared bytes_to_read bytes_read buffer
        (parse_ota_image_header buffer bytes_read) s
    else send_block prepared bytes_to_read bytes_read buffer s

abbrev pub answer_read : Bool → ℕ → Call ReadResult → Sender → List Effect × Sender
answer_read prepared bytes_to_read waiting s = (still_waiting ∷ [], s)
answer_read prepared bytes_to_read (returned r) s =
    answer_bytes prepared bytes_to_read r.count r.buffer s

-- A `TransferSession::OutputEvent`, with the answers to the calls that its handling makes.
pub data OutputEvent : Type 0 where
  nothing ack_received ack_eof_received status_received internal_failure transfer_timeout
        other_event :
      OutputEvent
  msg_to_send : (status_report sent : Bool) → OutputEvent
  init_received : (accepted client_made : Bool) (connects : List ConnectAnswer) → OutputEvent
  query_received :
      (block_size : ℕ) (allocated : Bool) (memory : List ℕ) (reads : List ReadAnswer)
      (prepared : Bool)
      → OutputEvent

abbrev pub send_msg : Bool → Bool → Sender → List Effect × Sender
send_msg status_report sent s =
    if not s.has_exchange
    then ([], s)
    else if sent
    then (send_message ∷ [], if status_report then record s { has_exchange = false } else s)
    else (send_message ∷ (reset s).0, (reset s).1)

-- The old client is closed first.
abbrev pub start_download : Call (EspErr × Bool) → Sender → List Effect × Sender
start_download waiting s =
    (accept_transfer ∷ (when_set s.has_client abort_client ++ (still_waiting ∷ [])), s)
start_download (returned (err, client)) s = (
  accept_transfer
      ∷ (when_set s.has_client abort_client ++ when_set (not (is_ok err)) abort_transfer),
  record s { has_client = client },
)

unfoldable pub handle_query :
    ℕ → Bool → List ℕ → List ReadAnswer → Bool → Sender → List Effect × Sender
handle_query block_size allocated memory reads prepared s =
    if not allocated
    then (abort_transfer ∷ [], s)
    else answer_read prepared block_size (http_downloader_read s.has_client block_size reads memory)
        s

-- `HandleTransferSessionOutput`.
unfoldable pub handle_transfer_session_output : OutputEvent → Sender → List Effect × Sender
unfolding reset handle_query
handle_transfer_session_output nothing s = ([], s)
handle_transfer_session_output (msg_to_send status_report sent) s = send_msg status_report sent s
handle_transfer_session_output (init_received accepted client_made connects) s =
    if not accepted
    then (accept_transfer ∷ [], s)
    else start_download (http_downloader_start client_made connects) s
handle_transfer_session_output (query_received block_size allocated memory reads prepared) s =
    handle_query block_size allocated memory reads prepared s
handle_transfer_session_output ack_received s = ([], s)
handle_transfer_session_output ack_eof_received s = reset s
handle_transfer_session_output status_received s = reset s
handle_transfer_session_output internal_failure s = reset s
handle_transfer_session_output transfer_timeout s = reset s
handle_transfer_session_output other_event s = ([], s)

-- The events of a session one after the other.
unfoldable pub run_session : List OutputEvent → Sender → List Effect × Sender
run_session [] s = ([], s)
run_session (event ∷ events) s =
    let (effects, t) = handle_transfer_session_output event s in
    let (rest, end) = run_session events t in (effects ++ rest, end)
