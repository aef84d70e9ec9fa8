-- ===== src/Ota/Sender/Blocks.antt =====
-- The blocks of an image: the answers to the queries of the requestor in esp_matter_ota_bdx_sender.cpp.
use led_orchestra.Base.{
  ℕ, ◌-◌, ◌^◌, ◌≤◌, ◌<◌, ◌≡◌, inl, inr, refl, Bool, true, false, not, Option, none, some, List, [],
  ◌∷◌, arith, if◌then◌else◌, Bool-cases,
}
use led_orchestra.Base.Words.{sub64}
use led_orchestra.Platform.{EspErr}
use led_orchestra.Ota.Download.{ReadResult, Call, waiting, returned}
use led_orchestra.Ota.Sender.{
  Sender, Effect, initial_sender, reset, parse_ota_image_header, block_length, send_block,
  first_block, at_start, answer_bytes, answer_read, run_session, nothing, ack_received,
  ack_eof_received, status_received, internal_failure, transfer_timeout, other_event, msg_to_send,
  init_received, query_received, handle_query, send_msg, start_download, OutputEvent,
  handle_transfer_session_output,
}

-- No more was sent than the image has.
pub record InImage (s : Sender) : Type 0 where
  pub within : s.num_bytes_sent ≤ s.ota_image_size
  pub word : s.ota_image_size < 2 ^ 64

pub sub64-within : (a b : ℕ) → b ≤ a → a < 2 ^ 64 → sub64 a b ≡ a - b
sub64-within a b h w = omega arith

block_length-within :
    (n : ℕ) (s : Sender) → InImage s → block_length n s ≤ s.ota_image_size - s.num_bytes_sent
block_length-within n s i =
    let w = i.within in
    let b = i.word in ground (arith, sub64-within s.ota_image_size s.num_bytes_sent)

pub send_block-InImage :
    (prepared : Bool) (size n : ℕ) (buffer : List ℕ) (s : Sender)
    → InImage s
    → InImage (send_block prepared size n buffer s).1
unfolding send_block
send_block-InImage prepared size n buffer s i =
    let w = i.within in
    let b = i.word in record { within = omega (arith, block_length-within n s i); word = b }

pub parse_ota_image_header-word :
    (header : List ℕ) (n size : ℕ) → parse_ota_image_header header n ≡ some size → size < 2 ^ 64
unfolding parse_ota_image_header
parse_ota_image_header-word header n size h = ground arith

if-InImage :
    (b : Bool) (x y : List Effect × Sender)
    → InImage x.1
    → InImage y.1
    → InImage (if b then x else y).1
if-InImage true x y ix iy = ix
if-InImage false x y ix iy = iy

initial-InImage : InImage initial_sender
initial-InImage = record { within = omega arith; word = omega arith }

first_block-InImage :
    (prepared : Bool) (size n : ℕ) (buffer : List ℕ) (found : Option ℕ) (s : Sender)
    → InImage s
    → s.num_bytes_sent ≡ 0
    → parse_ota_image_header buffer n ≡ found
    → InImage (first_block prepared size n buffer found s).1
first_block-InImage prepared size n buffer none s i z h = i
first_block-InImage prepared size n buffer (some image) s i z h =
    send_block-InImage prepared size n buffer (record s { ota_image_size = image })
      (record { within = omega arith; word = parse_ota_image_header-word buffer n image h })

answer_bytes-InImage :
    (prepared : Bool) (size : ℕ) (count : Option ℕ) (buffer : List ℕ) (s : Sender)
    → InImage s
    → InImage (answer_bytes prepared size count buffer s).1
answer_bytes-InImage prepared size none buffer s i = i
answer_bytes-InImage prepared size (some n) buffer s i = elim (Bool-cases (at_start s)) [
  | inl t ↦ rw t (first_block-InImage prepared size n buffer _ s i (ground arith) refl)
  | inr f ↦ rw f (send_block-InImage prepared size n buffer s i)
]

answer_read-InImage :
    (prepared : Bool) (size : ℕ) (r : Call ReadResult) (s : Sender)
    → InImage s
    → InImage (answer_read prepared size r s).1
answer_read-InImage prepared size waiting s i = i
answer_read-InImage prepared size (returned r) s i =
    answer_bytes-InImage prepared size r.count r.buffer s i

reset-InImage : (s : Sender) → InImage (reset s).1
unfolding reset
reset-InImage s = initial-InImage

same_counts :
    (s t : Sender)
    → t.num_bytes_sent ≡ s.num_bytes_sent
    → t.ota_image_size ≡ s.ota_image_size
    → InImage s
    → InImage t
same_counts s t n z i =
    let w = i.within in let b = i.word in record { within = omega arith; word = omega arith }

send_msg-InImage :
    (status_report sent : Bool) (s : Sender) → InImage s → InImage (send_msg status_report sent s).1
send_msg-InImage status_report sent s i = if-InImage (not s.has_exchange) _ _ i (
    if-InImage sent _ _
      (elim status_report as (λ b. InImage (if b then record s { has_exchange = false } else s)) [
        | true ↦ same_counts s _ refl refl i
        | false ↦ i
      ])
      (reset-InImage s))

start_download-InImage :
    (started : Call (EspErr × Bool)) (s : Sender) → InImage s → InImage (start_download started s).1
start_download-InImage waiting s i = i
start_download-InImage (returned (err, client)) s i = same_counts s _ refl refl i

handle_transfer_session_output-InImage :
    (event : OutputEvent) (s : Sender)
    → InImage s
    → InImage (handle_transfer_session_output event s).1
unfolding handle_transfer_session_output handle_query
handle_transfer_session_output-InImage nothing s i = i
handle_transfer_session_output-InImage (msg_to_send status_report sent) s i =
    send_msg-InImage status_report sent s i
handle_transfer_session_output-InImage (init_received accepted client_made connects) s i =
    if-InImage (not accepted) _ _ i (start_download-InImage _ s i)
handle_transfer_session_output-InImage (query_received block_size allocated memory reads prepared) s
      i =
    if-InImage (not allocated) _ _ i (answer_read-InImage prepared block_size _ s i)
handle_transfer_session_output-InImage ack_received s i = i
handle_transfer_session_output-InImage ack_eof_received s i = reset-InImage s
handle_transfer_session_output-InImage status_received s i = reset-InImage s
handle_transfer_session_output-InImage internal_failure s i = reset-InImage s
handle_transfer_session_output-InImage transfer_timeout s i = reset-InImage s
handle_transfer_session_output-InImage other_event s i = i

-- No event of a session, whatever the server and the session answer, makes the sender count more bytes
-- as sent than the image has, so the subtractions of the counts never wrap.
pub run_session-InImage :
    (events : List OutputEvent) (s : Sender) → InImage s → InImage (run_session events s).1
unfolding run_session
run_session-InImage [] s i = i
run_session-InImage (event ∷ events) s i =
    run_session-InImage events (handle_transfer_session_output event s).1
      (handle_transfer_session_output-InImage event s i)
