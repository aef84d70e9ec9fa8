-- ===== src/Ota/Download.antt =====
-- matter-prototype/controller-node/components/lo_ota_provider/src/esp_matter_ota_http_downloader.cpp:
-- connecting to the image's server and reading from it. The answers of esp_http_client come as lists; a
-- call whose list runs out is still waiting.
pub mod Chunks
use led_orchestra.Base.{
  ℕ, zero, suc, ◌+◌, ◌-◌, Bool, true, false, not, ◌&&◌, ◌||◌, Option, none, some, List, [], ◌∷◌,
  ◌++◌, ltb, leb, ◌==◌, if◌then◌else◌, length, drop,
}
use led_orchestra.Platform.{EspErr, esp_ok, esp_fail, esp_err_no_mem, other_error, is_ok}

-- `HttpStatus_Code` of esp_http_client.h.
abbrev pub moved_permanently : ℕ
moved_permanently = 301

abbrev pub found : ℕ
found = 302

abbrev pub temporary_redirect : ℕ
temporary_redirect = 307

abbrev pub bad_request : ℕ
bad_request = 400

abbrev pub unauthorized : ℕ
unauthorized = 401

abbrev pub forbidden : ℕ
forbidden = 403

abbrev pub not_found : ℕ
not_found = 404

abbrev pub internal_error : ℕ
internal_error = 500

unfoldable pub is_redirection : ℕ → Bool
is_redirection status =
    (status == moved_permanently) || (status == found) || (status == temporary_redirect)

unfoldable pub process_again : ℕ → Bool
unfolding is_redirection
process_again status = is_redirection status || (status == unauthorized)

-- The answers of one pass of `_http_connect`: the length of the body, the error of opening, what each
-- write took (`none` below 0), the code of a failed header read, the status, the error of
-- set_redirection, and what each read that clears the response returned (0 also below 0).
pub record ConnectAnswer : Type 0 where
  pub post_len : ℕ
  pub opened : EspErr
  pub writes : List (Option ℕ)
  pub header_failure : Option ℕ
  pub status : ℕ
  pub redirected : EspErr
  pub clearing : List ℕ

-- The end of a call, or `waiting` where it has not returned.
pub data Call (A : Type 0) : Type 0 where
  waiting : Call A
  returned : A → Call A

-- The loop that reads until nothing comes.
unfoldable pub clear_response : List ℕ → Call EspErr
clear_response [] = waiting
clear_response (zero ∷ reads) = returned esp_ok
clear_response (suc n ∷ reads) = clear_response reads

unfoldable pub http_handle_response_code : ConnectAnswer → Call EspErr
unfolding is_redirection process_again
http_handle_response_code a =
    if is_redirection a.status && not (is_ok a.redirected)
    then returned a.redirected
    else if process_again a.status
    then clear_response a.clearing
    else if leb bad_request a.status
    then returned esp_fail
    else returned esp_ok

-- The loop that writes the rest of the body.
unfoldable pub write_post : ℕ → List (Option ℕ) → Call EspErr
write_post zero writes = returned esp_ok
write_post (suc n) [] = waiting
write_post (suc n) (none ∷ writes) = returned esp_fail
write_post (suc n) (some written ∷ writes) = write_post (suc n - written) writes

-- One pass after the body is written.
unfoldable pub read_headers : ConnectAnswer → Call EspErr
read_headers a = elim a.header_failure [
  | none ↦ http_handle_response_code a
  | some code ↦ returned (other_error code)
]

unfoldable pub connect_once : ConnectAnswer → Call EspErr
unfolding read_headers
connect_once a =
    if not (is_ok a.opened) then returned a.opened else elim (write_post a.post_len a.writes) [
      | waiting ↦ waiting
      | returned esp_ok ↦ read_headers a
      | returned other ↦ returned other
    ]

abbrev pub connect_next : Call EspErr → Bool → Call EspErr → Call EspErr
connect_next waiting again rest = waiting
connect_next (returned err) again rest = if is_ok err && again then rest else returned err

unfoldable pub http_connect : List ConnectAnswer → Call EspErr
http_connect [] = waiting
http_connect (a ∷ answers) =
    connect_next (connect_once a) (process_again a.status) (http_connect answers)

-- The client handle that is written is null (`false`) where the call fails.
unfoldable pub http_downloader_start : Bool → List ConnectAnswer → Call (EspErr × Bool)
http_downloader_start made answers =
    if not made then returned (esp_err_no_mem, false) else elim (http_connect answers) [
      | waiting ↦ waiting
      | returned err ↦ returned (err, is_ok err)
    ]

-- The `int` that a read returns: a length below 0, `negative n` for -(n + 1), or the bytes stored.
pub data Received : Type 0 where
  negative : ℕ → Received
  bytes_stored : List ℕ → Received

-- One esp_http_client_read, and what esp_http_client_is_complete_data_received and errno (a lost
-- connection) say after it.
pub record ReadAnswer : Type 0 where
  pub received : Received
  pub complete : Bool
  pub connection_lost : Bool

abbrev pub checked_bytes : Bool → Bool → Received → Received
checked_bytes complete lost (negative n) = negative n
checked_bytes complete lost (bytes_stored []) =
    if not complete && lost then negative 0 else bytes_stored []
checked_bytes complete lost (bytes_stored (b ∷ bytes)) = bytes_stored (b ∷ bytes)

unfoldable pub read_check_connection : ReadAnswer → Received
read_check_connection a = checked_bytes a.complete a.connection_lost a.received

-- `bytes` stored at the start of the buffer.
abbrev pub overlay : List ℕ → List ℕ → List ℕ
overlay bytes buffer = bytes ++ drop (length bytes) buffer

-- What a read returns: how many bytes (`none` below 0), and the buffer.
pub record ReadResult : Type 0 where
  pub count : Option ℕ
  pub buffer : List ℕ

abbrev pub finished : ℕ → Received → List ℕ → ReadResult
finished read_len (negative n) buffer = record {
  count = if ltb n read_len then some (read_len - suc n) else none;
  buffer = buffer;
}
finished read_len (bytes_stored bytes) buffer = record {
  count = some (read_len + length bytes);
  buffer = overlay bytes buffer;
}

-- One round of the loop of `_http_client_read`, `rest` being the rounds after it.
abbrev pub read_round :
    ℕ → Bool → Received → List ℕ → (ℕ → List ℕ → Call ReadResult) → Call ReadResult
read_round read_len true got buffer rest = returned (finished read_len got buffer)
read_round read_len false (negative n) buffer rest =
    returned (record { count = some read_len; buffer = buffer })
read_round read_len false (bytes_stored bytes) buffer rest =
    rest (read_len + length bytes) (overlay bytes buffer)

-- The loop; every read stores at the start of the buffer.
unfoldable pub http_client_read : ℕ → List ReadAnswer → ℕ → List ℕ → Call ReadResult
http_client_read size [] read_len buffer =
    if ltb read_len size
    then waiting
    else returned (record { count = some read_len; buffer = buffer })
http_client_read size (a ∷ answers) read_len buffer =
    if not (ltb read_len size)
    then returned (record { count = some read_len; buffer = buffer })
    else read_round read_len a.complete (read_check_connection a) buffer
        (λ (n : ℕ) (memory : List ℕ). http_client_read size answers n memory)

unfoldable pub http_downloader_read : Bool → ℕ → List ReadAnswer → List ℕ → Call ReadResult
http_downloader_read has_client size answers buffer =
    if has_client
    then http_client_read size answers 0 buffer
    else returned (record { count = none; buffer = buffer })
