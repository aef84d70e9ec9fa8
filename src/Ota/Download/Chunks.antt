-- ===== src/Ota/Download/Chunks.antt =====
-- Reading a block from the server: `_http_client_read` of esp_matter_ota_http_downloader.cpp.
use led_orchestra.Base.{
  ℕ, suc, ◌+◌, ◌≤◌, ◌<◌, ◌≡◌, ◌⊎◌, refl, Bool, true, false, ◌||◌, ◌&&◌, not, some, List, [], ◌∷◌,
  arith, ltb, if◌then◌else◌, length,
}
use mathlib.Core.Bool.{false≢true}
use led_orchestra.Ota.Download.{
  Received, negative, bytes_stored, ReadAnswer, ReadResult, Call, waiting, returned, overlay,
  checked_bytes, read_round, read_check_connection, http_client_read, http_downloader_read,
}

-- A read that brings these bytes, with nothing wrong.
abbrev pub bytes_read : List ℕ → Bool → ReadAnswer
bytes_read bytes complete = record {
  received = bytes_stored bytes;
  complete = complete;
  connection_lost = false;
}

-- One read fills the block, or ends the image.
abbrev pub FillsBlock : ℕ → List ℕ → Bool → Type 0
FillsBlock size bytes complete = (length bytes ≤ size) × ((complete ≡ true) ⊎ (length bytes ≡ size))

-- Then the call returns with these bytes.
pub http_downloader_read-once :
    (size : ℕ) (bytes : List ℕ) (complete : Bool) (memory : List ℕ)
    → 0 < size
    → FillsBlock size bytes complete
    → http_downloader_read true size (bytes_read bytes complete ∷ []) memory
      ≡ returned (record { count = some (length bytes); buffer = overlay bytes memory })
unfolding http_downloader_read http_client_read read_check_connection
http_downloader_read-once size [] true memory pos (fits, ends) = ground arith
http_downloader_read-once size [] false memory pos (fits, ends) = ground arith
http_downloader_read-once size (b ∷ bytes) true memory pos (fits, ends) = ground arith
http_downloader_read-once size (b ∷ bytes) false memory pos (fits, ends) = ground arith

-- The answer ends the loop or brings a byte.
abbrev pub progresses : Bool → Bool → Received → Bool
progresses complete lost (negative n) = true
progresses complete lost (bytes_stored []) = complete || lost
progresses complete lost (bytes_stored (b ∷ bytes)) = true

unfoldable pub all_progress : List ReadAnswer → Bool
all_progress [] = true
all_progress (a ∷ answers) =
    progresses a.complete a.connection_lost a.received && all_progress answers

abbrev pub has_returned : {A : Type 0} → Call A → Bool
has_returned waiting = false
has_returned (returned a) = true

read_round_returns :
    (n : ℕ) (complete lost : Bool) (received : Received) (buffer : List ℕ)
    (rest : ℕ → List ℕ → Call ReadResult)
    → progresses complete lost received ≡ true
    → ((b : ℕ) (bytes memory : List ℕ) → has_returned (rest (n + suc (length bytes)) memory) ≡ true)
    → has_returned (read_round n complete (checked_bytes complete lost received) buffer rest) ≡ true
read_round_returns n true lost received buffer rest h k = refl
read_round_returns n false lost (negative m) buffer rest h k = refl
read_round_returns n false true (bytes_stored []) buffer rest h k = refl
read_round_returns n false false (bytes_stored []) buffer rest h k = absurd (false≢true h)
read_round_returns n false lost (bytes_stored (b ∷ bytes)) buffer rest h k =
    k b bytes (overlay (b ∷ bytes) buffer)

if_returned :
    {A : Type 0} (b : Bool) (x y : Call A)
    → has_returned x ≡ true
    → has_returned y ≡ true
    → has_returned (if b then x else y) ≡ true
if_returned true x y hx hy = hx
if_returned false x y hx hy = hy

-- The loop that reads a block ends: where every answer of the client ends it or brings a byte, as
-- many answers as the block has bytes are enough.
pub http_client_read_returns :
    (size : ℕ) (answers : List ReadAnswer) (read_len : ℕ) (buffer : List ℕ)
    → all_progress answers ≡ true
    → size ≤ read_len + length answers
    → has_returned (http_client_read size answers read_len buffer) ≡ true
unfolding all_progress http_client_read read_check_connection
http_client_read_returns size [] read_len buffer h enough = ground arith
http_client_read_returns size (a ∷ answers) read_len buffer h enough =
    if_returned (not (ltb read_len size)) _ _ refl (
      read_round_returns read_len a.complete a.connection_lost a.received buffer _ (ground arith)
        (λ b bytes memory.
          http_client_read_returns size answers (read_len + suc (length bytes)) memory
            (ground arith) (omega arith)))
