-- ===== src/Ota/Sender/Transfer.antt =====
-- A whole image over a session: the blocks that esp_matter_ota_bdx_sender.cpp prepares.
use led_orchestra.Base.{
  ℕ, zero, suc, ◌+◌, ◌-◌, ◌^◌, ◌≤◌, ◌<◌, ◌≡◌, inl, inr, refl, sym, ap, ap₂, ◌∙◌, Bool, true, false,
  some, List, [], ◌∷◌, ◌++◌, arith, ltb, if◌then◌else◌, length, take, drop, Bool-cases, take_within,
  drop_within, length-drop, take_all, take_none, append_nil, append_assoc, take_empty,
}
use led_orchestra.Base.Words.{u64, sub64}
use led_orchestra.Ota.Download.{overlay, http_downloader_read}
use led_orchestra.Ota.Download.Chunks.{bytes_read, FillsBlock, http_downloader_read-once}
use led_orchestra.Ota.Sender.{
  Sender, Effect, parse_ota_image_header, block_length, smaller, send_block, first_block, at_start,
  answer_bytes, answer_read, handle_query, OutputEvent, handle_transfer_session_output,
  query_received, run_session, prepare_block, header_prefix_size,
}
use led_orchestra.Ota.Sender.Blocks.{
  InImage, sub64-within, send_block-InImage, parse_ota_image_header-word,
}

-- The bytes of the blocks that are prepared.
abbrev block_bytes : Effect → List ℕ
block_bytes (prepare_block block eof) = block
block_bytes other = []

unfoldable pub sent_bytes : List Effect → List ℕ
sent_bytes [] = []
sent_bytes (effect ∷ effects) = block_bytes effect ++ sent_bytes effects

smaller_le : (a b : ℕ) → smaller a b ≤ a
smaller_le a b = ground arith

take-smaller : (r : ℕ) (xs ys : List ℕ) → take (smaller (length xs) r) (xs ++ ys) ≡ take r xs
take-smaller r xs ys =
    take_within (smaller (length xs) r) xs ys (smaller_le (length xs) r)
    ∙ (elim (Bool-cases (ltb r (length xs))) [
      | inl t ↦ rw t refl
      | inr f ↦ rw f (take_all (length xs) xs (omega arith) ∙ sym (take_all r xs (ground arith)))
    ])

take-append_split :
    (r : ℕ) (xs ys : List ℕ) → take r (xs ++ ys) ≡ take r xs ++ take (r - length xs) ys
take-append_split zero [] [] = refl
take-append_split zero [] (y ∷ ys) = refl
take-append_split zero (x ∷ xs) ys = take_none (0 - length (x ∷ xs)) ys (omega arith)
take-append_split (suc r) [] ys =
    let same : suc r ≡ suc r - 0 = omega arith in ap (λ k. take k ys) same
take-append_split (suc r) (x ∷ xs) ys =
    let same : r - length xs ≡ suc r - length (x ∷ xs) = omega arith in
    ap (λ zs. x ∷ zs) (take-append_split r xs ys) ∙ ap (λ k. (x ∷ take r xs) ++ take k ys) same

rest_after : (r n : ℕ) → r - smaller n r ≡ r - n
rest_after r n = ground arith

-- A query of the requestor that the server answers with one read.
abbrev pub query : ℕ → List ℕ → List ℕ → Bool → OutputEvent
query size memory bytes complete =
    query_received size true memory (bytes_read bytes complete ∷ []) true

-- Queries that the server answers with the bytes of a stream.
pub data Queries (size : ℕ) : List OutputEvent → List ℕ → Type 0 where
  ended : Queries size [] []
  next :
      (memory bytes : List ℕ) (complete : Bool) (events : List OutputEvent) (stream : List ℕ)
      → FillsBlock size bytes complete
      → Queries size events stream
      → Queries size (query size memory bytes complete ∷ events) (bytes ++ stream)

-- The sender after a block of so many bytes.
abbrev sent_more : ℕ → Sender → Sender
sent_more n s = record s { num_bytes_sent = u64 (s.num_bytes_sent + block_length n s) }

unfoldable pub left : Sender → ℕ
left s = s.ota_image_size - s.num_bytes_sent

query_answer :
    (size : ℕ) (memory bytes : List ℕ) (complete : Bool) (s : Sender)
    → 0 < size
    → FillsBlock size bytes complete
    → s.has_client ≡ true
    → handle_transfer_session_output (query size memory bytes complete) s
      ≡ answer_bytes true size (some (length bytes)) (overlay bytes memory) s
unfolding handle_transfer_session_output handle_query
query_answer size memory bytes complete s pos fills client =
    ap
      (λ b.
        answer_read true size (http_downloader_read b size (bytes_read bytes complete ∷ []) memory)
          s)
      client
    ∙ ap (λ r. answer_read true size r s)
        (http_downloader_read-once size bytes complete memory pos fills)

left_after : (a b n : ℕ) → b ≤ a → a < 2 ^ 64 → a - u64 (b + smaller n (sub64 a b)) ≡ a - b - n
left_after a b n h w = ground (arith, sub64-within a b)

-- A block from a sender that knows the size of the image.
send_block-bytes :
    (size : ℕ) (memory bytes : List ℕ) (s : Sender)
    → InImage s
    → (sent_bytes (send_block true size (length bytes) (overlay bytes memory) s).0
        ≡ take (left s) bytes)
      × (left (send_block true size (length bytes) (overlay bytes memory) s).1
          ≡ left s - length bytes)
unfolding send_block sent_bytes left
send_block-bytes size memory bytes s i =
    let w = i.within in
    let b = i.word in
    let fits = sub64-within s.ota_image_size s.num_bytes_sent w b in
    (
      append_nil _
          ∙ ap (λ r. take (smaller (length bytes) r) (overlay bytes memory)) fits
          ∙ take-smaller (s.ota_image_size - s.num_bytes_sent) bytes (drop (length bytes) memory),
      left_after s.ota_image_size s.num_bytes_sent (length bytes) w b,
    )

sent_bytes-append : (xs ys : List Effect) → sent_bytes (xs ++ ys) ≡ sent_bytes xs ++ sent_bytes ys
unfolding sent_bytes
sent_bytes-append [] ys = refl
sent_bytes-append (x ∷ xs) ys =
    ap (λ zs. block_bytes x ++ zs) (sent_bytes-append xs ys)
    ∙ sym (append_assoc (block_bytes x) (sent_bytes xs) (sent_bytes ys))

not_at_start : (s : Sender) → 0 < s.ota_image_size → at_start s ≡ false
not_at_start s h = ground arith

-- A query in the middle of an image.
query_bytes :
    (size : ℕ) (memory bytes : List ℕ) (complete : Bool) (s : Sender)
    → 0 < size
    → FillsBlock size bytes complete
    → s.has_client ≡ true
    → 0 < s.ota_image_size
    → handle_transfer_session_output (query size memory bytes complete) s
      ≡ send_block true size (length bytes) (overlay bytes memory) s
query_bytes size memory bytes complete s pos fills client known =
    query_answer size memory bytes complete s pos fills client
    ∙ ap
        (λ b.
          if b
          then first_block true size (length bytes) (overlay bytes memory)
              (parse_ota_image_header (overlay bytes memory) (length bytes)) s
          else send_block true size (length bytes) (overlay bytes memory) s)
        (not_at_start s known)

-- The rest of an image: the blocks are the next bytes of the stream, as many as the image still has.
rest_transferred :
    (size : ℕ) (events : List OutputEvent) (stream : List ℕ) (s : Sender)
    → 0 < size
    → Queries size events stream
    → s.has_client ≡ true
    → 0 < s.ota_image_size
    → InImage s
    → sent_bytes (run_session events s).0 ≡ take (left s) stream
unfolding run_session send_block sent_bytes
rest_transferred size _ _ s pos ended client known i = take_empty (left s)
rest_transferred size _ _ s pos (next memory bytes complete events stream fills queries) client
      known i =
    let block = query_bytes size memory bytes complete s pos fills client known in
    let r = send_block true size (length bytes) (overlay bytes memory) s in
    let (now, later) = send_block-bytes size memory bytes s i in
    let after =
      rest_transferred size events stream r.1 pos queries client known
        (send_block-InImage true size (length bytes) (overlay bytes memory) s i) in
    ap (λ (t : List Effect × Sender). sent_bytes (t.0 ++ (run_session events t.1).0)) block
    ∙ sent_bytes-append r.0 (run_session events r.1).0
    ∙ ap₂ (λ xs ys. xs ++ ys) now (after ∙ ap (λ k. take k stream) later)
    ∙ sym (take-append_split (left s) bytes stream)

parse_ota_image_header-append :
    (xs ys : List ℕ)
    → parse_ota_image_header (xs ++ ys) (length xs) ≡ parse_ota_image_header xs (length xs)
unfolding parse_ota_image_header
parse_ota_image_header-append xs ys = elim (Bool-cases (ltb (length xs) header_prefix_size)) [
  | inl t ↦ rw t refl
  | inr f ↦ rw f (
      rw
        (
          take_within 4 xs ys (ground arith),
          drop_within 4 xs ys (ground arith),
          drop_within 12 xs ys (ground arith),
          take_within 8 (drop 4 xs) ys (ground (arith, length-drop 4 xs)),
          take_within 4 (drop 12 xs) ys (ground (arith, length-drop 12 xs)),
        )
        refl)
]

first_bytes :
    (size : ℕ) (memory bytes : List ℕ) (complete : Bool) (image : ℕ) (s : Sender)
    → 0 < size
    → FillsBlock size bytes complete
    → s.has_client ≡ true
    → at_start s ≡ true
    → parse_ota_image_header bytes (length bytes) ≡ some image
    → handle_transfer_session_output (query size memory bytes complete) s
      ≡ send_block true size
          (length bytes)
          (overlay bytes memory)
          (record s { ota_image_size = image })
first_bytes size memory bytes complete image s pos fills client start header =
    query_answer size memory bytes complete s pos fills client
    ∙ ap
        (λ b.
          if b
          then first_block true size (length bytes) (overlay bytes memory)
              (parse_ota_image_header (overlay bytes memory) (length bytes)) s
          else send_block true size (length bytes) (overlay bytes memory) s)
        start
    ∙ ap (λ o. first_block true size (length bytes) (overlay bytes memory) o s)
        (parse_ota_image_header-append bytes (drop (length bytes) memory) ∙ header)

left_whole :
    (s : Sender) (image : ℕ)
    → s.num_bytes_sent ≡ 0
    → left (record s { ota_image_size = image }) ≡ image
unfolding left
left_whole s image h = omega arith

at_start_lem : (s : Sender) → s.ota_image_size ≡ 0 → s.num_bytes_sent ≡ 0 → at_start s ≡ true
at_start_lem s h k = ground arith

parse_ota_image_header-positive :
    (header : List ℕ) (n image : ℕ) → parse_ota_image_header header n ≡ some image → 0 < image
unfolding parse_ota_image_header
parse_ota_image_header-positive header n image h = ground arith

-- A transfer from its start, over a server whose reads each fill a block or end the image: if the first
-- block holds a valid header, then the blocks that are prepared are the first bytes of what the server sends,
-- as many as the total size in the header says.
pub image_transferred :
    (size : ℕ) (memory bytes : List ℕ) (complete : Bool) (events : List OutputEvent)
    (stream : List ℕ) (image : ℕ) (s : Sender)
    → 0 < size
    → FillsBlock size bytes complete
    → Queries size events stream
    → s.has_client ≡ true
    → (s.ota_image_size ≡ 0) × (s.num_bytes_sent ≡ 0)
    → parse_ota_image_header bytes (length bytes) ≡ some image
    → sent_bytes (run_session (query size memory bytes complete ∷ events) s).0
      ≡ take image (bytes ++ stream)
unfolding run_session send_block
image_transferred size memory bytes complete events stream image s pos fills queries client
      (none_known, none_sent) header =
    let t = record s { ota_image_size = image } in
    let r = send_block true size (length bytes) (overlay bytes memory) t in
    let i : InImage t = record {
      within = omega arith;
      word = parse_ota_image_header-word bytes (length bytes) image header;
    } in
    let (now, later) = send_block-bytes size memory bytes t i in
    let whole : left t ≡ image = left_whole s image none_sent in
    let after =
      rest_transferred size events stream r.1 pos queries client
        (parse_ota_image_header-positive bytes (length bytes) image header)
        (send_block-InImage true size (length bytes) (overlay bytes memory) t i) in
    ap (λ (t : List Effect × Sender). sent_bytes (t.0 ++ (run_session events t.1).0))
      (first_bytes size memory bytes complete image s pos fills client
        (at_start_lem s none_known none_sent) header)
    ∙ sent_bytes-append r.0 (run_session events r.1).0
    ∙ ap₂ (λ xs ys. xs ++ ys) now (after ∙ ap (λ k. take k stream) later)
    ∙ sym (take-append_split (left t) bytes stream)
    ∙ ap (λ k. take k (bytes ++ stream)) whole
