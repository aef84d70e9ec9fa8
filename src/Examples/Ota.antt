-- ===== src/Examples/Ota.antt =====
-- The theorems on the update of the firmware at concrete inputs, and a run of a whole update.
use led_orchestra.Base.{
  ℕ, ◌≡◌, refl, inl, inr, true, false, none, some, List, [], ◌∷◌, ◌++◌, arith, replicate, length,
}
use led_orchestra.Platform.{is_ok}
use led_orchestra.Ota.Candidates.{
  Candidate, Cache, FetchAction, local_candidate, register_local_candidate, store_candidate,
  find_candidate_slot, find_slot_from, fetch_handler, offer, search_ota_candidate, search_from,
  is_ota_candidate_valid, holds, available, fetch_ota_candidate, candidate_task,
}
use led_orchestra.Ota.Download.{http_client_read}
use led_orchestra.Ota.Download.Chunks.{
  bytes_read, all_progress, has_returned, http_client_read_returns,
}
use led_orchestra.Ota.Sender.{
  Sender, initial_sender, initialize_transfer, parse_ota_image_header, little_endian, run_session,
}
use led_orchestra.Ota.Sender.Blocks.{InImage, run_session-InImage}
use led_orchestra.Ota.Sender.Transfer.{query, Queries, sent_bytes, image_transferred}
use led_orchestra.Ota.Sender.Peers.{HasPeer}
use led_orchestra.Ota.Provider.{
  update_available, ScopedNodeId, Command, Provider, RequestorEntry, Undefined, new_entry,
  find_entry, put_entry, proceed, create_entry, enable_ota_for_node, selects,
}
use led_orchestra.Ota.Provider.Handlers.{
  query_image_response, Sdk, Answers, handle_notify_update_applied, handle_apply_update_request,
  handle_query_image, fetch_image_done, send_query_image_response, answer_entry, offer_image,
  file_name, start_transfer, print_overruns, printed_bytes, data_equal,
}
use led_orchestra.Ota.Provider.Entries.{Distinct, denies}
use led_orchestra.Ota.Provider.Consent.{Denied}
use led_orchestra.Ota.Provider.Steps.{
  Event, query_image, candidates_fetched, enable, register, System, run, step, enables,
  ever_enables, offered_to,
}
use led_orchestra.Ota.Provider.Runs.{consent_comes_first}
use led_orchestra.Ota.Provider.Keys.{run-Distinct}
use led_orchestra.Ota.Provider.Offering.{fetch_image_done-offer}
use led_orchestra.Ota.Provider.Once.{is_success, allowed_once_spent}
use led_orchestra.Ota.Provider.Apply.{Applied, handle_apply_update_request-Applied}

abbrev undefined : Undefined
undefined = record { node = 0; fabric = 0 }

abbrev sdk : Sdk
sdk = record { provider_node = λ fabric. some 1; make_uri = λ node name old. some name }

abbrev lamp : ScopedNodeId
lamp = record { node = 42; fabric = 1 }

abbrev from_lamp : Command
from_lamp = record { peer = lamp; subject = record { fabric_index = 1; subject = 42 } }

abbrev booted : Provider
booted = record {
  bdx_sender = initial_sender;
  delayed_query_action_time = 0;
  update_action = proceed;
  delayed_apply_action_time = 0;
  poll_interval = 50;
  ota_allowed_default = false;
  requestors = [];
  async_command = none;
  subject = record { fabric_index = 0; subject = 0 };
  peer = record { node = 0; fabric = 0 };
}

-- "h/i", "2" and an empty cache.
abbrev pub url : List ℕ
url = 104 ∷ (47 ∷ (105 ∷ []))

abbrev pub two : List ℕ
two = 50 ∷ []

abbrev pub empty_cache : Cache
empty_cache = record { slots = replicate 8 none; has_mutex = true; queue = some [] }

abbrev answers : Answers
answers = record { handle_valid = true; prepared = true; random_token = 7 ∷ (9 ∷ []) }

abbrev pub old_lamp : FetchAction
old_lamp = record { vendor_id = 65521; product_id = 1; software_version = 1 }

abbrev asked : List Event
asked =
    register true 65521 1 2 (some two) (some url) 900 0 4294967295
    ∷ (query_image answers true false true from_lamp old_lamp ∷ (candidates_fetched answers ∷ []))

abbrev start : System
start = record { provider = booted; cache = empty_cache }

never : ever_enables undefined lamp asked ≡ false
unfolding ever_enables enables
never = refl

booted-Denied : Denied lamp booted
unfolding denies
booted-Denied = record { entries = refl; by_default = refl }

consent_comes_first_example : offered_to lamp (run sdk undefined asked start).0 ≡ false
consent_comes_first_example = consent_comes_first sdk undefined lamp asked start booted-Denied never

-- The same events after the operator enabled the node.
offered_once_enabled :
    offered_to lamp (run sdk undefined (enable true lamp true ∷ asked) start).0 ≡ true
unfolding offered_to run step enable_ota_for_node selects create_entry find_entry put_entry
    register_local_candidate store_candidate find_candidate_slot find_slot_from holds
    handle_query_image fetch_ota_candidate candidate_task fetch_handler offer search_ota_candidate
    search_from is_ota_candidate_valid fetch_image_done send_query_image_response answer_entry
    offer_image file_name start_transfer initialize_transfer
offered_once_enabled = refl

abbrev once : RequestorEntry
once = record (new_entry lamp false) {
  ota_allowed_once = true;
  update_token = 7 ∷ (9 ∷ []);
  software_version = 2;
}

abbrev updating : Provider
updating = record booted { requestors = once ∷ [] }

applied_ok :
    is_success (handle_notify_update_applied (some from_lamp) (7 ∷ (9 ∷ [])) 2 updating).0 ≡ true
unfolding handle_notify_update_applied print_overruns printed_bytes find_entry data_equal
applied_ok = refl

distinct : Distinct updating.requestors
unfolding Distinct find_entry
distinct = (refl, tt)

found_once : find_entry lamp updating.requestors ≡ some once
unfolding find_entry
found_once = refl

allowed_once_spent_example :
    offered_to lamp
      (run sdk undefined asked (record {
        provider = (handle_notify_update_applied (some from_lamp) (7 ∷ (9 ∷ [])) 2 updating).1;
        cache = empty_cache;
      })).0
    ≡ false
allowed_once_spent_example =
    allowed_once_spent sdk undefined from_lamp (7 ∷ (9 ∷ [])) 2 once updating empty_cache asked
      distinct refl found_once refl applied_ok never

handle_apply_update_request-Applied_example :
    Applied from_lamp
      (7 ∷ (9 ∷ []))
      2
      updating
      (handle_apply_update_request (some from_lamp) (7 ∷ (9 ∷ [])) 2 updating)
handle_apply_update_request-Applied_example =
    handle_apply_update_request-Applied from_lamp (7 ∷ (9 ∷ [])) 2 updating

abbrev image_2 : Candidate
image_2 = local_candidate 65521 1 2 two url 900 0 4294967295

one_read : all_progress (bytes_read two true ∷ (bytes_read two true ∷ [])) ≡ true
unfolding all_progress
one_read = refl

http_client_read_returns_example :
    has_returned (http_client_read 2 (bytes_read two true ∷ (bytes_read two true ∷ [])) 0 []) ≡ true
http_client_read_returns_example =
    http_client_read_returns 2 (bytes_read two true ∷ (bytes_read two true ∷ [])) 0 [] one_read
      (omega arith)

-- An image of 20 bytes with an empty header, in blocks of 18, and two bytes more.
abbrev header : List ℕ
header =
    0x1E
    ∷ (0xF1
        ∷ (0xEE
            ∷ (0x1B ∷ (20 ∷ (0 ∷ (0 ∷ (0 ∷ (0 ∷ (0 ∷ (0 ∷ (0 ∷ (0 ∷ (0 ∷ (0 ∷ (0 ∷ [])))))))))))))))

abbrev first_block_bytes : List ℕ
first_block_bytes = header ++ (1 ∷ (2 ∷ []))

abbrev last_block_bytes : List ℕ
last_block_bytes = 3 ∷ (4 ∷ (5 ∷ (6 ∷ [])))

abbrev downloading : Sender
downloading = record initial_sender { has_client = true }

parsed : parse_ota_image_header first_block_bytes (length first_block_bytes) ≡ some 20
unfolding parse_ota_image_header little_endian
parsed = refl

last_query : Queries 18 (query 18 [] last_block_bytes true ∷ []) last_block_bytes
last_query = Queries.next [] last_block_bytes true [] [] (omega arith, inl refl) Queries.ended

image_transferred_example :
    sent_bytes
      (run_session
        (query 18 [] first_block_bytes false ∷ (query 18 [] last_block_bytes true ∷ []))
        downloading).0
    ≡ header ++ (1 ∷ (2 ∷ (3 ∷ (4 ∷ []))))
image_transferred_example =
    image_transferred 18 [] first_block_bytes false (query 18 [] last_block_bytes true ∷ [])
      last_block_bytes 20 downloading (omega arith) (omega arith, inr refl) last_query refl
      (refl, refl) parsed

initial-InImage : InImage initial_sender
initial-InImage = record { within = omega arith; word = omega arith }

run_session-InImage_example :
    InImage (run_session (query 18 [] first_block_bytes false ∷ []) initial_sender).1
run_session-InImage_example =
    run_session-InImage (query 18 [] first_block_bytes false ∷ []) initial_sender initial-InImage

serving-HasPeer :
    HasPeer (record initial_sender { initialized = true; fabric_index = some 1; node_id = some 7 })
serving-HasPeer = record { peer = λ h. (1, 7, (refl, refl)); no_url = λ h. refl }

abbrev waiting_query : Provider
waiting_query = record updating {
  async_command = some from_lamp;
  subject = record { fabric_index = 1; subject = 42 };
  peer = lamp;
}

sender_free : is_ok (initialize_transfer 1 42 initial_sender).0 ≡ true
unfolding initialize_transfer
sender_free = refl

fetch_image_done-offer_example :
    (fetch_image_done sdk answers (available url 900 2 two) waiting_query).0
    ≡ query_image_response update_available
        (some (record {
          image_uri = 105 ∷ [];
          software_version = 2;
          software_version_string = two;
          update_token = 7 ∷ (9 ∷ []);
        }))
        none
fetch_image_done-offer_example =
    fetch_image_done-offer sdk answers url (104 ∷ []) two (105 ∷ []) 900 2 1 once waiting_query refl
      found_once refl (omega arith) (omega arith) refl refl ((λ e. omega arith), tt) (omega arith)
      sender_free refl

run-Distinct_example : Distinct (run sdk undefined asked start).1.provider.requestors
run-Distinct_example = run-Distinct sdk undefined asked start refl
