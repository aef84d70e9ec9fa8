-- ===== src/Ota/Provider/Offering.antt =====
-- The answer of esp_matter_ota_provider.cpp to a query for which a candidate was found.
use led_orchestra.Base.{
  ℕ, ◌<◌, ◌≡◌, ◌≢◌, ◌++◌, refl, ap, ◌∙◌, true, false, none, some, List, [], ◌∷◌, arith, leb, length,
  take_all,
}
use led_orchestra.Platform.{is_ok}
use led_orchestra.Ota.Candidates.{available, ota_url_max_len, software_version_str_max_len}
use led_orchestra.Ota.Sender.{initialize_transfer}
use led_orchestra.Ota.Provider.{
  ScopedNodeId, same_node, RequestorEntry, Provider, find_entry, put_entry, update_available,
}
use led_orchestra.Ota.Provider.Handlers.{
  may_update, Sdk, Answers, Answer, query_image_response, write_entry, start_transfer, offer_image,
  offer_named, offer_from, uri_or_empty, file_name_capacity, image_fields, answer_entry,
  after_slash, file_name, send_query_image_response, valid_command, fetched, write_fetched,
  fetch_image_done,
}
use led_orchestra.Ota.Provider.Entries.{find_entry-node}

put_entry-found :
    (n : ScopedNodeId) (e d : RequestorEntry) (es : List RequestorEntry)
    → find_entry n es ≡ some e
    → same_node d.node_id n ≡ true
    → find_entry n (put_entry d es) ≡ some d
unfolding find_entry put_entry
put_entry-found n e d [] h same = cc
put_entry-found n e d (x ∷ es) h same = ground (arith, put_entry-found n e d es)

-- No character of the text is this one.
abbrev pub Without : ℕ → List ℕ → Type 0
Without c [] = Unit
Without c (x ∷ text) = (x ≢ c) × Without c text

file_name-none : (name : List ℕ) → Without 47 name → file_name name ≡ none
unfolding file_name
file_name-none [] h = refl
file_name-none (c ∷ name) (other, h) = ground (arith, file_name-none name h)

-- The file name is what stands behind the last `/`.
file_name-++ : (path name : List ℕ) → Without 47 name → file_name (path ++ (47 ∷ name)) ≡ some name
unfolding file_name
file_name-++ [] name h = rw (file_name-none name h) refl
file_name-++ (c ∷ path) name h =
    ap (λ o. after_slash o c (path ++ (47 ∷ name))) (file_name-++ path name h)

-- The offer that is made of an entry.
abbrev pub offer_for : Sdk → Answers → ℕ → List ℕ → RequestorEntry → Answer
offer_for sdk a node name e =
    query_image_response update_available
      (some (record {
        image_uri = uri_or_empty (sdk.make_uri node name e.image_uri);
        software_version = e.software_version;
        software_version_string = e.software_version_string;
        update_token = a.random_token;
      }))
      none

start_transfer-offer :
    (a : Answers) (e : RequestorEntry) (p : Provider)
    → is_ok (initialize_transfer p.subject.fabric_index p.subject.subject p.bdx_sender).0 ≡ true
    → a.prepared ≡ true
    → (start_transfer a e p).0
      ≡ query_image_response update_available
          (some (image_fields (record e { update_token = a.random_token })))
          none
unfolding start_transfer
start_transfer-offer a e p free prepared = rw (free, prepared) refl

offer_image-offer :
    (sdk : Sdk) (a : Answers) (e : RequestorEntry) (p : Provider) (node : ℕ) (name : List ℕ)
    → sdk.provider_node p.subject.fabric_index ≡ some node
    → file_name e.ota_image_url ≡ some name
    → length name < file_name_capacity
    → is_ok (initialize_transfer p.subject.fabric_index p.subject.subject p.bdx_sender).0 ≡ true
    → a.prepared ≡ true
    → (offer_image sdk a e p).0 ≡ offer_for sdk a node name e
unfolding offer_image
offer_image-offer sdk a e p node name at named fits free prepared =
    let short : leb file_name_capacity (length name) ≡ false = ground arith in
    let d = record e { image_uri = uri_or_empty (sdk.make_uri node name e.image_uri) } in
    ap (λ o. (offer_from sdk a e o p).0) at
    ∙ ap (λ o. (offer_named sdk a e node o p).0) named
    ∙ rw short (start_transfer-offer a d (write_entry d p) free prepared)

send_query_image_response-offer :
    (sdk : Sdk) (a : Answers) (e : RequestorEntry) (p : Provider) (node : ℕ) (name : List ℕ)
    → valid_command a.handle_valid p.async_command p.peer ≡ true
    → find_entry p.peer p.requestors ≡ some e
    → may_update e ≡ true
    → sdk.provider_node p.subject.fabric_index ≡ some node
    → file_name e.ota_image_url ≡ some name
    → length name < file_name_capacity
    → is_ok (initialize_transfer p.subject.fabric_index p.subject.subject p.bdx_sender).0 ≡ true
    → a.prepared ≡ true
    → (send_query_image_response sdk a update_available p).0 ≡ offer_for sdk a node name e
unfolding send_query_image_response answer_entry
send_query_image_response-offer sdk a e p node name valid found may at named fits free prepared =
    let q = record p { async_command = none } in
    rw valid (
      ap (λ o. (answer_entry sdk a update_available o q).0) found
      ∙ rw may (offer_image-offer sdk a e q node name at named fits free prepared))

-- Where a search finds an image for a node that may update, whose query still waits, and the sender is free for it:
-- the node is offered the version and the version string that were found, with a fresh token and with the URI
-- that the SDK makes of the provider's node and the file's name, the part of the URL behind its last `/`, or an
-- empty URI where the SDK makes none. The provider's node on the fabric is known, the file's name fits its
-- buffer, the texts fit theirs, and the SDK can prepare the transfer.
pub fetch_image_done-offer :
    (sdk : Sdk) (a : Answers) (url path version_str name : List ℕ) (size version node : ℕ)
    (e : RequestorEntry) (p : Provider)
    → valid_command a.handle_valid p.async_command p.peer ≡ true
    → find_entry p.peer p.requestors ≡ some e
    → may_update e ≡ true
    → length url < ota_url_max_len
    → length version_str < software_version_str_max_len
    → sdk.provider_node p.subject.fabric_index ≡ some node
    → url ≡ path ++ (47 ∷ name)
    → Without 47 name
    → length name < file_name_capacity
    → is_ok (initialize_transfer p.subject.fabric_index p.subject.subject p.bdx_sender).0 ≡ true
    → a.prepared ≡ true
    → (fetch_image_done sdk a (available url size version version_str) p).0
      ≡ query_image_response update_available
          (some (record {
            image_uri = uri_or_empty (sdk.make_uri node name e.image_uri);
            software_version = version;
            software_version_string = version_str;
            update_token = a.random_token;
          }))
          none
unfolding fetch_image_done
fetch_image_done-offer sdk a url path version_str name size version node e p valid found may fits
      short at splits plain small free prepared =
    let d = fetched url size version version_str e in
    let q = write_entry d p in
    ap
      (λ o.
        (send_query_image_response sdk a update_available
          (write_fetched (available url size version version_str) o p)).0)
      found
    ∙ send_query_image_response-offer sdk a d q node name valid
        (put_entry-found p.peer e d p.requestors found
          (find_entry-node p.peer p.requestors e found))
        may at
        (ap file_name (take_all 255 url (omega arith))
          ∙ ap file_name splits
          ∙ file_name-++ path name plain)
        small free prepared
    ∙ ap
        (λ s.
          query_image_response update_available
            (some (record {
              image_uri = uri_or_empty (sdk.make_uri node name e.image_uri);
              software_version = version;
              software_version_string = s;
              update_token = a.random_token;
            }))
            none)
        (take_all 63 version_str (omega arith))
