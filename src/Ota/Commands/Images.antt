-- ===== src/Ota/Commands/Images.antt =====
-- `ota_set_image_handler` of led_orchestra_ota_provider.cpp and the searches for the image that it registers.
use led_orchestra.Base.{
  ℕ, ◌-◌, ◌^◌, ◌<◌, ◌≡◌, refl, sym, ap, ap₂, ◌∙◌, Bool, true, false, ◌&&◌, ◌||◌, Option, some, List,
  [], ◌∷◌, arith, ltb, leb, ◌==◌, if◌then◌else◌, length, take, take_all,
}
use mathlib.Core.Path.{subst}
use led_orchestra.Base.Words.{u16}
use led_orchestra.Platform.{EspErr, esp_err_invalid_arg, is_ok}
use led_orchestra.Ota.Results.{past_guard}
use led_orchestra.Ota.Candidates.{
  Cache, FetchAction, fetch_handler, available, not_available, ota_url_max_len,
  software_version_str_max_len,
}
use led_orchestra.Ota.Candidates.Offers.{lengths_fit, register_local_candidate-fetch_handler}
use led_orchestra.Ota.Commands.{
  parse_u32, LocalOtaCandidate, paired, stage_image, register_image, ota_set_image_handler,
}

-- What a search finds after the image is staged.
abbrev pub Offers :
    List ℕ
    → List ℕ
    → ℕ
    → ℕ
    → ℕ
    → ℕ
    → FetchAction
    → Cache
    → EspErr × (LocalOtaCandidate × Cache)
    → Type 0
Offers uri version_str version size vendor product a cache r = fetch_handler a r.1.1.slots ≡ (
    if (vendor == a.vendor_id) && (product == a.product_id)
    then (if ltb a.software_version version
        then available uri size version version_str
        else not_available)
    else fetch_handler a cache.slots)

in_range :
    (version current : ℕ)
    → current < 2 ^ 32
    → (ltb current version && leb current (2 ^ 32 - 1) && leb 0 current) ≡ ltb current version
in_range version current h = ground arith

u16_small : (n : ℕ) → ltb 0xFFFF n ≡ false → u16 n ≡ n
u16_small n h = ground arith

small_ids :
    (m n : ℕ)
    → (ltb 0xFFFF m || ltb 0xFFFF n) ≡ false
    → (ltb 0xFFFF m ≡ false) × (ltb 0xFFFF n ≡ false)
small_ids m n h = ground arith

same_offer :
    (version size vendor product v p : ℕ) (uri url version_str str : List ℕ) (a : FetchAction)
    (cache : Cache)
    → v ≡ vendor
    → p ≡ product
    → url ≡ uri
    → str ≡ version_str
    → a.software_version < 2 ^ 32
    → (if (v == a.vendor_id) && (p == a.product_id)
        then (if ltb a.software_version version
              && leb a.software_version (2 ^ 32 - 1)
              && leb 0 a.software_version
            then available url size version str
            else not_available)
        else fetch_handler a cache.slots)
      ≡ (if (vendor == a.vendor_id) && (product == a.product_id)
          then (if ltb a.software_version version
              then available uri size version version_str
              else not_available)
          else fetch_handler a cache.slots)
same_offer version size vendor product v p uri url version_str str a cache hv hp hu hs word =
    rw (hv, hp, hu, hs, in_range version a.software_version word) refl

stage_image-Offers :
    (allocated : Bool) (uri version_str : List ℕ) (version size vendor product : ℕ)
    (staged : LocalOtaCandidate) (cache : Cache) (a : FetchAction)
    → a.software_version < 2 ^ 32
    → length uri < ota_url_max_len
    → length version_str < software_version_str_max_len
    → is_ok
        (stage_image allocated uri version_str
          (some ((version, size), (vendor, product)))
          staged
          cache).0
      ≡ true
    → Offers uri version_str version size vendor product a cache (
        stage_image allocated uri version_str
          (some ((version, size), (vendor, product)))
          staged
          cache)
stage_image-Offers allocated uri version_str version size vendor product staged cache a word fits
      short ok =
    let str = take (software_version_str_max_len - 1) version_str in
    let url = take (ota_url_max_len - 1) uri in
    let last = register_image allocated url str version size (u16 vendor) (u16 product) cache in
    let (ids, past, ok1) =
      past_guard (ltb 0xFFFF vendor || ltb 0xFFFF product) (esp_err_invalid_arg, (staged, cache))
        last refl ok in
    let (small_vendor, small_product) = small_ids vendor product ids in
    ap (λ (r : EspErr × (LocalOtaCandidate × Cache)). fetch_handler a r.1.1.slots) past
    ∙ register_local_candidate-fetch_handler allocated (u16 vendor) (u16 product) version str url
        size 0 (2 ^ 32 - 1) cache a ok1
    ∙ same_offer version size vendor product (u16 vendor) (u16 product) uri url version_str str a
        cache (u16_small vendor small_vendor) (u16_small product small_product)
        (take_all 255 uri (omega arith)) (take_all 63 version_str (omega arith)) word

-- A `lo-ota-set-image` that succeeds: a node of that vendor and product with an older version is found the given
-- URL, size and version string; one that has the version, or a newer one, is found nothing; and
-- the searches for other products are answered as before. The numbers are what the arguments are read as.
pub ota_set_image_handler-Offers :
    (allocated : Bool) (uri version_text version_str size_text vendor_text product_text : List ℕ)
    (version size vendor product : ℕ) (staged : LocalOtaCandidate) (cache : Cache) (a : FetchAction)
    → a.software_version < 2 ^ 32
    → parse_u32 version_text ≡ some version
    → parse_u32 size_text ≡ some size
    → parse_u32 vendor_text ≡ some vendor
    → parse_u32 product_text ≡ some product
    → let r =
        ota_set_image_handler allocated
          (uri ∷ (version_text ∷ (version_str ∷ (size_text ∷ (vendor_text ∷ (product_text ∷ []))))))
          staged
          cache in
      is_ok r.0 ≡ true → Offers uri version_str version size vendor product a cache r
unfolding ota_set_image_handler
ota_set_image_handler-Offers allocated uri version_text version_str size_text vendor_text
      product_text version size vendor product staged cache a word v s vi pr ok =
    let image =
      λ (o : Option ((ℕ × ℕ) × (ℕ × ℕ))). stage_image allocated uri version_str o staged cache in
    let parsed =
      paired (paired (parse_u32 version_text) (parse_u32 size_text))
        (paired (parse_u32 vendor_text) (parse_u32 product_text)) in
    let all : parsed ≡ some ((version, size), (vendor, product)) =
      ap₂ paired (ap₂ paired v s) (ap₂ paired vi pr) in
    let (fits, past, ok1) =
      past_guard
        (leb ota_url_max_len (length uri) || leb software_version_str_max_len (length version_str))
        (esp_err_invalid_arg, (staged, cache)) (image parsed) refl ok in
    let (short, shorter) = lengths_fit (length uri) (length version_str) fits in
    subst (Offers uri version_str version size vendor product a cache) (sym (past ∙ ap image all)) (
      stage_image-Offers allocated uri version_str version size vendor product staged cache a word
        short shorter
        (subst (λ (o : Option ((ℕ × ℕ) × (ℕ × ℕ))). is_ok (image o).0 ≡ true) all ok1))
