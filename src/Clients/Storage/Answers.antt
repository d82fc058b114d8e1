-- ===== src/Clients/Storage/Answers.antt =====
-- What the answers of the daemon become.
use mytonstorage_gateway.Common.{
  All-append, All-reverse, Bool, Bool-cases, [], all, arith, false, inl, inr, ltb, map, none, refl,
  suc, true, zero, ℕ, ◌&&◌, ◌++◌, ◌/◌, ◌↔◌, ◌∷◌, ◌≡◌, ◌≢◌,
}
use mytonstorage_gateway.Clients.Storage.{
  ApiResult, HttpRequest, HttpResponse, StorageClient, Transport, add_bag, add_bag_reply,
  do_request, get_bag, get_bag_reply, is_already_exists_error, read_response, status_error,
  wrap_error,
}
use mytonstorage_gateway.Models.{
  GoError, Result, err, err_not_found, error_text, is_not_found, ok, plain_error,
}
use mytonstorage_gateway.Repositories.Measured.{replied}
use mytonstorage_gateway.Services.Files.{BagDetailed}
use mytonstorage_gateway.Text.{Bytes, Unicode, bytes_eq, contains, lower_byte, text, to_lower}
use mytonstorage_gateway.Text.Decimal.{decimal, digits_rev}
use mytonstorage_gateway.Text.Lower.{IsAscii, to_lower-append}

-- No error of the value is `ErrNotFound`.
abbrev IsOther : {A : Type 0} → Result A → Type 0
IsOther (ok a) = Unit
IsOther (err e) = is_not_found e ≡ false

wrap_error-IsOther :
    {A : Type 0} (m : Bytes) (r : Result A)
    → ((e : GoError) → r ≡ err e → is_not_found e ≡ false)
    → IsOther (wrap_error m r)
wrap_error-IsOther m (ok a) h = tt
wrap_error-IsOther m (err e) h = h e refl

module _ (h : Transport) (c : StorageClient) (bag_id : Bytes) (w : h.World) where
  -- The request of `GetBag`.
  abbrev pub bag_request : HttpRequest
  bag_request = record {
    method = text "GET";
    url = c.base_url ++ (text "/api/v1/details?bag_id=" ++ bag_id);
    body = [];
    basic_auth = c.credentials;
  }

  -- A bag that a daemon of today has described.
  abbrev pub IsDescribed : HttpResponse → BagDetailed → Type 0
  IsDescribed res bag =
      (res.status_code ≡ 200)
      × (h.decode_bag res.body ≡ ok bag)
      × ((bag.info_loaded && bytes_eq bag.merkle_hash []) ≡ false)

  -- `GetBag` returns a bag if and only if the daemon answers 200 with the JSON of that bag, which
  -- has a Merkle hash if its information is loaded.
  pub get_bag_iff :
      (res : HttpResponse) (bag : BagDetailed)
      → h.new_request (text "GET") bag_request.url ≡ none
      → (h.do_http bag_request w).0 ≡ ok res
      → ((get_bag h c bag_id w).0 ≡ ok bag) ↔ IsDescribed res bag
  unfolding get_bag get_bag_reply do_request read_response
  get_bag_iff res bag built replied =
      (λ e. ground (arith, e, built, replied), λ e. ground (arith, e, built, replied))

  status_error_other :
      (res : HttpResponse)
      → ((e : GoError) → h.decode_result res.body ≡ err e → is_not_found e ≡ false)
      → is_not_found (status_error h res) ≡ false
  unfolding status_error
  status_error_other res known = go (h.decode_result res.body) refl
    where
      go :
          (r : Result ApiResult)
          → h.decode_result res.body ≡ r
          → is_not_found (status_error h res) ≡ false
      go (ok r) e = rw (status_error, e) refl
      go (err x) e = rw (status_error, e) (known x e)

  -- `GetBag` returns `ErrNotFound` if and only if the daemon answers 404, if no error of the JSON
  -- decoders is one.
  pub get_bag-not_found_iff :
      (res : HttpResponse)
      → h.new_request (text "GET") bag_request.url ≡ none
      → (h.do_http bag_request w).0 ≡ ok res
      → ((body : Bytes) (e : GoError) → h.decode_bag body ≡ err e → is_not_found e ≡ false)
      → ((body : Bytes) (e : GoError) → h.decode_result body ≡ err e → is_not_found e ≡ false)
      → ((get_bag h c bag_id w).0 ≡ err err_not_found) ↔ (res.status_code ≡ 404)
  unfolding get_bag get_bag_reply do_request read_response status_error
  get_bag-not_found_iff res built replied decoded decoded' = (
    λ e. ground (
      arith,
      e,
      built,
      replied,
      status_error_other res (decoded' res.body),
      wrap_error-IsOther (text "failed to decode response: ") (h.decode_bag res.body)
          (decoded res.body),
    ),
    λ e. ground (arith, e, built, replied),
  )

contains-append : (s t part : Bytes) → contains t part ≡ true → contains (s ++ t) part ≡ true
unfolding contains
contains-append [] t part h = h
contains-append (c ∷ s) t part h = ground (arith, contains-append s t part h)

all-IsAscii : (s : Bytes) → all (λ c. ltb c 128) s ≡ true → IsAscii s
all-IsAscii [] h = tt
all-IsAscii (c ∷ s) h = (ground (arith, h), all-IsAscii s (ground (arith, h)))

digits_rev-IsAscii : (fuel n : ℕ) → IsAscii (digits_rev fuel n)
unfolding digits_rev
digits_rev-IsAscii zero n = tt
digits_rev-IsAscii (suc fuel) n = elim (Bool-cases (ltb n 10)) [
  | inl small ↦ rw small (ground (arith, small), tt)
  | inr large ↦ rw large (omega arith, digits_rev-IsAscii fuel (n / 10))
]

decimal-IsAscii : (n : ℕ) → IsAscii (decimal n)
unfolding decimal
decimal-IsAscii n = All-reverse _ (digits_rev (suc n) n) (digits_rev-IsAscii (suc n) n)

module _ ⦃u : Unicode⦄ where
  -- An error that begins with ASCII text and goes on with a known message.
  known-append :
      (s message : Bytes)
      → IsAscii s
      → is_already_exists_error (plain_error message) ≡ true
      → is_already_exists_error (plain_error (s ++ message)) ≡ true
  unfolding is_already_exists_error error_text
  known-append s message ascii known = rw (to_lower-append s message ascii) (
      ground (
        arith,
        known,
        contains-append (map lower_byte s) (to_lower message) (text "already"),
        contains-append (map lower_byte s) (to_lower message) (text "exist"),
      ))

  module _ (h : Transport) (c : StorageClient) (bag_id : Bytes) (download_all : Bool)
      (w : h.World) where
    -- The request of `AddBag`, with that body.
    abbrev pub add_request : Bytes → HttpRequest
    add_request body = record {
      method = text "POST";
      url = c.base_url ++ text "/api/v1/add";
      body = body;
      basic_auth = c.credentials;
    }

    status_error-message :
        (res : HttpResponse) (r : ApiResult)
        → h.decode_result res.body ≡ ok r
        → is_already_exists_error (plain_error r.error) ≡ true
        → is_already_exists_error (status_error h res) ≡ true
    unfolding status_error is_already_exists_error
    status_error-message res r decoded known =
        rw (status_error, decoded)
          (known-append (text "status code is " ++ decimal res.status_code ++ text ", error: ")
            r.error ascii known)
      where
        ascii : IsAscii (text "status code is " ++ decimal res.status_code ++ text ", error: ")
        ascii =
            All-append _ (text "status code is " ++ decimal res.status_code) (text ", error: ")
              (All-append _ (text "status code is ") (decimal res.status_code)
                (all-IsAscii (text "status code is ") refl) (decimal-IsAscii res.status_code))
              (all-IsAscii (text ", error: ") refl)

    -- A bag that the daemon already has is no error of `AddBag`, whichever way the daemon says so:
    -- if its answer, of any status but 404, holds a message with "already" or "exist" in it, in
    -- lower or upper case, then `AddBag` returns nil.
    pub add_bag_known :
        (body : Bytes) (res : HttpResponse) (r : ApiResult)
        → h.encode_add (record { bag_id = bag_id; path = c.root_path; download_all = download_all })
          ≡ ok body
        → h.new_request (text "POST") (add_request body).url ≡ none
        → (h.do_http (add_request body) w).0 ≡ ok res
        → res.status_code ≢ 404
        → h.decode_result res.body ≡ ok r
        → is_already_exists_error (plain_error r.error) ≡ true
        → (add_bag h c bag_id download_all w).0 ≡ none
    unfolding add_bag add_bag_reply do_request read_response
    add_bag_known body res r encoded built replied status decoded known = ground (
      arith,
      encoded,
      built,
      replied,
      status,
      decoded,
      known,
      status_error-message res r decoded known,
    )
