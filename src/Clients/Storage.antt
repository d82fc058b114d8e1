-- ===== src/Clients/Storage.antt =====
-- The client of the storage daemon: pkg/clients/ton-storage/client.go. The HTTP transport, with its
-- timeout, and the JSON encoder and decoders are a parameter, `Transport`.
pub mod Answers
use mytonstorage_gateway.Common.{
  Bool, Option, [], if◌then◌else◌, none, some, ℕ, ◌&&◌, ◌++◌, ◌==◌, ◌||◌,
}
use mytonstorage_gateway.Models.{
  GoError, Result, err, err_not_found, error_text, is_not_found, ok, plain_error, wrap,
}
use mytonstorage_gateway.Services.Files.{BagDetailed}
use mytonstorage_gateway.Text.{Bytes, Unicode, bytes_eq, contains, text, to_lower}
use mytonstorage_gateway.Text.Decimal.{decimal}

-- `Credentials`
pub record Credentials : Type 0 where
  pub login : Bytes
  pub password : Bytes

-- `Result`
pub record ApiResult : Type 0 where
  pub ok_flag : Bool
  pub error : Bytes

-- The request of `AddBag`; its field `files` is always null.
pub record AddRequest : Type 0 where
  pub bag_id : Bytes
  pub path : Bytes
  pub download_all : Bool

pub record HttpRequest : Type 0 where
  pub method : Bytes
  pub url : Bytes
  pub body : Bytes
  pub basic_auth : Option Credentials

pub record HttpResponse : Type 0 where
  pub status_code : ℕ
  pub body : Bytes

pub record Transport : Type 1 where
  pub World : Type 0
  -- `json.NewEncoder(buf).Encode`, and `json.NewDecoder(res.Body).Decode`
  pub encode_add : AddRequest → Result Bytes
  pub decode_result : Bytes → Result ApiResult
  pub decode_bag : Bytes → Result BagDetailed
  -- the error of `http.NewRequestWithContext`, for the method and the address
  pub new_request : Bytes → Bytes → Option GoError
  pub do_http : HttpRequest → World → Result HttpResponse × World

-- `client`
pub record StorageClient : Type 0 where
  pub base_url : Bytes
  pub root_path : Bytes
  pub credentials : Option Credentials

-- `NewClient`
abbrev pub new_storage_client : Bytes → Bytes → Option Credentials → StorageClient
new_storage_client base_url root_path credentials = record {
  base_url = base_url;
  root_path = root_path;
  credentials = credentials;
}

-- `isAlreadyExistsError`, of an error that is not nil
unfoldable pub is_already_exists_error : ⦃u : Unicode⦄ → GoError → Bool
is_already_exists_error e =
    let msg = to_lower (error_text e) in
    contains msg (text "already") || contains msg (text "exist")

abbrev pub wrap_error : {A : Type 0} → Bytes → Result A → Result A
wrap_error m (ok a) = ok a
wrap_error m (err e) = err (wrap m e)

module _ (h : Transport) where
  -- The error of a response that is neither 200 nor 404.
  unfoldable pub status_error : HttpResponse → GoError
  status_error res = elim (h.decode_result res.body) [
    | err e ↦ wrap (text "failed to decode response: ") e
    | ok r ↦
        plain_error
          (text "status code is " ++ decimal res.status_code ++ text ", error: " ++ r.error)
  ]

  module _ {A : Type 0} (decode : Bytes → Result A) where
    -- `doRequest` once there is a response
    unfoldable pub read_response : Result HttpResponse → Result A
    read_response (err e) = err (wrap (text "failed to make request: ") e)
    read_response (ok res) =
        if res.status_code == 404
        then err err_not_found
        else if res.status_code == 200
        then wrap_error (text "failed to decode response: ") (decode res.body)
        else err (status_error res)

    -- `doRequest`, with the encoded body
    unfoldable pub do_request :
        StorageClient → Bytes → Bytes → Result Bytes → h.World → Result A × h.World
    do_request c method url (err e) w = (err (wrap (text "failed to encode request data: ") e), w)
    do_request c method url (ok body) w = elim (h.new_request method (c.base_url ++ url)) [
      | some e ↦ (err (wrap (text "failed to build request: ") e), w)
      | none ↦
          let (res, w') =
            h.do_http
              (record {
                method = method;
                url = c.base_url ++ url;
                body = body;
                basic_auth = c.credentials;
              })
              w in
          (read_response res, w')
    ]

  -- `GetBag` of what `doRequest` returned
  unfoldable pub get_bag_reply : Result BagDetailed → Result BagDetailed
  get_bag_reply (err e) =
      if is_not_found e then err err_not_found else err (wrap (text "failed to do request: ") e)
  get_bag_reply (ok bag) =
      if bag.info_loaded && bytes_eq bag.merkle_hash []
      then err (plain_error (text "too old tonutils-storage version, please update"))
      else ok bag

  unfoldable pub get_bag : StorageClient → Bytes → h.World → Result BagDetailed × h.World
  get_bag c bag_id w =
      let (res, w') =
        do_request h.decode_bag c (text "GET") (text "/api/v1/details?bag_id=" ++ bag_id) (ok [])
          w in
      (get_bag_reply res, w')

  module _ ⦃u : Unicode⦄ where
    -- `AddBag` of what `doRequest` returned
    unfoldable pub add_bag_reply : Result ApiResult → Option GoError
    add_bag_reply (err e) =
        if is_already_exists_error e then none else some (wrap (text "failed to do request: ") e)
    add_bag_reply (ok res) =
        if res.ok_flag
        then none
        else if is_already_exists_error (plain_error res.error)
        then none
        else some (plain_error (text "error in response: " ++ res.error))

    unfoldable pub add_bag : StorageClient → Bytes → Bool → h.World → Option GoError × h.World
    add_bag c bag_id download_all w =
        let (res, w') =
          do_request h.decode_result c (text "POST") (text "/api/v1/add")
            (h.encode_add
              (record { bag_id = bag_id; path = c.root_path; download_all = download_all }))
            w in
        (add_bag_reply res, w')
