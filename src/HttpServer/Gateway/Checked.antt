-- ===== src/HttpServer/Gateway/Checked.antt =====
-- What `getBagInfoResponse` of pkg/httpServer/methods.go asks of the service of files.
use mytonstorage_gateway.Common.{
  Bool, Bool-cases, Option, arith, false, inl, inr, none, refl, some, true, ◌↔◌, ◌≡◌, ◌⊎◌,
}
use mytonstorage_gateway.HttpServer.Gateway.{
  Request, Site, beside, get_bag_info_response, look_up, respond, respond_reply,
  should_serve_loading_shell,
}
use mytonstorage_gateway.HttpServer.Response.{Sent}
use mytonstorage_gateway.HttpServer.Serve.{Answer}
use mytonstorage_gateway.HttpServer.Validate.{sanitize_path, validate_bag_id}
use mytonstorage_gateway.HttpServer.Validate.BagId.{IsBagId, validate_bag_id-total}
use mytonstorage_gateway.HttpServer.Validate.Sanitize.{IsSafePath, sanitize_path-IsSafePath}
use mytonstorage_gateway.Models.{Result, err, ok}
use mytonstorage_gateway.Services.Files.Local.{Reply}
use mytonstorage_gateway.Text.{Bytes, Unicode}

module _ ⦃u : Unicode⦄ where
  -- The service was asked, for a well-formed bag ID and the cleaned path, which has no way up, and it
  -- left the world as it is after the request.
  pub record IsAsked (site : Site) (bag_id raw : Bytes) (w w' : site.World) : Type 0 where
    pub path : Bytes
    pub reply : Reply
    pub id : IsBagId bag_id
    pub cleaned : sanitize_path raw ≡ ok path
    pub safe : IsSafePath path
    pub answered : site.files bag_id path w ≡ some (reply, w')

  module _ (site : Site) where
    beside-world :
        (w w' : site.World) (response : Option (Sent Answer)) (r : Sent Answer)
        → beside w response ≡ some (r, w')
        → w' ≡ w
    beside-world w w' none r e = absurd (ground arith)
    beside-world w w' (some r') r e = ground arith

    respond_reply-world :
        (path : Bytes) (asked : Option (Reply × site.World)) (w' : site.World) (r : Sent Answer)
        → respond_reply site path asked ≡ some (r, w')
        → (reply : Reply) × (asked ≡ some (reply, w'))
    respond_reply-world path none w' r e = absurd (ground arith)
    respond_reply-world path (some ((info, none), w)) w' r e =
        ((info, none), rw (beside-world w w' (respond site path info) r e) refl)
    respond_reply-world path (some ((info, some x), w)) w' r e = ((info, some x), ground arith)

    look_up-world :
        (req : Request) (bag_id path : Bytes) (w w' : site.World) (r : Sent Answer)
        → look_up site req bag_id path w ≡ some (r, w')
        → (w' ≡ w) ⊎ ((reply : Reply) × (site.files bag_id path w ≡ some (reply, w')))
    look_up-world req bag_id path w w' r e = elim (Bool-cases (should_serve_loading_shell req)) [
      | inl shell ↦ inl (unfold look_up in ground arith)
      | inr no_shell ↦ inr (
          respond_reply-world path (site.files bag_id path w) w' r (unfold look_up in ground arith))
    ]

    -- A request to the gateway leaves the world as it is, or the service was asked for a well-formed
    -- bag ID and a path without a way up: nothing else of a request reaches the database, the storage
    -- or the network.
    pub get_bag_info_response-IsAsked :
        (req : Request) (bag_id raw : Bytes) (w w' : site.World) (r : Sent Answer)
        → get_bag_info_response site req bag_id raw w ≡ some (r, w')
        → (w' ≡ w) ⊎ IsAsked site bag_id raw w w'
    get_bag_info_response-IsAsked req bag_id raw w w' r e =
        let (valid, was, iff) = validate_bag_id-total bag_id in
        go valid was iff (sanitize_path raw) refl
      where
        go :
            (valid : Bool)
            → validate_bag_id bag_id ≡ some valid
            → (valid ≡ true) ↔ IsBagId bag_id
            → (path : Result Bytes) → sanitize_path raw ≡ path
            → (w' ≡ w) ⊎ IsAsked site bag_id raw w w'
        go false was iff path q = inl (unfold get_bag_info_response in ground arith)
        go true was iff (err x) q = inl (unfold get_bag_info_response in ground arith)
        go true was iff (ok path) q =
            elim (look_up-world req bag_id path w w' r
              (unfold get_bag_info_response in ground arith)) [
                | inl same ↦ inl same
                | inr (reply, answered) ↦ inr (record {
                  path = path;
                  reply = reply;
                  id = iff.0 refl;
                  cleaned = q;
                  safe = sanitize_path-IsSafePath raw q;
                  answered = answered;
                })
              ]
