-- ===== src/HttpServer/Contained.antt =====
-- From `sanitizePath` of pkg/httpServer/helpers.go to the file of a bag on disk.
use mytonstorage_gateway.Common.{
  All, All-imp, List, [], inl, inr, none, refl, some, ◌++◌, ◌∷◌, ◌≡◌, ◌≢◌,
}
use mytonstorage_gateway.FilePath.{clean, clean_parts, is_rooted, join_path, render, slash}
use mytonstorage_gateway.FilePath.Clean.{IsPlain}
use mytonstorage_gateway.FilePath.Join.{join_path-render}
use mytonstorage_gateway.HttpServer.Validate.{sanitize_path}
use mytonstorage_gateway.HttpServer.Validate.Sanitize.{
  IsEntry, IsSafePath, sanitize_path-IsSafePath,
}
use mytonstorage_gateway.Models.{ok}
use mytonstorage_gateway.Services.Files.{BagDetailed, FolderInfo}
use mytonstorage_gateway.Services.Files.Ensure.{Outside}
use mytonstorage_gateway.Services.Files.Monad.{State}
use mytonstorage_gateway.Services.Files.Service.{get_path_info}
use mytonstorage_gateway.Services.Files.Service.Answer.{get_path_info-IsAnswer}
use mytonstorage_gateway.Text.{Bytes, Unicode}

-- The path reads: the directory of the bag, cleaned, and then names of entries, none of which goes
-- up.
pub record IsContained (bag : BagDetailed) (file : Bytes) : Type 0 where
  pub parts : List Bytes
  pub entries : All IsEntry parts
  pub shape :
      file ≡ render (is_rooted bag.path) (clean_parts (bag.path ++ slash ∷ bag.dir_name) ++ parts)

join_path-IsContained :
    (bag : BagDetailed) (path : Bytes)
    → bag.path ≢ []
    → IsSafePath path
    → IsContained bag (join_path (bag.path ∷ bag.dir_name ∷ path ∷ []))
join_path-IsContained bag path ne safe = go bag.path refl
  where
    go :
        (root : Bytes)
        → bag.path ≡ root
        → IsContained bag (join_path (bag.path ∷ bag.dir_name ∷ path ∷ []))
    go [] e = absurd (ne e)
    go (c ∷ root) e = record {
      parts = safe.parts;
      entries = safe.entries;
      shape =
          rw (e, safe.shape)
            (join_path-render c root bag.dir_name safe.rooted safe.parts
              (All-imp IsEntry IsPlain (λ w h. h.0) safe.parts safe.entries));
    }

module _ ⦃u : Unicode⦄ where
  -- For every path that a client can send: if it passes `sanitizePath` and the service answers with
  -- a file of a bag on disk, that file lies in the directory of the bag, at or below it, where the
  -- storage daemon reports no bag with an empty path.
  pub get_path_info-IsContained :
      (o : Outside) (bag_id raw path : Bytes) (s s' : State o.World) (info : FolderInfo)
      → sanitize_path raw ≡ ok path
      → get_path_info o bag_id path s ≡ some ((info, none), s')
      → ((w : o.World) (bag : BagDetailed) → (o.get_bag bag_id w).0 ≡ ok bag → bag.path ≢ [])
      → info.single_file_path ≢ []
      → (w : o.World) × (bag : BagDetailed) × ((o.get_bag bag_id w).0 ≡ ok bag)
        × IsContained bag info.single_file_path
  get_path_info-IsContained o bag_id raw path s s' info clean e placed file =
      let (free, answer) = get_path_info-IsAnswer o bag_id path s s' info e in
      elim answer.origin [
        | inl (w, bag, got, same, stream, inl nil) ↦ absurd (file nil)
        | inl (w, bag, got, same, stream, inr at_path) ↦ (
          w,
          bag,
          got,
          rw at_path (
              join_path-IsContained bag path (placed w bag got)
                (sanitize_path-IsSafePath raw clean)),
        )
        | inr (w, found, got, same, nil, size) ↦ absurd (file nil)
      ]
