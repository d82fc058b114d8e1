-- ===== src/Tests/Paths.antt =====
-- Paths and bag IDs.
use mytonstorage_gateway.Common.{Bool, refl, some, true, ◌↔◌, ◌≡◌}
use mytonstorage_gateway.FilePath.{clean, clean_from, clean_step, render}
use mytonstorage_gateway.HttpServer.Validate.{sanitize_path, validate_bag_id}
use mytonstorage_gateway.HttpServer.Validate.BagId.{IsBagId, validate_bag_id-total}
use mytonstorage_gateway.HttpServer.Validate.Sanitize.{
  IsRefused, IsSafePath, IsUnsafe, sanitize_path-IsSafePath, sanitize_path-IsRefused_iff,
}
use mytonstorage_gateway.Models.{app, err, new_app_error, ok}
use mytonstorage_gateway.Tests.Sample.{plain_unicode}
use mytonstorage_gateway.Text.{is_space, join, split, text, trim_right_rev, trim_space}

clean_test : clean (text "/a/../../etc//./x/") ≡ text "/etc/x"
unfolding clean clean_from clean_step render split join
clean_test = refl

sanitize_test : sanitize_path (text " docs//./a/../b.txt ") ≡ ok (text "docs/b.txt")
unfolding sanitize_path trim_space is_space trim_right_rev clean clean_from clean_step render split
    join
sanitize_test = refl

climb_test :
    sanitize_path (text "a/../../b")
    ≡ err (app (record { code = 400; message = text "invalid segment in path" }))
unfolding sanitize_path trim_space is_space trim_right_rev clean clean_from clean_step render split
    join new_app_error
climb_test = refl

validate_bag_id-total_example :
    (b : Bool) × (validate_bag_id (text "zz") ≡ some b) × ((b ≡ true) ↔ IsBagId (text "zz"))
validate_bag_id-total_example = validate_bag_id-total (text "zz")

sanitize_path-IsSafePath_example : IsSafePath (text "docs/b.txt")
sanitize_path-IsSafePath_example =
    sanitize_path-IsSafePath (text " docs//./a/../b.txt ") sanitize_test

sanitize_path-IsRefused_iff_example : IsRefused (text "../x") ↔ IsUnsafe (trim_space (text "../x"))
sanitize_path-IsRefused_iff_example = sanitize_path-IsRefused_iff (text "../x")
