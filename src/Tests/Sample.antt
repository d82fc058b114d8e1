-- ===== src/Tests/Sample.antt =====
-- Sample data: the tables of ASCII text, a bag and an outside world.
use Prim.Native.String.{String}
use mytonstorage_gateway.Common.{List, [], false, inl, none, some, true, ℕ, ◌+◌, ◌∷◌, ◌≢◌, ◌≤◌}
use mytonstorage_gateway.Models.{err_timeout, ok}
use mytonstorage_gateway.Services.Files.{BagDetailed, BagFile}
use mytonstorage_gateway.Services.Files.Ensure.{Outside}
use mytonstorage_gateway.Services.Files.Monad.{State}
use mytonstorage_gateway.Text.{Bytes, Unicode, bytes_eq, text}

abbrev pub ascii_lower_rune : Bytes → Bytes × ℕ
ascii_lower_rune [] = ([], 0)
ascii_lower_rune (c ∷ s) = (c ∷ [], 0)

pub ascii_lower_rune-ne-nil : (c : ℕ) (s : Bytes) → 128 ≤ c → (ascii_lower_rune (c ∷ s)).0 ≢ []
ascii_lower_rune-ne-nil c s h e = cc

-- No rune outside ASCII is changed.
instance abbrev pub plain_unicode : Unicode
plain_unicode = record {
  lower_rune = ascii_lower_rune;
  lower_rune-ne-nil = ascii_lower_rune-ne-nil;
  lower_rune-IsForeign = λ c s h. (inl h, tt);
  trim_func = λ s. s;
  trim_right_func = λ s. s;
}

abbrev pub bag_file : String → ℕ → BagFile
bag_file name size = record { index = 0; name = text name; size = size }

abbrev pub sample_files : List BagFile
sample_files =
    bag_file "readme.txt" 12
    ∷ bag_file "docs/b.txt" 7
    ∷ bag_file "docs/a/x" 1
    ∷ bag_file "a.txt" 3
    ∷ []

abbrev pub sample_bag : BagDetailed
sample_bag = record {
  description = text "sample";
  size = 23;
  dir_name = text "files";
  header_loaded = true;
  info_loaded = true;
  files = sample_files;
  peers = 2;
  merkle_hash = text "m";
  path = text "/var/bags/1";
}

-- A world that is a clock in milliseconds. The storage has the sample bag; the bag "bad" is banned.
abbrev pub sample_outside : Outside
sample_outside = record {
  World = ℕ;
  has_ban = λ b w. (ok (bytes_eq b (text "bad")), w + 1);
  get_bag = λ b w. (ok sample_bag, w + 1);
  add_bag = λ b all w. (none, w);
  remote_is_nil = false;
  list_files = λ b w. (
    (record { description = []; total_size = 0; peers_count = 0; files = [] }, some err_timeout),
    w,
  );
  remote_stream_file =
      λ b p w. ((record { file_stream = none; size = 0; peers_count = 0 }, some err_timeout), w);
  now = λ w. (w, w);
  wait = λ n w. (none, w + n);
  lock = λ m w. w;
  unlock = λ m w. w;
}

abbrev pub start : State ℕ
start = record { locks = record { mutexes = none; allocated = 0 }; world = 5 }
