-- ===== src/Tests/Sql.antt =====
-- The statements over small tables, and the storage daemon behind a small transport.
use mytonstorage_gateway.Common.{
  Bool, List, Option, [], arith, false, none, pos, refl, true, ℕ, ◌+◌, ◌↔◌, ◌∷◌, ◌≡◌,
}
use mytonstorage_gateway.Clients.Storage.{
  HttpResponse, StorageClient, Transport, add_bag, get_bag, is_already_exists_error,
  new_storage_client,
}
use mytonstorage_gateway.Clients.Storage.Answers.{
  IsDescribed, add_bag_known, get_bag-not_found_iff, get_bag_iff,
}
use mytonstorage_gateway.Dict.{lookup}
use mytonstorage_gateway.Models.{GoError, err, err_not_found, error_text, ok}
use mytonstorage_gateway.Repositories.{DbBanStatus, DbReport, new_cache}
use mytonstorage_gateway.Repositories.Measured.{
  Measured, RepositoryCall, call_all_measured, call_all_measured-transparent, call_all_plain,
  calls_add_report, calls_has_ban, labels_of, new_metrics,
}
use mytonstorage_gateway.Repositories.Sql.{
  ReportRow, Statement, Tables, char_length, fits, insert_into_reports, insert_newest,
  new_repository, newest_first, page_of, report_of_row, reports_of_bag, select_all_reports,
  select_has_ban,
}
use mytonstorage_gateway.Repositories.Sql.Bans.{is_banned}
use mytonstorage_gateway.Repositories.Sql.History.{
  Call, Trace, asks, banned_set, cached-Trace, perform_all, updates,
}
use mytonstorage_gateway.Repositories.Sql.Pages.{
  insert_into_reports-selected, select_all_reports-joined, stored_at,
}
use mytonstorage_gateway.Services.Files.{BagDetailed}
use mytonstorage_gateway.Tests.Sample.{plain_unicode}
use mytonstorage_gateway.Text.{Bytes, contains, text, to_lower}

abbrev pub no_fault : Statement → Tables → Option GoError
no_fault q t = none

abbrev pub sample_row : ReportRow
sample_row = record {
  bag_id = text "aa";
  reason = text "spam";
  sender = [];
  comment = [];
  created_at = pos 5;
}

abbrev pub sample_tables : Tables
sample_tables = record {
  blacklist = [];
  reports = sample_row ∷ record sample_row { bag_id = text "bb"; created_at = pos 9 } ∷ [];
  clock = λ k. pos 20;
  statements = 0;
}

abbrev pub a_ban : Bytes → Bool → DbBanStatus
a_ban b status = record {
  bag_id = b;
  admin = [];
  reason = [];
  comment = [];
  status = status;
  created_at = none;
}

abbrev sample_calls : List Call
sample_calls =
    updates (λ k. k) (a_ban (text "aa") true ∷ a_ban (text "bb") false ∷ [])
    ∷ asks 5 6 (text "aa")
    ∷ []

cached-Trace_example :
    Trace
      (λ b. is_banned b sample_tables)
      sample_calls
      (perform_all
        (new_repository no_fault)
        sample_calls
        (new_cache (new_repository no_fault) sample_tables)).0
      (banned_set no_fault
        (perform_all
          (new_repository no_fault)
          sample_calls
          (new_cache (new_repository no_fault) sample_tables)).1)
unfolding to_lower lookup
cached-Trace_example =
    cached-Trace no_fault sample_calls sample_tables
      ((((refl, (refl, tt)), (refl, (refl, tt))), (refl, tt)))

abbrev sample_report : DbReport
sample_report = record {
  bag_id = text "aa";
  reason = [];
  sender = text "me";
  comment = [];
  created_at = none;
}

insert_into_reports-selected_test :
    reports_of_bag (text "aa") (insert_into_reports no_fault sample_report sample_tables).1.reports
    ≡ report_of_row sample_row ∷ stored_at (pos 20) sample_report ∷ []
unfolding insert_into_reports reports_of_bag fits char_length
insert_into_reports-selected_test =
    insert_into_reports-selected no_fault sample_report sample_tables (text "aa") refl

select_all_reports-joined_test :
    select_all_reports no_fault (pos 2) (pos 0) sample_tables
    ≡ ok (
        report_of_row (record sample_row { bag_id = text "bb"; created_at = pos 9 })
        ∷ report_of_row sample_row
        ∷ [])
unfolding select_all_reports page_of newest_first insert_newest
select_all_reports-joined_test =
    select_all_reports-joined no_fault sample_tables 0 1 1
      (report_of_row (record sample_row { bag_id = text "bb"; created_at = pos 9 }) ∷ [])
      (report_of_row sample_row ∷ []) refl refl

abbrev pub sample_details : BagDetailed
sample_details = record {
  description = [];
  size = 3;
  dir_name = text "d";
  header_loaded = true;
  info_loaded = true;
  files = [];
  peers = 1;
  merkle_hash = text "m";
  path = text "/var";
}

-- A daemon that answers every request with one status, and a decoder that reads one message.
abbrev pub answering : ℕ → Transport
answering status = record {
  World = ℕ;
  encode_add = λ r. ok r.bag_id;
  decode_result = λ body. ok (record { ok_flag = false; error = text "Bag already added" });
  decode_bag = λ body. ok sample_details;
  new_request = λ method url. none;
  do_http = λ r w. (ok (record { status_code = status; body = [] }), w + 1);
}

abbrev pub sample_client : StorageClient
sample_client = new_storage_client (text "http://localhost") (text "/var") none

get_bag_iff_test :
    ((get_bag (answering 200) sample_client (text "aa") 0).0 ≡ ok sample_details)
    ↔ IsDescribed
        (answering 200)
        sample_client
        (text "aa")
        0
        (record { status_code = 200; body = [] })
        sample_details
get_bag_iff_test =
    get_bag_iff (answering 200) sample_client (text "aa") 0
      (record { status_code = 200; body = [] }) sample_details refl refl

abbrev not_found_response : HttpResponse
not_found_response = record { status_code = 404; body = [] }

get_bag-not_found_iff_test :
    ((get_bag (answering 404) sample_client (text "aa") 0).0 ≡ err err_not_found)
    ↔ (not_found_response.status_code ≡ 404)
get_bag-not_found_iff_test =
    get_bag-not_found_iff (answering 404) sample_client (text "aa") 0
      (record { status_code = 404; body = [] }) refl refl (λ body e p. ground (arith, p))
      (λ body e p. ground (arith, p))

add_bag_known_test : (add_bag (answering 500) sample_client (text "aa") false 0).0 ≡ none
unfolding is_already_exists_error error_text to_lower contains
add_bag_known_test =
    add_bag_known (answering 500) sample_client (text "aa") false 0 (text "aa")
      (record { status_code = 500; body = [] })
      (record { ok_flag = false; error = text "Bag already added" }) refl refl refl (ground arith)
      refl refl

abbrev measured_start : Measured (new_repository no_fault)
measured_start =
    new_metrics (new_repository no_fault) (record { req_count = []; in_flight = 2 }) sample_tables

abbrev counted_calls : List RepositoryCall
counted_calls = calls_add_report sample_report ∷ calls_has_ban (text "aa") ∷ []

call_all_measured-transparent_test :
    ((call_all_measured (new_repository no_fault) counted_calls measured_start).0
      ≡ (call_all_plain (new_repository no_fault) counted_calls sample_tables).0)
    × ((call_all_measured (new_repository no_fault) counted_calls measured_start).1.db
        ≡ (call_all_plain (new_repository no_fault) counted_calls sample_tables).1)
    × ((call_all_measured
          (new_repository no_fault)
          counted_calls
          measured_start).1.metrics.in_flight
        ≡ 2)
    × ((call_all_measured
          (new_repository no_fault)
          counted_calls
          measured_start).1.metrics.req_count
        ≡ labels_of counted_calls
            (call_all_plain (new_repository no_fault) counted_calls sample_tables).0
            [])
call_all_measured-transparent_test =
    call_all_measured-transparent (new_repository no_fault) counted_calls measured_start

-- The stored report is counted as no failure, and the bag is not banned.
counted_test :
    labels_of counted_calls
      (call_all_plain (new_repository no_fault) counted_calls sample_tables).0
      []
    ≡ record { method = text "HasBan"; failed = false }
      ∷ record { method = text "AddReport"; failed = false }
      ∷ []
unfolding labels_of call_all_plain insert_into_reports select_has_ban fits char_length
counted_test = refl
