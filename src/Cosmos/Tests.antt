-- ===== src/Cosmos/Tests.antt =====
-- Runs of the client on the service in memory, and the theorems at concrete inputs.
use aro_rp.Base.{ℕ, String, ◌≡◌, refl, ltb, [], if◌then◌else◌, ◌+◌, some}
use aro_rp.Api.Error.{ok, err, cosmos, is_error_status_code}
use aro_rp.Action.{World, M}
use aro_rp.Cosmos.Service.{Headers, Replaced}
use aro_rp.Cosmos.Client.{empty_options, in_partition, replace_request, replace, do_loop, do_once}
use aro_rp.Cosmos.Retry.{retry_on_precondition_failed}
use aro_rp.Cosmos.Attempts.{Tried, retry-Tried}
use aro_rp.Base.{arith}
use aro_rp.Cosmos.Service.{Query}
use aro_rp.Cosmos.Client.{open_query, all_loop, query_all}
use aro_rp.Cosmos.Pages.{query_all-enough}
use aro_rp.Cosmos.Exchange.{nothing}
use aro_rp.Cosmos.Replace.{Checked, replace-Replaced}
use aro_rp.Cosmos.Memory.{Memory, Layout, memory, memory_view, memory-IsDocumented}

-- It fails with 412 until its state is 2.
abbrev third_time : M ℕ ℕ
third_time w =
    if ltb w.store 2
    then (err (cosmos 412), record { store = w.store + 1; others = [] })
    else (ok w.store, w)

abbrev at_0 : World ℕ
at_0 = record { store = 0; others = [] }

retry_test : (retry_on_precondition_failed third_time at_0).0 ≡ ok 2
unfolding retry_on_precondition_failed is_error_status_code
retry_test = refl

retry-Tried_example : Tried third_time 4 at_0 (retry_on_precondition_failed third_time at_0)
retry-Tried_example = retry-Tried third_time at_0

-- A document is its ETag and a number.
pub record Note : Type 0 where
  pub etag : String
  pub number : ℕ

abbrev note_layout : Layout Note
note_layout = record {
  doc = record { id = λ d. "1"; etag = λ d. d.etag };
  stamp = λ d e. record d { etag = e };
  run = λ ts now d. d;
  SameContent = λ d b. d.number ≡ b.number;
  etag-stamp = λ d e. refl;
  stamp_same = λ d e. refl;
}

abbrev notes : World (Memory Note)
notes = record {
  store = record {
    partition = "p";
    path = "notes/docs/1";
    content = record { etag = ""; number = 7 };
    version = 0;
    clock = 0;
  };
  others = [];
}

abbrev note : Note
note = record { etag = "v"; number = 8 }

abbrev notes_after : World (Memory Note)
notes_after = record {
  store = record { partition = "p"; path = "notes/docs/1"; content = note; version = 1; clock = 0 };
  others = [];
}

abbrev new_note : Note
new_note = record { etag = "vv"; number = 8 }

replace_run :
    replace note_layout.doc (memory note_layout) "notes" "p" note (some empty_options) notes
    ≡ (ok new_note, notes_after)
unfolding replace do_loop do_once is_error_status_code
replace_run = refl

replace-Replaced_example :
    (h : Headers) × Checked note_layout.doc
      (memory note_layout)
      empty_options
      note
      (in_partition note_layout.doc (memory note_layout) "notes" "p")
      h
    × (s : Memory Note) × Unit {0}
    × (c : Replaced note_layout.doc
        (memory note_layout)
        (memory_view note_layout)
        (replace_request note_layout.doc (memory note_layout) "notes" note h)
        s
        notes_after.store
        "p"
        note)
    × (new_note ≡ c.after)
replace-Replaced_example =
    replace-Replaced note_layout.doc (memory note_layout) "notes" (memory_view note_layout)
      (memory-IsDocumented note_layout) (λ s. Unit {0}) (λ req s u. u) "p" note empty_options notes
      {x = new_note} {w' = notes_after} (nothing notes) refl replace_run

abbrev every_note : Query
every_note = record { query = "SELECT * FROM Notes"; parameters = [] }

query_all-enough_example :
    all_loop note_layout.doc
      (memory note_layout)
      "notes"
      5
      (open_query note_layout.doc (memory note_layout) "notes" "p" every_note)
      []
      notes
    ≡ query_all note_layout.doc (memory note_layout) "notes" "p" every_note notes
query_all-enough_example =
    query_all-enough note_layout.doc (memory note_layout) "notes" (memory_view note_layout)
      (memory-IsDocumented note_layout) "p" every_note 5 notes (omega arith)
