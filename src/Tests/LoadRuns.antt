-- ===== src/Tests/LoadRuns.antt =====
-- A run of `load_package` of crates/scll-core/src/workflow/ssd.rs, and the theorem on it.
use scll_rust.Prelude.{ℕ, suc, ◌≡◌, refl, List, [], ◌∷◌, ok}
use scll_rust.Prelude.Actions.{resume, rename}
use scll_rust.Prelude.Slices.{slice, index}
use scll_rust.Prelude.Heapless.{Heapless, plain}
use scll_rust.Aid.{new}
use scll_rust.Command.{push, push_lv, push_body, build}
use scll_rust.Command.Builders.{load_block}
use scll_rust.Command.Install.{install_for_load}
use scll_rust.Scp.Sessions.{wrap, unwrap}
use scll_rust.Session.Parts.{split_sw}
use scll_rust.Session.{Transport, transmit_in_session}
use scll_rust.Cap.{
  read_u16, read_u32, read_u32_be, get_range, scan_back, find_eocd, local_data_offset, base_name,
  position, component_index, read_entry, put_entry, note_entry, walk_entries, walk_zip,
}
use scll_rust.Cap.Metadata.{aid_at, parse_header}
use scll_rust.Cap.Lfdb.{emit}
use scll_rust.Cap.Lfdb
use scll_rust.Cap.Stream.{
  Inflate, InflateCtx, failed, content_len, lfdb, emit_stored, emit_component, fill, next_block,
}
use scll_rust.Cap.File.{read_component, read_optional, parse}
use scll_rust.Tests.SessionRuns.{marks_02, marks_03, session_at}
use scll_rust.Workflow.InstallParams.{copy_bounded}
use scll_rust.Workflow.Managed.{match_sw, ask}
use scll_rust.Workflow.Load.{
  LoadPackageArgs, LoadPackageParams, len, send_block, after_block, load_blocks, load_package,
}
use scll_rust.Workflow.Load.Blocks.{Loaded, load_package-Loaded}

instance abbrev vectors : Heapless
vectors = plain

abbrev willing_card : Transport ℕ
willing_card = record { transmit = λ capdu w. (ok (0x90 ∷ 0x00 ∷ []), suc w) }

-- A decompressor that fails, for files that do not call it.
abbrev none_given : Inflate
none_given = record {
  State = Unit {0};
  fresh = tt;
  decompress = λ state input window at_ flags. (failed, 0, 0, state, window);
}

abbrev window : List ℕ
window = 0 ∷ 0 ∷ 0 ∷ 0 ∷ 0 ∷ 0 ∷ 0 ∷ 0 ∷ 0 ∷ 0 ∷ 0 ∷ 0 ∷ 0 ∷ 0 ∷ 0 ∷ 0 ∷ 0 ∷ 0 ∷ []

abbrev context : InflateCtx none_given
context = record { window = window; state = tt }

-- A file with a header component for the package A000000102.
abbrev one_component : List ℕ
one_component =
    80 ∷ 75 ∷ 3 ∷ 4 ∷ 20 ∷ 0 ∷ 0 ∷ 0 ∷ 0 ∷ 0 ∷ 0 ∷ 0 ∷ 0 ∷ 0 ∷ 0 ∷ 0 ∷ 0 ∷ 0 ∷ 18 ∷ 0 ∷ 0 ∷ 0 ∷ 18
    ∷ 0 ∷ 0 ∷ 0 ∷ 10 ∷ 0 ∷ 0 ∷ 0 ∷ 72 ∷ 101 ∷ 97 ∷ 100 ∷ 101 ∷ 114 ∷ 46 ∷ 99 ∷ 97 ∷ 112 ∷ 1 ∷ 0 ∷ 15
    ∷ 222 ∷ 202 ∷ 255 ∷ 237 ∷ 2 ∷ 1 ∷ 4 ∷ 0 ∷ 1 ∷ 5 ∷ 160 ∷ 0 ∷ 0 ∷ 1 ∷ 2 ∷ 80 ∷ 75 ∷ 1 ∷ 2 ∷ 20 ∷ 0
    ∷ 20 ∷ 0 ∷ 0 ∷ 0 ∷ 0 ∷ 0 ∷ 0 ∷ 0 ∷ 0 ∷ 0 ∷ 0 ∷ 0 ∷ 0 ∷ 0 ∷ 18 ∷ 0 ∷ 0 ∷ 0 ∷ 18 ∷ 0 ∷ 0 ∷ 0 ∷ 10
    ∷ 0 ∷ 0 ∷ 0 ∷ 0 ∷ 0 ∷ 0 ∷ 0 ∷ 0 ∷ 0 ∷ 0 ∷ 0 ∷ 0 ∷ 0 ∷ 0 ∷ 0 ∷ 0 ∷ 0 ∷ 72 ∷ 101 ∷ 97 ∷ 100 ∷ 101
    ∷ 114 ∷ 46 ∷ 99 ∷ 97 ∷ 112 ∷ 80 ∷ 75 ∷ 5 ∷ 6 ∷ 0 ∷ 0 ∷ 0 ∷ 0 ∷ 1 ∷ 0 ∷ 1 ∷ 0 ∷ 56 ∷ 0 ∷ 0 ∷ 0
    ∷ 58 ∷ 0 ∷ 0 ∷ 0 ∷ 0 ∷ 0 ∷ []

abbrev args : LoadPackageArgs
args = record { target_sd_aid = 0xA0 ∷ 0 ∷ 0 ∷ 0 ∷ 3 ∷ []; cap_zip = one_component; lfdb_hash = [] }

abbrev report : LoadPackageParams
report = record {
  package_aid = record { as_bytes = 0xA0 ∷ 0 ∷ 0 ∷ 1 ∷ 2 ∷ [] };
  load_file_size = 20;
  hash_value = [];
  block_count = 1;
  target_sd_aid = record { as_bytes = 0xA0 ∷ 0 ∷ 0 ∷ 0 ∷ 3 ∷ [] };
}

load_run :
    load_package none_given willing_card marks_03 marks_02 args context (session_at 0, 0)
    ≡ (ok report, (session_at 4, 2))
unfolding load_package load_blocks send_block after_block len parse read_component read_optional
    next_block fill emit_component emit_stored lfdb content_len Lfdb.new emit parse_header aid_at
    walk_zip walk_entries read_entry note_entry put_entry local_data_offset component_index
    base_name position find_eocd scan_back read_u16 read_u32 read_u32_be get_range ask match_sw
    copy_bounded new resume rename transmit_in_session split_sw slice index wrap unwrap
    install_for_load load_block push_lv build push push_body
load_run = refl

load_package-Loaded_example :
    Loaded none_given willing_card marks_03 marks_02 args context report
      (session_at 0, 0)
      (session_at 4, 2)
load_package-Loaded_example =
    load_package-Loaded none_given willing_card marks_03 marks_02 args context report
      (session_at 0, 0) (session_at 4, 2) load_run

-- A file with a class component of 5 octets, for which the directory announces 300.
abbrev short_component : List ℕ
short_component =
    80 ∷ 75 ∷ 3 ∷ 4 ∷ 20 ∷ 0 ∷ 0 ∷ 0 ∷ 0 ∷ 0 ∷ 0 ∷ 0 ∷ 0 ∷ 0 ∷ 0 ∷ 0 ∷ 0 ∷ 0 ∷ 18 ∷ 0 ∷ 0 ∷ 0 ∷ 18
    ∷ 0 ∷ 0 ∷ 0 ∷ 10 ∷ 0 ∷ 0 ∷ 0 ∷ 72 ∷ 101 ∷ 97 ∷ 100 ∷ 101 ∷ 114 ∷ 46 ∷ 99 ∷ 97 ∷ 112 ∷ 1 ∷ 0 ∷ 15
    ∷ 222 ∷ 202 ∷ 255 ∷ 237 ∷ 2 ∷ 1 ∷ 4 ∷ 0 ∷ 1 ∷ 5 ∷ 160 ∷ 0 ∷ 0 ∷ 1 ∷ 2 ∷ 80 ∷ 75 ∷ 3 ∷ 4 ∷ 20 ∷ 0
    ∷ 0 ∷ 0 ∷ 0 ∷ 0 ∷ 0 ∷ 0 ∷ 0 ∷ 0 ∷ 0 ∷ 0 ∷ 0 ∷ 0 ∷ 5 ∷ 0 ∷ 0 ∷ 0 ∷ 44 ∷ 1 ∷ 0 ∷ 0 ∷ 9 ∷ 0 ∷ 0 ∷ 0
    ∷ 67 ∷ 108 ∷ 97 ∷ 115 ∷ 115 ∷ 46 ∷ 99 ∷ 97 ∷ 112 ∷ 6 ∷ 0 ∷ 2 ∷ 0 ∷ 0 ∷ 80 ∷ 75 ∷ 1 ∷ 2 ∷ 20 ∷ 0
    ∷ 20 ∷ 0 ∷ 0 ∷ 0 ∷ 0 ∷ 0 ∷ 0 ∷ 0 ∷ 0 ∷ 0 ∷ 0 ∷ 0 ∷ 0 ∷ 0 ∷ 18 ∷ 0 ∷ 0 ∷ 0 ∷ 18 ∷ 0 ∷ 0 ∷ 0 ∷ 10
    ∷ 0 ∷ 0 ∷ 0 ∷ 0 ∷ 0 ∷ 0 ∷ 0 ∷ 0 ∷ 0 ∷ 0 ∷ 0 ∷ 0 ∷ 0 ∷ 0 ∷ 0 ∷ 0 ∷ 0 ∷ 72 ∷ 101 ∷ 97 ∷ 100 ∷ 101
    ∷ 114 ∷ 46 ∷ 99 ∷ 97 ∷ 112 ∷ 80 ∷ 75 ∷ 1 ∷ 2 ∷ 20 ∷ 0 ∷ 20 ∷ 0 ∷ 0 ∷ 0 ∷ 0 ∷ 0 ∷ 0 ∷ 0 ∷ 0 ∷ 0
    ∷ 0 ∷ 0 ∷ 0 ∷ 0 ∷ 5 ∷ 0 ∷ 0 ∷ 0 ∷ 44 ∷ 1 ∷ 0 ∷ 0 ∷ 9 ∷ 0 ∷ 0 ∷ 0 ∷ 0 ∷ 0 ∷ 0 ∷ 0 ∷ 0 ∷ 0 ∷ 0 ∷ 0
    ∷ 0 ∷ 0 ∷ 58 ∷ 0 ∷ 0 ∷ 0 ∷ 67 ∷ 108 ∷ 97 ∷ 115 ∷ 115 ∷ 46 ∷ 99 ∷ 97 ∷ 112 ∷ 80 ∷ 75 ∷ 5 ∷ 6 ∷ 0
    ∷ 0 ∷ 0 ∷ 0 ∷ 2 ∷ 0 ∷ 2 ∷ 0 ∷ 111 ∷ 0 ∷ 0 ∷ 0 ∷ 102 ∷ 0 ∷ 0 ∷ 0 ∷ 0 ∷ 0 ∷ []

abbrev short_args : LoadPackageArgs
short_args = record args { cap_zip = short_component }

-- The load file of 322 octets is reported as loaded after one block of 160 octets.
short_run :
    load_package none_given willing_card marks_03 marks_02 short_args context (session_at 0, 0)
    ≡ (ok (record report { load_file_size = 322 }), (session_at 4, 2))
unfolding load_package load_blocks send_block after_block len parse read_component read_optional
    next_block fill emit_component emit_stored lfdb content_len Lfdb.new emit parse_header aid_at
    walk_zip walk_entries read_entry note_entry put_entry local_data_offset component_index
    base_name position find_eocd scan_back read_u16 read_u32 read_u32_be get_range ask match_sw
    copy_bounded new resume rename transmit_in_session split_sw slice index wrap unwrap
    install_for_load load_block push_lv build push push_body
short_run = refl
