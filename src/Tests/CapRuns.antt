-- ===== src/Tests/CapRuns.antt =====
-- Runs of crates/scll-core/src/cap/mod.rs, and the theorems on it.
use scll_rust.Prelude.{
  ℕ, ◌-◌, ◌≤◌, ◌≡◌, ◌↔◌, refl, List, Option, take, drop, [], ◌∷◌, ◌++◌, length, All, none, some, ok,
  arith,
}
use scll_rust.Prelude.Slices.{index, slice}
use scll_rust.Prelude.Heapless.{Heapless, plain}
use scll_rust.Tlv.{parse}
use scll_rust.Cap.{
  CompLoc, eocd_min, find_eocd, scan_back, read_u16, read_u32, get_range, walk_zip, walk_entries,
  read_entry, note_entry, put_entry, local_data_offset, component_index, base_name, position,
}
use scll_rust.Cap.Located.{Kept, StartsIn, walk_zip-Kept}
use scll_rust.Cap.Eocd.{Last, find_eocd_iff}
use scll_rust.Cap.Stream.{Inflate, InflateCtx, LoadFileDataBlock, failed, new_cursor, next_block}
use scll_rust.Cap.Stream.Stored.{At, AllStored, contents}
use scll_rust.Cap.Stream.Blocks.{IsHeader, to_come, next_block-take}
use scll_rust.Cap.Metadata.{CapComponents, parse_imports}
use scll_rust.Cap.Metadata.Lists.{Package, package_octets, aid_with, parse_imports-map}
use scll_rust.Cap.Lfdb.{new, remaining}
use scll_rust.Cap.Lfdb.Header.{octets, new-parse}

instance abbrev vectors : Heapless
vectors = plain

-- An archive with no entries.
abbrev empty_zip : List ℕ
empty_zip =
    0x50 ∷ 0x4B ∷ 5 ∷ 6 ∷ 0 ∷ 0 ∷ 0 ∷ 0 ∷ 0 ∷ 0 ∷ 0 ∷ 0 ∷ 0 ∷ 0 ∷ 0 ∷ 0 ∷ 0 ∷ 0 ∷ 0 ∷ 0 ∷ 0 ∷ 0 ∷ []

find_eocd_run : find_eocd empty_zip ≡ some 0
unfolding find_eocd scan_back read_u32 get_range
find_eocd_run = refl

find_eocd_iff_example : (find_eocd empty_zip ≡ some 0) ↔ (
    (eocd_min ≤ length empty_zip)
    × Last empty_zip (length empty_zip - eocd_min - 0xFFFF) (length empty_zip - eocd_min) 0)
find_eocd_iff_example = find_eocd_iff empty_zip 0

-- The name a/Import.cap.
component_index_run :
    component_index
      (0x61 ∷ 0x2F ∷ 0x49 ∷ 0x6D ∷ 0x70 ∷ 0x6F ∷ 0x72 ∷ 0x74 ∷ 0x2E ∷ 0x63 ∷ 0x61 ∷ 0x70 ∷ [])
    ≡ some 2
unfolding component_index base_name position
component_index_run = refl

abbrev blank : CapComponents
blank = record { jc_platform_version = (2, 1, 0); imports = []; applets = [] }

-- The package javacard.framework, version 1.6.
abbrev framework : Package
framework = record { minor = 6; major = 1; aid = 0xA0 ∷ 0 ∷ 0 ∷ 0 ∷ 0x62 ∷ 1 ∷ 1 ∷ [] }

parse_imports-map_example :
    parse_imports (4 ∷ 0 ∷ 11 ∷ 1 ∷ 6 ∷ 1 ∷ 7 ∷ 0xA0 ∷ 0 ∷ 0 ∷ 0 ∷ 0x62 ∷ 1 ∷ 1 ∷ 9 ∷ []) blank
    ≡ ok (record blank { imports = aid_with framework.aid ∷ [] })
unfolding package_octets
parse_imports-map_example =
    parse_imports-map 4 0 11 (framework ∷ []) (9 ∷ []) blank ((omega arith, omega arith), tt)
      (omega arith) refl (omega arith)

new-parse_example :
    (parse (octets (new 3) ++ (1 ∷ 2 ∷ 3 ∷ []))
      ≡ ok (record { tag = 0xC4; value = 1 ∷ 2 ∷ 3 ∷ [] } ∷ []))
    × (remaining (new 3) ≡ length (octets (new 3)))
new-parse_example =
    new-parse (1 ∷ 2 ∷ 3 ∷ []) (omega arith, (omega arith, (omega arith, tt))) (omega arith)

-- An archive with the stored entry Import.cap of four octets.
abbrev one_entry : List ℕ
one_entry =
    80 ∷ 75 ∷ 3 ∷ 4 ∷ 20 ∷ 0 ∷ 0 ∷ 0 ∷ 0 ∷ 0 ∷ 0 ∷ 0 ∷ 0 ∷ 0 ∷ 0 ∷ 0 ∷ 0 ∷ 0 ∷ 4 ∷ 0 ∷ 0 ∷ 0 ∷ 4 ∷ 0
    ∷ 0 ∷ 0 ∷ 10 ∷ 0 ∷ 0 ∷ 0 ∷ 73 ∷ 109 ∷ 112 ∷ 111 ∷ 114 ∷ 116 ∷ 46 ∷ 99 ∷ 97 ∷ 112 ∷ 4 ∷ 0 ∷ 1 ∷ 0
    ∷ 80 ∷ 75 ∷ 1 ∷ 2 ∷ 20 ∷ 0 ∷ 20 ∷ 0 ∷ 0 ∷ 0 ∷ 0 ∷ 0 ∷ 0 ∷ 0 ∷ 0 ∷ 0 ∷ 0 ∷ 0 ∷ 0 ∷ 0 ∷ 4 ∷ 0 ∷ 0
    ∷ 0 ∷ 4 ∷ 0 ∷ 0 ∷ 0 ∷ 10 ∷ 0 ∷ 0 ∷ 0 ∷ 0 ∷ 0 ∷ 0 ∷ 0 ∷ 0 ∷ 0 ∷ 0 ∷ 0 ∷ 0 ∷ 0 ∷ 0 ∷ 0 ∷ 0 ∷ 0
    ∷ 73 ∷ 109 ∷ 112 ∷ 111 ∷ 114 ∷ 116 ∷ 46 ∷ 99 ∷ 97 ∷ 112 ∷ 80 ∷ 75 ∷ 5 ∷ 6 ∷ 0 ∷ 0 ∷ 0 ∷ 0 ∷ 1
    ∷ 0 ∷ 1 ∷ 0 ∷ 56 ∷ 0 ∷ 0 ∷ 0 ∷ 44 ∷ 0 ∷ 0 ∷ 0 ∷ 0 ∷ 0 ∷ []

walk_zip_run :
    walk_zip one_entry
    ≡ ok (
        none
        ∷ none
        ∷ some (record { method = 0; data_off = 40; comp_size = 4; uncomp_size = 4 })
        ∷ none
        ∷ none
        ∷ none
        ∷ none
        ∷ none
        ∷ none
        ∷ none
        ∷ none
        ∷ [])
unfolding walk_zip walk_entries read_entry note_entry put_entry local_data_offset find_eocd
    scan_back read_u16 read_u32 get_range index slice component_index base_name position
walk_zip_run = refl

walk_zip-Kept_example : Kept (All (StartsIn one_entry)) (walk_zip one_entry)
walk_zip-Kept_example = walk_zip-Kept one_entry

-- A decompressor that fails, for streams that do not call it.
abbrev none_given : Inflate
none_given = record {
  State = Unit {0};
  fresh = tt;
  decompress = λ state input window at_ flags. (failed, 0, 0, state, window);
}

abbrev context : InflateCtx none_given
context = record { window = []; state = tt }

-- Two components, of two and three octets.
abbrev two_locs : List (Option CompLoc)
two_locs =
    some (record { method = 0; data_off = 0; comp_size = 2; uncomp_size = 2 })
    ∷ none
    ∷ some (record { method = 0; data_off = 3; comp_size = 3; uncomp_size = 3 })
    ∷ none
    ∷ none
    ∷ none
    ∷ none
    ∷ none
    ∷ none
    ∷ none
    ∷ none
    ∷ []

abbrev two_components : LoadFileDataBlock
two_components = record {
  zip = 11 ∷ 12 ∷ 0 ∷ 13 ∷ 14 ∷ 15 ∷ [];
  locs = two_locs;
  comp = 0;
  cursor = new_cursor;
  header = record { buf = 0xC4 ∷ 5 ∷ 0 ∷ 0 ∷ 0 ∷ []; len = 2; emitted = 0 };
}

two_components-At : At two_components two_locs
unfolding AllStored
two_components-At = record {
  rest = refl;
  count = omega arith;
  stored = (
    (refl, omega arith),
    (tt, ((refl, omega arith), (tt, (tt, (tt, (tt, (tt, (tt, (tt, (tt, tt)))))))))),
  );
  within = omega arith;
}

to_come_run : to_come two_components two_locs ≡ 0xC4 ∷ 5 ∷ 11 ∷ 12 ∷ 13 ∷ 14 ∷ 15 ∷ []
unfolding contents
to_come_run = refl

next_block-take_example :
    (b' : LoadFileDataBlock) × (ls' : List (Option CompLoc)) × (next_block none_given two_components
        context 5
      ≡ ok (take 5 (to_come two_components two_locs), b', context))
    × At b' ls'
    × IsHeader b'.header
    × (to_come b' ls' ≡ drop 5 (to_come two_components two_locs))
next_block-take_example =
    next_block-take none_given context 5 two_components two_locs two_components-At
      (omega arith, omega arith)
