-- ===== src/Cap/File.antt =====
-- `parse` and `read_component` of crates/scll-core/src/cap/mod.rs: a CAP file is read.
use scll_rust.Prelude.{
  ℕ, List, [], ◌++◌, length, drop, ltb, ◌==◌, if◌then◌else◌, Option, none, some, Result, ok, err,
  ok_or, reject_if, ◌>>=◌, ◌>>◌,
}
use scll_rust.Prelude.Heapless.{Heapless}
use scll_rust.Prelude.Slices.{slice}
use scll_rust.Aid.{Aid}
use scll_rust.Error.{CapError}
use scll_rust.Cap.{CompLoc, checked_add, loc_at, or_malformed, walk_zip}
use scll_rust.Cap.Metadata.{CapComponents, parse_header, parse_imports, parse_applets}
use scll_rust.Cap.Stream.{
  Status, finished, has_more_output, needs_more_input, failed, Inflate, InflateCtx, reset_inflate,
  method_deflate,
}

abbrev idx_header : ℕ
idx_header = 0

abbrev idx_import : ℕ
idx_import = 2

abbrev idx_applet : ℕ
idx_applet = 3

abbrev method_stored : ℕ
method_stored = 0

-- TINFL_FLAG_USING_NON_WRAPPING_OUTPUT_BUF of miniz_oxide.
abbrev non_wrapping : ℕ
non_wrapping = 4

pub record CapFile : Type 0 where
  pub package_aid : Aid
  pub components : CapComponents
  pub zip : List ℕ
  pub locs : List (Option CompLoc)

module _ ⦃hl : Heapless⦄ (i : Inflate) where
  -- The `match status`: what was written of the window.
  abbrev inflated : Status → ℕ → InflateCtx i → Result CapError (List ℕ × InflateCtx i)
  inflated finished written infl = slice infl.window 0 written >>= λ octets. ok (octets, infl)
  inflated has_more_output written infl = err CapError.inflate
  inflated needs_more_input written infl = err CapError.inflate
  inflated failed written infl = err CapError.inflate

  -- The two methods.
  abbrev stored : List ℕ → InflateCtx i → Result CapError (List ℕ × InflateCtx i)
  stored input infl =
      if ltb (length infl.window) (length input)
      then err CapError.malformed
      else ok (input, record infl { window = input ++ drop (length input) infl.window })

  unfoldable pub deflated : List ℕ → InflateCtx i → Result CapError (List ℕ × InflateCtx i)
  deflated input infl =
      let (status, consumed, written, state, window) =
        i.decompress i.fresh input infl.window 0 non_wrapping in
      inflated status written (record { window = window; state = state })

  unfoldable pub read_component :
      List ℕ → CompLoc → InflateCtx i → Result CapError (List ℕ × InflateCtx i)
  read_component zip loc infl = do
    end ← or_malformed (checked_add loc.data_off loc.comp_size)
    reject_if (ltb (length zip) end) CapError.malformed
    input ← slice zip loc.data_off end
    (if loc.method == method_stored
        then stored input infl
        else if loc.method == method_deflate
        then deflated input infl
        else err CapError.malformed)

  -- `if let Some(loc) = locs[..] { .. }` with the parser of the component.
  unfoldable pub read_optional :
      List ℕ
      → Option CompLoc
      → (List ℕ → CapComponents → Result CapError CapComponents)
      → CapComponents
      → InflateCtx i
      → Result CapError (CapComponents × InflateCtx i)
  read_optional zip none parser components infl = ok (components, infl)
  read_optional zip (some loc) parser components infl = do
    read ← read_component zip loc infl
    components' ← parser (read.0) components
    ok (components', read.1)

  unfoldable pub parse : List ℕ → InflateCtx i → Result CapError (CapFile × InflateCtx i)
  parse cap_zip infl = do
    locs ← walk_zip cap_zip
    header_loc ← ok_or (loc_at locs idx_header) (CapError.missing_component idx_header)
    header ← read_component cap_zip header_loc infl
    named ← parse_header (header.0)
    let blank : CapComponents = record { jc_platform_version = named.1; imports = []; applets = [] }
    imports ← read_optional cap_zip (loc_at locs idx_import) parse_imports blank (header.1)
    applets ← read_optional cap_zip (loc_at locs idx_applet) parse_applets (imports.0) (imports.1)
    ok (
      record { package_aid = named.0; components = applets.0; zip = cap_zip; locs = locs },
      reset_inflate i (applets.1),
    )
