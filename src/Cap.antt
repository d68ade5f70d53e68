-- ===== src/Cap.antt =====
-- crates/scll-core/src/cap/mod.rs: the reader of CAP files. Here are the bounds-checked readers and the
-- walk through the directory of the zip archive; `Metadata` reads the small components, and `Lfdb` is
-- the stream of the load file, and `File` reads a whole file. `Eocd` is about the search for the directory.
pub mod Eocd
pub mod Metadata
pub mod Lfdb
pub mod Stream
pub mod File
pub mod Located
use scll_rust.Prelude.{
  ℕ, zero, suc, ◌+◌, ◌-◌, ◌*◌, ◌^◌, List, [], ◌∷◌, length, take, drop, leb, ltb, eq_octets, Bool,
  true, false, not, ◌&&◌, ◌||◌, ◌==◌, if◌then◌else◌, Option, none, some, Result, ok, err, stuck,
  ok_or, ◌>>=◌, ◌>>◌, reject_if,
}
use scll_rust.Prelude.Slices.{index, slice}
use scll_rust.Error.{CapError}

abbrev pub usize_max : ℕ
usize_max = 2 ^ 64 - 1

-- `a.checked_add(b)` on a usize
abbrev pub checked_add : ℕ → ℕ → Option ℕ
checked_add a b = if leb (a + b) usize_max then some (a + b) else none

-- `b.get(from..to)`
unfoldable pub get_range : List ℕ → ℕ → ℕ → Option (List ℕ)
get_range b from to =
    if leb from to && leb to (length b) then some (take (to - from) (drop from b)) else none

abbrev pub le_2 : Option (List ℕ) → Option ℕ
le_2 (some (s0 ∷ s1 ∷ rest)) = some (s0 + s1 * 256)
le_2 _ = none

abbrev pub le_4 : Option (List ℕ) → Option ℕ
le_4 (some (s0 ∷ s1 ∷ s2 ∷ s3 ∷ rest)) = some (s0 + s1 * 256 + s2 * 65536 + s3 * 16777216)
le_4 _ = none

abbrev pub be_2 : Option (List ℕ) → Option ℕ
be_2 (some (s0 ∷ s1 ∷ rest)) = some (s0 * 256 + s1)
be_2 _ = none

abbrev pub be_4 : Option (List ℕ) → Option ℕ
be_4 (some (s0 ∷ s1 ∷ s2 ∷ s3 ∷ rest)) = some (s0 * 16777216 + s1 * 65536 + s2 * 256 + s3)
be_4 _ = none

unfoldable pub read_u16 : List ℕ → ℕ → Option ℕ
read_u16 b at_ = le_2 (get_range b at_ (at_ + 2))

unfoldable pub read_u32 : List ℕ → ℕ → Option ℕ
read_u32 b at_ = le_4 (get_range b at_ (at_ + 4))

unfoldable pub read_u16_be : List ℕ → ℕ → Option ℕ
read_u16_be b at_ = be_2 (get_range b at_ (at_ + 2))

unfoldable pub read_u32_be : List ℕ → ℕ → Option ℕ
read_u32_be b at_ = be_4 (get_range b at_ (at_ + 4))

abbrev pub sig_eocd : ℕ
sig_eocd = 0x06054B50

abbrev pub sig_cdh : ℕ
sig_cdh = 0x02014B50

abbrev pub sig_lfh : ℕ
sig_lfh = 0x04034B50

abbrev pub eocd_min : ℕ
eocd_min = 22

-- `opt == Some(n)`
abbrev pub is_some_of : Option ℕ → ℕ → Bool
is_some_of none n = false
is_some_of (some m) n = m == n

-- The loop of `find_eocd`, from `i` down to `limit`.
unfoldable pub scan_back : List ℕ → ℕ → ℕ → Option ℕ
scan_back zip limit zero = if is_some_of (read_u32 zip 0) sig_eocd then some 0 else none
scan_back zip limit (suc i) =
    let before = scan_back zip limit i in
    if is_some_of (read_u32 zip (suc i)) sig_eocd
    then some (suc i)
    else if suc i == limit
    then none
    else before

unfoldable pub find_eocd : List ℕ → Option ℕ
find_eocd zip =
    if ltb (length zip) eocd_min
    then none
    else scan_back zip (length zip - eocd_min - 0xFFFF) (length zip - eocd_min)

pub record CompLoc : Type 0 where
  pub method : ℕ
  pub data_off : ℕ
  pub comp_size : ℕ
  pub uncomp_size : ℕ

abbrev pub or_malformed {ℓ} : {A : Type ℓ} → Option A → Result CapError A
or_malformed o = ok_or o CapError.malformed

unfoldable pub local_data_offset : List ℕ → ℕ → Result CapError ℕ
local_data_offset zip local_off = do
  reject_if (not (is_some_of (read_u32 zip local_off) sig_lfh)) CapError.malformed
  name_len ← or_malformed (read_u16 zip (local_off + 26))
  extra_len ← or_malformed (read_u16 zip (local_off + 28))
  p1 ← or_malformed (checked_add local_off 30)
  p2 ← or_malformed (checked_add p1 name_len)
  p3 ← or_malformed (checked_add p2 extra_len)
  or_malformed (if leb p3 (length zip) then some p3 else none)

-- The names of the components, in the order of the Load File Data Block.
abbrev dot_cap : List ℕ
dot_cap = 0x2E ∷ 0x63 ∷ 0x61 ∷ 0x70 ∷ []

abbrev pub component_names : List (List ℕ)
component_names =
    (0x48 ∷ 0x65 ∷ 0x61 ∷ 0x64 ∷ 0x65 ∷ 0x72 ∷ dot_cap)
    ∷ (0x44 ∷ 0x69 ∷ 0x72 ∷ 0x65 ∷ 0x63 ∷ 0x74 ∷ 0x6F ∷ 0x72 ∷ 0x79 ∷ dot_cap)
    ∷ (0x49 ∷ 0x6D ∷ 0x70 ∷ 0x6F ∷ 0x72 ∷ 0x74 ∷ dot_cap)
    ∷ (0x41 ∷ 0x70 ∷ 0x70 ∷ 0x6C ∷ 0x65 ∷ 0x74 ∷ dot_cap)
    ∷ (0x43 ∷ 0x6C ∷ 0x61 ∷ 0x73 ∷ 0x73 ∷ dot_cap)
    ∷ (0x4D ∷ 0x65 ∷ 0x74 ∷ 0x68 ∷ 0x6F ∷ 0x64 ∷ dot_cap)
    ∷ (0x53 ∷ 0x74 ∷ 0x61 ∷ 0x74 ∷ 0x69 ∷ 0x63 ∷ 0x46 ∷ 0x69 ∷ 0x65 ∷ 0x6C ∷ 0x64 ∷ dot_cap)
    ∷ (0x45 ∷ 0x78 ∷ 0x70 ∷ 0x6F ∷ 0x72 ∷ 0x74 ∷ dot_cap)
    ∷ (0x43 ∷ 0x6F ∷ 0x6E ∷ 0x73 ∷ 0x74 ∷ 0x61 ∷ 0x6E ∷ 0x74 ∷ 0x50 ∷ 0x6F ∷ 0x6F ∷ 0x6C ∷ dot_cap)
    ∷ (0x52 ∷ 0x65 ∷ 0x66 ∷ 0x4C ∷ 0x6F ∷ 0x63 ∷ 0x61 ∷ 0x74 ∷ 0x69 ∷ 0x6F ∷ 0x6E ∷ dot_cap)
    ∷ (0x44 ∷ 0x65 ∷ 0x73 ∷ 0x63 ∷ 0x72 ∷ 0x69 ∷ 0x70 ∷ 0x74 ∷ 0x6F ∷ 0x72 ∷ dot_cap)
    ∷ []

-- What follows the last slash or backslash, or all of it.
unfoldable pub base_name : List ℕ → List ℕ → List ℕ
base_name [] base = base
base_name (b ∷ bs) base = if (b == 0x2F) || (b == 0x5C) then base_name bs bs else base_name bs base

-- `iter().position(|&n| n == base)`
unfoldable pub position : List ℕ → List (List ℕ) → ℕ → Option ℕ
position base [] i = none
position base (n ∷ names) i = if eq_octets n base then some i else position base names (i + 1)

unfoldable pub component_index : List ℕ → Option ℕ
component_index name = position (base_name name name) component_names 0

-- The array of locations, one for each name.
abbrev pub no_locs : List (Option CompLoc)
no_locs = none ∷ none ∷ none ∷ none ∷ none ∷ none ∷ none ∷ none ∷ none ∷ none ∷ none ∷ []

-- `locs[idx]`, and `locs[idx] = Some(loc)` if there was none.
abbrev pub loc_at : List (Option CompLoc) → ℕ → Option CompLoc
loc_at [] i = none
loc_at (l ∷ locs) zero = l
loc_at (l ∷ locs) (suc i) = loc_at locs i

abbrev pub set_loc : List (Option CompLoc) → ℕ → CompLoc → List (Option CompLoc)
set_loc [] i loc = []
set_loc (l ∷ locs) zero loc = some loc ∷ locs
set_loc (l ∷ locs) (suc i) loc = l ∷ set_loc locs i loc

-- The fields of an entry of the directory, and where the next one is.
pub record Entry : Type 0 where
  pub method : ℕ
  pub comp_size : ℕ
  pub uncomp_size : ℕ
  pub local_off : ℕ
  pub name : List ℕ
  pub next : ℕ

unfoldable pub read_entry : List ℕ → ℕ → Result CapError Entry
read_entry zip pos = do
  reject_if (not (is_some_of (read_u32 zip pos) sig_cdh)) CapError.malformed
  method ← or_malformed (read_u16 zip (pos + 10))
  comp_size ← or_malformed (read_u32 zip (pos + 20))
  uncomp_size ← or_malformed (read_u32 zip (pos + 24))
  name_len ← or_malformed (read_u16 zip (pos + 28))
  extra_len ← or_malformed (read_u16 zip (pos + 30))
  comment_len ← or_malformed (read_u16 zip (pos + 32))
  local_off ← or_malformed (read_u32 zip (pos + 42))
  name_end ← or_malformed (checked_add (pos + 46) name_len)
  reject_if (ltb (length zip) name_end) CapError.malformed
  name ← slice zip (pos + 46) name_end
  p1 ← or_malformed (checked_add name_end extra_len)
  next ← or_malformed (checked_add p1 comment_len)
  ok (record {
    method = method;
    comp_size = comp_size;
    uncomp_size = uncomp_size;
    local_off = local_off;
    name = name;
    next = next;
  })

-- `if locs[idx].is_none() { .. }`, with what `locs[idx]` holds.
unfoldable pub put_entry :
    List ℕ
    → Entry
    → ℕ
    → List (Option CompLoc)
    → Option CompLoc
    → Result CapError (List (Option CompLoc))
put_entry zip e idx locs (some held) = ok locs
put_entry zip e idx locs none = local_data_offset zip e.local_off >>= λ data_off. ok (
    set_loc locs idx (record {
      method = e.method;
      data_off = data_off;
      comp_size = e.comp_size;
      uncomp_size = e.uncomp_size;
    }))

-- `if let Some(idx) = component_index(name) { .. }`
unfoldable pub note_entry :
    List ℕ → Entry → Option ℕ → List (Option CompLoc) → Result CapError (List (Option CompLoc))
note_entry zip e none locs = ok locs
note_entry zip e (some idx) locs = put_entry zip e idx locs (loc_at locs idx)

-- The loop over the entries of the directory.
unfoldable pub walk_entries :
    List ℕ → ℕ → ℕ → List (Option CompLoc) → Result CapError (List (Option CompLoc))
walk_entries zip zero pos locs = ok locs
walk_entries zip (suc n) pos locs = do
  e ← read_entry zip pos
  locs' ← note_entry zip e (component_index e.name) locs
  walk_entries zip n e.next locs'

unfoldable pub walk_zip : List ℕ → Result CapError (List (Option CompLoc))
walk_zip zip = do
  eocd ← ok_or (find_eocd zip) CapError.not_a_zip
  t0 ← index zip (eocd + 10)
  t1 ← index zip (eocd + 11)
  cd_off ← or_malformed (read_u32 zip (eocd + 16))
  walk_entries zip (t0 + t1 * 256) cd_off no_locs
