-- ===== src/Workflow/Load.antt =====
-- `load_package` of crates/scll-core/src/workflow/ssd.rs: a CAP file is sent to the card in LOAD
-- commands, one block after the other. `Sending`
-- and `Blocks` are about what was sent, and `Rounds` about the number of rounds.
pub mod Sending
pub mod Blocks
pub mod Rounds
pub mod Whole
use scll_rust.Prelude.{
  ℕ, zero, suc, ◌+◌, ◌*◌, ◌%◌, ◌^◌, ◌-◌, min, List, [], ◌∷◌, length, Bool, true, false, leb, ltb,
  ◌==◌, if◌then◌else◌, Option, none, some, Result, ok, err, stuck, map_err, reject_if,
}
use scll_rust.Prelude.Actions.{Action, ◌>>=◌, ◌>>◌, lift}
use scll_rust.Prelude.Heapless.{Heapless}
use scll_rust.Aid.{Aid, new}
use scll_rust.Command.Builders.{load_block}
use scll_rust.Command.Install.{install_for_load}
use scll_rust.Error.{ScllError}
use scll_rust.Scp.Backend.{Scp03Backend, Scp02Backend}
use scll_rust.Scp.Sessions.{ScpSession}
use scll_rust.Session.{Transport, sw_ref_not_found, sw_wrong_data}
use scll_rust.Workflow.InstallParams.{copy_bounded}
use scll_rust.Workflow.Managed.{ask}
use scll_rust.Cap.File.{parse}
use scll_rust.Cap.Stream.{
  Inflate, InflateCtx, LoadFileDataBlock, reset_inflate, content_len, lfdb, next_block,
}

-- limits.rs, `LOAD_BLOCK_DATA` and `HASH_MAX`
abbrev pub load_block_data : ℕ
load_block_data = 223

abbrev pub hash_max : ℕ
hash_max = 64

abbrev pub max_load_bytes : ℕ
max_load_bytes = 256 * load_block_data

pub record LoadPackageArgs : Type 0 where
  pub target_sd_aid : List ℕ
  pub cap_zip : List ℕ
  pub lfdb_hash : List ℕ

-- The report; its list of warnings is always empty, and left out.
pub record LoadPackageParams : Type 0 where
  pub package_aid : Aid
  pub load_file_size : ℕ
  pub hash_value : List ℕ
  pub block_count : ℕ
  pub target_sd_aid : Aid

-- `LoadFileDataBlock::len`
unfoldable pub len : LoadFileDataBlock → ℕ
len b = (b.header).len + content_len b.locs

-- The variables of the loop: the stream, what was sent, and the number of the next block.
pub record Progress (i : Inflate) : Type 0 where
  pub stream : LoadFileDataBlock
  pub infl : InflateCtx i
  pub sent : ℕ
  pub block_no : ℕ

abbrev pub behind : {i : Inflate} → Progress i → ℕ → LoadFileDataBlock → InflateCtx i → Progress i
behind p n stream infl = record {
  stream = stream;
  infl = infl;
  sent = p.sent + n;
  block_no = (p.block_no + 1) % 256;
}

module _ ⦃hl : Heapless⦄ {W : Type 0} (i : Inflate) (t : Transport W) (b03 : Scp03Backend W)
    (b02 : Scp02Backend W) where
  -- The body of the loop once there is a block: whether it was the last, and how the loop goes on.
  unfoldable pub send_block :
      ℕ
      → Progress i
      → List ℕ × LoadFileDataBlock × InflateCtx i
      → Action (ScpSession × W) ScllError (Option (Bool × Progress i))
  send_block total p ([], stream, infl) = lift (ok none)
  send_block total p (x ∷ out, stream, infl) = do
    let sent = p.sent + length (x ∷ out)
    let last = leb total sent
    ask t b03 b02 (load_block p.block_no last (x ∷ out)) []
    lift (ok (some (last, behind p (length (x ∷ out)) stream infl)))

  -- What follows a block: nothing if there was none, or if it was the last.
  unfoldable pub after_block :
      (Progress i → Action (ScpSession × W) ScllError ℕ)
      → Option (Bool × Progress i)
      → Action (ScpSession × W) ScllError ℕ
  after_block rest none = lift (ok 0)
  after_block rest (some (true, p)) = lift (ok 1)
  after_block rest (some (false, p)) = rest p >>= λ n. lift (ok (suc n))

  -- The loop, with the number of rounds left: how many blocks were sent.
  unfoldable pub load_blocks : ℕ → ℕ → Progress i → Action (ScpSession × W) ScllError ℕ
  load_blocks zero total p = lift stuck
  load_blocks (suc rounds) total p = do
    block ← lift (map_err ScllError.cap (next_block i p.stream p.infl load_block_data))
    step ← send_block total p block
    after_block (load_blocks rounds total) step

  unfoldable pub load_package :
      LoadPackageArgs → InflateCtx i → Action (ScpSession × W) ScllError LoadPackageParams
  load_package args infl = do
    (cap, infl') ← lift (map_err ScllError.cap (parse i args.cap_zip infl))
    let stream = lfdb cap.zip cap.locs
    let total = len stream
    lift (reject_if (ltb max_load_bytes total) ScllError.load_too_large)
    ask t b03 b02 (install_for_load (cap.package_aid).as_bytes args.target_sd_aid args.lfdb_hash) (
        (sw_ref_not_found, ScllError.resident_sd_not_found)
        ∷ (sw_wrong_data, ScllError.package_aid_exists)
        ∷ [])
    block_count ←
        load_blocks (max_load_bytes + 1) total
          (record { stream = stream; infl = reset_inflate i infl'; sent = 0; block_no = 0 })
    hash_value ← lift (copy_bounded hash_max args.lfdb_hash)
    target_sd_aid ← lift (new args.target_sd_aid)
    lift (
        ok (record {
          package_aid = cap.package_aid;
          load_file_size = min total (2 ^ 32 - 1);
          hash_value = hash_value;
          block_count = block_count;
          target_sd_aid = target_sd_aid;
        }))
