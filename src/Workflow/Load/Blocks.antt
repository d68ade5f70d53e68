-- ===== src/Workflow/Load/Blocks.antt =====
-- What has happened when `load_package` of crates/scll-core/src/workflow/ssd.rs reports success.
use scll_rust.Prelude.{
  ℕ, zero, suc, ◌%◌, ◌+◌, ◌≤◌, ◌<◌, ◌≡◌, inl, inr, sym, ap, ◌∙◌, List, [], ◌∷◌, length, Bool, true,
  false, leb, leb→le, Option, none, some, Result, ok, map_err-ok, arith, Bool-cases,
}
use scll_rust.Prelude.Actions.{Action, went_on, went_on_lift, went_on_guard}
use scll_rust.Prelude.Heapless.{Heapless}
use scll_rust.Command.Builders.{load_block}
use scll_rust.Command.Apdu.{read_apdu}
use scll_rust.Command.Frame.{command}
use scll_rust.Command.Install.{install_for_load}
use scll_rust.Command.Install.Fields.{lv_fields, read_fields, install_for_load-Reads}
use scll_rust.Aid.{new-ok}
use scll_rust.Error.{ScllError}
use scll_rust.Scp.Backend.{Scp03Backend, Scp02Backend}
use scll_rust.Scp.Sessions.{ScpSession}
use scll_rust.Session.{sw_ok, transmit_in_session, Transport}
use scll_rust.Cap.{CompLoc}
use scll_rust.Cap.Lfdb
use scll_rust.Cap.File.{CapFile, parse}
use scll_rust.Cap.Stream.{Inflate, InflateCtx, LoadFileDataBlock, lfdb, next_block}
use scll_rust.Workflow.Managed.Asked.{Sent, ask-Sent}
use scll_rust.Workflow.Load.{
  LoadPackageArgs, LoadPackageParams, Progress, behind, len, load_block_data, send_block,
  after_block, load_blocks, load_package,
}
use scll_rust.Workflow.Load.Sending.{Sent-BlockSent, Sending, ran_dry, last_block, more_blocks}

module _ ⦃hl : Heapless⦄ {W : Type 0} (i : Inflate) (t : Transport W) (b03 : Scp03Backend W)
    (b02 : Scp02Backend W) where
  -- A block was sent and answered, or there was none.
  pub send_block-Sent :
      (total : ℕ) (p : Progress i) (o : ℕ) (out : List ℕ) (stream : LoadFileDataBlock)
      (infl : InflateCtx i) (step : Option (Bool × Progress i)) (x x' : ScpSession × W)
      → send_block i t b03 b02 total p (o ∷ out, stream, infl) x ≡ (ok step, x')
      → (step
          ≡ some (leb total (p.sent + length (o ∷ out)), behind p (length (o ∷ out)) stream infl))
        × Sent t b03 b02
            (load_block p.block_no (leb total (p.sent + length (o ∷ out))) (o ∷ out))
            x
            x'
  unfolding send_block
  send_block-Sent total p o out stream infl step x x' h =
      let (u, x1, asked, h1) = went_on _ _ _ _ h in
      let same : x1 ≡ x' = ap (λ y. y.1) h1 in
      (cc (ap (λ y. y.0) h1), rw (sym same) (ask-Sent t b03 b02 _ [] u x x1 asked))

  pub send_none :
      (total : ℕ) (p : Progress i) (stream : LoadFileDataBlock) (infl : InflateCtx i)
      (step : Option (Bool × Progress i)) (x x' : ScpSession × W)
      → send_block i t b03 b02 total p ([], stream, infl) x ≡ (ok step, x')
      → (step ≡ none) × (x ≡ x')
  unfolding send_block
  send_none total p stream infl step x x' h = (cc (ap (λ y. y.0) h), ap (λ y. y.1) h)

  after_last :
      (rest : Progress i → Action (ScpSession × W) ScllError ℕ) (p : Progress i) (n : ℕ)
      (x x' : ScpSession × W)
      → after_block i t b03 b02 rest (some (true, p)) x ≡ (ok n, x')
      → (n ≡ 1) × (x ≡ x')
  unfolding after_block
  after_last rest p n x x' h = (cc (ap (λ y. y.0) h), ap (λ y. y.1) h)

  after_none :
      (rest : Progress i → Action (ScpSession × W) ScllError ℕ) (n : ℕ) (x x' : ScpSession × W)
      → after_block i t b03 b02 rest none x ≡ (ok n, x')
      → (n ≡ 0) × (x ≡ x')
  unfolding after_block
  after_none rest n x x' h = (cc (ap (λ y. y.0) h), ap (λ y. y.1) h)

  after_more :
      (rest : Progress i → Action (ScpSession × W) ScllError ℕ) (p : Progress i) (n : ℕ)
      (x x' : ScpSession × W)
      → after_block i t b03 b02 rest (some (false, p)) x ≡ (ok n, x')
      → (m : ℕ) × (n ≡ suc m) × (rest p x ≡ (ok m, x'))
  unfolding after_block
  after_more rest p n x x' h =
      let (m, x1, given, h1) = went_on _ _ _ _ h in
      let same : x1 ≡ x' = ap (λ y. y.1) h1 in
      (m, cc (ap (λ y. y.0) h1), given ∙ ap (λ y. (ok m, y)) same)

  -- The blocks that a run of the loop has sent, and how many they are.
  abbrev Ran : ℕ → ℕ → Progress i → ScpSession × W → ℕ → ScpSession × W → Type 0
  Ran total number p x n x' =
      (blocks : List (List ℕ)) × Sending i t b03 b02 total number p.sent p.stream p.infl x blocks x'
      × (n ≡ length blocks)

  by_block :
      (rounds total number : ℕ) (p : Progress i) (n : ℕ) (x x' : ScpSession × W)
      → p.sent < total
      → p.block_no ≡ number % 256
      → ((p' : Progress i) (m : ℕ) (x1 : ScpSession × W)
          → p'.sent < total
          → p'.block_no ≡ (number + 1) % 256
          → load_blocks i t b03 b02 rounds total p' x1 ≡ (ok m, x')
          → Ran total (number + 1) p' x1 m x')
      → (block : List ℕ × LoadFileDataBlock × InflateCtx i)
      → next_block i p.stream p.infl load_block_data ≡ ok block
      → (step : Option (Bool × Progress i)) (x1 : ScpSession × W)
      → send_block i t b03 b02 total p block x ≡ (ok step, x1)
      → after_block i t b03 b02 (load_blocks i t b03 b02 rounds total) step x1 ≡ (ok n, x')
      → Ran total number p x n x'
  by_block rounds total number p n x x' open_ numbered go_on ([], stream, infl) next step x1 sent
        rest =
      let (none_left, same) = send_none total p stream infl step x x1 sent in
      let (count, same') = after_none _ n x1 x' (rw (none_left) at rest) in
      ([], rw (sym (same ∙ same')) (ran_dry stream infl next open_), count)
  by_block rounds total number p n x x' open_ numbered go_on (o ∷ out, stream, infl) next step x1
        sent rest =
      let (made, answered) = send_block-Sent total p o out stream infl step x x1 sent in
      elim (Bool-cases (leb total (p.sent + length (o ∷ out)))) [
        | inl last ↦
            let (count, same) = after_last _ _ n x1 x' (rw (made, last) at rest) in
            let block =
              Sent-BlockSent i t b03 b02 p.block_no true (o ∷ out) x x1 (rw (last) at answered) in
            (
              (o ∷ out) ∷ [],
              rw (sym same)
                  (last_block o out stream infl next (leb→le _ _ last) (rw (numbered) at block)),
              count,
            )
        | inr more ↦
            let (m, count, later) = after_more _ _ n x1 x' (rw (made, more) at rest) in
            let open' : p.sent + length (o ∷ out) < total = ground (arith, more) in
            let block =
              Sent-BlockSent i t b03 b02 p.block_no false (o ∷ out) x x1 (rw (more) at answered) in
            let (blocks, sending, counted) = go_on _ m x1 open' (omega (arith, numbered)) later in
            (
              (o ∷ out) ∷ blocks,
              more_blocks o out stream infl next open' (rw (numbered) at block) sending,
              count ∙ ap (λ k. suc k) counted,
            )
      ]

  load_blocks-Sending :
      (rounds total number : ℕ) (p : Progress i) (n : ℕ) (x x' : ScpSession × W)
      → p.sent < total
      → p.block_no ≡ number % 256
      → load_blocks i t b03 b02 rounds total p x ≡ (ok n, x')
      → Ran total number p x n x'
  unfolding load_blocks
  load_blocks-Sending zero total number p n x x' open_ numbered h = absurd (cc (ap (λ o. o.0) h))
  load_blocks-Sending (suc rounds) total number p n x x' open_ numbered h0 =
      let (block, given, h1) = went_on_lift _ _ _ _ _ h0 in
      let (step, x1, sent, h2) = went_on _ _ _ _ h1 in
      by_block rounds total number p n x x' open_ numbered
        (λ p' m x1 open' next_number h.
          load_blocks-Sending rounds total (number + 1) p' m x1 x' open' next_number h)
        block (map_err-ok _ _ _ given) step x1 sent h2

  -- The fields of INSTALL [for load].
  abbrev pub load_fields : List ℕ → LoadPackageArgs → List (List ℕ)
  load_fields package_aid args = package_aid ∷ args.target_sd_aid ∷ args.lfdb_hash ∷ [] ∷ [] ∷ []

  -- A card reads the command as INSTALL [for load] with these fields, and answered with 9000.
  abbrev pub InstallSent : List (List ℕ) → ScpSession × W → ScpSession × W → Type 0
  InstallSent fields x x' =
      (capdu : List ℕ) × (body : List ℕ) × (read_apdu capdu
        ≡ some (command 0x84 0xE6 0x02 0x00 (lv_fields fields) true))
      × (read_fields 5 (lv_fields fields) ≡ some fields)
      × (transmit_in_session t b03 b02 capdu x ≡ (ok (body, sw_ok), x'))

  Sent-InstallSent :
      (package_aid : List ℕ) (args : LoadPackageArgs) (x x' : ScpSession × W)
      → Sent t b03 b02 (install_for_load package_aid args.target_sd_aid args.lfdb_hash) x x'
      → InstallSent (load_fields package_aid args) x x'
  Sent-InstallSent package_aid args x x' (capdu, body, built, sent) =
      elim (install_for_load-Reads package_aid args.target_sd_aid args.lfdb_hash) [
        | inl (small, (apdu, made, reads, short), fields) ↦
            let same : apdu ≡ capdu = cc (made, built) in
            (capdu, body, rw (sym same) reads, fields, sent)
        | inr (large, refused) ↦ absurd (ground (arith, refused, built))
      ]

  -- A load file has its header at least.
  len-lfdb : (zip : List ℕ) (locs : List (Option CompLoc)) → 0 < len (lfdb zip locs)
  unfolding len lfdb Lfdb.new
  len-lfdb zip locs = ground arith

  -- What has happened when a package is loaded.
  pub record Loaded (args : LoadPackageArgs) (infl : InflateCtx i) (report : LoadPackageParams)
      (x x' : ScpSession × W) : Type 0 where
    pub cap : CapFile
    pub infl' : InflateCtx i
    pub x1 : ScpSession × W
    pub blocks : List (List ℕ)
    pub read : parse i args.cap_zip infl ≡ ok (cap, infl')
    pub small : len (lfdb cap.zip cap.locs) ≤ 57088
    pub installed : InstallSent (load_fields cap.package_aid.as_bytes args) x x1
    pub sent :
        Sending i t b03 b02
          (len (lfdb cap.zip cap.locs))
          0
          0
          (lfdb cap.zip cap.locs)
          (record infl' { state = i.fresh })
          x1
          blocks
          x'
    pub counted : report.block_count ≡ length blocks
    pub named : report.package_aid ≡ cap.package_aid
    pub target : report.target_sd_aid.as_bytes ≡ args.target_sd_aid

  same_report :
      (a b : LoadPackageParams) (x x' : ScpSession × W)
      → Path (Result ScllError LoadPackageParams × (ScpSession × W)) (ok a, x) (ok b, x')
      → (a ≡ b) × (x ≡ x')
  same_report a b x x' h = (cc (ap (λ o. o.0) h), ap (λ o. o.1) h)

  Sending-ends :
      (total : ℕ) (stream : LoadFileDataBlock) (infl : InflateCtx i) (x1 x2 x' : ScpSession × W)
      (blocks : List (List ℕ))
      → x2 ≡ x'
      → Sending i t b03 b02 total 0 0 stream infl x1 blocks x2
      → Sending i t b03 b02 total 0 0 stream infl x1 blocks x'
  Sending-ends total stream infl x1 x2 x' blocks world h = rw (sym world) h

  -- If `load_package` reports success, then the CAP file was read, its load file has at most 57088
  -- octets, and a card reads the first command as INSTALL [for load] with the AIDs of the package and
  -- the target and with the hash, and answered it with 9000. After it the blocks of the stream of the
  -- load file were sent in their order, each in a command that a card reads as LOAD with the block's
  -- number, which counts from 0 modulo 256, and answered with 9000; the block that makes the load file
  -- complete, and no other, is marked as the last, and nothing is sent after it. But if the stream
  -- runs dry before the load file is complete, success is reported too, and no block is marked. The
  -- report has the AID of the package, the target, and the number of blocks.
  pub load_package-Loaded :
      (args : LoadPackageArgs) (infl : InflateCtx i) (report : LoadPackageParams)
      (x x' : ScpSession × W)
      → load_package i t b03 b02 args infl x ≡ (ok report, x')
      → Loaded args infl report x x'
  unfolding load_package
  load_package-Loaded args infl report x x' h0 =
      let (read, given, h1) = went_on_lift _ _ _ _ _ h0 in
      let (small, h2) = went_on_guard _ _ _ _ _ _ h1 in
      let (u, x1, installed, h3) = went_on _ _ _ _ h2 in
      let (n, x2, sent, h4) = went_on _ _ _ _ h3 in
      let (hash, copied, h5) = went_on_lift _ _ _ _ _ h4 in
      let (target, named, h6) = went_on_lift _ _ _ _ _ h5 in
      let (same, world) = same_report _ _ x2 x' h6 in
      let (blocks, sending, counted) =
        load_blocks-Sending _ _ 0 _ n x1 x2 (len-lfdb (read.0).zip (read.0).locs) (omega arith)
          sent in
      record {
        cap = read.0;
        infl' = read.1;
        x1 = x1;
        blocks = blocks;
        read = map_err-ok _ _ _ given;
        small = ground (arith, small);
        installed =
            Sent-InstallSent (read.0).package_aid.as_bytes args x x1
              (ask-Sent t b03 b02 _ _ u x x1 installed);
        sent = Sending-ends _ _ _ x1 x2 x' blocks world sending;
        counted = sym (ap (λ r. r.block_count) same) ∙ counted;
        named = sym (ap (λ r. r.package_aid) same);
        target =
            sym (ap (λ r. r.target_sd_aid.as_bytes) same)
            ∙ (new-ok args.target_sd_aid target named).0;
      }
