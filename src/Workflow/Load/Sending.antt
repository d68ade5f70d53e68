-- ===== src/Workflow/Load/Sending.antt =====
-- The blocks of a load file as crates/scll-core/src/workflow/ssd.rs sends them.
use scll_rust.Prelude.{
  ℕ, ◌%◌, if◌then◌else◌, ◌+◌, ◌≤◌, ◌<◌, ◌≡◌, sym, List, [], ◌∷◌, length, Bool, true, some, ok,
  arith,
}
use scll_rust.Prelude.Heapless.{Heapless}
use scll_rust.Command.Builders.{load_block}
use scll_rust.Command.Apdu.{read_apdu}
use scll_rust.Command.Frame.{command, build_lem}
use scll_rust.Command.Builders.Scopes.{build-Reads}
use scll_rust.Scp.Backend.{Scp03Backend, Scp02Backend}
use scll_rust.Scp.Sessions.{ScpSession}
use scll_rust.Session.{sw_ok, transmit_in_session, Transport}
use scll_rust.Cap.Stream.{Inflate, InflateCtx, LoadFileDataBlock, next_block}
use scll_rust.Workflow.Managed.Asked.{Sent}

module _ ⦃hl : Heapless⦄ {W : Type 0} (i : Inflate) (t : Transport W) (b03 : Scp03Backend W)
    (b02 : Scp02Backend W) where
  -- A card reads the command as LOAD with this P1, this block number and these octets, and answered
  -- with 9000.
  abbrev pub BlockSent : ℕ → ℕ → List ℕ → ScpSession × W → ScpSession × W → Type 0
  BlockSent p1 number chunk x x' =
      (capdu : List ℕ) × (body : List ℕ) × (read_apdu capdu
        ≡ some (command 0x84 0xE8 p1 number chunk true))
      × (transmit_in_session t b03 b02 capdu x ≡ (ok (body, sw_ok), x'))

  pub Sent-BlockSent :
      (number : ℕ) (last : Bool) (chunk : List ℕ) (x x' : ScpSession × W)
      → Sent t b03 b02 (load_block number last chunk) x x'
      → BlockSent (if last then 0x80 else 0x00) number chunk x x'
  unfolding load_block
  Sent-BlockSent number last chunk x x' (capdu, body, built, sent) =
      let p1 : ℕ = if last then 0x80 else 0x00 in
      let small : length chunk ≤ 255 =
        ground (arith, built, build_lem 0x84 0xE8 p1 number chunk true) in
      let (apdu, made, reads, short) = build-Reads 0x84 0xE8 p1 number chunk true small in
      let same : apdu ≡ capdu = cc (made, built) in (capdu, body, rw (sym same) reads, sent)

  -- The blocks that are sent of a load file of `total` octets once `sent` of them are sent in `number`
  -- blocks: each is the next one of the stream and has the next number, modulo 256, and P1 = 0x80
  -- marks the one that makes the load file complete. Or the stream has run dry before that.
  pub data Sending (total : ℕ)
      : ℕ
        → ℕ
        → LoadFileDataBlock
        → InflateCtx i
        → ScpSession × W
        → List (List ℕ)
        → ScpSession × W
        → Type 0 where
    ran_dry :
        {number sent : ℕ} {stream : LoadFileDataBlock} {infl : InflateCtx i} {x : ScpSession × W}
        (stream' : LoadFileDataBlock) (infl' : InflateCtx i)
        → next_block i stream infl 223 ≡ ok ([], stream', infl')
        → sent < total
        → Sending total number sent stream infl x [] x
    last_block :
        {number sent : ℕ} {stream : LoadFileDataBlock} {infl : InflateCtx i} {x x' : ScpSession × W}
        (o : ℕ) (out : List ℕ) (stream' : LoadFileDataBlock) (infl' : InflateCtx i)
        → next_block i stream infl 223 ≡ ok (o ∷ out, stream', infl')
        → total ≤ sent + length (o ∷ out)
        → BlockSent 0x80 (number % 256) (o ∷ out) x x'
        → Sending total number sent stream infl x ((o ∷ out) ∷ []) x'
    more_blocks :
        {number sent : ℕ} {stream : LoadFileDataBlock} {infl : InflateCtx i}
        {x x1 x' : ScpSession × W} {blocks : List (List ℕ)} (o : ℕ) (out : List ℕ)
        (stream' : LoadFileDataBlock) (infl' : InflateCtx i)
        → next_block i stream infl 223 ≡ ok (o ∷ out, stream', infl')
        → sent + length (o ∷ out) < total
        → BlockSent 0x00 (number % 256) (o ∷ out) x x1
        → Sending total (number + 1) (sent + length (o ∷ out)) stream' infl' x1 blocks x'
        → Sending total number sent stream infl x ((o ∷ out) ∷ blocks) x'
