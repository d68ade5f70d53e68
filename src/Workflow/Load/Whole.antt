-- ===== src/Workflow/Load/Whole.antt =====
-- The blocks that crates/scll-core/src/workflow/ssd.rs sends of stored components make up the load file.
use scll_rust.Prelude.{
  ℕ, zero, suc, ◌+◌, ◌≤◌, ◌≡◌, refl, sym, ap, ◌∙◌, List, [], ◌∷◌, ◌++◌, length, take, drop, Option,
  Result, ok, arith, take-append-drop, length-append,
}
use mathlib.Core.List.{append-nil}
use scll_rust.Prelude.Heapless.{Heapless}
use scll_rust.Scp.Backend.{Scp03Backend, Scp02Backend}
use scll_rust.Scp.Sessions.{ScpSession}
use scll_rust.Session.{Transport}
use scll_rust.Cap.{CompLoc}
use scll_rust.Cap.Stream.{Inflate, InflateCtx, LoadFileDataBlock, next_block}
use scll_rust.Cap.Stream.Stored.{At}
use scll_rust.Cap.Stream.Blocks.{IsHeader, to_come, next_block-take}
use scll_rust.Workflow.Load.Sending.{Sending, ran_dry, last_block, more_blocks}

-- The octets of the blocks, one after the other.
abbrev pub joined : List (List ℕ) → List ℕ
joined [] = []
joined (block ∷ blocks) = block ++ joined blocks

-- A front part that is not shorter is all.
take_all_of : (n : ℕ) (xs : List ℕ) → length xs ≤ length (take n xs) → take n xs ≡ xs
take_all_of zero [] h = refl
take_all_of zero (x ∷ xs) h = absurd (omega (arith, h))
take_all_of (suc n) [] h = refl
take_all_of (suc n) (x ∷ xs) h = ap (λ l. x ∷ l) (take_all_of n xs (omega (arith, h)))

empty_front : (n : ℕ) (xs : List ℕ) → [] ≡ take (suc n) xs → length xs ≡ 0
empty_front n [] h = refl
empty_front n (x ∷ xs) h = absurd (cc h)

module _ ⦃hl : Heapless⦄ {W : Type 0} (i : Inflate) (t : Transport W) (b03 : Scp03Backend W)
    (b02 : Scp02Backend W) where
  -- What the next block is, and what is left behind it.
  next_lem :
      (stream stream' : LoadFileDataBlock) (infl infl' : InflateCtx i) (ls : List (Option CompLoc))
      (out : List ℕ)
      → At stream ls
      → IsHeader stream.header
      → next_block i stream infl 223 ≡ ok (out, stream', infl')
      → (ls' : List (Option CompLoc)) × At stream' ls'
        × IsHeader stream'.header
        × (out ≡ take 223 (to_come stream ls))
        × (to_come stream' ls' ≡ drop 223 (to_come stream ls))
  next_lem stream stream' infl infl' ls out at_ sound next =
      let (b', ls', given, at', sound', left) = next_block-take i infl 223 stream ls at_ sound in
      let same : Path (Result _ (List ℕ × LoadFileDataBlock × InflateCtx i))
          (ok (take 223 (to_come stream ls), b', infl)) (ok (out, stream', infl')) =
        sym given ∙ next in
      let here : b' ≡ stream' = cc same in
      let octets : take 223 (to_come stream ls) ≡ out = cc same in
      (ls', rw (sym here) at', rw (sym here) sound', sym octets, rw (sym here) left)

  -- Where the components are stored and lie within the file, the blocks make up all that was still to
  -- come of the load file: the stream does not run dry.
  pub Sending-joined :
      (total number sent : ℕ) (stream : LoadFileDataBlock) (infl : InflateCtx i)
      (x x' : ScpSession × W) (blocks : List (List ℕ)) (ls : List (Option CompLoc))
      → At stream ls
      → IsHeader stream.header
      → sent + length (to_come stream ls) ≡ total
      → Sending i t b03 b02 total number sent stream infl x blocks x'
      → joined blocks ≡ to_come stream ls
  Sending-joined total number sent stream infl x x' blocks ls at_ sound size
        (ran_dry stream' infl' next less) =
      let (ls', at', sound', octets, left) =
        next_lem stream stream' infl infl' ls [] at_ sound next in
      absurd (omega (arith, less, size, empty_front 222 (to_come stream ls) octets))
  Sending-joined total number sent stream infl x x' blocks ls at_ sound size
        (last_block o out stream' infl' next complete answered) =
      let (ls', at', sound', octets, left) =
        next_lem stream stream' infl infl' ls (o ∷ out) at_ sound next in
      let long : length (o ∷ out) ≡ length (take 223 (to_come stream ls)) =
        ap (λ l. length l) octets in
      append-nil (o ∷ out)
      ∙ octets
      ∙ take_all_of 223 (to_come stream ls) (omega (arith, complete, size, long))
  Sending-joined total number sent stream infl x x' blocks ls at_ sound size
        (more_blocks o out stream' infl' next less answered sending) =
      let (ls', at', sound', octets, left) =
        next_lem stream stream' infl infl' ls (o ∷ out) at_ sound next in
      let whole : (o ∷ out) ++ to_come stream' ls' ≡ to_come stream ls =
        ap (λ l. l ++ to_come stream' ls') octets
        ∙ ap (λ l. take 223 (to_come stream ls) ++ l) left
        ∙ take-append-drop 223 (to_come stream ls) in
      let longer : length (o ∷ out) + length (to_come stream' ls') ≡ length (to_come stream ls) =
        sym (length-append (o ∷ out) (to_come stream' ls')) ∙ ap (λ l. length l) whole in
      ap (λ l. (o ∷ out) ++ l)
        (Sending-joined total (number + 1) (sent + length (o ∷ out)) stream' infl' _ x' _ ls' at'
          sound' (omega (arith, size, longer)) sending)
      ∙ whole
