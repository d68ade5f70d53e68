-- ===== src/Workflow/CardStatus/Division.antt =====
-- The loop over the pages of GET STATUS in crates/scll-core/src/workflow/card_status.rs delivers
-- everything, however the card divides its data into pages.
use scll_rust.Prelude.{
  ℕ, zero, suc, ◌+◌, ◌≤◌, ◌≡◌, ◌⊎◌, inl, inr, refl, sym, ap, ◌∙◌, List, [], ◌++◌, length, true,
  false, le→leb, some, ok, arith, length-append,
}
use mathlib.Core.List.{append_assoc, append-nil}
use scll_rust.Prelude.Actions.{resume}
use scll_rust.Prelude.Heapless.{Heapless}
use scll_rust.Tlv.{parse}
use scll_rust.Command.Builders.{p2_first_tlv, p2_next_tlv, get_status_p2}
use scll_rust.Scp.Backend.{Scp03Backend, Scp02Backend}
use scll_rust.Scp.Sessions.{ScpSession}
use scll_rust.Session.{Transport, sw_ok, sw_more_data, transmit_in_session}
use scll_rust.Workflow.CardStatus.{
  Scan, Round, next_round, leave_loop, start, finish, is_ok, checkpoint, after_page, follow,
  max_status_scope_bytes, max_status_pages, read_page, read_pages, read_status_scope,
}
use scll_rust.Workflow.CardStatus.Paging.{take-length, IsOpen, after_page-RoundOf}
use scll_rust.Workflow.CardStatus.Whole.{
  whole, Run, last_page, more_pages, Fetched, refetch, start-IsOpen,
}

module _ ⦃hl : Heapless⦄ where
  -- A page that fits is taken to the checkpoint.
  page_fits :
      (scan : Scan) (page : List ℕ) (sw : ℕ)
      → length (scan.buf ++ page) ≤ max_status_scope_bytes
      → (sw ≡ sw_ok) ⊎ (sw ≡ sw_more_data)
      → after_page scan page sw ≡ ok (checkpoint scan (scan.buf ++ page) sw)
  unfolding after_page
  page_fits scan page sw fits (inl word) =
      let room =
        le→leb (length scan.buf + length page) max_status_scope_bytes
          (omega (arith, fits, length-append scan.buf page)) in
      rw (word, hl.extend_lem ℕ max_status_scope_bytes scan.buf page, room) refl
  page_fits scan page sw fits (inr word) =
      let room =
        le→leb (length scan.buf + length page) max_status_scope_bytes
          (omega (arith, fits, length-append scan.buf page)) in
      rw (word, hl.extend_lem ℕ max_status_scope_bytes scan.buf page, room) refl

  checkpoint_more :
      (scan : Scan) (buf : List ℕ) → (s : Scan) × (checkpoint scan buf sw_more_data ≡ next_round s)
  unfolding checkpoint
  checkpoint_more scan buf = (_, refl)

  checkpoint_last :
      (scan : Scan) (buf : List ℕ)
      → IsOpen scan
      → is_ok (parse buf) ≡ true
      → (s : Scan) × (checkpoint scan buf sw_ok ≡ leave_loop s) × (finish (some s) ≡ (buf, false))
  unfolding checkpoint finish
  checkpoint_last scan buf open_scan complete = (
    record { buf = buf; good_len = length buf; p2 = scan.p2; truncated = false; done = true },
    rw (complete, open_scan.whole_yet) refl,
    ap (λ l. (l, false)) (take-length buf),
  )

  module _ {W : Type 0} (t : Transport W) (b03 : Scp03Backend W) (b02 : Scp02Backend W)
      (p1 : ℕ) where
    read_page_lem :
        (scan : Scan) (capdu page : List ℕ) (sw : ℕ) (x x1 : ScpSession × W)
        → get_status_p2 p1 scan.p2 [] ≡ ok capdu
        → transmit_in_session t b03 b02 capdu x ≡ (ok (page, sw), x1)
        → read_page t b03 b02 p1 scan x ≡ (after_page scan page sw, x1)
    unfolding read_page resume
    read_page_lem scan capdu page sw x x1 built sent = rw (built, sent) refl

    read_pages_round :
        (n : ℕ) (scan : Scan) (round : Round) (x x1 : ScpSession × W)
        → read_page t b03 b02 p1 scan x ≡ (ok round, x1)
        → read_pages t b03 b02 (suc n) p1 scan x
          ≡ follow (λ s. read_pages t b03 b02 n p1 s) round x1
    unfolding read_pages resume
    read_pages_round n scan round x x1 ran = rw (ran) refl

    -- A round that reads a page which fits.
    round_of :
        (n : ℕ) (scan : Scan) (round : Round) (capdu page : List ℕ) (sw : ℕ) (x x1 : ScpSession × W)
        → get_status_p2 p1 scan.p2 [] ≡ ok capdu
        → transmit_in_session t b03 b02 capdu x ≡ (ok (page, sw), x1)
        → after_page scan page sw ≡ ok round
        → read_pages t b03 b02 (suc n) p1 scan x
          ≡ follow (λ s. read_pages t b03 b02 n p1 s) round x1
    round_of n scan round capdu page sw x x1 built sent after =
        read_pages_round n scan round x x1
          (read_page_lem scan capdu page sw x x1 built sent ∙ ap (λ r. (r, x1)) after)

    abbrev AllRead : ℕ → Scan → List ℕ → ScpSession × W → ScpSession × W → Type 0
    AllRead n scan octets x x' =
        (s : Scan) × (read_pages t b03 b02 n p1 scan x ≡ (ok (some s), x'))
        × (finish (some s) ≡ (octets, false))

    last_round :
        (n : ℕ) (scan : Scan) (capdu octets : List ℕ) (x x' : ScpSession × W)
        → IsOpen scan
        → get_status_p2 p1 scan.p2 [] ≡ ok capdu
        → transmit_in_session t b03 b02 capdu x ≡ (ok (octets, sw_ok), x')
        → length (scan.buf ++ octets) ≤ max_status_scope_bytes
        → is_ok (parse (scan.buf ++ octets)) ≡ true
        → AllRead (suc n) scan (scan.buf ++ octets) x x'
    last_round n scan capdu octets x x' open_scan built sent fits complete =
        let (s, left, kept) = checkpoint_last scan (scan.buf ++ octets) open_scan complete in
        (
          s,
          round_of n scan (leave_loop s) capdu octets sw_ok x x' built sent
              (page_fits scan octets sw_ok fits (inl refl) ∙ ap (λ r. ok r) left),
          kept,
        )

    read_pages_all :
        (n : ℕ) (scan : Scan) (pages : List (List ℕ × ℕ)) (x x' : ScpSession × W)
        → IsOpen scan
        → Fetched t b03 b02 p1 pages scan.p2 x x'
        → Run sw_ok pages
        → length pages ≤ n
        → length (scan.buf ++ whole pages) ≤ max_status_scope_bytes
        → is_ok (parse (scan.buf ++ whole pages)) ≡ true
        → AllRead n scan (scan.buf ++ whole pages) x x'
    unfolding whole
    read_pages_all zero scan pages x x' open_scan fetched (last_page octets) few fits complete =
        absurd (omega (arith, few))
    read_pages_all zero scan pages x x' open_scan fetched (more_pages octets rest run) few fits
          complete =
        absurd (omega (arith, few))
    read_pages_all (suc n) scan pages x x' open_scan fetched (last_page octets) few fits complete =
        let (capdu, x1, built, sent, world) = fetched in
        let plain : octets ++ [] ≡ octets = append-nil octets in
        rw (plain, sym world)
          (last_round n scan capdu octets x x1 open_scan built sent
            (omega (arith, fits, ap (λ l. length (scan.buf ++ l)) plain))
            (ap (λ l. is_ok (parse (scan.buf ++ l))) (sym plain) ∙ complete))
    read_pages_all (suc n) scan pages x x' open_scan fetched (more_pages octets rest run) few fits
          complete =
        let (capdu, x1, built, sent, fetched') = fetched in
        let joined = append_assoc scan.buf octets (whole rest) in
        let small : length (scan.buf ++ octets) ≤ max_status_scope_bytes = omega (
          arith,
          fits,
          length-append scan.buf (octets ++ whole rest),
          length-append octets (whole rest),
          length-append scan.buf octets,
        ) in
        let (s, went) = checkpoint_more scan (scan.buf ++ octets) in
        let after = page_fits scan octets sw_more_data small (inr refl) ∙ ap (λ r. ok r) went in
        let (open_next, grown, p2, word) =
          after_page-RoundOf scan octets sw_more_data open_scan (next_round s) after in
        let all : s.buf ++ whole rest ≡ scan.buf ++ (octets ++ whole rest) =
          ap (λ l. l ++ whole rest) grown ∙ joined in
        let (end, ran, kept) =
          read_pages_all n s rest x1 x' open_next
            (refetch t b03 b02 p1 rest p2_next_tlv s.p2 x1 x' (sym p2) fetched') run
            (omega (arith, few)) (omega (arith, fits, ap (λ l. length l) all))
            (ap (λ l. is_ok (parse l)) all ∙ complete) in
        (
          end,
          round_of n scan (next_round s) capdu octets sw_more_data x x1 built sent after ∙ ran,
          kept ∙ ap (λ l. (l, false)) all,
        )

    -- However the card divides its data into at most 16 pages, all but the last with the status 6310
    -- and the last with 9000, `read_status_scope` returns all of the data, not marked as truncated, if
    -- they are at most 4128 octets that `parse` accepts.
    pub read_status_scope-whole :
        (pages : List (List ℕ × ℕ)) (x x' : ScpSession × W)
        → Fetched t b03 b02 p1 pages p2_first_tlv x x'
        → Run sw_ok pages
        → length pages ≤ max_status_pages
        → length (whole pages) ≤ max_status_scope_bytes
        → is_ok (parse (whole pages)) ≡ true
        → read_status_scope t b03 b02 p1 x ≡ (ok (whole pages, false), x')
    unfolding read_status_scope resume
    read_status_scope-whole pages x x' fetched run few fits complete =
        let (s, ran, kept) =
          read_pages_all max_status_pages start pages x x' start-IsOpen fetched run few fits
            complete in
        rw (ran) (ap (λ k. (ok k, x')) kept)
