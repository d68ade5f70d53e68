-- ===== src/Workflow/CardStatus/Whole.antt =====
-- The whole loop over the pages of GET STATUS in crates/scll-core/src/workflow/card_status.rs: what
-- is kept of what the card sent, and that no division into pages matters.
use scll_rust.Prelude.{
  ℕ, zero, suc, ◌≤◌, ◌≡◌, ◌⊎◌, inl, inr, refl, sym, ap, ◌∙◌, List, [], ◌∷◌, ◌++◌, length, take,
  drop, Bool, true, false, not, ◌||◌, Option, none, some, Result, ok, map_err-ok, arith,
  length-take, take-append-drop,
}
use mathlib.Core.List.{append_assoc, append-nil}
use scll_rust.Prelude.Actions.{went_on, went_on_lift}
use scll_rust.Prelude.Heapless.{Heapless}
use scll_rust.Tlv.{parse}
use scll_rust.Error.{ScllError}
use scll_rust.Command.Builders.{p2_first_tlv, p2_next_tlv, get_status_p2}
use scll_rust.Scp.Backend.{Scp03Backend, Scp02Backend}
use scll_rust.Scp.Sessions.{ScpSession}
use scll_rust.Session.{Transport, sw_ok, sw_ref_not_found, sw_more_data, transmit_in_session}
use scll_rust.Workflow.CardStatus.{
  Scan, Round, next_round, leave_loop, empty_scope, start, finish, is_ok, max_status_scope_bytes,
  max_status_pages, follow, read_page, read_pages, read_status_scope,
}
use scll_rust.Workflow.CardStatus.Paging.{IsPrefix, IsChecked, IsOpen, RoundOf, after_page-RoundOf}

-- The data of all pages, in order. A page is its data and its status word.
unfoldable pub whole : List (List ℕ × ℕ) → List ℕ
whole [] = []
whole (page ∷ pages) = page.0 ++ whole pages

-- All pages announce more data but the last, which has the given status word.
pub data Run (sw : ℕ) : List (List ℕ × ℕ) → Type 0 where
  last_page : (octets : List ℕ) → Run sw ((octets, sw) ∷ [])
  more_pages :
      (octets : List ℕ) (rest : List (List ℕ × ℕ))
      → Run sw rest
      → Run sw ((octets, sw_more_data) ∷ rest)

module _ ⦃hl : Heapless⦄ where
  empty_complete : is_ok (parse []) ≡ true
  unfolding parse
  empty_complete = refl

  pub start-IsOpen : IsOpen start
  start-IsOpen = record {
    checked = record { complete = empty_complete; within = omega arith; held = omega arith };
    whole_yet = refl;
    not_done = refl;
  }

module _ ⦃hl : Heapless⦄ {W : Type 0} (t : Transport W) (b03 : Scp03Backend W)
    (b02 : Scp02Backend W) (p1 : ℕ) where
  -- The exchanges that fetch the pages, from one state to another: the first request has the given
  -- P2, and the others ask for the next part.
  abbrev pub Fetched : List (List ℕ × ℕ) → ℕ → ScpSession × W → ScpSession × W → Type 0
  Fetched [] p2 x x' = x ≡ x'
  Fetched (page ∷ pages) p2 x x' =
      (capdu : List ℕ) × (x1 : ScpSession × W) × (get_status_p2 p1 p2 [] ≡ ok capdu)
      × (transmit_in_session t b03 b02 capdu x ≡ (ok page, x1))
      × Fetched pages p2_next_tlv x1 x'

  -- What the loop has made of the pages, from what was held before.
  abbrev Ended : List ℕ → List (List ℕ × ℕ) → Option Scan → Type 0
  Ended held pages none = Run sw_ref_not_found pages
  Ended held pages (some s) =
      IsChecked s
      × IsPrefix (take s.good_len s.buf) (held ++ whole pages)
      × ((not s.done || s.truncated) ≡ false
          → Run sw_ok pages × (take s.good_len s.buf ≡ held ++ whole pages))

  -- One round of the loop.
  round_lem :
      (scan : Scan) (round : Round) (x x' : ScpSession × W)
      → IsOpen scan
      → read_page t b03 b02 p1 scan x ≡ (ok round, x')
      → (capdu : List ℕ) × (page : List ℕ × ℕ) × (get_status_p2 p1 scan.p2 [] ≡ ok capdu)
        × (transmit_in_session t b03 b02 capdu x ≡ (ok page, x'))
        × RoundOf scan (page.0) (page.1) round
  unfolding read_page
  round_lem scan round x x' open_scan h0 =
      let (capdu, built, h1) = went_on_lift _ _ _ _ _ h0 in
      let (page, x1, sent, h2) = went_on _ _ _ _ h1 in
      (
        capdu,
        page,
        map_err-ok ScllError.build (get_status_p2 p1 scan.p2 []) capdu built,
        sent ∙ ap (λ y. (ok page, y)) (ap (λ o. o.1) h2),
        after_page-RoundOf scan (page.0) (page.1) open_scan round (ap (λ o. o.0) h2),
      )

  -- What is known when the loop, with `n` rounds left, has ended.
  abbrev PagesOf : ℕ → Scan → Option Scan → ScpSession × W → ScpSession × W → Type 0
  PagesOf n scan end x x' =
      (pages : List (List ℕ × ℕ)) × Fetched pages scan.p2 x x'
      × (length pages ≤ n)
      × Ended scan.buf pages end

  pub refetch :
      (pages : List (List ℕ × ℕ)) (p q : ℕ) (x x' : ScpSession × W)
      → p ≡ q
      → Fetched pages p x x'
      → Fetched pages q x x'
  refetch pages p q x x' h fetched = rw (sym h) fetched

  extend_end :
      (held octets grown : List ℕ) (sw : ℕ) (pages : List (List ℕ × ℕ)) (end : Option Scan)
      → grown ≡ held ++ octets
      → sw ≡ sw_more_data
      → Ended grown pages end
      → Ended held ((octets, sw) ∷ pages) end
  unfolding whole
  extend_end held octets grown sw pages none same word run = rw (word) (more_pages octets pages run)
  extend_end held octets grown sw pages (some s) same word (checked, prefix, all) =
      let joined : grown ++ whole pages ≡ held ++ (octets ++ whole pages) =
        ap (λ l. l ++ whole pages) same ∙ append_assoc held octets (whole pages) in
      (
        checked,
        record { rest = prefix.rest; joined = prefix.joined ∙ joined },
        λ h. (rw (word) (more_pages octets pages ((all h).0)), (all h).1 ∙ joined),
      )

  last_end :
      (held octets : List ℕ) (sw : ℕ) (s : Scan)
      → IsChecked s
      → IsPrefix (take s.good_len s.buf) (held ++ octets)
      → ((not s.done || s.truncated) ≡ false
          → (sw ≡ sw_ok) × (take s.good_len s.buf ≡ held ++ octets))
      → Ended held ((octets, sw) ∷ []) (some s)
  unfolding whole
  last_end held octets sw s checked prefix all =
      let joined : held ++ octets ≡ held ++ (octets ++ []) =
        ap (λ l. held ++ l) (sym (append-nil octets)) in
      (
        checked,
        record { rest = prefix.rest; joined = prefix.joined ∙ joined },
        λ h. (rw ((all h).0) (last_page octets), (all h).1 ∙ joined),
      )

  after_round :
      (n : ℕ) (scan : Scan) (round : Round) (end : Option Scan) (x x1 x' : ScpSession × W)
      (capdu octets : List ℕ) (sw : ℕ)
      → ((s : Scan)
          → IsOpen s
          → read_pages t b03 b02 n p1 s x1 ≡ (ok end, x')
          → PagesOf n s end x1 x')
      → get_status_p2 p1 scan.p2 [] ≡ ok capdu
      → transmit_in_session t b03 b02 capdu x ≡ (ok (octets, sw), x1)
      → RoundOf scan octets sw round
      → follow (λ s. read_pages t b03 b02 n p1 s) round x1 ≡ (ok end, x')
      → PagesOf (suc n) scan end x x'
  unfolding whole
  after_round n scan (next_round s) end x x1 x' capdu octets sw ih built sent
        (open_next, grown, p2, word) h =
      let (pages, fetched, few, ended) = ih s open_next h in
      (
        (octets, sw) ∷ pages,
        (capdu, x1, built, sent, refetch pages s.p2 p2_next_tlv x1 x' p2 fetched),
        omega (arith, few),
        extend_end scan.buf octets s.buf sw pages end grown word ended,
      )
  after_round n scan (leave_loop s) end x x1 x' capdu octets sw ih built sent (checked, prefix, all)
        h =
      let last : some s ≡ end = cc (ap (λ o. o.0) h) in
      (
        (octets, sw) ∷ [],
        (capdu, x1, built, sent, ap (λ o. o.1) h),
        omega arith,
        rw (sym last) (last_end scan.buf octets sw s checked prefix all),
      )
  after_round n scan empty_scope end x x1 x' capdu octets sw ih built sent word h =
      let last : none ≡ end = cc (ap (λ o. o.0) h) in
      (
        (octets, sw) ∷ [],
        (capdu, x1, built, sent, ap (λ o. o.1) h),
        omega arith,
        rw (sym last, word) (last_page octets),
      )

  read_pages_lem :
      (n : ℕ) (scan : Scan) (end : Option Scan) (x x' : ScpSession × W)
      → IsOpen scan
      → read_pages t b03 b02 n p1 scan x ≡ (ok end, x')
      → PagesOf n scan end x x'
  unfolding read_pages whole
  read_pages_lem zero scan end x x' open_scan h =
      let last : some scan ≡ end = cc (ap (λ o. o.0) h) in
      (
        [],
        ap (λ o. o.1) h,
        omega arith,
        rw (sym last) (
          open_scan.checked,
          record {
            rest = drop scan.good_len scan.buf;
            joined = take-append-drop _ _ ∙ sym (append-nil _);
          },
          λ h. absurd (ground (arith, h, open_scan.not_done)),
        ),
      )
  read_pages_lem (suc n) scan end x x' open_scan h0 =
      let (round, x1, ran, h1) = went_on _ _ _ _ h0 in
      let (capdu, page, built, sent, made) = round_lem scan round x x1 open_scan ran in
      after_round n scan round end x x1 x' capdu (page.0) (page.1)
        (λ s open_next h. read_pages_lem n s end x1 x' open_next h) built sent made (h1)

  -- What is kept of the pages: their front part, complete and within the bounds, and all of it if it
  -- is not marked as truncated.
  pub record IsKept (octets : List ℕ) (truncated : Bool) (pages : List (List ℕ × ℕ)) : Type 0 where
    pub front : IsPrefix octets (whole pages)
    pub bounded : length octets ≤ max_status_scope_bytes
    pub complete : is_ok (parse octets) ≡ true
    pub all :
        truncated ≡ false
        → (Run sw_ok pages × (octets ≡ whole pages)) ⊎ (Run sw_ref_not_found pages × (octets ≡ []))
    pub malformed :
        is_ok (parse (whole pages)) ≡ false
        → (truncated ≡ true) ⊎ (Run sw_ref_not_found pages × (octets ≡ []))

  malformed_marked :
      (octets : List ℕ) (truncated : Bool) (pages : List (List ℕ × ℕ))
      → is_ok (parse octets) ≡ true
      → (truncated ≡ false
          → (Run sw_ok pages × (octets ≡ whole pages))
            ⊎ (Run sw_ref_not_found pages × (octets ≡ [])))
      → is_ok (parse (whole pages)) ≡ false
      → (truncated ≡ true) ⊎ (Run sw_ref_not_found pages × (octets ≡ []))
  malformed_marked octets true pages complete all bad = inl refl
  malformed_marked octets false pages complete all bad = elim (all refl) [
    | inl (run, same) ↦ absurd (cc (complete, bad, ap (λ l. is_ok (parse l)) same))
    | inr empty ↦ inr empty
  ]

  IsKept-end :
      (pages : List (List ℕ × ℕ)) (end : Option Scan)
      → Ended [] pages end
      → IsKept ((finish end).0) ((finish end).1) pages
  unfolding finish
  IsKept-end pages none run = record {
    front = record { rest = whole pages; joined = refl };
    bounded = omega arith;
    complete = empty_complete;
    all = λ h. inr (run, refl);
    malformed = λ h. inr (run, refl);
  }
  IsKept-end pages (some s) (checked, prefix, all) = record {
    front = prefix;
    bounded = omega (arith, length-take s.good_len s.buf, checked.held);
    complete = checked.complete;
    all = λ h. inl (all h);
    malformed =
        malformed_marked (take s.good_len s.buf) (not s.done || s.truncated) pages checked.complete
          (λ h. inl (all h));
  }

  -- If `read_status_scope` returns octets, they were fetched in at most 16 pages, the first one asked
  -- for as the first and the others as the next, they are the front part of the data of all pages,
  -- they are at most 4128, and `parse` accepts them; and unless they are marked as truncated, they are
  -- the data of all pages and the last page alone had the status 9000, the others 6310, or the last
  -- page had the status 6A88 and there are no octets. If `parse` refuses the data of all pages,
  -- also when they are malformed and not merely too many, then what is returned is marked as
  -- truncated, or the last page had the status 6A88 and there are no octets.
  pub read_status_scope-IsKept :
      (octets : List ℕ) (truncated : Bool) (x x' : ScpSession × W)
      → read_status_scope t b03 b02 p1 x ≡ (ok (octets, truncated), x')
      → (pages : List (List ℕ × ℕ)) × Fetched pages p2_first_tlv x x'
        × (length pages ≤ max_status_pages)
        × IsKept octets truncated pages
  unfolding read_status_scope
  read_status_scope-IsKept octets truncated x x' h0 =
      let (end, x1, ran, h1) = went_on _ _ _ _ h0 in kept_lem octets truncated end x x1 x' ran h1
    where
      kept_lem :
          (octets : List ℕ) (truncated : Bool) (end : Option Scan) (x x1 x' : ScpSession × W)
          → read_pages t b03 b02 max_status_pages p1 start x ≡ (ok end, x1)
          → Path
              (Result ScllError (List ℕ × Bool) × (ScpSession × W))
              (ok (finish end), x1)
              (ok (octets, truncated), x')
          → (pages : List (List ℕ × ℕ)) × Fetched pages p2_first_tlv x x'
            × (length pages ≤ max_status_pages)
            × IsKept octets truncated pages
      kept_lem octets truncated end x x1 x' ran done =
          let (pages, fetched, few, ended) =
            read_pages_lem max_status_pages start end x x1 start-IsOpen ran in
          let kept : finish end ≡ (octets, truncated) = cc (ap (λ o. o.0) done) in
          let world : x1 ≡ x' = ap (λ o. o.1) done in
          (
            pages,
            rw (sym world) fetched,
            few,
            rw (sym (ap (λ k. k.0) kept), sym (ap (λ k. k.1) kept)) (IsKept-end pages end ended),
          )
