-- ===== src/Workflow/CardStatus/Paging.antt =====
-- The loop over the pages of GET STATUS in crates/scll-core/src/workflow/card_status.rs: what a round
-- does to what has been read. `Whole` is about the whole loop.
use scll_rust.Prelude.{
  ℕ, zero, suc, ◌+◌, ◌≤◌, ◌≡◌, inl, inr, refl, sym, ap, ◌∙◌, List, [], ◌∷◌, ◌++◌, length, take,
  drop, true, false, not, ◌||◌, leb, leb→le, ◌==◌, ==_iff, if◌then◌else◌, none, ok, err, arith,
  Bool-cases, length-append, take-append-drop,
}
use mathlib.Core.List.{append_assoc, append-nil}
use scll_rust.Prelude.Heapless.{Heapless}
use scll_rust.Tlv.{parse}
use scll_rust.Error.{from_general_sw}
use scll_rust.Command.Builders.{p2_next_tlv}
use scll_rust.Session.{sw_ok, sw_ref_not_found, sw_more_data}
use scll_rust.Workflow.CardStatus.{
  Scan, Round, next_round, leave_loop, empty_scope, is_ok, checkpoint, after_page, extended,
  max_status_scope_bytes,
}

pub record IsPrefix (front whole : List ℕ) : Type 0 where
  pub rest : List ℕ
  pub joined : front ++ rest ≡ whole

pub IsPrefix-take : (n : ℕ) (xs more : List ℕ) → IsPrefix (take n xs) (xs ++ more)
IsPrefix-take n xs more = record {
  rest = drop n xs ++ more;
  joined =
      sym (append_assoc (take n xs) (drop n xs) more) ∙ ap (λ l. l ++ more) (take-append-drop n xs);
}

IsPrefix-whole : (n : ℕ) (xs : List ℕ) → IsPrefix (take n xs) xs
IsPrefix-whole n xs = record { rest = drop n xs; joined = take-append-drop n xs }

take-append_within : (n : ℕ) (xs more : List ℕ) → n ≤ length xs → take n (xs ++ more) ≡ take n xs
take-append_within zero xs more h = refl
take-append_within (suc n) [] more h = absurd (omega (arith, h))
take-append_within (suc n) (x ∷ xs) more h =
    ap (λ l. x ∷ l) (take-append_within n xs more (omega (arith, h)))

pub take-length : (xs : List ℕ) → take (length xs) xs ≡ xs
take-length [] = refl
take-length (x ∷ xs) = ap (λ l. x ∷ l) (take-length xs)

module _ ⦃hl : Heapless⦄ where
  -- What is kept is complete as a sequence of objects, and what is held fits.
  pub record IsChecked (s : Scan) : Type 0 where
    pub complete : is_ok (parse (take s.good_len s.buf)) ≡ true
    pub within : s.good_len ≤ length s.buf
    pub held : length s.buf ≤ max_status_scope_bytes

  -- The state of the loop at the head of a round.
  pub record IsOpen (s : Scan) : Type 0 where
    pub checked : IsChecked s
    pub whole_yet : s.truncated ≡ false
    pub not_done : s.done ≡ false

  -- What a page with a status word makes of what was held, by how the round ends.
  abbrev pub RoundOf : Scan → List ℕ → ℕ → Round → Type 0
  RoundOf scan page sw empty_scope = sw ≡ sw_ref_not_found
  RoundOf scan page sw (leave_loop s) =
      IsChecked s
      × IsPrefix (take s.good_len s.buf) (scan.buf ++ page)
      × ((not s.done || s.truncated) ≡ false
          → (sw ≡ sw_ok) × (take s.good_len s.buf ≡ scan.buf ++ page))
  RoundOf scan page sw (next_round s) =
      IsOpen s × (s.buf ≡ scan.buf ++ page) × (s.p2 ≡ p2_next_tlv) × (sw ≡ sw_more_data)

  module _ (scan : Scan) (page : List ℕ) (sw : ℕ) (open_scan : IsOpen scan)
      (fits : length (scan.buf ++ page) ≤ max_status_scope_bytes) where
    abbrev grown : List ℕ
    grown = scan.buf ++ page

    all_kept :
        is_ok (parse grown) ≡ true
        → (is_ok (parse (take (length grown) grown)) ≡ true)
          × IsPrefix (take (length grown) grown) grown
    all_kept whole = (
      ap (λ l. is_ok (parse l)) (take-length grown) ∙ whole,
      record { rest = []; joined = append-nil _ ∙ take-length grown },
    )

    same_kept : is_ok (parse (take scan.good_len grown)) ≡ true
    same_kept =
        ap (λ l. is_ok (parse l))
          (take-append_within scan.good_len scan.buf page open_scan.checked.within)
        ∙ open_scan.checked.complete

    within_grown : scan.good_len ≤ length grown
    within_grown = omega (arith, open_scan.checked.within, length-append scan.buf page)

    complete_good :
        is_ok (parse grown) ≡ true
        → (sw == sw_ok) ≡ true
        → RoundOf scan page sw (checkpoint scan grown sw)
    unfolding checkpoint
    complete_good whole good =
        rw (whole, good)
          (
            record { complete = (all_kept whole).0; within = omega arith; held = fits },
            (all_kept whole).1,
            λ h. ((==_iff sw sw_ok).0 good, take-length grown),
          )

    broken_good :
        is_ok (parse grown) ≡ false
        → (sw == sw_ok) ≡ true
        → RoundOf scan page sw (checkpoint scan grown sw)
    unfolding checkpoint
    broken_good broken good =
        rw (broken, good)
          (
            record { complete = same_kept; within = within_grown; held = fits },
            IsPrefix-whole scan.good_len grown,
            λ h. absurd (ground (arith, h)),
          )

    complete_more :
        is_ok (parse grown) ≡ true
        → (sw == sw_ok) ≡ false
        → sw ≡ sw_more_data
        → RoundOf scan page sw (checkpoint scan grown sw)
    unfolding checkpoint
    complete_more whole more h =
        rw (whole, more)
          (
            record {
              checked = record { complete = (all_kept whole).0; within = omega arith; held = fits };
              whole_yet = open_scan.whole_yet;
              not_done = open_scan.not_done;
            },
            refl,
            refl,
            h,
          )

    broken_more :
        is_ok (parse grown) ≡ false
        → (sw == sw_ok) ≡ false
        → sw ≡ sw_more_data
        → RoundOf scan page sw (checkpoint scan grown sw)
    unfolding checkpoint
    broken_more broken more h =
        rw (broken, more)
          (
            record {
              checked = record { complete = same_kept; within = within_grown; held = fits };
              whole_yet = open_scan.whole_yet;
              not_done = open_scan.not_done;
            },
            refl,
            refl,
            h,
          )

  module _ (scan : Scan) (page : List ℕ) (sw : ℕ) (open_scan : IsOpen scan) where
    checkpointed :
        length (scan.buf ++ page) ≤ max_status_scope_bytes
        → ((sw == sw_ok) || (sw == sw_more_data)) ≡ true
        → RoundOf scan page sw (checkpoint scan (scan.buf ++ page) sw)
    checkpointed fits known = elim (Bool-cases (is_ok (parse (scan.buf ++ page)))) [
      | inl whole ↦ elim (Bool-cases (sw == sw_ok)) [
        | inl good ↦ complete_good scan page sw open_scan fits whole good
        | inr more ↦
            complete_more scan page sw open_scan fits whole more (ground (arith, known, more))
      ]
      | inr broken ↦ elim (Bool-cases (sw == sw_ok)) [
        | inl good ↦ broken_good scan page sw open_scan fits broken good
        | inr more ↦
            broken_more scan page sw open_scan fits broken more (ground (arith, known, more))
      ]
    ]

    -- A page that does not fit is dropped, and the loop is left.
    overflowed : RoundOf scan page sw (extended scan none sw)
    overflowed = (
      record {
        complete = open_scan.checked.complete;
        within = open_scan.checked.within;
        held = open_scan.checked.held;
      },
      IsPrefix-take scan.good_len scan.buf page,
      λ h. absurd (ground (arith, h, open_scan.not_done)),
    )

    page_kept :
        ((sw == sw_ok) || (sw == sw_more_data)) ≡ true
        → RoundOf scan page sw (extended scan (hl.extend max_status_scope_bytes scan.buf page) sw)
    page_kept known =
        elim (Bool-cases (leb (length scan.buf + length page) max_status_scope_bytes)) [
          | inl room ↦
              rw (hl.extend_lem ℕ max_status_scope_bytes scan.buf page, room)
                (checkpointed (omega (arith, leb→le _ _ room, length-append scan.buf page)) known)
          | inr full ↦ rw (hl.extend_lem ℕ max_status_scope_bytes scan.buf page, full) overflowed
        ]

    -- The other status words: the empty scope, or an error.
    other_word :
        (round : Round)
        → (if sw == sw_ref_not_found then ok empty_scope else err (from_general_sw sw)) ≡ ok round
        → (sw ≡ sw_ref_not_found) × (empty_scope ≡ round)
    other_word round h = elim (Bool-cases (sw == sw_ref_not_found)) [
      | inl missing ↦ ((==_iff sw sw_ref_not_found).0 missing, ground (arith, missing, h))
      | inr failed ↦ absurd (ground (arith, failed, h))
    ]

    known_word :
        ((sw == sw_ok) || (sw == sw_more_data)) ≡ true
        → after_page scan page sw
          ≡ ok (extended scan (hl.extend max_status_scope_bytes scan.buf page) sw)
    unfolding after_page
    known_word known = rw (known) refl

    unknown_word :
        ((sw == sw_ok) || (sw == sw_more_data)) ≡ false
        → after_page scan page sw
          ≡ (if sw == sw_ref_not_found then ok empty_scope else err (from_general_sw sw))
    unfolding after_page
    unknown_word other = rw (other) refl

    pub after_page-RoundOf :
        (round : Round) → after_page scan page sw ≡ ok round → RoundOf scan page sw round
    after_page-RoundOf round h = elim (Bool-cases ((sw == sw_ok) || (sw == sw_more_data))) [
      | inl known ↦
          let same : extended scan (hl.extend max_status_scope_bytes scan.buf page) sw ≡ round =
            cc (known_word known, h) in
          rw (sym same) (page_kept known)
      | inr other ↦
          let (word, same) = other_word round (sym (unknown_word other) ∙ h) in rw (sym same) word
    ]
