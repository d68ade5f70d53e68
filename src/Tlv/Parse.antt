-- ===== src/Tlv/Parse.antt =====
-- `parse` of crates/scll-core/src/tlv.rs against the grammar.
use scll_rust.Prelude.{
  ℕ, zero, suc, ◌+◌, ◌≤◌, ◌<◌, ◌≡◌, ◌≢◌, refl, sym, ◌∙◌, inl, inr, ◌↔◌, List, [], ◌∷◌, ◌++◌, length,
  ltb, leb, if◌then◌else◌, Result, ok, err, stuck, Bool-cases, length-append, arith, le→leb,
}
use mathlib.Core.List.{append_assoc, append-nil}
use scll_rust.Prelude.Bits.{IsBytes}
use scll_rust.Prelude.Heapless.{Heapless}
use scll_rust.Tlv.{TlvError, too_many, Tlv, parse_one, parse_loop, parse, max_tlvs}
use scll_rust.Tlv.Grammar.{Objects, done, object}
use scll_rust.Tlv.Rounds.{OneRead, parse_one_sound, parse_one-ne-stuck, Front, OneRead-Front}

-- The answer for a sequence of `items` after `out`: the list, or `TooMany` past the capacity.
abbrev pub bounded : List Tlv → List Tlv → Result TlvError (List Tlv)
bounded out items =
    if leb (length out + length items) max_tlvs then ok (out ++ items) else err too_many

module _ ⦃hl : Heapless⦄ where
  parse_loop_step :
      (fuel : ℕ) (input : List ℕ) (out : List Tlv) (item : Tlv) (rest : List ℕ)
      → 0 < length input
      → parse_one input ≡ ok (item, rest)
      → parse_loop (suc fuel) input out ≡ (
          if ltb (length out) max_tlvs
          then parse_loop fuel rest (out ++ (item ∷ []))
          else err too_many)
  unfolding parse_loop
  parse_loop_step fuel [] out item rest h e = absurd (omega arith)
  parse_loop_step fuel (b ∷ bs) out item rest h e =
      ground (arith, e, hl.push_lem Tlv max_tlvs out item)

  parse_loop-Objects :
      (fuel : ℕ) (input : List ℕ) (out items : List Tlv)
      → IsBytes input
      → Objects input items
      → length out ≤ max_tlvs
      → length input ≤ fuel
      → parse_loop fuel input out ≡ bounded out items
  parse_loop-Objects fuel input out items hb done n f =
      rw (append-nil out, le→leb (length out + 0) max_tlvs (omega arith))
        (unfold parse_loop in refl)
  parse_loop-Objects fuel input out items hb (object t l rest item {items = tail} o o' i more) n f =
      objects_round fuel f (OneRead-Front input item rest hb (t, l, o, o', i))
        (λ fuel' n' hb' f'. parse_loop-Objects fuel' rest (out ++ (item ∷ [])) tail hb' more n' f')
    where
      objects_round :
          (fuel' : ℕ)
          → length input ≤ fuel'
          → Front input item rest
          → ((fuel'' : ℕ)
              → length (out ++ (item ∷ [])) ≤ max_tlvs
              → IsBytes rest
              → length rest ≤ fuel''
              → parse_loop fuel'' rest (out ++ (item ∷ [])) ≡ bounded (out ++ (item ∷ [])) tail)
          → parse_loop fuel' input out ≡ bounded out (item ∷ tail)
      objects_round zero f' (e, hb', shorter) ih = absurd (omega arith)
      objects_round (suc fuel') f' (e, hb', shorter) ih =
          elim (Bool-cases (ltb (length out) max_tlvs)) [
            | inl room ↦ ground (
              arith,
              parse_loop_step fuel' input out item rest (omega arith) e,
              ih fuel' (ground (arith, length-append out (item ∷ []))) hb' (omega arith),
              append_assoc out (item ∷ []) tail,
              length-append out (item ∷ []),
            )
            | inr full ↦ ground (arith, parse_loop_step fuel' input out item rest (omega arith) e)
          ]

  parse_loop_sound :
      (fuel : ℕ) (input : List ℕ) (out all : List Tlv)
      → IsBytes input
      → parse_loop fuel input out ≡ ok all
      → (items : List Tlv) × (all ≡ out ++ items) × Objects input items
  parse_loop_sound fuel [] out all hb e =
      ([], rw (append-nil out) (sym (unfold parse_loop in ground (arith, e))), done)
  parse_loop_sound zero (b ∷ bs) out all hb e = unfold parse_loop in cc
  parse_loop_sound (suc fuel) (b ∷ bs) out all hb e =
      first_read (parse_one (b ∷ bs)) refl
        (λ rest out' hb' e'. parse_loop_sound fuel rest out' all hb' e')
    where
      after_push :
          (item : Tlv) (rest : List ℕ)
          → OneRead (b ∷ bs) item rest
          → (items : List Tlv) × (all ≡ (out ++ (item ∷ [])) ++ items) × Objects rest items
          → (items : List Tlv) × (all ≡ out ++ items) × Objects (b ∷ bs) items
      after_push item rest (t, l, o, o', i) (items, same, more) = (
        item ∷ items,
        same ∙ append_assoc out (item ∷ []) items,
        object t l rest item o o' i more,
      )

      first_read :
          (r : Result TlvError (Tlv × List ℕ))
          → parse_one (b ∷ bs) ≡ r
          → ((rest : List ℕ) (out' : List Tlv)
              → IsBytes rest
              → parse_loop fuel rest out' ≡ ok all
              → (items : List Tlv) × (all ≡ out' ++ items) × Objects rest items)
          → (items : List Tlv) × (all ≡ out ++ items) × Objects (b ∷ bs) items
      first_read (ok (item, rest)) p ih = elim (Bool-cases (ltb (length out) max_tlvs)) [
        | inl room ↦
            let read = parse_one_sound (b ∷ bs) item rest hb p in
            after_push item rest read (
              ih rest (out ++ (item ∷ [])) (OneRead-Front (b ∷ bs) item rest hb read).1
                (ground (arith, e, parse_loop_step fuel (b ∷ bs) out item rest (omega arith) p)))
        | inr full ↦ ground (arith, e, parse_loop_step fuel (b ∷ bs) out item rest (omega arith) p)
      ]
      first_read (err x) p ih = unfold parse_loop in ground (arith, e)
      first_read stuck p ih = unfold parse_loop in ground (arith, e)

  -- `parse` returns a list exactly when its input is a sequence of at most 64 objects in the
  -- grammar, and then it returns these objects, with their tags and values, in order.
  pub parse_iff :
      (input : List ℕ) (items : List Tlv)
      → IsBytes input
      → (parse input ≡ ok items) ↔ (Objects input items × (length items ≤ max_tlvs))
  unfolding parse
  parse_iff input items hb = (returned, returns)
    where
      returned : parse input ≡ ok items → Objects input items × (length items ≤ max_tlvs)
      returned e =
          let (items', same, o) = parse_loop_sound (length input) input [] items hb e in
          let e' =
            parse_loop-Objects (length input) input [] items' hb o (omega arith) (omega arith) in
          ground (arith, e, e', same, o)

      returns : Objects input items × (length items ≤ max_tlvs) → parse input ≡ ok items
      returns (o, n) =
          ground (
            arith,
            parse_loop-Objects (length input) input [] items hb o (omega arith) (omega arith),
          )

  -- A sequence of more than 64 objects in the grammar is refused as `TooMany`, never cut short.
  pub parse_too_many :
      (input : List ℕ) (items : List Tlv)
      → IsBytes input
      → Objects input items
      → max_tlvs < length items
      → parse input ≡ err too_many
  unfolding parse
  parse_too_many input items hb o n =
      ground
        (arith, parse_loop-Objects (length input) input [] items hb o (omega arith) (omega arith))

  parse_loop-ne-stuck :
      (fuel : ℕ) (input : List ℕ) (out : List Tlv)
      → IsBytes input
      → length input ≤ fuel
      → parse_loop fuel input out ≢ stuck
  unfolding parse_loop
  parse_loop-ne-stuck fuel [] out hb n e = ground (arith, e)
  parse_loop-ne-stuck zero (b ∷ bs) out hb n e = omega arith
  parse_loop-ne-stuck (suc fuel) (b ∷ bs) out hb n e =
      first_read (parse_one (b ∷ bs)) refl
        (λ rest out' hb' n'. parse_loop-ne-stuck fuel rest out' hb' n')
    where
      first_read :
          (r : Result TlvError (Tlv × List ℕ))
          → parse_one (b ∷ bs) ≡ r
          → ((rest : List ℕ) (out' : List Tlv)
              → IsBytes rest
              → length rest ≤ fuel
              → parse_loop fuel rest out' ≢ stuck)
          → ⊥
      first_read (ok (item, rest)) p ih =
          let (q, hb', shorter) =
            OneRead-Front (b ∷ bs) item rest hb (parse_one_sound (b ∷ bs) item rest hb p) in
          let ne : parse_loop fuel rest (out ++ (item ∷ [])) ≢ stuck =
            ih rest (out ++ (item ∷ [])) hb' (omega arith) in
          ground (arith, e, ne, parse_loop_step fuel (b ∷ bs) out item rest (omega arith) p)
      first_read (err x) p ih = ground (arith, e, p)
      first_read stuck p ih = parse_one-ne-stuck (b ∷ bs) p

  -- `parse` ends on every byte string, with a list or an error: its loop has rounds enough.
  pub parse_total : (input : List ℕ) → IsBytes input → parse input ≢ stuck
  unfolding parse
  parse_total input hb = parse_loop-ne-stuck (length input) input [] hb (omega arith)
