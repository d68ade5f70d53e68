-- ===== src/Tlv/RoundTrip.antt =====
-- `parse` and `encode` of crates/scll-core/src/tlv.rs against each other.
use scll_rust.Prelude.{
  ℕ, zero, suc, ◌+◌, ◌-◌, ◌*◌, ◌%◌, ◌^◌, ◌≤◌, ◌<◌, ◌≡◌, refl, ap, ◌∙◌, inl, inr, List, [], ◌∷◌,
  ◌++◌, length, All, All-append, ok, err, length-append, arith,
}
use scll_rust.Prelude.Bits.{IsByte, IsBytes, low_five}
use scll_rust.Prelude.Heapless.{Heapless}
use native.Mathlib.Nat.{add-zero}
use scll_rust.Tlv.{
  truncated, Tlv, be_bytes8, significant, max_tlvs, parse, encode, parse_one, parse_tag, parse_loop,
  parse_len, tag_loop,
}
use scll_rust.Tlv.Grammar.{
  big_endian, TagOctets, LenOctets, IsTag, IsEncodable, Objects, done, object,
}
use scll_rust.Tlv.Decode.{octet_bound, octet_bound_step}
use scll_rust.Tlv.Rounds.{IsBytes-left, IsBytes-right}
use scll_rust.Tlv.Parse.{parse_iff}
use scll_rust.Tlv.Encode.{
  tag_octets, len_octets, encoding, len_octets-LenOctets, len_octets-IsBytes, tag_octets-IsBytes,
  significant_eight, tag_octets_unique, IsSized, encode_lem,
}

IsTag-tag_octets : (t : ℕ) → IsTag t → TagOctets (tag_octets t) t
IsTag-tag_octets t (o, hb, h) = rw (tag_octets_unique o t hb h) at h

encoding-Objects :
    (items : List Tlv)
    → All IsEncodable items
    → Objects (encoding items) items × IsBytes (encoding items)
encoding-Objects [] h = (done, tt)
encoding-Objects (item ∷ items) (h, hs) =
    let (more, bytes) = encoding-Objects items hs in
    let n : ℕ = length item.value in
    (
      object (tag_octets item.tag) (len_octets n) (encoding items) item
          (IsTag-tag_octets item.tag h.has_tag) (len_octets-LenOctets n h.sized) refl more,
      All-append IsByte (tag_octets item.tag) _ (tag_octets-IsBytes item.tag) (
          All-append IsByte (len_octets n) _ (len_octets-IsBytes n h.sized)
            (All-append IsByte item.value _ h.bytes bytes)),
    )

encodable-IsSized : (items : List Tlv) → All IsEncodable items → All IsSized items
encodable-IsSized [] h = tt
encodable-IsSized (item ∷ items) (h, hs) = (h.sized, encodable-IsSized items hs)

big_endian_bound :
    (bs : List ℕ) (k acc : ℕ)
    → IsBytes bs
    → acc < octet_bound k
    → big_endian acc bs < octet_bound (k + length bs)
big_endian_bound [] k acc hb h = rw (add-zero k) h
big_endian_bound (b ∷ bs) k acc hb h =
    let ih =
      big_endian_bound bs (k + 1) (acc * 256 + b) hb.1 (ground (arith, octet_bound_step k)) in
    let e : k + 1 + length bs ≡ k + suc (length bs) = omega arith in rw e at ih

significant_short :
    (k n : ℕ) → k ≤ 7 → n < octet_bound (k + 1) → length (significant (be_bytes8 n)) ≤ k + 1
unfolding significant octet_bound
significant_short zero n hk h = ground arith
significant_short (suc zero) n hk h = ground arith
significant_short (suc (suc zero)) n hk h = ground arith
significant_short (suc (suc (suc zero))) n hk h = ground arith
significant_short (suc (suc (suc (suc zero)))) n hk h = ground arith
significant_short (suc (suc (suc (suc (suc zero))))) n hk h = ground arith
significant_short (suc (suc (suc (suc (suc (suc zero)))))) n hk h = ground arith
significant_short (suc (suc (suc (suc (suc (suc (suc k))))))) n hk h =
    omega (arith, significant_eight n)

-- The octets that `encode` chooses for a length are the fewest that stand for it.
len_octets_shortest :
    (l : List ℕ) (n : ℕ) → IsBytes l → LenOctets l n → length (len_octets n) ≤ length l
unfolding len_octets
len_octets_shortest [] n hb h = elim h [ ]
len_octets_shortest (b ∷ body) n hb (inl (small, none_left, v)) = ground arith
len_octets_shortest (b ∷ body) n hb (inr (lead, some_body, short, v)) =
    let bound : n < octet_bound (length body - 1 + 1) =
      unfold octet_bound in ground (arith, big_endian_bound body 0 0 hb.1 (omega arith)) in
    ground (arith, significant_short (length body - 1) n (omega arith) bound)

-- The objects of a sequence can be encoded, in no more octets than they stand in.
Objects-IsEncodable :
    (input : List ℕ) (items : List Tlv)
    → IsBytes input
    → length input < 2 ^ 64
    → Objects input items
    → All IsEncodable items × (length (encoding items) ≤ length input)
Objects-IsEncodable input items hb hn done = (tt, omega arith)
Objects-IsEncodable input items hb hn (object t l rest item {items = tail} o o' i more) =
    let after_tag : List ℕ = l ++ (item.value ++ rest) in
    let hb₀ : IsBytes (t ++ after_tag) = rw i at hb in
    let hb₁ : IsBytes after_tag = IsBytes-right t after_tag hb₀ in
    let hb₂ : IsBytes (item.value ++ rest) = IsBytes-right l (item.value ++ rest) hb₁ in
    let hl : IsBytes l = IsBytes-left l (item.value ++ rest) hb₁ in
    let ht : IsBytes t = IsBytes-left t after_tag hb₀ in
    let n : length input ≡ length t + (length l + (length item.value + length rest)) =
      ap length i
      ∙ omega (
        arith,
        length-append t after_tag,
        length-append l (item.value ++ rest),
        length-append item.value rest,
      ) in
    let (wf, fits) =
      Objects-IsEncodable rest tail (IsBytes-right item.value rest hb₂) (omega arith) more in
    (
      (
        record {
          has_tag = (t, ht, o);
          bytes = IsBytes-left item.value rest hb₂;
          sized = omega arith;
        },
        wf,
      ),
      omega (
        arith,
        ap length (tag_octets_unique t item.tag ht o),
        len_octets_shortest l (length item.value) hl o',
        length-append (tag_octets item.tag)
            (len_octets (length item.value) ++ (item.value ++ encoding tail)),
        length-append (len_octets (length item.value)) (item.value ++ encoding tail),
        length-append item.value (encoding tail),
      ),
    )

module _ ⦃hl : Heapless⦄ where
  -- What `encode` writes for at most 64 encodable objects is read back by `parse` as these objects.
  pub parse-encode :
      (size : ℕ) (items : List Tlv) (bytes : List ℕ)
      → All IsEncodable items
      → length items ≤ max_tlvs
      → encode size items ≡ ok bytes
      → parse bytes ≡ ok items
  parse-encode size items bytes wf n e =
      let (o, hb) = encoding-Objects items wf in
      let same : bytes ≡ encoding items =
        ground (arith, e, encode_lem size items (encodable-IsSized items wf)) in
      rw same ((parse_iff (encoding items) items hb).1 (o, n))

  -- Whatever `parse` accepts can be encoded again: `encode` succeeds within the input's length,
  -- writes the canonical octets, and these are read back as the same objects.
  pub encode-parse :
      (input : List ℕ) (items : List Tlv)
      → IsBytes input
      → length input < 2 ^ 64
      → parse input ≡ ok items
      → (encode (length input) items ≡ ok (encoding items))
        × (length (encoding items) ≤ length input)
        × (parse (encoding items) ≡ ok items)
  encode-parse input items hb hn e =
      let (o, n) = (parse_iff input items hb).0 e in
      let (wf, fits) = Objects-IsEncodable input items hb hn o in
      let (o', hb') = encoding-Objects items wf in
      (
        ground (arith, encode_lem (length input) items (encodable-IsSized items wf)),
        fits,
        (parse_iff (encoding items) items hb').1 (o', n),
      )

  -- A tag octet with its low five bits set announces a further octet: `encode` writes such a tag
  -- alone, and `parse` refuses what it wrote for an object of no octets.
  pub encode_lead_tag :
      (a : ℕ)
      → IsByte a
      → a % 32 ≡ 31
      → (encode 2 (record { tag = a; value = [] } ∷ []) ≡ ok (a ∷ 0 ∷ []))
        × (parse (a ∷ 0 ∷ []) ≡ err truncated)
  encode_lead_tag a hb multi = (
    ground (
      arith,
      encode_lem 2 (record { tag = a; value = [] } ∷ []) (omega arith, tt),
      lead_octets a hb multi,
      no_octets,
    ),
    unfold parse parse_loop parse_one parse_tag parse_len tag_loop in ground (arith, low_five a hb),
  )
    where
      lead_octets : (b : ℕ) → IsByte b → b % 32 ≡ 31 → tag_octets b ≡ b ∷ []
      lead_octets b hb' m = unfold tag_octets significant in ground arith

      no_octets : len_octets 0 ≡ 0 ∷ []
      no_octets = unfold len_octets in refl
