-- ===== src/Response/Template.antt =====
-- parse_key_information of crates/scll-core/src/response.rs: what holds of the key sets it returns.
use scll_rust.Prelude.{
  ℕ, ◌≤◌, ◌≡◌, refl, sym, inl, inr, List, [], ◌∷◌, ◌==◌, Result, ok, err, stuck, ◌>>=◌, arith,
  length, Bool-cases,
}
use scll_rust.Prelude.Heapless.{Heapless}
use scll_rust.Tlv.{Tlv, TlvError, parse}
use scll_rust.Response.{
  find, unwrap_or, Keyset, KeyTemplateFormat, basic, extended, KeyInformation, push_pairs,
  key_entry, key_entries, parse_key_information,
}
use scll_rust.Response.Keysets.{Grouped, push_key-Grouped}

module _ ⦃hl : Heapless⦄ where
  -- What holds of the key sets after any number of rounds.
  abbrev IsTemplate : KeyInformation → Type 0
  IsTemplate info = Grouped info.keysets × (length info.keysets ≤ 16)

  passed :
      {A B : Type 0} (r : Result TlvError A) (f : A → Result TlvError B) (b : B)
      → (r >>= f) ≡ ok b
      → (a : A) × (r ≡ ok a) × (f a ≡ ok b)
  passed (ok a) f b h = (a, refl, h)
  passed (err e) f b h = absurd (cc h)
  passed stuck f b h = absurd (cc h)

  push_pairs-Grouped :
      (kid kvn : ℕ) (pairs : List ℕ) (sets sets' : List Keyset)
      → Grouped sets
      → length sets ≤ 16
      → push_pairs sets kid kvn pairs ≡ ok sets'
      → Grouped sets' × (length sets' ≤ 16)
  unfolding push_pairs
  push_pairs-Grouped kid kvn [] sets sets' grouped few h =
      let same : sets ≡ sets' = cc h in rw (sym same) (grouped, few)
  push_pairs-Grouped kid kvn (t ∷ []) sets sets' grouped few h =
      let same : sets ≡ sets' = cc h in rw (sym same) (grouped, few)
  push_pairs-Grouped kid kvn (t ∷ n ∷ pairs) sets sets' grouped few h =
      let (sets1, pushed, rest) = passed _ _ _ h in
      let (grouped1, few1, filed1) = push_key-Grouped sets sets1 kvn 0 _ grouped few pushed in
      push_pairs-Grouped kid kvn pairs sets1 sets' grouped1 few1 rest

  with_keysets :
      (info info' : KeyInformation) (format : KeyTemplateFormat) (r : Result TlvError (List Keyset))
      → ((sets : List Keyset) → r ≡ ok sets → Grouped sets × (length sets ≤ 16))
      → (r >>= λ sets. ok (record { format = format; keysets = sets })) ≡ ok info'
      → IsTemplate info'
  with_keysets info info' format r good h =
      let (sets, made, e) = passed _ _ _ h in
      let same : Path KeyInformation (record { format = format; keysets = sets }) info' = cc e in
      rw (sym same) (good sets made)

  key_entry-IsTemplate :
      (info info' : KeyInformation) (value : List ℕ)
      → IsTemplate info
      → key_entry info value ≡ ok info'
      → IsTemplate info'
  unfolding key_entry
  key_entry-IsTemplate info info' [] t h = let same : info ≡ info' = cc h in rw (sym same) t
  key_entry-IsTemplate info info' (kid ∷ []) t h = let same : info ≡ info' = cc h in rw (sym same) t
  key_entry-IsTemplate info info' (kid ∷ kvn ∷ []) t h =
      with_keysets info info' info.format _
        (λ sets made. push_pairs-Grouped kid kvn [] info.keysets sets (t.0) (t.1) made) h
  key_entry-IsTemplate info info' (kid ∷ kvn ∷ b ∷ bs) t h = elim (Bool-cases (b == 0xB9)) [
    | inl marker ↦
        with_keysets info info' extended _
          (λ sets made.
            let out = push_key-Grouped info.keysets sets kvn 0 _ (t.0) (t.1) made in (out.0, out.1))
          (rw marker at h)
    | inr plain_entry ↦
        with_keysets info info' info.format _
          (λ sets made. push_pairs-Grouped kid kvn (b ∷ bs) info.keysets sets (t.0) (t.1) made)
          (rw plain_entry at h)
  ]

  key_entries-IsTemplate :
      (entries : List Tlv) (info info' : KeyInformation)
      → IsTemplate info
      → key_entries entries info ≡ ok info'
      → IsTemplate info'
  unfolding key_entries
  key_entries-IsTemplate [] info info' t h = let same : info ≡ info' = cc h in rw (sym same) t
  key_entries-IsTemplate (entry ∷ entries) info info' t h = elim (Bool-cases (entry.tag == 0xC0)) [
    | inl key_tag ↦
        let (next, made, rest) = passed _ _ _ (rw key_tag at h) in
        key_entries-IsTemplate entries next info'
          (key_entry-IsTemplate info next entry.value t made) rest
    | inr skipped ↦ key_entries-IsTemplate entries info info' t (rw skipped at h)
  ]

  -- The key sets that `parse_key_information` returns are at most 16, no two of them have the same
  -- version number, and each has 1 to 16 keys.
  pub parse_key_information-Grouped :
      (bytes : List ℕ) (info : KeyInformation)
      → parse_key_information bytes ≡ ok info
      → Grouped info.keysets × (length info.keysets ≤ 16)
  unfolding parse_key_information
  parse_key_information-Grouped [] info h =
      let same : Path KeyInformation (record { format = basic; keysets = [] }) info = cc h in
      rw (sym same) (tt, omega arith)
  parse_key_information-Grouped (b ∷ bs) info h =
      let (top, read, h1) = passed (parse (b ∷ bs)) _ info h in
      let (entries, read', h2) = passed (parse (unwrap_or (find top 0xE0) (b ∷ bs))) _ info h1 in
      key_entries-IsTemplate entries (record { format = basic; keysets = [] }) info
        (tt, omega arith) h2
