-- ===== src/Workflow/CardStatus/Inventory/Listing.antt =====
-- What get_card_inventory of crates/scll-core/src/workflow/card_status.rs lists, and what it cuts.
use scll_rust.Prelude.{
  ℕ, ◌≤◌, ◌≡◌, refl, sym, ap, ◌∙◌, inl, inr, List, [], ◌∷◌, ◌++◌, map, length, take, take_all,
  take-append_length, Bool, true, false, ltb, ltb→lt, if◌then◌else◌, Option, none, some, arith,
  Bool-cases, length-append, length-take, take-take,
}
use mathlib.Core.List.{append_assoc, append-nil}
use scll_rust.Prelude.Heapless.{Heapless}
use scll_rust.Scp.{filter_map, prepend}
use scll_rust.Response.Status.{RegistryEntry}
use scll_rust.Workflow.CardStatus.Inventory.{
  SecurityDomainEntry, ApplicationEntry, ExecutableLoadFileEntry, CardInventory, Filed, as_domain,
  as_applet, as_elf, skipped, or_full, file_entry, store_all, max_sds, max_applets, max_elfs,
}

abbrev pub domain_of : Filed → Option SecurityDomainEntry
domain_of (as_domain e) = some e
domain_of _ = none

abbrev pub applet_of : Filed → Option ApplicationEntry
applet_of (as_applet e) = some e
applet_of _ = none

abbrev pub elf_of : Filed → Option ExecutableLoadFileEntry
elf_of (as_elf e) = some e
elf_of _ = none

-- A full vector, and one with room.
push_full :
    {E : Type 0} (size : ℕ) (v : List E) (e : E)
    → length v ≤ size
    → ltb (length v) size ≡ false
    → v ≡ take size (v ++ (e ∷ []))
push_full size v e small full =
    let exact : size ≡ length v = ground (arith, small, full) in
    rw (exact) (sym (take-append_length v (e ∷ [])))

push_room :
    {E : Type 0} (size : ℕ) (v : List E) (e : E)
    → ltb (length v) size ≡ true
    → v ++ (e ∷ []) ≡ take size (v ++ (e ∷ []))
push_room size v e room =
    sym (take_all size (v ++ (e ∷ [])) (omega (arith, length-append v (e ∷ []), ltb→lt _ _ room)))

untouched :
    {E : Type 0} (size : ℕ) (v : List E)
    → length v ≤ size
    → (v ≡ take size (v ++ [])) × (v ≡ v ++ [])
untouched size v small =
    let same = sym (append-nil v) in
    (sym (ap (take size) (append-nil v) ∙ take_all size v small), same)

module _ ⦃hl : Heapless⦄ where
  -- What filing an entry does to one of the lists: it is extended by the entry, as far as it fits, and
  -- by the whole entry if the entry counts as kept.
  abbrev pub Files : {E : Type 0} → ℕ → (CardInventory → List E) → (Filed → Option E) → Type 0
  Files size column entry_of =
      (f : Filed) (inv : CardInventory)
      → length (column inv) ≤ size
      → (column ((file_entry f inv).0) ≡ take size (column inv ++ prepend (entry_of f) []))
        × ((file_entry f inv).1 ≡ true
            → column ((file_entry f inv).0) ≡ column inv ++ prepend (entry_of f) [])

  -- A list that an entry does not belong to.
  other_list :
      {E D : Type 0} (size : ℕ) (column : CardInventory → List E) (room : Option (List D))
      (with_list : List D → CardInventory) (inv : CardInventory)
      → ((v : List D) → column (with_list v) ≡ column inv)
      → length (column inv) ≤ size
      → (column ((or_full room with_list inv).0) ≡ take size (column inv ++ []))
        × ((or_full room with_list inv).1 ≡ true
            → column ((or_full room with_list inv).0) ≡ column inv ++ [])
  other_list size column none with_list inv keeps small =
      let (cut, whole) = untouched size (column inv) small in (cut, λ h. whole)
  other_list size column (some v) with_list inv keeps small =
      let (cut, whole) = untouched size (column inv) small in (keeps v ∙ cut, λ h. keeps v ∙ whole)

  -- The list that an entry belongs to.
  own_list :
      {E : Type 0} (size : ℕ) (column : CardInventory → List E) (e : E)
      (with_list : List E → CardInventory) (inv : CardInventory)
      → ((v : List E) → column (with_list v) ≡ v)
      → length (column inv) ≤ size
      → (column ((or_full (hl.push size (column inv) e) with_list inv).0)
          ≡ take size (column inv ++ (e ∷ [])))
        × ((or_full (hl.push size (column inv) e) with_list inv).1 ≡ true
            → column ((or_full (hl.push size (column inv) e) with_list inv).0)
              ≡ column inv ++ (e ∷ []))
  own_list size column e with_list inv holds small =
      elim (Bool-cases (ltb (length (column inv)) size)) [
        | inl room ↦
            rw (hl.push_lem _ size (column inv) e, room)
              (holds _ ∙ push_room size (column inv) e room, λ h. holds _)
        | inr full ↦
            rw (hl.push_lem _ size (column inv) e, full)
              (push_full size (column inv) e small full, λ h. absurd (cc h))
      ]

  pub domain-Files : Files max_sds (λ inv. inv.security_domains) domain_of
  unfolding file_entry
  domain-Files (as_domain e) inv small =
      own_list max_sds (λ inv. inv.security_domains) e _ inv (λ v. refl) small
  domain-Files (as_applet e) inv small =
      other_list max_sds (λ inv. inv.security_domains) _ _ inv (λ v. refl) small
  domain-Files (as_elf e) inv small =
      other_list max_sds (λ inv. inv.security_domains) _ _ inv (λ v. refl) small
  domain-Files skipped inv small =
      let (cut, whole) = untouched max_sds inv.security_domains small in (cut, λ h. whole)

  pub applet-Files : Files max_applets (λ inv. inv.applets) applet_of
  unfolding file_entry
  applet-Files (as_domain e) inv small =
      other_list max_applets (λ inv. inv.applets) _ _ inv (λ v. refl) small
  applet-Files (as_applet e) inv small =
      own_list max_applets (λ inv. inv.applets) e _ inv (λ v. refl) small
  applet-Files (as_elf e) inv small =
      other_list max_applets (λ inv. inv.applets) _ _ inv (λ v. refl) small
  applet-Files skipped inv small =
      let (cut, whole) = untouched max_applets inv.applets small in (cut, λ h. whole)

  pub elf-Files : Files max_elfs (λ inv. inv.elfs) elf_of
  unfolding file_entry
  elf-Files (as_domain e) inv small =
      other_list max_elfs (λ inv. inv.elfs) _ _ inv (λ v. refl) small
  elf-Files (as_applet e) inv small =
      other_list max_elfs (λ inv. inv.elfs) _ _ inv (λ v. refl) small
  elf-Files (as_elf e) inv small = own_list max_elfs (λ inv. inv.elfs) e _ inv (λ v. refl) small
  elf-Files skipped inv small =
      let (cut, whole) = untouched max_elfs inv.elfs small in (cut, λ h. whole)

  module _ {E : Type 0} (size : ℕ) (column : CardInventory → List E) (entry_of : Filed → Option E)
      (files : Files size column entry_of) where
    -- All entries that belong to the list, in order.
    abbrev pub all_of : (RegistryEntry → Filed) → List RegistryEntry → List E
    all_of classify es = filter_map entry_of (map classify es)

    with_first :
        (held : List E) (f : Filed) (fs : List Filed)
        → (held ++ prepend (entry_of f) []) ++ filter_map entry_of fs
          ≡ held ++ filter_map entry_of (f ∷ fs)
    with_first held f fs = first (entry_of f)
      where
        first :
            (o : Option E)
            → (held ++ prepend o []) ++ filter_map entry_of fs
              ≡ held ++ prepend o (filter_map entry_of fs)
        first none = append_assoc held [] (filter_map entry_of fs)
        first (some e) = append_assoc held (e ∷ []) (filter_map entry_of fs)

    kept_flag : (k t : Bool) → (if k then t else true) ≡ false → (k ≡ true) × (t ≡ false)
    kept_flag true t h = (refl, h)
    kept_flag false t h = absurd (cc h)

    -- What storing the entries of a scope does to the list.
    abbrev pub Stored :
        (RegistryEntry → Filed)
        → List RegistryEntry
        → CardInventory
        → Bool
        → CardInventory × Bool
        → Type 0
    Stored classify es inv truncated out =
        (column (out.0) ≡ take size (column inv ++ all_of classify es))
        × (out.1 ≡ false
            → (truncated ≡ false) × (column (out.0) ≡ column inv ++ all_of classify es))

    store_step :
        (classify : RegistryEntry → Filed) (e : RegistryEntry) (es : List RegistryEntry)
        (inv mid : CardInventory) (kept truncated : Bool) (out : CardInventory × Bool)
        → (column mid ≡ take size (column inv ++ prepend (entry_of (classify e)) []))
        → (kept ≡ true → column mid ≡ column inv ++ prepend (entry_of (classify e)) [])
        → Stored classify es mid (if kept then truncated else true) out
        → Stored classify (e ∷ es) inv truncated out
    store_step classify e es inv mid kept truncated out filed all (cut, whole) =
        let one = column inv ++ prepend (entry_of (classify e)) [] in
        let joined = with_first (column inv) (classify e) (map classify es) in
        (
          cut
              ∙ ap (λ l. take size (l ++ all_of classify es)) filed
              ∙ take-take size one (all_of classify es)
              ∙ ap (take size) joined,
          λ h.
              let (flag, rest) = whole h in
              let (good, uncut) = kept_flag kept truncated flag in
              (uncut, rest ∙ ap (λ l. l ++ all_of classify es) (all good) ∙ joined),
        )

    pub store_all-Stored :
        (classify : RegistryEntry → Filed) (es : List RegistryEntry) (inv : CardInventory)
        (truncated : Bool)
        → length (column inv) ≤ size
        → Stored classify es inv truncated (store_all classify es inv truncated)
    unfolding store_all
    store_all-Stored classify [] inv truncated small =
        let (cut, whole) = untouched size (column inv) small in (cut, λ h. (h, whole))
    store_all-Stored classify (e ∷ es) inv truncated small =
        let (filed, kept) = files (classify e) inv small in
        let out = file_entry (classify e) inv in
        let within : length (column (out.0)) ≤ size = omega (
          arith,
          ap (λ l. length l) filed,
          length-take size (column inv ++ prepend (entry_of (classify e)) []),
        ) in
        store_step classify e es inv (out.0) (out.1) truncated
          (store_all classify es (out.0) (if out.1 then truncated else true)) filed kept
          (store_all-Stored classify es (out.0) (if out.1 then truncated else true) within)
