-- ===== src/Workflow/CardStatus/Inventory/Scopes.antt =====
-- The three scopes of get_card_inventory of crates/scll-core/src/workflow/card_status.rs together.
use scll_rust.Prelude.{
  ℕ, ◌≤◌, ◌≡◌, refl, sym, ap, ◌∙◌, List, [], ◌∷◌, ◌++◌, length, take, take-take, length-take,
  is_empty, Bool, true, false, not, ◌&&◌, ◌||◌, if◌then◌else◌, Option, Result, ok, map_err,
  map_err-ok, arith,
}
use scll_rust.Prelude.Actions.{went_on, went_on_lift}
use scll_rust.Prelude.Heapless.{Heapless}
use scll_rust.Aid.{Aid, new}
use scll_rust.Error.{ScllError}
use scll_rust.Response.Status.{RegistryEntry, parse_status_registry}
use scll_rust.Scp.Backend.{Scp03Backend, Scp02Backend}
use scll_rust.Scp.Sessions.{ScpSession}
use scll_rust.Session.{Transport}
use scll_rust.Workflow.CardStatus.{p1_isd_scope, read_status_scope}
use scll_rust.Workflow.CardStatus.Inventory.{
  CardInventory, Filed, GetCardInventoryReport, inventory_report, classify_isd, classify_app,
  classify_elf, store_all, max_sds, max_applets, max_elfs, p1_app_sd_scope, p1_elf_module_scope,
  collect_scope, get_card_inventory,
}
use scll_rust.Workflow.CardStatus.Inventory.Listing.{
  domain_of, applet_of, elf_of, Files, domain-Files, applet-Files, elf-Files, all_of, Stored,
  store_all-Stored,
}

-- The list holds the front part of what was to be filed in it, and all of it if nothing was cut.
abbrev pub IsListing : {E : Type 0} → ℕ → List E → List E → Bool → Type 0
IsListing size listed filed cut = (listed ≡ take size filed) × (cut ≡ false → listed ≡ filed)

fits : {E : Type 0} (n : ℕ) (v w : List E) → v ≡ take n w → length v ≤ n
fits n v w h = omega (arith, ap (λ l. length l) h, length-take n w)

-- A list that is cut twice is cut once.
chain :
    {E : Type 0} (n : ℕ) (v w xs ys : List E)
    → v ≡ take n xs
    → w ≡ take n (v ++ ys)
    → w ≡ take n (xs ++ ys)
chain n v w xs ys h k = k ∙ ap (λ l. take n (l ++ ys)) h ∙ take-take n xs ys

no_cut : (a b c : Bool) → ((a || b) || c) ≡ false → (a ≡ false) × (b ≡ false) × (c ≡ false)
no_cut false false false h = (refl, refl, refl)
no_cut true b c h = absurd (cc h)
no_cut false true c h = absurd (cc h)
no_cut false false true h = absurd (cc h)

module _ ⦃hl : Heapless⦄ where
  -- The three scopes one after the other, into one list.
  module _ {E : Type 0} (size : ℕ) (column : CardInventory → List E) (entry_of : Filed → Option E)
      (files : Files size column entry_of) (c1 c2 c3 : RegistryEntry → Filed)
      (es1 es2 es3 : List RegistryEntry) where
    abbrev all_entries : List E
    all_entries =
        (all_of size column entry_of files c1 es1 ++ all_of size column entry_of files c2 es2)
        ++ all_of size column entry_of files c3 es3

    stored :
        (classify : RegistryEntry → Filed) (es : List RegistryEntry) (inv : CardInventory)
        (t : Bool) (out : CardInventory × Bool)
        → out ≡ store_all classify es inv t
        → length (column inv) ≤ size
        → Stored size column entry_of files classify es inv t out
    stored classify es inv t out same small =
        rw (same) (store_all-Stored size column entry_of files classify es inv t small)

    three_scopes :
        (inv : CardInventory) (t1 t2 t3 : Bool) (out1 out2 out3 : CardInventory × Bool)
        → column inv ≡ []
        → out1 ≡ store_all c1 es1 inv t1
        → out2 ≡ store_all c2 es2 (out1.0) t2
        → out3 ≡ store_all c3 es3 (out2.0) t3
        → IsListing size (column (out3.0)) all_entries ((out1.1 || out2.1) || out3.1)
    three_scopes inv t1 t2 t3 out1 out2 out3 empty stored1 stored2 stored3 =
        let v1 = column inv ++ all_of size column entry_of files c1 es1 in
        let a2 = all_of size column entry_of files c2 es2 in
        let a3 = all_of size column entry_of files c3 es3 in
        let start : v1 ≡ all_of size column entry_of files c1 es1 =
          ap (λ l. l ++ all_of size column entry_of files c1 es1) empty in
        let (cut1, whole1) =
          stored c1 es1 inv t1 out1 stored1 (omega (arith, ap (λ l. length l) empty)) in
        let (cut2, whole2) =
          stored c2 es2 (out1.0) t2 out2 stored2 (fits size (column (out1.0)) v1 cut1) in
        let (cut3, whole3) =
          stored c3 es3 (out2.0) t3 out3 stored3
            (fits size (column (out2.0)) (column (out1.0) ++ a2) cut2) in
        (
          chain size (column (out2.0)) (column (out3.0)) (v1 ++ a2) a3
                (chain size (column (out1.0)) (column (out2.0)) v1 a2 cut1 cut2) cut3
              ∙ ap (λ l. take size ((l ++ a2) ++ a3)) start,
          λ h.
              let (h1, h2, h3) = no_cut (out1.1) (out2.1) (out3.1) h in
              (whole3 h3).1
              ∙ ap (λ l. l ++ a3) ((whole2 h2).1 ∙ ap (λ l. l ++ a2) ((whole1 h1).1))
              ∙ ap (λ l. (l ++ a2) ++ a3) start,
        )

module _ ⦃hl : Heapless⦄ {W : Type 0} (t : Transport W) (b03 : Scp03Backend W)
    (b02 : Scp02Backend W) where
  -- A scope that was read, and its entries.
  pub record Scope (p1 : ℕ) (x x' : ScpSession × W) : Type 0 where
    pub octets : List ℕ
    pub truncated : Bool
    pub read : read_status_scope t b03 b02 p1 x ≡ (ok (octets, truncated), x')
    pub entries : List RegistryEntry
    pub parsed : parse_status_registry octets ≡ ok entries

  entries_parsed :
      (octets : List ℕ) (truncated : Bool) (entries : List RegistryEntry)
      → (if is_empty octets && not truncated
          then ok []
          else map_err ScllError.malformed_response (parse_status_registry octets))
        ≡ ok entries
      → parse_status_registry octets ≡ ok entries
  unfolding parse_status_registry
  entries_parsed [] false entries h = ap (λ l. ok l) (cc h)
  entries_parsed [] true entries h = map_err-ok ScllError.malformed_response _ entries h
  entries_parsed (o ∷ os) truncated entries h = map_err-ok ScllError.malformed_response _ entries h

  collected :
      (p1 : ℕ) (classify : RegistryEntry → Filed) (inv : CardInventory) (out : CardInventory × Bool)
      (x x' : ScpSession × W)
      → collect_scope t b03 b02 p1 classify inv x ≡ (ok out, x')
      → (s : Scope p1 x x') × (out ≡ store_all classify s.entries inv s.truncated)
  unfolding collect_scope
  collected p1 classify inv out x x' h0 =
      let (read, x1, ran, h1) = went_on _ _ _ _ h0 in
      let (entries, parsed, h2) = went_on_lift _ _ _ _ _ h1 in
      collected_lem p1 classify inv out (read.0) (read.1) entries x x1 x' ran parsed h2
    where
      collected_lem :
          (p1 : ℕ) (classify : RegistryEntry → Filed) (inv : CardInventory)
          (out : CardInventory × Bool) (octets : List ℕ) (truncated : Bool)
          (entries : List RegistryEntry) (x x1 x' : ScpSession × W)
          → read_status_scope t b03 b02 p1 x ≡ (ok (octets, truncated), x1)
          → (if is_empty octets && not truncated
              then ok []
              else map_err ScllError.malformed_response (parse_status_registry octets))
            ≡ ok entries
          → Path
              (Result ScllError (CardInventory × Bool) × (ScpSession × W))
              (ok (store_all classify entries inv truncated), x1)
              (ok out, x')
          → (s : Scope p1 x x') × (out ≡ store_all classify s.entries inv s.truncated)
      collected_lem p1 classify inv out octets truncated entries x x1 x' ran parsed done = (
        record {
          octets = octets;
          truncated = truncated;
          read = ran ∙ ap (λ y. (ok (octets, truncated), y)) (ap (λ o. o.1) done);
          entries = entries;
          parsed = entries_parsed octets truncated entries parsed;
        },
        cc (ap (λ o. o.0) done),
      )

  -- The lists of a report, from the entries of the three scopes.
  pub record Listed (isd : Aid) (es1 es2 es3 : List RegistryEntry) (report : GetCardInventoryReport)
      : Type 0 where
    pub domains :
        IsListing max_sds report.inventory.security_domains
          (all_entries max_sds
            (λ inv. inv.security_domains)
            domain_of
            domain-Files
            (classify_isd isd)
            (classify_app isd)
            (classify_elf isd)
            es1
            es2
            es3)
          report.effective.truncated
    pub applets :
        IsListing max_applets report.inventory.applets
          (all_entries max_applets
            (λ inv. inv.applets)
            applet_of
            applet-Files
            (classify_isd isd)
            (classify_app isd)
            (classify_elf isd)
            es1
            es2
            es3)
          report.effective.truncated
    pub elfs :
        IsListing max_elfs report.inventory.elfs
          (all_entries max_elfs
            (λ inv. inv.elfs)
            elf_of
            elf-Files
            (classify_isd isd)
            (classify_app isd)
            (classify_elf isd)
            es1
            es2
            es3)
          report.effective.truncated
    pub counted :
        (report.effective.security_domain_count ≡ length report.inventory.security_domains)
        × (report.effective.application_count ≡ length report.inventory.applets)
        × (report.effective.elf_count ≡ length report.inventory.elfs)

  abbrev nothing : CardInventory
  nothing = record { security_domains = []; applets = []; elfs = [] }

  listed_lem :
      (isd_aid : List ℕ) (report : GetCardInventoryReport) (isd : Aid)
      (out1 out2 out3 : CardInventory × Bool) (x x1 x2 x3 x' : ScpSession × W)
      → new isd_aid ≡ ok isd
      → collect_scope t b03 b02 p1_isd_scope (classify_isd isd) nothing x ≡ (ok out1, x1)
      → collect_scope t b03 b02 p1_app_sd_scope (classify_app isd) (out1.0) x1 ≡ (ok out2, x2)
      → collect_scope t b03 b02 p1_elf_module_scope (classify_elf isd) (out2.0) x2 ≡ (ok out3, x3)
      → Path
          (Result ScllError GetCardInventoryReport × (ScpSession × W))
          (ok (inventory_report isd (out3.0) ((out1.1 || out2.1) || out3.1)), x3)
          (ok report, x')
      → (isd : Aid) × (x1 : ScpSession × W) × (x2 : ScpSession × W) × (new isd_aid ≡ ok isd)
        × (s1 : Scope p1_isd_scope x x1) × (s2 : Scope p1_app_sd_scope x1 x2) × (s3 : Scope
            p1_elf_module_scope x2 x')
        × Listed isd s1.entries s2.entries s3.entries report
  listed_lem isd_aid report isd out1 out2 out3 x x1 x2 x3 x' named ran1 ran2 ran3 done =
      let world : x3 ≡ x' = ap (λ o. o.1) done in
      let same : inventory_report isd (out3.0) ((out1.1 || out2.1) || out3.1) ≡ report =
        cc (ap (λ o. o.0) done) in
      let (s1, stored1) = collected p1_isd_scope (classify_isd isd) nothing out1 x x1 ran1 in
      let (s2, stored2) = collected p1_app_sd_scope (classify_app isd) (out1.0) out2 x1 x2 ran2 in
      let (s3, stored3) =
        collected p1_elf_module_scope (classify_elf isd) (out2.0) out3 x2 x'
          (ran3 ∙ ap (λ y. (ok out3, y)) world) in
      (
        isd,
        x1,
        x2,
        named,
        s1,
        s2,
        s3,
        rw (sym same) (record {
          domains =
              three_scopes max_sds (λ inv. inv.security_domains) domain_of domain-Files
                (classify_isd isd) (classify_app isd) (classify_elf isd) s1.entries s2.entries
                s3.entries nothing s1.truncated s2.truncated s3.truncated out1 out2 out3 refl
                stored1 stored2 stored3;
          applets =
              three_scopes max_applets (λ inv. inv.applets) applet_of applet-Files
                (classify_isd isd) (classify_app isd) (classify_elf isd) s1.entries s2.entries
                s3.entries nothing s1.truncated s2.truncated s3.truncated out1 out2 out3 refl
                stored1 stored2 stored3;
          elfs =
              three_scopes max_elfs (λ inv. inv.elfs) elf_of elf-Files (classify_isd isd)
                (classify_app isd) (classify_elf isd) s1.entries s2.entries s3.entries nothing
                s1.truncated s2.truncated s3.truncated out1 out2 out3 refl stored1 stored2 stored3;
          counted = (refl, refl, refl);
        }),
      )

  -- If `get_card_inventory` returns a report, then its lists hold, in order, the Security Domains, the
  -- Applications and the Executable Load Files among the entries of the three scopes, up to 8, 48 and
  -- 32 of them; if the report is not marked as truncated, they hold all of them; and the three
  -- numbers are the lengths of the lists.
  pub get_card_inventory-IsListing :
      (isd_aid : List ℕ) (report : GetCardInventoryReport) (x x' : ScpSession × W)
      → get_card_inventory t b03 b02 isd_aid x ≡ (ok report, x')
      → (isd : Aid) × (x1 : ScpSession × W) × (x2 : ScpSession × W) × (new isd_aid ≡ ok isd)
        × (s1 : Scope p1_isd_scope x x1) × (s2 : Scope p1_app_sd_scope x1 x2) × (s3 : Scope
            p1_elf_module_scope x2 x')
        × Listed isd s1.entries s2.entries s3.entries report
  unfolding get_card_inventory
  get_card_inventory-IsListing isd_aid report x x' h0 =
      let (isd, named, h1) = went_on_lift _ _ _ _ _ h0 in
      let (out1, x1, ran1, h2) = went_on _ _ _ _ h1 in
      let (out2, x2, ran2, h3) = went_on _ _ _ _ h2 in
      let (out3, x3, ran3, h4) = went_on _ _ _ _ h3 in
      listed_lem isd_aid report isd out1 out2 out3 x x1 x2 x3 x' named ran1 ran2 ran3 h4
