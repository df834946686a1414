-- ===== src/Sdk/Parts/Keys.antt =====
-- The key that parts see.
use ai_api_proxy.Common.{
  Bool, Outcome-cases, Option, Outcome, ok, throws, ◌≡◌, refl, ◌∙◌, ◌⊎◌, inl, inr,
}
use ai_api_proxy.Common.Strings.{JsString}
use ai_api_proxy.Json.{Json}
use ai_api_proxy.Sdk.Parts.{
  TestHost, Opts, Exported, factory, plain, key, with_key, or_empty, hooks_of, load_part, source_of,
  load_package,
}

-- A part has no access to the variable of the key: neither what it exports nor its own code sets it.
abbrev pub ExportKeeps : {N H E : Type 0} → Outcome E (Exported N H E) → Type 0
ExportKeeps {N} (ok (factory make)) =
    (c : Json N) (host : TestHost N) → key (make c host).0 ≡ key host
ExportKeeps (ok (plain hooks)) = Unit
ExportKeeps (throws e) = Unit

key-hooks_of :
    {N H E : Type 0} (config : Json N) (host : TestHost N) (made : Outcome E (Exported N H E))
    → ExportKeeps made
    → key (hooks_of config (host, made)).0 ≡ key host
unfolding hooks_of
key-hooks_of config host (throws e) h = refl
key-hooks_of config host (ok (factory make)) h = h config host
key-hooks_of config host (ok (plain hooks)) h = refl

module _ {N H E : Type 0} (is_zero : N → Bool)
    (evaluate : JsString → TestHost N → TestHost N × Outcome E (Exported N H E)) where
  abbrev pub KeepsKey : Type 0
  KeepsKey =
      (src : JsString) (host : TestHost N)
      → (key (evaluate src host).0 ≡ key host) × ExportKeeps (evaluate src host).1

  key-load_part :
      (src : JsString) (config keys : Option (Json N)) (host : TestHost N)
      → KeepsKey
      → key (load_part is_zero evaluate src config keys host).0 ≡ keys
  unfolding load_part key with_key
  key-load_part src config keys host keeps =
      let run = evaluate src (with_key keys host) in
      let kept = keeps src (with_key keys host) in
      key-hooks_of (or_empty is_zero config) run.0 run.1 kept.1 ∙ kept.0

  module _ (read : JsString → Outcome E JsString) (join : JsString → JsString → JsString)
      (parse : JsString → Outcome E (Json N)) where
    -- If parts leave the variable of the key alone, then `loadPackage` of a package whose files
    -- cannot be read or parsed throws and leaves the host as it was, and in all other cases, those
    -- where the part throws included, `util.key()` is afterwards the key of the options.
    pub load_package-key :
        (dir : JsString) (o : Opts N) (host : TestHost N)
        → KeepsKey
        → ((e : E) × (source_of read join parse dir o ≡ throws e)
            × (load_package is_zero evaluate read join parse dir o host ≡ (host, throws e)))
          ⊎ (key (load_package is_zero evaluate read join parse dir o host).0 ≡ o.keys)
    unfolding load_package
    load_package-key dir o host keeps = elim (Outcome-cases (source_of read join parse dir o)) [
      | inl (src, found) ↦
          inr (rw (found, load_package) (key-load_part src o.config o.keys host keeps))
      | inr (e, failed) ↦ inl (e, failed, rw (failed, load_package) refl)
    ]
