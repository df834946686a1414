-- ===== src/Sdk/Storage/Namespaces.antt =====
-- Storages whose namespaces have no slash are apart.
use ai_api_proxy.Common.{
  List, [], ◌∷◌, ◌++◌, false, ◌&&◌, ◌==◌, if◌then◌else◌, ◌≡◌, refl, ap, ◌∙◌, arith, Bool-cases, inl,
  inr,
}
use ai_api_proxy.Common.Strings.{JsString, same_string}
use ai_api_proxy.Json.{Json, Members, string, null}
use ai_api_proxy.Sdk.Objects.Merged.{find-put, find-remove}
use ai_api_proxy.Sdk.Storage.{full, or_null, storage_get, storage_set, storage_delete}

-- A text without a slash.
abbrev pub IsSlashless : JsString → Type 0
IsSlashless [] = Unit
IsSlashless (c ∷ s) = ((c == 0x2f) ≡ false) × IsSlashless s

same_string-slash :
    (ns ns' k k' : JsString)
    → IsSlashless ns
    → IsSlashless ns'
    → same_string (ns ++ 0x2f ∷ k) (ns' ++ 0x2f ∷ k') ≡ (same_string ns ns' && same_string k k')
unfolding same_string
same_string-slash [] [] k k' h h' = refl
same_string-slash [] (c ∷ ns') k k' h (other, h') = ground arith
same_string-slash (c ∷ ns) [] k k' (other, h) h' = ground arith
same_string-slash (c ∷ ns) (d ∷ ns') k k' (_, h) (_, h') =
    ground (arith, same_string-slash ns ns' k k' h h')

same_string-full :
    (ns ns' k k' : JsString)
    → IsSlashless ns
    → IsSlashless ns'
    → same_string (full ns k) (full ns' k') ≡ (same_string ns ns' && same_string k k')
unfolding full same_string
same_string-full ns ns' k k' h h' = same_string-slash ns ns' k k' h h'

-- What a test does with the storage of a namespace.
pub data StorageCall : Type 0 where
  set_call : JsString → JsString → JsString → StorageCall
  delete_call : JsString → JsString → StorageCall

-- The namespace of a call has no slash.
abbrev pub IsApart : StorageCall → Type 0
IsApart (set_call ns k v) = IsSlashless ns
IsApart (delete_call ns k) = IsSlashless ns

abbrev pub AreApart : List StorageCall → Type 0
AreApart [] = Unit
AreApart (c ∷ cs) = IsApart c × AreApart cs

module _ {N : Type 0} where
  unfoldable pub after : List StorageCall → Members N → Members N
  unfolding storage_set storage_delete
  after [] storage_data = storage_data
  after (set_call ns k v ∷ cs) storage_data = after cs (storage_set ns k v storage_data)
  after (delete_call ns k ∷ cs) storage_data = after cs (storage_delete ns k storage_data)

  -- The value that a cell of its own, for one key of one namespace, has after the calls.
  unfoldable pub cell : JsString → JsString → List StorageCall → Json N → Json N
  cell ns k [] held = held
  cell ns k (set_call ns' k' v ∷ cs) held =
      cell ns k cs (if same_string ns' ns && same_string k' k then string v else held)
  cell ns k (delete_call ns' k' ∷ cs) held =
      cell ns k cs (if same_string ns' ns && same_string k' k then null else held)

  storage_get-set :
      (ns ns' k k' v : JsString) (storage_data : Members N)
      → IsSlashless ns
      → IsSlashless ns'
      → storage_get ns k (storage_set ns' k' v storage_data) ≡ (
          if same_string ns' ns && same_string k' k
          then string v
          else storage_get ns k storage_data)
  unfolding storage_get or_null storage_set
  storage_get-set ns ns' k k' v storage_data h h' =
      ap or_null (find-put storage_data (full ns' k') (full ns k) (string v))
      ∙ rw (same_string-full ns' ns k' k h' h)
          (elim (Bool-cases (same_string ns' ns && same_string k' k)) [
            | inl same ↦ rw same refl
            | inr other ↦ rw other refl
          ])

  storage_get-delete :
      (ns ns' k k' : JsString) (storage_data : Members N)
      → IsSlashless ns
      → IsSlashless ns'
      → storage_get ns k (storage_delete ns' k' storage_data)
        ≡ (if same_string ns' ns && same_string k' k then null else storage_get ns k storage_data)
  unfolding storage_get or_null storage_delete
  storage_get-delete ns ns' k k' storage_data h h' =
      ap or_null (find-remove storage_data (full ns' k') (full ns k))
      ∙ rw (same_string-full ns' ns k' k h' h)
          (elim (Bool-cases (same_string ns' ns && same_string k' k)) [
            | inl same ↦ rw same refl
            | inr other ↦ rw other refl
          ])

  -- After any `set` and `delete` in namespaces without a slash, `get` returns what the calls on this
  -- key of this namespace leave in a cell of its own: the storages, although kept in one object, do
  -- not disturb one another.
  pub storage_get-after :
      (ns k : JsString) (cs : List StorageCall) (storage_data : Members N)
      → IsSlashless ns
      → AreApart cs
      → storage_get ns k (after cs storage_data) ≡ cell ns k cs (storage_get ns k storage_data)
  unfolding after cell
  storage_get-after ns k [] storage_data h apart = refl
  storage_get-after ns k (set_call ns' k' v ∷ cs) storage_data h (here, apart) =
      storage_get-after ns k cs (storage_set ns' k' v storage_data) h apart
      ∙ ap (cell ns k cs) (storage_get-set ns ns' k k' v storage_data h here)
  storage_get-after ns k (delete_call ns' k' ∷ cs) storage_data h (here, apart) =
      storage_get-after ns k cs (storage_delete ns' k' storage_data) h apart
      ∙ ap (cell ns k cs) (storage_get-delete ns ns' k k' storage_data h here)
