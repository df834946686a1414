-- ===== src/Web/Keys/Markup.antt =====
-- The template of KeysPanel.vue: what it shows of the keys, and the events of its controls.
use ai_api_proxy.Common.{
  ℕ, suc, ◌+◌, ◌≤◌, ◌<◌, List, [], ◌∷◌, Bool, false, ◌==◌, ltb, length, if◌then◌else◌, none, some,
  ◌≡◌, refl, arith,
}
use ai_api_proxy.Common.Strings.{JsString, js}
use ai_api_proxy.Web.Keys.{
  State, keys_of, rotation_of, data_summary, open_add, open_mgmt, open_edit, save_edit, submit_add,
  confirm_remove,
}
use ai_api_proxy.Web.Process.{Handler, update}
use ai_api_proxy.Web.Types
use ai_api_proxy.Web.Values.{Engine, decimal}

-- `rotation < keys.length ? rotation : '复位'`
unfoldable pub rotation_label : State → JsString
unfolding rotation_of keys_of decimal
rotation_label s =
    if ltb (rotation_of s) (length (keys_of s)) then decimal (rotation_of s) else js "复位"

-- A row of the table; `marked` is the tag `▸`.
pub record RowView : Type 0 where
  marked : Bool
  id : JsString
  summary : JsString
  time : JsString

-- The rows from an index on, when the rotation is at `rotation`.
unfoldable pub rows_from : Engine → ℕ → ℕ → List Types.KeyRow → List RowView
unfolding data_summary
rows_from engine rotation index [] = []
rows_from engine rotation index (row ∷ rows) =
    record {
      marked = index == rotation;
      id = row.id;
      summary = data_summary engine row;
      time = engine.locale_time row.updated_at;
    }
    ∷ rows_from engine rotation (suc index) rows

unfoldable pub table_rows : Engine → State → List RowView
unfolding rows_from keys_of rotation_of
table_rows engine s = rows_from engine (rotation_of s) 0 (keys_of s)

-- The events to which the template listens.
pub data Event : Type 0 where
  opens_mgmt closes_mgmt opens_add submits_add : Event
  add_shows : Bool → Event
  types_key_name types_value types_edit : JsString → Event
  edits_row removes_row : Types.KeyRow → Event
  saves_edit closes_edit confirms_remove cancels_remove : Event

unfoldable pub on_event : Engine → JsString → Event → Handler State
unfolding open_mgmt open_add submit_add open_edit save_edit confirm_remove
on_event engine package_name opens_mgmt = open_mgmt
on_event engine package_name closes_mgmt = update (λ s. record s { mgmt_open = false })
on_event engine package_name opens_add = open_add
on_event engine package_name submits_add = submit_add engine package_name
on_event engine package_name (add_shows b) = update (λ s. record s { adding = b })
on_event engine package_name (types_key_name t) = update (λ s. record s { new_key_name = t })
on_event engine package_name (types_value t) = update (λ s. record s { new_value_json = t })
on_event engine package_name (types_edit t) = update (λ s. record s { edit_json = t })
on_event engine package_name (edits_row row) = open_edit engine package_name row
on_event engine package_name (removes_row row) = update (λ s. record s { removing = some row })
on_event engine package_name saves_edit = save_edit engine package_name
on_event engine package_name closes_edit = update (λ s. record s { editing = none })
on_event engine package_name confirms_remove = confirm_remove engine package_name
on_event engine package_name cancels_remove = update (λ s. record s { removing = none })

-- How many rows are marked.
unfoldable pub count_marked : List RowView → ℕ
count_marked [] = 0
count_marked (r ∷ rs) = let rest = count_marked rs in if r.marked then suc rest else rest

rows_from_behind :
    (engine : Engine) (rotation index : ℕ) (rows : List Types.KeyRow)
    → rotation < index
    → count_marked (rows_from engine rotation index rows) ≡ 0
unfolding rows_from count_marked
rows_from_behind engine rotation index [] h = refl
rows_from_behind engine rotation index (row ∷ rows) h =
    ground (arith, rows_from_behind engine rotation (suc index) rows)

rows_from_marked :
    (engine : Engine) (rotation index : ℕ) (rows : List Types.KeyRow)
    → index ≤ rotation
    → count_marked (rows_from engine rotation index rows)
      ≡ (if ltb rotation (index + length rows) then 1 else 0)
unfolding rows_from count_marked
rows_from_marked engine rotation index [] h = ground arith
rows_from_marked engine rotation index (row ∷ rows) h = ground (
  arith,
  rows_from_behind engine rotation (suc index) rows,
  rows_from_marked engine rotation (suc index) rows,
)

-- One row is marked if the rotation is at one of the keys, and none if it begins anew, as the line
-- above the table says.
table_rows_marked :
    (engine : Engine) (s : State)
    → (count_marked (table_rows engine s)
        ≡ (if ltb (rotation_of s) (length (keys_of s)) then 1 else 0))
      × (rotation_label s
          ≡ (if count_marked (table_rows engine s) == 1 then decimal (rotation_of s) else js "复位"))
unfolding table_rows rotation_label
table_rows_marked engine s = ground (arith, rows_from_marked engine (rotation_of s) 0 (keys_of s))
