-- ===== src/Web/Cells.antt =====
-- What the columns of the tables show: the elements that `h` makes, on the state `S` of a page.
use ai_api_proxy.Common.{ℕ, List, [], ◌∷◌, ◌++◌, Bool, true, false, Option, none, some}
use ai_api_proxy.Common.Strings.{JsString, js}
use ai_api_proxy.Web.Process.{Handler}

-- A property of an element; a component is given by its name.
pub data Attribute (S : Type 0) : Type 0 where
  text : JsString → JsString → Attribute S
  flag : JsString → Bool → Attribute S
  component : JsString → Attribute S
  listener : JsString → Handler S → Attribute S

mutual
  pub data Node (S : Type 0) : Type 0 where
    characters : JsString → Node S
    element : JsString → List (Attribute S) → Slots S → Node S

  pub data Nodes (S : Type 0) : Type 0 where
    nothing : Nodes S
    node : Node S → Nodes S → Nodes S

  -- The children by the name of their slot.
  pub data Slots (S : Type 0) : Type 0 where
    no_slots : Slots S
    slot : JsString → Nodes S → Slots S → Slots S

-- A column; one without `render` shows the value of its key.
pub record Column (S : Type 0) (Row : Type 0) : Type 0 where
  pub title : JsString
  pub key : JsString
  pub width : Option ℕ
  pub has_tooltip : Bool
  pub sorter : Option JsString
  pub render : Option (Row → Nodes S)

module _ {S Row : Type 0} where
  abbrev pub plain : JsString → JsString → Option ℕ → Column S Row
  plain title key width = record {
    title = title;
    key = key;
    width = width;
    has_tooltip = false;
    sorter = none;
    render = none;
  }

  abbrev pub with_tooltip : Column S Row → Column S Row
  with_tooltip c = record c { has_tooltip = true }

  abbrev pub with_sorter : JsString → Column S Row → Column S Row
  with_sorter name c = record c { sorter = some name }

  abbrev pub rendered : JsString → JsString → Option ℕ → (Row → Nodes S) → Column S Row
  rendered title key width render = record (plain title key width) { render = some render }

module _ {S : Type 0} where
  abbrev pub one : Node S → Nodes S
  one n = node n nothing

  abbrev pub shown : JsString → Nodes S
  shown s = one (characters s)

  -- `{ default: () => s }` and `{ icon: () => h(NIcon, { component: name }) }`
  abbrev pub default_text : JsString → Slots S
  default_text s = slot (js "default") (shown s) no_slots

  abbrev pub icon_slot : JsString → Slots S → Slots S
  icon_slot name = slot (js "icon") (one (element (js "NIcon") (component name ∷ []) no_slots))

  abbrev pub tag : JsString → JsString → JsString → Node S
  tag size type s =
      element (js "NTag") (text (js "size") size ∷ text (js "type") type ∷ []) (default_text s)

  -- `onClick: () => …`
  abbrev pub on_click : Handler S → Attribute S
  on_click h = listener (js "onClick") h

  abbrev pub small : Attribute S
  small = text (js "size") (js "small")

  abbrev pub apart : Attribute S
  apart = text (js "style") (js "margin-left:6px")

  -- The handlers that an element calls.
  unfoldable pub listeners : List (Attribute S) → List (Handler S)
  listeners [] = []
  listeners (listener name h ∷ attributes) = h ∷ listeners attributes
  listeners (_ ∷ attributes) = listeners attributes

unfoldable mutual
  unfolding listeners

  pub handlers_of_node : {S : Type 0} → Node S → List (Handler S)
  handlers_of_node (characters s) = []
  handlers_of_node (element name attributes slots) = listeners attributes ++ handlers_of_slots slots

  pub handlers_of : {S : Type 0} → Nodes S → List (Handler S)
  handlers_of nothing = []
  handlers_of (node n ns) = handlers_of_node n ++ handlers_of ns

  pub handlers_of_slots : {S : Type 0} → Slots S → List (Handler S)
  handlers_of_slots no_slots = []
  handlers_of_slots (slot name ns slots) = handlers_of ns ++ handlers_of_slots slots

-- The handlers of the cells of a row.
unfoldable pub row_handlers : {S Row : Type 0} → List (Column S Row) → Row → List (Handler S)
unfolding handlers_of
row_handlers [] row = []
row_handlers (c ∷ cs) row =
    elim c.render [ none ↦ [] | some render ↦ handlers_of (render row) ] ++ row_handlers cs row
