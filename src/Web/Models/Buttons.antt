-- ===== src/Web/Models/Buttons.antt =====
-- The buttons in the tables of ModelsPage.vue.
use ai_api_proxy.Common.{All, ◌≡◌, refl}
use ai_api_proxy.Web.Cells.{row_handlers, handlers_of, listeners}
use ai_api_proxy.Web.Models.Columns.{member_columns, columns, group_buttons}
use ai_api_proxy.Web.Models.Locks.{
  Click, handler_of, edit, test, delete, chat_opens, check_opens, members_opens, member_toggles,
  member_deletes, discover_opens,
}
use ai_api_proxy.Web.Models.State.{State}
use ai_api_proxy.Web.Process.{Handler}
use ai_api_proxy.Web.Types
use ai_api_proxy.Web.Values.{Engine}

module _ (engine : Engine) where
  -- A handler is that of a click of the page.
  abbrev pub IsClick : Handler State → Type 0
  IsClick h = (c : Click) × (h ≡ handler_of engine c)

  -- Every button in a row of the channels, and of the models of a channel, calls one of the
  -- handlers of the page.
  columns-IsClick :
      (row : Types.ModelGroup) (member : Types.GroupMember)
      → All IsClick (row_handlers (columns engine) row)
        × All IsClick (row_handlers member_columns member)
  unfolding row_handlers handlers_of listeners columns member_columns group_buttons handler_of
  columns-IsClick row member = (
    (
      (members_opens row, refl),
      (
        (discover_opens row, refl),
        (
          (edit row, refl),
          (
            (test row, refl),
            ((chat_opens row, refl), ((check_opens row, refl), ((delete row, refl), tt))),
          ),
        ),
      ),
    ),
    ((member_toggles member, refl), ((member_deletes member, refl), tt)),
  )
