-- ===== src/MfcClient/Editing.antt =====
-- The input fields of the main window (MFCClient/MainFrame.cpp).
use cloud_alert_system.Common.{
  zero, suc, Bool, true, false, ◌||◌, not, Option, none, some, List, [], ◌∷◌, ◌++◌, if◌then◌else◌,
  ℤ, pos, negsuc, eq_ℤ,
}
use cloud_alert_system.Text.{Bytes, codes, same_text, starts_with}
use cloud_alert_system.Protocol.{alert_type_price, alert_type_time}
use cloud_alert_system.MfcClient.{Row}
use cloud_alert_system.MfcClient.Window.{Editor, Window, update_button_state}

-- UpdateEditorMode, on the texts and buttons
unfoldable pub update_editor_mode : Window → Window
unfolding update_button_state
update_editor_mode w =
    let title =
      if w.edit_mode
      then codes "Edit Alert (ID: " ++ w.editor.id ++ codes ")"
      else codes "New Alert" in
    update_button_state (record w { editor = record w.editor { title = title } })

unfoldable pub enter_add_mode : Window → Window
unfolding update_editor_mode
enter_add_mode w = update_editor_mode (record w {
  edit_mode = false;
  edit_alert_type = alert_type_price;
  editor = record w.editor {
    id = [];
    type_sel = pos 0;
    contract = codes "rb2609";
    price = [];
    cond_sel = pos 0;
    time = codes "09:30:00";
  };
})

-- cond.Find("<=") >= 0
unfoldable pub has_le : Bytes → Bool
has_le [] = false
has_le (c ∷ s) = starts_with (codes "<=") (c ∷ s) || has_le s

abbrev edit_fields : Row → Editor → Editor
edit_fields row e =
    if same_text row.alert_type (codes "Time")
    then record e {
      id = row.id;
      type_sel = pos 1;
      contract = row.contract;
      price = [];
      cond_sel = pos 0;
      time = row.time;
    }
    else record e {
      id = row.id;
      type_sel = pos 0;
      contract = row.contract;
      price = row.price;
      cond_sel = if has_le row.condition then pos 1 else pos 0;
      time = [];
    }

abbrev pub edit_row : Option Row → Window → Window
edit_row none w = w
edit_row (some row) w = update_editor_mode (record w {
  edit_mode = true;
  edit_alert_type =
      if same_text row.alert_type (codes "Time") then alert_type_time else alert_type_price;
  editor = edit_fields row w.editor;
})

-- m_list.GetItemText(item, ...), or `none` out of range
abbrev pub item_at : List Row → ℤ → Option Row
item_at rows (negsuc n) = none
item_at [] (pos n) = none
item_at (row ∷ rows) (pos zero) = some row
item_at (row ∷ rows) (pos (suc n)) = item_at rows (pos n)

unfoldable pub enter_edit_mode : ℤ → Window → Window
unfolding update_editor_mode has_le
enter_edit_mode item w = edit_row (item_at w.list item) w

-- GetSelectedAlertType() == ALERT_TYPE_PRICE
abbrev pub price_selected : Window → Bool
price_selected w = not (eq_ℤ w.editor.type_sel (pos 1))
