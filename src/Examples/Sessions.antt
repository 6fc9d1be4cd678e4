-- ===== src/Examples/Sessions.antt =====
-- The theorems on sessions and clients, at concrete lines.
use cloud_alert_system.AlertEngine.{refresh_price_alert_cache}
use cloud_alert_system.Common.{
  ℕ, zero, suc, ◌≡◌, ◌≢◌, refl, ◌⊎◌, true, none, some, List, [], ◌∷◌, ◌++◌, map, Memᴰ, arith,
  length, select, to_int, count_if, All, pos, negsuc, Grows,
}
use cloud_alert_system.Db.Queries.{
  query_alerts, scan_alerts, row_to_record, order_by_id, insert_by_id,
}
use cloud_alert_system.Db.Alerts.{update_alerts, delete_alert}
use cloud_alert_system.Text.{Bytes, codes, same_text, c_str, is_space, format_into}
use cloud_alert_system.Examples.{
  rb2610, prices, waiting, fired, dropped, tables, world, system, session, guest,
}
use cloud_alert_system.ClientSession.Lines.{
  ok, alert, end_of_list, response_text, alert_line, formatted, unknown_command, not_logged_in,
}
use cloud_alert_system.ClientSession.{
  Turn, refuse, handle_delete, handle_query, alert_lines, handle, dispatch,
}
use cloud_alert_system.ClientSession.Commands.{first_word, command_of}
use cloud_alert_system.Text.Split.{scan, split_line, join, IsToken}
use cloud_alert_system.Text.Number.{
  is_digit, digits_value, skip_space, atoi, decimal, print_int, atoi-print_int,
}
use cloud_alert_system.ClientSession.Handlers.{OneCall}
use cloud_alert_system.ClientSession.Effects.{dispatch-OneCall}
use cloud_alert_system.ClientSession.Guard.{Others, guest_refused, dispatch-Others}
use cloud_alert_system.ClientSession.Identity.{LogsIn, dispatch-Identity}
use cloud_alert_system.ClientSession.Answers.{ends, closed}
use cloud_alert_system.ClientSession.Replies.{dispatch-closed}
use cloud_alert_system.ClientSession.Crash.{dispatch-Returns, long_contract_ends_process}
use cloud_alert_system.ClientSession.Receive.{recv_line, recv_lines}
use cloud_alert_system.ClientSession.Wire.{IsClean, wire, recv_lines-wire, oversized_tail}
use cloud_alert_system.MfcClient.{read_answer, validate_time_text}
use cloud_alert_system.MfcClient.Answer.{expects_end, read_answer-dispatch}
use cloud_alert_system.Client.{response_shown, do_cmd}
use cloud_alert_system.Client.Answer.{do_cmd-closed}
use cloud_alert_system.MfcClient.{validate_alert_id, validate_contract}
use cloud_alert_system.MfcClient.Commands.{modify_time_line, modify_time_line-tokens}

abbrev delete_line : Bytes
delete_line = codes "DELETE 1"

-- what Alice's DELETE leaves behind
abbrev deleted_turn : Turn ℕ
deleted_turn = record {
  session = session;
  system = refresh_price_alert_cache world (record system {
    db = record tables { alerts = record waiting { status = pos 2 } ∷ fired ∷ dropped ∷ [] };
  });
  lines = ok ∷ [];
}

dispatch_deleted : dispatch prices world delete_line session system ≡ some deleted_turn
unfolding dispatch first_word command_of same_text handle handle_delete split_line scan is_space
    atoi skip_space digits_value is_digit c_str delete_alert update_alerts count_if
    refresh_price_alert_cache
dispatch_deleted = refl

dispatch-OneCall_example : OneCall prices world (pos 1) system.db deleted_turn.system.db
dispatch-OneCall_example =
    dispatch-OneCall prices world delete_line session system deleted_turn dispatch_deleted

dispatch-Others_example :
    Grows (Others prices world (pos 1)) system.db.alerts deleted_turn.system.db.alerts
dispatch-Others_example =
    dispatch-Others prices world delete_line session system deleted_turn dispatch_deleted

dispatch-Identity_example :
    (deleted_turn.session ≡ session)
    ⊎ LogsIn prices world (split_line delete_line) system session deleted_turn.session
dispatch-Identity_example =
    dispatch-Identity prices world delete_line session system deleted_turn dispatch_deleted

dispatch-closed_example : closed deleted_turn.lines ≡ true
dispatch-closed_example =
    dispatch-closed prices world delete_line session system deleted_turn dispatch_deleted

guest_refused_example :
    (dispatch prices world delete_line guest system
      ≡ refuse prices world guest system not_logged_in)
    ⊎ (dispatch prices world delete_line guest system
        ≡ refuse prices world guest system unknown_command)
guest_refused_example =
    guest_refused prices world delete_line guest system refl
      (λ e. unfold command_of first_word same_text in cc)
      (λ e. unfold command_of first_word same_text in cc)

dispatch-Returns_example :
    (t : Turn ℕ) × (dispatch prices world delete_line session system ≡ some t)
dispatch-Returns_example =
    dispatch-Returns prices world delete_line session system
      (λ e. unfold command_of first_word same_text in cc)
      (λ e. unfold command_of first_word same_text in cc)

unfoldable repeat_byte : ℕ → ℕ → Bytes
repeat_byte zero c = []
repeat_byte (suc n) c = c ∷ repeat_byte n c

repeat_byte-IsClean : (n c : ℕ) → c ≢ 13 → c ≢ 10 → IsClean (repeat_byte n c)
unfolding repeat_byte
repeat_byte-IsClean zero c h k = tt
repeat_byte-IsClean (suc n) c h k = ((h, k), repeat_byte-IsClean n c h k)

length-repeat_byte : (n c : ℕ) → length (repeat_byte n c) ≡ n
unfolding repeat_byte
length-repeat_byte zero c = refl
length-repeat_byte (suc n) c = omega (arith, length-repeat_byte n c)

abbrev long_contract : Bytes
long_contract = repeat_byte 250 97

long_contract_ends_process_example :
    dispatch prices world (join (codes "GET_PRICES" ∷ long_contract ∷ [])) session system ≡ none
long_contract_ends_process_example =
    long_contract_ends_process prices world (join (codes "GET_PRICES" ∷ long_contract ∷ []))
      (codes "GET_PRICES") long_contract (long_contract ∷ []) session system refl
      (unfold command_of first_word same_text join repeat_byte in refl)
      (unfold split_line scan is_space join repeat_byte in refl) (Memᴰ.head refl)
      (unfold c_str repeat_byte in omega arith)

recv_lines-wire_example :
    recv_lines 20 (wire (delete_line ∷ codes "QUERY a -1" ∷ []))
    ≡ delete_line ∷ codes "QUERY a -1" ∷ []
recv_lines-wire_example =
    recv_lines-wire (delete_line ∷ codes "QUERY a -1" ∷ []) 20 (ground arith)
      (unfold wire in omega arith)

oversized_tail_example :
    recv_line [] (repeat_byte 4097 97 ++ (delete_line ++ 10 ∷ [])) ≡ some (delete_line, [])
oversized_tail_example =
    oversized_tail (repeat_byte 4097 97) delete_line []
      (repeat_byte-IsClean 4097 97 (omega arith) (omega arith)) (length-repeat_byte 4097 97)
      (ground arith) (omega arith)

abbrev query_line : Bytes
query_line = codes "QUERY alice -1"

abbrev queried_turn : Turn ℕ
queried_turn = record {
  session = session;
  system = system;
  lines = alert waiting ∷ alert dropped ∷ end_of_list ∷ [];
}

dispatch_queried : dispatch prices world query_line session system ≡ some queried_turn
unfolding dispatch first_word command_of same_text handle handle_query split_line scan is_space atoi
    skip_space digits_value is_digit c_str alert_lines query_alerts scan_alerts select row_to_record
    order_by_id insert_by_id formatted format_into response_text alert_line join print_int to_int
    decimal
dispatch_queried = refl

read_answer-dispatch_example :
    read_answer
      (expects_end prices (command_of (first_word query_line)))
      (map (response_text prices) queried_turn.lines ++ codes "OK" ∷ [])
    ≡ (true, map (response_text prices) queried_turn.lines)
read_answer-dispatch_example =
    read_answer-dispatch prices world query_line session system queried_turn (codes "OK" ∷ [])
      dispatch_queried

abbrev two_tokens : List Bytes
two_tokens = codes "DELETE" ∷ codes "17" ∷ []

two_tokens-IsToken : All IsToken two_tokens
two_tokens-IsToken = (
  record {
    ne_nil = λ e. cc;
    solid = unfold is_space in (refl, (refl, (refl, (refl, (refl, (refl, tt))))));
  },
  (record { ne_nil = λ e. cc; solid = unfold is_space in (refl, (refl, tt)) }, tt),
)

atoi-print_int_example : atoi (print_int (negsuc 41)) ≡ negsuc 41
atoi-print_int_example = atoi-print_int (negsuc 41) (omega arith)

do_cmd-closed_example :
    do_cmd (map (response_text prices) (alert waiting ∷ end_of_list ∷ []) ++ codes "OK" ∷ [])
    ≡ map (λ r. response_shown (response_text prices r)) (alert waiting ∷ end_of_list ∷ [])
do_cmd-closed_example =
    do_cmd-closed prices (alert waiting ∷ end_of_list ∷ []) (codes "OK" ∷ [])
      (unfold closed ends in refl)

modify_time_line-tokens_example :
    split_line (modify_time_line (codes "12") rb2610 (codes "09:30:00"))
    ≡ codes "MODIFY_TIME" ∷ codes "12" ∷ rb2610 ∷ codes "09:30:00" ∷ []
modify_time_line-tokens_example =
    modify_time_line-tokens (codes "12") rb2610 (codes "09:30:00")
      (unfold validate_alert_id is_digit in refl) (unfold validate_contract is_digit in refl)
      (unfold validate_time_text is_digit atoi skip_space digits_value is_space in refl)
