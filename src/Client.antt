-- ===== src/Client.antt =====
-- The console client: DoCmd and its neighbours of Client/main.cpp, and Client/TcpClient.cpp.
pub mod Answer
pub mod Menu
pub mod Bounds
pub mod LoggedIn
use cloud_alert_system.Common.{
  zero, suc, ◌+◌, Bool, true, false, ◌||◌, Option, none, some, List, [], ◌∷◌, ◌++◌, arith, ◌==◌,
  if◌then◌else◌,
}
use cloud_alert_system.Text.{Bytes, codes, same_text, starts_with}

-- TcpClient::RecvLine: `line` is what was read so far. `none`: the connection ended before a line
-- feed. There is no limit on the length.
unfoldable pub recv_text : Bytes → Bytes → Option (Bytes × Bytes)
recv_text line [] = none
recv_text line (c ∷ input) = elim (c == 10) [
  | true ↦ some (line, input)
  | false ↦ recv_text (if c == 13 then line else line ++ c ∷ []) input
]

-- TcpClient::SendLine: what is given to send()
unfoldable pub sent_text : Bytes → Bytes
sent_text [] = 10 ∷ []
sent_text (c ∷ []) = if c == 10 then c ∷ [] else c ∷ 10 ∷ []
sent_text (c ∷ d ∷ line) = c ∷ sent_text (d ∷ line)

-- what is printed
pub data Shown : Type 0 where
  alert_shown response_shown : Bytes → Shown
  time_out : Shown

-- where DoCmd stops reading
unfoldable pub ends_text : Bytes → Bool
ends_text text =
    same_text text (codes "END")
    || (starts_with (codes "OK") text || starts_with (codes "ERR") text)

abbrev pub is_alert : Bytes → Bool
is_alert line = starts_with (codes "TRIGGERED") line

-- The loop of DoCmd, over the lines that QueueRead gives; an empty one stands for a timeout, and so
-- does the end of the list.
unfoldable pub do_cmd : List Bytes → List Shown
unfolding ends_text starts_with
do_cmd [] = time_out ∷ []
do_cmd ([] ∷ lines) = time_out ∷ []
do_cmd ((c ∷ line) ∷ lines) =
    let rest = do_cmd lines in
    if is_alert (c ∷ line)
    then alert_shown (c ∷ line) ∷ rest
    else if ends_text (c ∷ line)
    then response_shown (c ∷ line) ∷ []
    else response_shown (c ∷ line) ∷ rest

-- The loop of DoCmdOneLine: the first line that is no alert, or the empty text.
unfoldable pub do_cmd_one_line : List Bytes → Bytes
unfolding starts_with
do_cmd_one_line [] = []
do_cmd_one_line ([] ∷ lines) = []
do_cmd_one_line ((c ∷ line) ∷ lines) =
    let rest = do_cmd_one_line lines in if is_alert (c ∷ line) then rest else c ∷ line

-- DrainAlerts: what it prints; the queue is empty afterwards
unfoldable pub drain_alerts : List Bytes → List Shown
unfolding starts_with
drain_alerts [] = []
drain_alerts (line ∷ lines) =
    let rest = drain_alerts lines in if is_alert line then alert_shown line ∷ rest else rest
