-- ===== src/ClientSession/Receive.antt =====
-- RecvLine of Server/ClientSession.cpp and the lines that a session reads from its socket.
use cloud_alert_system.Common.{
  ℕ, zero, suc, true, false, Option, none, some, List, [], ◌∷◌, ◌++◌, ltb, ◌==◌, if◌then◌else◌,
  length,
}
use cloud_alert_system.Text.{Bytes}
use cloud_alert_system.Protocol.{recv_buf_size}

-- RecvLine: `line` is what was read so far. `none`: the connection ended before a line feed.
unfoldable pub recv_line : Bytes → Bytes → Option (Bytes × Bytes)
recv_line line [] = none
recv_line line (c ∷ input) = elim (c == 13) [
  | true ↦ recv_line line input
  | false ↦ elim (c == 10) [
    | true ↦ some (line, input)
    | false ↦
        recv_line (if ltb recv_buf_size (length (line ++ c ∷ [])) then [] else line ++ c ∷ []) input
  ]
]

-- The lines of a whole input. Each takes at least one byte, so that the length of the input is
-- enough fuel.
unfoldable pub recv_lines : ℕ → Bytes → List Bytes
unfolding recv_line
recv_lines zero input = []
recv_lines (suc fuel) input = elim (recv_line [] input) [
  | none ↦ []
  | some (line, rest) ↦ line ∷ recv_lines fuel rest
]
