-- ===== src/ClientSession/Commands.antt =====
-- The commands that Dispatch of Server/ClientSession.cpp tells apart.
use cloud_alert_system.Common.{[], ◌∷◌, ◌==◌, if◌then◌else◌}
use cloud_alert_system.Text.{Bytes, codes, same_text}

-- the commands of Server/Protocol.h; GET_PRICE and GET_PRICES have one handler
pub data Command : Type 0 where
  register login add_price add_time delete modify_price modify_time query : Command
  set_email get_email get_prices unknown : Command

-- line.substr(0, line.find(' '))
unfoldable pub first_word : Bytes → Bytes
first_word [] = []
first_word (c ∷ s) = if c == 32 then [] else c ∷ first_word s

-- the ladder of Dispatch
unfoldable pub command_of : Bytes → Command
command_of cmd =
    if same_text cmd (codes "REGISTER")
    then register
    else if same_text cmd (codes "LOGIN")
    then login
    else if same_text cmd (codes "ADD_PRICE")
    then add_price
    else if same_text cmd (codes "ADD_TIME")
    then add_time
    else if same_text cmd (codes "DELETE")
    then delete
    else if same_text cmd (codes "MODIFY_PRICE")
    then modify_price
    else if same_text cmd (codes "MODIFY_TIME")
    then modify_time
    else if same_text cmd (codes "QUERY")
    then query
    else if same_text cmd (codes "SET_EMAIL")
    then set_email
    else if same_text cmd (codes "GET_EMAIL")
    then get_email
    else if same_text cmd (codes "GET_PRICE")
    then get_prices
    else if same_text cmd (codes "GET_PRICES")
    then get_prices
    else unknown
